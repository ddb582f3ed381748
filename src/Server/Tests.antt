-- ===== src/Server/Tests.antt =====
-- A server with one client, and the theorems on it.
use tcpudp.Base.{
  ℕ, zero, suc, ◌+◌, ◌≡◌, refl, arith, true, List, [], ◌∷◌, some, map, replicate, All,
}
use tcpudp.Base.Int.{ℤ, negsuc}
use tcpudp.Base.Assoc.{lookup}
use tcpudp.Uvt.{MsgBind}
use tcpudp.Server.{VirtualChannel, Peer, Server, vc_get, open_sockets, close_all}
use tcpudp.Server.Accept.{goes_on, bound, connect, accept, accept_all}
use tcpudp.Server.Stale.{stale_peer_reused}
use tcpudp.Server.Fresh.{fresh_channel, socket_of}

abbrev dead : List ℕ
dead = 4 ∷ []

abbrev channel : VirtualChannel
channel = replicate 32 (record { socket_fd = 9; connected = true })

abbrev peer : Peer
peer = record { sockets = replicate 32 9; udp_socket = some 50 }

abbrev server : Server
server = record {
  vcs = (7, channel) ∷ [];
  peers = (7, peer) ∷ [];
  socket_to_conn_id = [];
  client_conn_slots = [];
  closed = [];
}

abbrev bind : ℤ → MsgBind
bind i = record { client_id = 7; slot_index = i; connection_id = 1234 }

stale_peer_reused_example :
    (t : Server) × (accept 60 (bound (bind (negsuc 0))) (some 51) server ≡ goes_on t)
    × (vc_get 7 t ≡ some (map connect (replicate 32 9)))
    × (t.closed ≡ 60 ∷ (close_all (open_sockets channel) server).closed)
unfolding lookup
stale_peer_reused_example =
    stale_peer_reused 60 51 (bind (negsuc 0)) server channel peer 0 refl refl (omega arith) refl

abbrev no_clients : Server
no_clients = record {
  vcs = [];
  peers = [];
  socket_to_conn_id = [];
  client_conn_slots = [];
  closed = [];
}

-- The sockets from `first` on.
abbrev arrivals : ℕ → ℕ → List (ℕ × MsgBind)
arrivals first zero = []
arrivals first (suc n) = (first, bind (negsuc 0)) ∷ arrivals (first + 1) n

arrivals-own :
    (first n : ℕ) → All (λ (arrival : ℕ × MsgBind). arrival.1.client_id ≡ 7) (arrivals first n)
arrivals-own first zero = tt
arrivals-own first (suc n) = (refl, arrivals-own (first + 1) n)

fresh_channel_example :
    (t : Server) × (accept_all (arrivals 100 32) (some 50) no_clients ≡ goes_on t)
    × (vc_get 7 t ≡ some (map connect (map socket_of (arrivals 100 32))))
    × (t.closed ≡ [])
unfolding lookup
fresh_channel_example =
    fresh_channel (arrivals 100 32) 7 50 no_clients refl refl (arrivals-own 100 32) refl

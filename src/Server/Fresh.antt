-- ===== src/Server/Fresh.antt =====
-- A new client: its 32 sockets become the slots of a channel, in the order in which they arrive.
use tcpudp.Base.{
  ℕ, ◌+◌, ◌<◌, ◌≡◌, ◌∙◌, ◌⊎◌, refl, sym, ap, ap₂, arith, true, false, List, [], ◌∷◌, ◌++◌,
  append_assoc, Option, none, some, subst, inl, inr, length, length-append, map, leb, ==_refl,
  if_true, if_false, All,
}
use tcpudp.Base.Assoc.{lookup, insert, lookup-insert}
use tcpudp.VcPacket.{vc_tcp_connections}
use tcpudp.Uvt.{MsgBind}
use tcpudp.Server.{Peer, Server, vc_get, is_some, add_peer_found, add_peer, add_socket}
use tcpudp.Server.Accept.{
  goes_on, bound, connect, create_channel, join_peer, complete_peer, by_channel, accumulate, accept,
  note_id, accept_all, and_then,
}
use tcpudp.Server.Stale.{note_id-kept, created}

-- The client `c` has no channel yet, and its peer has these sockets.
pub record Gathers (c : ℕ) (sockets : List ℕ) (peer : Peer) (s : Server) : Type 0 where
  pub no_channel : vc_get c s ≡ none
  pub has_peer : lookup c s.peers ≡ some peer
  pub held : peer.sockets ≡ sockets

abbrev with_socket : ℕ → Peer → Peer
with_socket socket peer = record peer { sockets = peer.sockets ++ (socket ∷ []) }

abbrev put_peer : ℕ → Peer → Server → Server
put_peer c peer s = record s { peers = insert c peer s.peers }

put_peer-found : (c : ℕ) (peer : Peer) (s : Server) → lookup c (put_peer c peer s).peers ≡ some peer
put_peer-found c peer s = lookup-insert c c peer s.peers ∙ if_true _ _ (==_refl c)

-- The peer of a new client is made, or the one that it has is found.
joined :
    (socket : ℕ) (bind : MsgBind) (udp : Option ℕ) (s : Server) (sockets : List ℕ)
    → vc_get bind.client_id s ≡ none
    → (lookup bind.client_id s.peers ≡ none) × (sockets ≡ [])
      ⊎ ((peer : Peer) × (lookup bind.client_id s.peers ≡ some peer) × (peer.sockets ≡ sockets))
    → (t : Server) × (peer : Peer) × Gathers bind.client_id sockets peer t
      × (t.closed ≡ s.closed)
      × (accept socket (bound bind) udp s ≡ join_peer bind.client_id socket (some peer) udp t)
unfolding accept accumulate add_peer
joined socket bind udp s sockets no_vc (inl absent) =
    let c = bind.client_id in
    let n = note_id socket bind s in
    let kept = note_id-kept socket bind s in
    let peer : Peer = record { sockets = []; udp_socket = none } in
    let t = put_peer c peer n in
    let made : add_peer c n ≡ t =
      ap (λ p. add_peer_found c p (is_some (vc_get c n)) n) (ap (lookup c) kept.0 ∙ absent.0) in
    (
      t,
      peer,
      record {
        no_channel = ap (lookup c) kept.1 ∙ no_vc;
        has_peer = put_peer-found c peer n;
        held = sym absent.1;
      },
      kept.2,
      ap (λ v. by_channel socket bind udp v s) no_vc
          ∙ (ap (λ m. join_peer c socket (lookup c m.peers) udp m) made
              ∙ ap (λ p. join_peer c socket p udp t) (put_peer-found c peer n)),
    )
joined socket bind udp s sockets no_vc (inr (peer, has_peer, held)) =
    let c = bind.client_id in
    let n = note_id socket bind s in
    let kept = note_id-kept socket bind s in
    let found : lookup c n.peers ≡ some peer = ap (lookup c) kept.0 ∙ has_peer in
    let gone : vc_get c n ≡ none = ap (lookup c) kept.1 ∙ no_vc in
    let made : add_peer c n ≡ n = ap₂ (λ p v. add_peer_found c p (is_some v) n) found gone in
    (
      n,
      peer,
      record { no_channel = gone; has_peer = found; held = held },
      kept.2,
      ap (λ v. by_channel socket bind udp v s) no_vc
          ∙ (ap (λ m. join_peer c socket (lookup c m.peers) udp m) made
              ∙ ap (λ p. join_peer c socket p udp n) found),
    )

one_more :
    (socket : ℕ) (peer : Peer) → length (with_socket socket peer).sockets ≡ length peer.sockets + 1
one_more socket peer = length-append peer.sockets (socket ∷ [])

join_more :
    (c socket : ℕ) (udp : Option ℕ) (sockets : List ℕ) (peer : Peer) (t : Server)
    → Gathers c sockets peer t
    → length sockets + 1 < vc_tcp_connections
    → join_peer c socket (some peer) udp t ≡ goes_on (put_peer c (with_socket socket peer) t)
unfolding add_socket
join_more c socket udp sockets peer t g few =
    let size : length peer.sockets ≡ length sockets = ap length g.held in
    let more = one_more socket peer in
    let room : leb vc_tcp_connections (length peer.sockets) ≡ false = ground arith in
    let wanting : leb vc_tcp_connections (length (with_socket socket peer).sockets) ≡ false =
      ground arith in
    ap (λ m. complete_peer c (lookup c m.peers) udp m) (if_false _ _ room)
    ∙ (ap (λ p. complete_peer c p udp (put_peer c (with_socket socket peer) t))
          (put_peer-found c (with_socket socket peer) t)
        ∙ if_false _ _ wanting)

join_last :
    (c socket udp : ℕ) (sockets : List ℕ) (peer : Peer) (t : Server)
    → Gathers c sockets peer t
    → length sockets + 1 ≡ vc_tcp_connections
    → join_peer c socket (some peer) (some udp) t
      ≡ goes_on (created c udp (with_socket socket peer) (put_peer c (with_socket socket peer) t))
unfolding add_socket create_channel
join_last c socket udp sockets peer t g exact =
    let size : length peer.sockets ≡ length sockets = ap length g.held in
    let more = one_more socket peer in
    let room : leb vc_tcp_connections (length peer.sockets) ≡ false = ground arith in
    let full : leb vc_tcp_connections (length (with_socket socket peer).sockets) ≡ true =
      ground arith in
    ap (λ m. complete_peer c (lookup c m.peers) (some udp) m) (if_false _ _ room)
    ∙ (ap (λ p. complete_peer c p (some udp) (put_peer c (with_socket socket peer) t))
          (put_peer-found c (with_socket socket peer) t)
        ∙ if_true _ _ full)

abbrev pub socket_of : ℕ × MsgBind → ℕ
socket_of arrival = arrival.0

-- The client has no peer, or one with these sockets.
abbrev HasSockets : ℕ → List ℕ → Server → Type 0
HasSockets c sockets s =
    (lookup c s.peers ≡ none) × (sockets ≡ [])
    ⊎ ((peer : Peer) × (lookup c s.peers ≡ some peer) × (peer.sockets ≡ sockets))

-- What is left to arrive fills the channel up.
fills :
    (arrivals : List (ℕ × MsgBind)) (c udp : ℕ) (s : Server) (sockets : List ℕ)
    → vc_get c s ≡ none
    → HasSockets c sockets s
    → All (λ (arrival : ℕ × MsgBind). arrival.1.client_id ≡ c) arrivals
    → length sockets + length arrivals ≡ vc_tcp_connections
    → 0 < length arrivals
    → (t : Server) × (accept_all arrivals (some udp) s ≡ goes_on t)
      × (vc_get c t ≡ some (map connect (sockets ++ map socket_of arrivals)))
      × (t.closed ≡ s.closed)
fills [] c udp s sockets no_vc has own total pos = absurd (omega arith)
fills ((socket, bind) ∷ []) c udp s sockets no_vc has own total pos =
    let e : c ≡ bind.client_id = sym own.0 in
    let (t, peer, g, closed, step) =
      joined socket bind (some udp) s sockets (subst (λ i. vc_get i s ≡ none) e no_vc)
        (subst (λ i. HasSockets i sockets s) e has) in
    let done = step ∙ join_last bind.client_id socket udp sockets peer t g total in
    let full = put_peer bind.client_id (with_socket socket peer) t in
    let u = created bind.client_id udp (with_socket socket peer) full in
    (
      u,
      ap (λ a. and_then a (accept_all [] (some udp))) done,
      subst (λ i. vc_get i u ≡ some (map connect (sockets ++ (socket ∷ [])))) own.0
          (lookup-insert bind.client_id bind.client_id _ full.vcs
            ∙ (if_true _ _ (==_refl bind.client_id)
                ∙ ap (λ xs. some (map connect (xs ++ (socket ∷ [])))) g.held)),
      closed,
    )
fills ((socket, bind) ∷ next ∷ rest) c udp s sockets no_vc has own total pos =
    let e : c ≡ bind.client_id = sym own.0 in
    let (t, peer, g, closed, step) =
      joined socket bind (some udp) s sockets (subst (λ i. vc_get i s ≡ none) e no_vc)
        (subst (λ i. HasSockets i sockets s) e has) in
    let done = step ∙ join_more bind.client_id socket (some udp) sockets peer t g (omega arith) in
    let u = put_peer bind.client_id (with_socket socket peer) t in
    let size = length-append sockets (socket ∷ []) in
    let ih =
      fills (next ∷ rest) c udp u (sockets ++ (socket ∷ []))
        (subst (λ i. vc_get i u ≡ none) own.0 (g.no_channel))
        (subst (λ i. HasSockets i (sockets ++ (socket ∷ [])) u) own.0
          (inr (
            with_socket socket peer,
            put_peer-found bind.client_id (with_socket socket peer) t,
            ap (λ xs. xs ++ (socket ∷ [])) g.held,
          )))
        own.1 (omega arith) (omega arith) in
    (
      ih.0,
      ap (λ a. and_then a (accept_all (next ∷ rest) (some udp))) done ∙ ih.1,
      ih.2
          ∙ ap (λ xs. some (map connect xs))
              (append_assoc sockets (socket ∷ []) (map socket_of (next ∷ rest))),
      ih.3 ∙ closed,
    )

-- When the 32 sockets of a new client have arrived, the client has a channel whose slots are these
-- sockets in the order in which they arrived, no socket has been closed, and the accept loop goes on.
-- Conditions: the client had neither a channel nor a peer, every bind message names it, and a UDP
-- socket can be made; the slot indices and connection ids that are sent do not matter.
pub fresh_channel :
    (arrivals : List (ℕ × MsgBind)) (c udp : ℕ) (s : Server)
    → vc_get c s ≡ none
    → lookup c s.peers ≡ none
    → All (λ (arrival : ℕ × MsgBind). arrival.1.client_id ≡ c) arrivals
    → length arrivals ≡ vc_tcp_connections
    → (t : Server) × (accept_all arrivals (some udp) s ≡ goes_on t)
      × (vc_get c t ≡ some (map connect (map socket_of arrivals)))
      × (t.closed ≡ s.closed)
fresh_channel arrivals c udp s no_vc no_peer own total =
    fills arrivals c udp s [] no_vc (inl (no_peer, refl)) own (omega arith) (omega arith)

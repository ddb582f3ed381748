-- ===== src/Server/Accept.antt =====
-- src/server/Server.cpp: one round of the loop of AcceptConnections.
use tcpudp.Base.{
  ℕ, ◌+◌, true, List, [], ◌∷◌, Option, none, some, length, map, leb, ◌==◌, if◌then◌else◌,
}
use tcpudp.Base.Int.{ℤ, pos, negsuc}
use tcpudp.Base.Assoc.{lookup, insert, erase}
use tcpudp.VcPacket.{vc_tcp_connections}
use tcpudp.Uvt.{MsgBind}
use tcpudp.Server.{
  TcpConnection, VirtualChannel, Peer, Server, vc_add, vc_get, close_socket, add_socket, add_peer,
  dead_slots, decide_replace_slot, conn_id_slot, replace_slot, slots_of, tear_down,
}

-- The loop goes on, or is left by a `break`.
pub data Accepted : Type 0 where
  goes_on : Server → Accepted
  stops : Server → Accepted

-- What came over a new socket.
pub data Incoming : Type 0 where
  no_bind : Incoming
  bound : MsgBind → Incoming

abbrev pub connect : ℕ → TcpConnection
connect socket = record { socket_fd = socket; connected = true }

-- Each socket's id moves from `socketToConnId` to the slots of the client; `i` is the slot.
unfoldable pub link_slots : ℕ → List ℕ → List (ℕ × ℕ) → List (ℕ × ℕ) → List (ℕ × ℕ) × List (ℕ × ℕ)
link_slots i [] ids slots = (ids, slots)
link_slots i (socket ∷ sockets) ids slots = elim (lookup socket ids) [
  | none ↦ link_slots (i + 1) sockets ids slots
  | some id ↦ link_slots (i + 1) sockets (erase socket ids) (insert id i slots)
]

-- The channel is registered before the UDP socket is made, which may fail.
abbrev pub with_udp : ℕ → Peer → Option ℕ → Server → Accepted
with_udp client peer none s = stops s
with_udp client peer (some udp) s =
    goes_on (record s { peers = insert client (record peer { udp_socket = some udp }) s.peers })

unfoldable pub create_channel : ℕ → Peer → Option ℕ → Server → Accepted
create_channel client peer udp s =
    let (ids, slots) =
      link_slots 0 peer.sockets s.socket_to_conn_id
        (slots_of (lookup client s.client_conn_slots)) in
    with_udp client peer udp (record (vc_add client (map connect peer.sockets) s) {
      socket_to_conn_id = ids;
      client_conn_slots = insert client slots s.client_conn_slots;
    })

-- `GetPeerById` after the socket was added.
abbrev pub complete_peer : ℕ → Option Peer → Option ℕ → Server → Accepted
complete_peer client none udp s = goes_on s
complete_peer client (some peer) udp s =
    if leb vc_tcp_connections (length peer.sockets)
    then create_channel client peer udp s
    else goes_on s

abbrev pub join_peer : ℕ → ℕ → Option Peer → Option ℕ → Server → Accepted
join_peer client socket none udp s = goes_on (close_socket socket s)
join_peer client socket (some peer) udp s =
    let s' = add_socket client socket peer s in complete_peer client (lookup client s'.peers) udp s'

abbrev pub note_id : ℕ → MsgBind → Server → Server
note_id socket bind s =
    if bind.connection_id == 0
    then s
    else record s { socket_to_conn_id = insert socket bind.connection_id s.socket_to_conn_id }

-- The fresh-accumulation path.
unfoldable pub accumulate : ℕ → MsgBind → Option ℕ → Server → Accepted
accumulate socket bind udp s =
    let s' = add_peer bind.client_id (note_id socket bind s) in
    join_peer bind.client_id socket (lookup bind.client_id s'.peers) udp s'

-- There is a channel of the client: an initial connection tears it down, another one takes a slot.
abbrev pub with_channel : ℕ → MsgBind → ℤ → Option ℕ → VirtualChannel → Server → Accepted
with_channel socket bind (negsuc n) udp vc s =
    accumulate socket bind udp (tear_down bind.client_id vc s)
with_channel socket bind (pos i) udp vc s =
    let slot =
      decide_replace_slot (conn_id_slot bind s) (pos i) vc_tcp_connections (dead_slots 0 vc) in
    goes_on (replace_slot socket bind slot vc s)

abbrev pub by_channel : ℕ → MsgBind → Option ℕ → Option VirtualChannel → Server → Accepted
by_channel socket bind udp none s = accumulate socket bind udp s
by_channel socket bind udp (some vc) s = with_channel socket bind bind.slot_index udp vc s

unfoldable pub accept : ℕ → Incoming → Option ℕ → Server → Accepted
accept socket no_bind udp s = goes_on (close_socket socket s)
accept socket (bound bind) udp s = by_channel socket bind udp (vc_get bind.client_id s) s

abbrev pub and_then : Accepted → (Server → Accepted) → Accepted
and_then (goes_on s) f = f s
and_then (stops s) f = stops s

-- The loop over the sockets that arrive, with their bind messages.
abbrev pub accept_all : List (ℕ × MsgBind) → Option ℕ → Server → Accepted
accept_all [] udp s = goes_on s
accept_all ((socket, bind) ∷ arrivals) udp s =
    and_then (accept socket (bound bind) udp s) (accept_all arrivals udp)

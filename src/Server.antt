-- ===== src/Server.antt =====
-- src/server/Server.cpp (AcceptConnections), src/server/Peer.cpp, src/server/VcManager.cpp and
-- src/server/ReplaceSlotPolicy.h: how the sockets that clients open become the slots of their channels.
-- Sockets are numbers; what the system calls return is an argument.
pub mod Accept
pub mod Slots
pub mod Stale
pub mod Fresh
mod Tests
use tcpudp.Base.{
  ℕ, zero, suc, ◌+◌, Bool, true, false, not, List, [], ◌∷◌, ◌++◌, Option, none, some, length, map,
  set, ltb, leb, ◌==◌, if◌then◌else◌,
}
use tcpudp.Base.Int.{ℤ, pos, negsuc, in_range}
use tcpudp.Base.Assoc.{lookup, insert, erase}
use tcpudp.VcPacket.{vc_tcp_connections}
use tcpudp.Uvt.{MsgBind}

-- A `TcpConnection` and the connections of a `TcpVirtualChannel`, by slot.
pub record TcpConnection : Type 0 where
  pub socket_fd : ℕ
  pub connected : Bool

abbrev pub VirtualChannel : Type 0
VirtualChannel = List TcpConnection

pub record Peer : Type 0 where
  pub sockets : List ℕ
  pub udp_socket : Option ℕ

pub record Server : Type 0 where
  -- `VcManager::vcs` and `PeerManager::peers`, by client id
  pub vcs : List (ℕ × VirtualChannel)
  pub peers : List (ℕ × Peer)
  pub socket_to_conn_id : List (ℕ × ℕ)
  pub client_conn_slots : List (ℕ × List (ℕ × ℕ))
  -- the sockets that `SocketClose` was called on, the last one first
  pub closed : List ℕ

-- `VcManager::Add`, `Remove`, `Exists` and `Get`.
abbrev pub vc_add : ℕ → VirtualChannel → Server → Server
vc_add client vc s = record s { vcs = insert client vc s.vcs }

abbrev pub vc_remove : ℕ → Server → Server
vc_remove client s = record s { vcs = erase client s.vcs }

abbrev pub vc_get : ℕ → Server → Option VirtualChannel
vc_get client s = lookup client s.vcs

abbrev pub is_some {ℓ} : {A : Type ℓ} → Option A → Bool
is_some none = false
is_some (some a) = true

abbrev pub vc_exists : ℕ → Server → Bool
vc_exists client s = is_some (vc_get client s)

abbrev pub close_socket : ℕ → Server → Server
close_socket socket s = record s { closed = socket ∷ s.closed }

abbrev pub close_all : List ℕ → Server → Server
close_all [] s = s
close_all (socket ∷ sockets) s = close_all sockets (close_socket socket s)

-- `Peer::AddSocket`: the peer with the socket, or the socket closed.
unfoldable pub add_socket : ℕ → ℕ → Peer → Server → Server
add_socket client socket peer s =
    if leb vc_tcp_connections (length peer.sockets) then close_socket socket s else record s {
      peers = insert client (record peer { sockets = peer.sockets ++ (socket ∷ []) }) s.peers;
    }

-- `PeerManager::AddPeer`: what is found decides; stale sockets are closed if there is a channel.
abbrev pub add_peer_found : ℕ → Option Peer → Bool → Server → Server
add_peer_found client none exists s = record s {
  peers = insert client (record { sockets = []; udp_socket = none }) s.peers;
}
add_peer_found client (some peer) true s =
    close_all peer.sockets
      (record s { peers = insert client (record peer { sockets = [] }) s.peers })
add_peer_found client (some peer) false s = s

unfoldable pub add_peer : ℕ → Server → Server
add_peer client s = add_peer_found client (lookup client s.peers) (vc_exists client s) s

unfoldable pub remove_peer : ℕ → Server → Server
remove_peer client s = record s { peers = erase client s.peers }

-- `getDeadSlots`, from the slot `i` on.
unfoldable pub dead_slots : ℕ → VirtualChannel → List ℕ
dead_slots i [] = []
dead_slots i (c ∷ cs) = let rest = dead_slots (i + 1) cs in if c.connected then rest else i ∷ rest

abbrev first_dead : List ℕ → ℤ
first_dead [] = negsuc 0
first_dead (slot ∷ slots) = pos slot

unfoldable pub decide_replace_slot : ℤ → ℤ → ℕ → List ℕ → ℤ
decide_replace_slot (pos slot) slot_index num_slots dead = pos slot
decide_replace_slot (negsuc n) slot_index num_slots dead =
    if in_range slot_index num_slots then slot_index else first_dead dead

abbrev index_or_none : Option ℕ → ℤ
index_or_none none = negsuc 0
index_or_none (some slot) = pos slot

abbrev slot_in : ℕ → Option (List (ℕ × ℕ)) → ℤ
slot_in id none = negsuc 0
slot_in id (some slots) = index_or_none (lookup id slots)

unfoldable pub conn_id_slot : MsgBind → Server → ℤ
conn_id_slot bind s =
    if bind.connection_id == 0
    then negsuc 0
    else slot_in bind.connection_id (lookup bind.client_id s.client_conn_slots)

-- `replaceConnection`, on the connections that the channel, its IO thread and its send thread share.
unfoldable pub replace_connection : ℕ → ℕ → VirtualChannel → VirtualChannel
replace_connection slot socket vc = set vc slot (record { socket_fd = socket; connected = true })

-- Drop the entries that point at a slot.
unfoldable pub drop_slot : ℕ → List (ℕ × ℕ) → List (ℕ × ℕ)
drop_slot slot [] = []
drop_slot slot ((id, i) ∷ rest) =
    let rest' = drop_slot slot rest in if i == slot then rest' else (id, i) ∷ rest'

abbrev pub slots_of : Option (List (ℕ × ℕ)) → List (ℕ × ℕ)
slots_of none = []
slots_of (some slots) = slots

unfoldable pub register_slot : MsgBind → ℕ → Server → Server
register_slot bind slot s =
    let slots = slots_of (lookup bind.client_id s.client_conn_slots) in
    if bind.connection_id == 0 then s else record s {
      client_conn_slots =
          insert bind.client_id (insert bind.connection_id slot (drop_slot slot slots))
            s.client_conn_slots;
    }

-- The socket goes into the slot that was decided, or is closed as a stray.
abbrev pub replace_slot : ℕ → MsgBind → ℤ → VirtualChannel → Server → Server
replace_slot socket bind (negsuc n) vc s = close_socket socket s
replace_slot socket bind (pos slot) vc s =
    register_slot bind slot (vc_add bind.client_id (replace_connection slot socket vc) s)

-- `existingVc->close()`: every connection that is up is disconnected.
unfoldable pub open_sockets : VirtualChannel → List ℕ
open_sockets [] = []
open_sockets (c ∷ cs) =
    let rest = open_sockets cs in if c.connected then c.socket_fd ∷ rest else rest

unfoldable pub tear_down : ℕ → VirtualChannel → Server → Server
tear_down client vc s = vc_remove client (close_all (open_sockets vc) s)

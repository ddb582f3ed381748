-- ===== src/VcSlots.antt =====
-- src/common/TcpVirtualChannel.cpp: the connections of a channel by slot, and what ends the channel:
-- the disconnect callback of `open`, `close`, `getDeadSlots` and `replaceConnection`.
pub mod Teardown
pub mod Dead
mod Tests
use tcpudp.Base.{
  ℕ, zero, suc, ◌+◌, Bool, true, false, not, List, [], ◌∷◌, ◌++◌, Option, none, some, length, map,
  set, ltb, ◌==◌, if◌then◌else◌,
}
use mathlib.Core.Option
use tcpudp.Base.Int.{ℤ, pos, negsuc}
use tcpudp.Connection.{TcpConnection, Effect, new_connection, disconnect}

pub record VcSlots : Type 0 where
  pub opened : Bool
  pub connections : List (Option TcpConnection)
  pub has_disconnect_callback : Bool
  -- `sendQueue` and `resendQueue` are cancelled, the threads told to stop
  pub stopped : Bool

-- `conn && conn->isConnected()`
abbrev pub is_up : Option TcpConnection → Bool
is_up none = false
is_up (some c) = c.connected

unfoldable pub alive_count : List (Option TcpConnection) → ℕ
alive_count [] = 0
alive_count (conn ∷ conns) = let rest = alive_count conns in if is_up conn then suc rest else rest

-- `TcpVirtualChannel(fds)`, then `open`.
unfoldable pub open_slots : List ℕ → Bool → VcSlots
open_slots fds callback = record {
  opened = true;
  connections = map (λ fd. some (new_connection fd)) fds;
  has_disconnect_callback = callback;
  stopped = false;
}

abbrev pub disconnect_one : Option TcpConnection → Option TcpConnection × List Effect
disconnect_one none = (none, [])
disconnect_one (some c) = let (c', es) = disconnect c in (some c', es)

-- Every connection that is up is disconnected, in order.
unfoldable pub disconnect_all :
    List (Option TcpConnection) → List (Option TcpConnection) × List Effect
disconnect_all [] = ([], [])
disconnect_all (conn ∷ conns) =
    let (conn', es) = if is_up conn then disconnect_one conn else (conn, []) in
    let (conns', es') = disconnect_all conns in (conn' ∷ conns', es ++ es')

abbrev stop_all : VcSlots → VcSlots
stop_all v = record v {
  opened = false;
  connections = (disconnect_all v.connections).0;
  stopped = true;
}

-- `disconnectCB`; the flag says that the channel's own callback is called.
unfoldable pub disconnect_cb : VcSlots → VcSlots × Bool
disconnect_cb v =
    if v.opened
    then if ltb 0 (alive_count v.connections)
      then (v, false)
      else (stop_all v, v.has_disconnect_callback)
    else (v, false)

-- `close`, as far as the slots go.
unfoldable pub close_slots : VcSlots → VcSlots × List Effect
close_slots v = if v.opened then (stop_all v, (disconnect_all v.connections).1) else (v, [])

-- `getDeadSlots`, from some slot on.
unfoldable pub dead_from : ℕ → List (Option TcpConnection) → List ℕ
dead_from i [] = []
dead_from i (conn ∷ conns) =
    let rest = dead_from (i + 1) conns in if is_up conn then rest else i ∷ rest

unfoldable pub get_dead_slots : VcSlots → List ℕ
get_dead_slots v = dead_from 0 v.connections

-- `replaceConnection`, on the channel's own vector.
unfoldable pub replace_connection : ℤ → ℕ → VcSlots → VcSlots
replace_connection (negsuc n) fd v = v
replace_connection (pos slot) fd v =
    if ltb slot (length v.connections)
    then record v { connections = set v.connections slot (some (new_connection fd)) }
    else v

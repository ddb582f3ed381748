-- ===== src/Client.antt =====
-- src/client/Client.{h,cpp}: how a client opens the sockets of its channel, takes the channel down,
-- reconnects it whole or slot by slot, and reads its UDP socket. What the system calls return and what
-- other threads have done in the meantime is an argument of each step.
pub mod Prepare
pub mod Reconnect
pub mod Splice
pub mod Stale
pub mod Revive
pub mod UdpSocket
mod Tests
use tcpudp.Base.{
  ℕ, zero, suc, ◌+◌, ◌-◌, ◌*◌, ◌%◌, ◌^◌, Bool, true, false, ◌&&◌, not, List, [], ◌∷◌, ◌++◌, Option,
  none, some, length, map, set, ltb, leb, ◌==◌, if◌then◌else◌,
}
use tcpudp.Base.Int.{ℤ, pos, negsuc}
use tcpudp.Connection.{Effect, shut_down, closed, called_back}
use tcpudp.Uvt.{MsgBind}
use tcpudp.VcSlots.{VcSlots, open_slots, close_slots, replace_connection, get_dead_slots}

pub record Client : Type 0 where
  pub running : Bool
  pub tcp_sockets : List ℕ
  pub tcp_connection_ids : List ℕ
  pub next_connection_id : ℕ
  -- `none` is -1
  pub udp_socket : Option ℕ
  pub remote_udp_addr : ℕ
  pub vc : Option VcSlots
  pub watchdog_running : Bool
  -- the watchdog thread has been started and not joined
  pub watchdog_joinable : Bool
  pub reconnect_epoch : ℕ
  -- the descriptors that were closed, the binds sent, and what `vc->send` was called with, in order
  pub closed_fds : List ℕ
  pub binds : List MsgBind
  pub forwarded : List (List ℕ)

abbrev pub close_fd : ℕ → Client → Client
close_fd fd c = record c { closed_fds = c.closed_fds ++ fd ∷ [] }

unfoldable pub close_fds : List ℕ → Client → Client
close_fds fds c = record c { closed_fds = c.closed_fds ++ fds }

-- The descriptors that `close` of a channel closes.
unfoldable pub fds_of : List Effect → List ℕ
fds_of [] = []
fds_of (shut_down fd ∷ es) = fds_of es
fds_of (closed fd ∷ es) = fd ∷ fds_of es
fds_of (called_back ∷ es) = fds_of es

abbrev pub vc_close : VcSlots → Client → Client
vc_close v c = close_fds (fds_of (close_slots v).1) (record c { vc = none })

unfoldable pub stop_watchdog : Client → Client
stop_watchdog c = record c { watchdog_running = false; watchdog_joinable = false }

abbrev pub clear_sockets : Client → Client
clear_sockets c = record c { tcp_sockets = []; tcp_connection_ids = [] }

-- With a channel, its `close` closes the descriptors; without one they are closed here.
abbrev pub release : Option VcSlots → Client → Client
release (some v) c = clear_sockets (vc_close v c)
release none c = clear_sockets (close_fds c.tcp_sockets c)

unfoldable pub teardown_vc : Client → Client
teardown_vc c = release c.vc (stop_watchdog c)

-- What the calls of a round of `PrepareVC` return: the new socket, and whether `connect` and the send
-- of the bind succeeded, which is taken to send the whole message.
pub record Opening : Type 0 where
  pub created : Option ℕ
  pub connected : Bool
  pub sent : Bool

-- `slotIndex` of a `MsgBind` is -1 by default.
abbrev pub first_bind : ℕ → ℕ → MsgBind
first_bind id connection_id = record {
  client_id = id;
  slot_index = negsuc 0;
  connection_id = connection_id;
}

unfoldable pub keep_socket : ℕ → ℕ → Client → Client
keep_socket id fd c = record c {
  tcp_sockets = c.tcp_sockets ++ fd ∷ [];
  tcp_connection_ids = c.tcp_connection_ids ++ c.next_connection_id ∷ [];
  next_connection_id = (c.next_connection_id + 1) % 2 ^ 32;
  binds = c.binds ++ first_bind id c.next_connection_id ∷ [];
}

-- An id is used up before the bind is sent.
unfoldable pub waste_id : Client → Client
waste_id c = record c { next_connection_id = (c.next_connection_id + 1) % 2 ^ 32 }

abbrev pub open_one : ℕ → Opening → Option ℕ → (Client → Client × Bool) → Client → Client × Bool
open_one id x none next c = (teardown_vc c, false)
open_one id x (some fd) next c =
    if x.connected
    then if x.sent
      then next (keep_socket id fd c)
      else (teardown_vc (close_fd fd (waste_id c)), false)
    else (teardown_vc (close_fd fd c), false)

-- The rounds, one for each connection.
unfoldable pub open_sockets : ℕ → List Opening → Client → Client × Bool
open_sockets id [] c = (c, true)
open_sockets id (x ∷ xs) c = let next = open_sockets id xs in open_one id x x.created next c

unfoldable pub start_watchdog : Client → Client
start_watchdog c = record c { watchdog_running = true; watchdog_joinable = true }

abbrev pub publish_vc : Client × Bool → Client × Bool
publish_vc (c, false) = (c, false)
publish_vc (c, true) =
    (start_watchdog (record c { vc = some (open_slots c.tcp_sockets true) }), true)

unfoldable pub prepare_vc : ℕ → List Opening → Client → Client × Bool
prepare_vc id openings c = publish_vc (open_sockets id openings (teardown_vc c))

abbrev stop_vc : Option VcSlots → Client → Client
stop_vc none c = c
stop_vc (some v) c = close_fds (fds_of (close_slots v).1) (record c { vc = some (close_slots v).0 })

unfoldable pub stop : Client → Client
stop c = stop_vc c.vc (stop_watchdog (record c { running = false }))

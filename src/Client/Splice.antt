-- ===== src/Client/Splice.antt =====
-- src/client/Client.cpp, StartWatchdog and ReconnectSingleSlot: dead slots get new connections.
use tcpudp.Base.{
  ℕ, zero, suc, Bool, true, false, List, [], ◌∷◌, ◌++◌, Option, none, some, set, ◌==◌,
  if◌then◌else◌,
}
use tcpudp.Base.Int.{pos}
use tcpudp.Uvt.{MsgBind}
use tcpudp.VcSlots.{VcSlots, replace_connection, get_dead_slots}
use tcpudp.Client.{Client, close_fd, waste_id}

-- `ReconnectSingleSlot`: what its calls return, and whether the tests of `watchdogRunning` and of the
-- epoch let it go on: at the start, after `connect`, and before the bind.
pub record SlotOpening : Type 0 where
  pub watchdog_on : Bool
  pub created : Option ℕ
  pub connected : Bool
  pub still_valid : Bool
  pub same_epoch : Bool
  pub sent : Bool

-- A socket that is ready for its slot, before the lock is taken.
pub record Pending : Type 0 where
  pub slot : ℕ
  pub fd : ℕ
  pub epoch_at_start : ℕ
  pub new_conn_id : ℕ

-- `tcpConnectionIds[slotIndex]`, or 0
abbrev pub id_at : List ℕ → ℕ → ℕ
id_at [] i = 0
id_at (x ∷ xs) zero = x
id_at (x ∷ xs) (suc i) = id_at xs i

abbrev pub slot_bind : ℕ → ℕ → Client → MsgBind
slot_bind id slot c = record {
  client_id = id;
  slot_index = pos slot;
  connection_id = id_at c.tcp_connection_ids slot;
}

abbrev pub gave_up : ℕ → Client → Client × Option Pending
gave_up fd c = (close_fd fd c, none)

abbrev pub bind_slot : ℕ → SlotOpening → ℕ → ℕ → Client → Client × Option Pending
bind_slot id x slot fd c =
    let c' = waste_id c in
    let pending : Pending = record {
      slot = slot;
      fd = fd;
      epoch_at_start = c.reconnect_epoch;
      new_conn_id = c.next_connection_id;
    } in
    if x.same_epoch
    then if x.sent
      then (record c' { binds = c.binds ++ slot_bind id slot c ∷ [] }, some pending)
      else gave_up fd c'
    else gave_up fd c'

abbrev pub open_slot : ℕ → SlotOpening → ℕ → Option ℕ → Client → Client × Option Pending
open_slot id x slot none c = (c, none)
open_slot id x slot (some fd) c =
    if x.connected
    then if x.still_valid then bind_slot id x slot fd c else gave_up fd c
    else gave_up fd c

unfoldable pub slot_begin : ℕ → SlotOpening → ℕ → Client → Client × Option Pending
slot_begin id x slot c = if x.watchdog_on then open_slot id x slot x.created c else (c, none)

-- Under the lock: the channel, if it is there and open.
abbrev pub splice_in : Option VcSlots → Pending → Client → Client × Bool
splice_in none p c = (close_fd p.fd c, false)
splice_in (some v) p c =
    if v.opened
    then if c.reconnect_epoch == p.epoch_at_start
      then (
        record c {
          tcp_sockets = set c.tcp_sockets p.slot p.fd;
          tcp_connection_ids = set c.tcp_connection_ids p.slot p.new_conn_id;
          vc = some (replace_connection (pos p.slot) p.fd v);
        },
        true,
      )
      else (close_fd p.fd c, false)
    else (close_fd p.fd c, false)

unfoldable pub slot_finish : Pending → Client → Client × Bool
slot_finish p c = splice_in c.vc p c

abbrev pub finish_begun : Client × Option Pending → Client
finish_begun (c, none) = c
finish_begun (c, some p) = (slot_finish p c).0

-- With no other thread in between.
unfoldable pub reconnect_single_slot : ℕ → SlotOpening → ℕ → Client → Client
reconnect_single_slot id x slot c = finish_begun (slot_begin id x slot c)

-- A round of the watchdog: the dead slots of an open channel, one after the other.
unfoldable pub reconnect_slots : ℕ → (ℕ → SlotOpening) → List ℕ → Client → Client
reconnect_slots id openings [] c = c
reconnect_slots id openings (slot ∷ slots) c =
    reconnect_slots id openings slots (reconnect_single_slot id (openings slot) slot c)

abbrev pub dead_of : Option VcSlots → List ℕ
dead_of none = []
dead_of (some v) = if v.opened then get_dead_slots v else []

unfoldable pub watchdog_round : ℕ → (ℕ → SlotOpening) → Client → Client
watchdog_round id openings c = reconnect_slots id openings (dead_of c.vc) c

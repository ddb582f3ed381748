-- ===== src/VcSlots/Tests.antt =====
-- Runs of the model of the slots of src/common/TcpVirtualChannel.cpp, and its theorem at a concrete input.
use tcpudp.Base.{◌≤◌, ◌≡◌, refl, List, [], ◌∷◌, true, false, ltb, if◌then◌else◌}
use tcpudp.Connection.{disconnect}
use tcpudp.VcSlots.{VcSlots, open_slots, alive_count, disconnect_cb, disconnect_all, close_slots}
use tcpudp.VcSlots.Teardown.{Event, fails, reports, closes, step, calls, told_once}

abbrev two_slots : VcSlots
two_slots = open_slots (3 ∷ 4 ∷ []) true

-- Both connections fail, and both threads report it.
abbrev both_fail : List Event
both_fail = fails 0 ∷ reports ∷ fails 1 ∷ reports ∷ reports ∷ closes ∷ []

told-both_fail : calls both_fail two_slots ≡ 1
unfolding calls step open_slots disconnect_cb alive_count disconnect close_slots disconnect_all
told-both_fail = refl

told_once_example :
    (calls both_fail two_slots ≤ 1)
    × ((disconnect_cb two_slots).1 ≡ (
        if two_slots.opened
        then if ltb 0 (alive_count two_slots.connections)
          then false
          else two_slots.has_disconnect_callback
        else false))
told_once_example = told_once both_fail two_slots

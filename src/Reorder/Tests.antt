-- ===== src/Reorder/Tests.antt =====
-- Runs of the reorder thread on concrete packets.
use tcpudp.Base.{
  ℕ, zero, suc, ◌+◌, ◌-◌, ◌%◌, ◌≤◌, ◌<◌, ◌≡◌, refl, true, false, List, [], ◌∷◌, some, arith, inl,
  inr, ◌⊎◌, length, All, contains,
}
use tcpudp.Base.Int.{pos}
use tcpudp.Base.Assoc.{lookup, erase}
use tcpudp.Reorder.{
  ReceivedItem, DeliveryItem, Reorder, Turn, turn, run, open_state, drain_received_data_map, ingest,
  ingest_one, check_gap, gap_open, send_missing_notifications, missing_ids, collect_missing,
  skip_gap, take_next,
}
use tcpudp.Reorder.Drain.{IsValid, ids, count_up}
use tcpudp.Reorder.Turns.{InOrder, run-InOrder}
use tcpudp.Reorder.Complete.{Has, Arrives}
use tcpudp.Reorder.Lossless.{run_lossless}
use tcpudp.Reorder.Missing.{IsGap, missing_sound, missing_names_received, notice_once}

abbrev packet : ℕ → ℕ → ℕ × DeliveryItem
packet now id =
    (now, record { message_id = id; payload = id ∷ []; source_conn_index = pos (id % 4) })

-- 2, 0, 0 again; then 4, 1; then 3 and 1 again.
abbrev turns : List Turn
turns =
    record { items = packet 10 2 ∷ packet 10 0 ∷ packet 11 0 ∷ []; gap_now = 12; notify_now = 13 }
    ∷ record { items = packet 20 4 ∷ packet 20 1 ∷ []; gap_now = 22; notify_now = 23 }
    ∷ record { items = packet 30 3 ∷ packet 30 1 ∷ []; gap_now = 32; notify_now = 33 }
    ∷ []

ids-run : ids (run turns (open_state 4)).0 ≡ 0 ∷ 1 ∷ 2 ∷ 3 ∷ 4 ∷ []
unfolding run turn drain_received_data_map ingest ingest_one check_gap gap_open lookup erase
    open_state send_missing_notifications take_next
ids-run = refl

-- A packet that never comes is skipped after the timeout, and dropped if it comes at last.
late :
    ids
      (run
        (record { items = packet 10 1 ∷ []; gap_now = 12; notify_now = 13 }
          ∷ record { items = []; gap_now = 4012; notify_now = 4012 }
          ∷ record { items = packet 4013 0 ∷ packet 4013 2 ∷ []; gap_now = 4014; notify_now = 4014 }
          ∷ [])
        (open_state 4)).0
    ≡ 1 ∷ 2 ∷ []
unfolding run turn drain_received_data_map ingest ingest_one check_gap gap_open lookup erase
    open_state send_missing_notifications skip_gap take_next
late = refl

open_state-IsValid : (conns : ℕ) → IsValid (open_state conns)
unfolding open_state
open_state-IsValid conns = record { above = tt; next_small = omega arith }

run-InOrder_example :
    InOrder (open_state 4) (run turns (open_state 4)).0 (run turns (open_state 4)).1
run-InOrder_example = run-InOrder turns (open_state 4) (omega arith) (open_state-IsValid 4)

all_arrive : (id : ℕ) → id < 5 → Has (open_state 4) id ⊎ Arrives id turns
all_arrive zero h = inr (inl (inr (inl refl)))
all_arrive (suc zero) h = inr (inr (inl (inr (inl refl))))
all_arrive (suc (suc zero)) h = inr (inl (inl refl))
all_arrive (suc (suc (suc zero))) h = inr (inr (inr (inl (inl refl))))
all_arrive (suc (suc (suc (suc zero)))) h = inr (inr (inl (inl refl)))
all_arrive (suc (suc (suc (suc (suc n))))) h = absurd (omega arith)

run_lossless_example :
    let delivered = (run turns (open_state 4)).0 in
    (ids delivered ≡ count_up 0 (length delivered))
    × (5 ≤ 0 + length delivered)
    × ((id : ℕ)
        → Has (open_state 4) id ⊎ Arrives id turns
        → (id < 0 + length delivered)
          ⊎ ((it : ReceivedItem) × (lookup id (run turns (open_state 4)).1.received ≡ some it)))
unfolding open_state lookup
run_lossless_example =
    run_lossless 0 5 turns (open_state 4) (omega arith) (open_state-IsValid 4) refl (omega arith)
      (inl refl) all_arrive

abbrev waiting : Reorder
waiting = record {
  received =
      (7, record { payload = 1 ∷ []; source_conn_index = pos 2 })
      ∷ (9, record { payload = 2 ∷ []; source_conn_index = pos 3 })
      ∷ [];
  next_message_id = 5;
  notified_missing_ids = [];
  last_delivered_conn_index = pos 0;
  gap_timer_active = true;
  gap_first_seen = 100;
  last_notify_time = 0;
  reorder_timeout_ms = 4000;
  missing_notify_interval_ms = 200;
  last_rx_message_id = [];
  last_rx_time = [];
  last_rx_valid = [];
}

waiting-IsValid : IsValid waiting
waiting-IsValid = record { above = omega arith; next_small = omega arith }

missing_run : missing_ids waiting ≡ 5 ∷ 6 ∷ 5 ∷ 6 ∷ 7 ∷ 8 ∷ []
unfolding collect_missing
missing_run = refl

abbrev told : List ℕ
told = 5 ∷ 6 ∷ 5 ∷ 6 ∷ 7 ∷ 8 ∷ []

waiting-told : (send_missing_notifications 300 waiting).0 ≡ some told
unfolding send_missing_notifications collect_missing
waiting-told = refl

missing_sound_example :
    All (IsGap [] 5 9) told
    × (1 ≤ length told)
    × (length told ≤ 64)
    × (true ≡ true)
    × (200 ≤ 300 - 100)
    × All
        (λ x. contains x (send_missing_notifications 300 waiting).1.notified_missing_ids ≡ true)
        told
missing_sound_example = missing_sound 300 waiting 9 told (omega arith) waiting-told

-- One packet far ahead: what does not fit the first notification is sent in the second.
abbrev far : Reorder
far = record waiting {
  received = (100, record { payload = 1 ∷ []; source_conn_index = pos 2 }) ∷ [];
}

far-sends :
    ((send_missing_notifications 300 far).0 ≡ some (count_up 5 64))
    × ((send_missing_notifications 600 (send_missing_notifications 300 far).1).0
        ≡ some (count_up 69 31))
unfolding send_missing_notifications collect_missing count_up
far-sends = (refl, refl)

notice_once_example : All (λ x. contains x (count_up 5 64) ≡ false) (count_up 69 31)
notice_once_example =
    notice_once 300 600 far (count_up 5 64) (count_up 69 31) 100 (omega arith) far-sends.0
      far-sends.1

missing_names_received_example :
    (lookup 7 waiting.received ≡ some (record { payload = 1 ∷ []; source_conn_index = pos 2 }))
    × (told : List ℕ) × ((send_missing_notifications 300 waiting).0 ≡ some told)
    × (contains 7 told ≡ true)
missing_names_received_example =
    missing_names_received 300 waiting 7 9 _ _ [] refl waiting-IsValid.above refl (omega arith) refl
      (omega arith)

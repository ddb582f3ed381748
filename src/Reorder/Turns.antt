-- ===== src/Reorder/Turns.antt =====
-- A turn of the reorder thread and a run of turns: delivery in order, once each.
use mathlib.Core.List.{map-append}
use tcpudp.Base.{ℕ, ◌≡◌, refl, subst, List, [], ◌∷◌, arith, All}
use tcpudp.Reorder.{
  DeliveryItem, Reorder, ingest, drain_received_data_map, check_gap, send_missing_notifications,
  Turn, turn, run,
}
use tcpudp.Reorder.Drain.{IsValid, ids}
use tcpudp.Reorder.Order.{
  Ascends, Ascends-append, IsItem, IsIdle, ingest-keeps, ingest-IsValid, drain-Advances,
  check_gap-Advances,
}

-- The fields that a notification leaves alone.
pub record Same (s t : Reorder) : Type 0 where
  pub received : t.received ≡ s.received
  pub next : t.next_message_id ≡ s.next_message_id
  pub gap : t.gap_timer_active ≡ s.gap_timer_active
  pub seen : t.gap_first_seen ≡ s.gap_first_seen
  pub timeout : t.reorder_timeout_ms ≡ s.reorder_timeout_ms

pub send_missing_notifications-Same :
    (now : ℕ) (s : Reorder) → Same s (send_missing_notifications now s).1
unfolding send_missing_notifications
send_missing_notifications-Same now s = ground arith

Same-IsValid : (s t : Reorder) → Same s t → IsValid s → IsValid t
Same-IsValid s t e v = record {
  above = rw (e.received, e.next) v.above;
  next_small = omega (arith, e.next, v.next_small);
}

-- What a turn, or a run of turns, does to a valid state.
pub record InOrder (s : Reorder) (delivered : List DeliveryItem) (s' : Reorder) : Type 0 where
  pub valid : IsValid s'
  pub ascends : Ascends s.next_message_id (ids delivered) s'.next_message_id

-- A turn delivers packets with ascending ids, from the expected id before it and below the
-- expected id after it; afterwards the expected packet is not buffered.
pub turn-InOrder :
    (t : Turn) (s : Reorder)
    → All IsItem t.items
    → IsValid s
    → let out = turn t s in InOrder s out.delivered out.state × IsIdle out.state
unfolding turn
turn-InOrder t s h v =
    let k = ingest-keeps t.items s in
    let d = drain-Advances (ingest t.items s) (ingest-IsValid t.items s h v) in
    let d1 = drain_received_data_map (ingest t.items s) in
    let c = check_gap-Advances t.gap_now d1.1.received d1.1 refl d.valid d.idle in
    let c1 = check_gap t.gap_now d1.1 in
    let e = send_missing_notifications-Same t.notify_now c1.1 in
    (
      record {
        valid = Same-IsValid c1.1 _ e c.valid;
        ascends =
            rw (map-append (λ (item : DeliveryItem). item.message_id) d1.0 c1.0, e.next)
              (Ascends-append s.next_message_id (ids d1.0) d1.1.next_message_id (ids c1.0)
                c1.1.next_message_id
                (subst (λ n. Ascends n (ids d1.0) d1.1.next_message_id) k.0 d.ascends) c.ascends);
      },
      rw (e.next, e.received) c.idle,
    )

-- Every packet is delivered at most once, and in the order in which the packets were sent: over
-- any run of turns the ids delivered ascend, each at least the expected id at the start and below
-- the one at the end. Nothing is assumed of what arrives, and when, but that ids are below
-- 2^64 - 1; the map keeps no id before the expected one.
pub run-InOrder :
    (ts : List Turn) (s : Reorder)
    → All (λ t. All IsItem t.items) ts
    → IsValid s
    → InOrder s (run ts s).0 (run ts s).1
unfolding run
run-InOrder [] s h v = record { valid = v; ascends = omega arith }
run-InOrder (t ∷ ts) s h v =
    let one = (turn-InOrder t s h.0 v).0 in
    let out = turn t s in
    let rest = run-InOrder ts out.state h.1 one.valid in
    record {
      valid = rest.valid;
      ascends = rw (map-append (λ (item : DeliveryItem). item.message_id) out.delivered _) (
          Ascends-append s.next_message_id (ids out.delivered) out.state.next_message_id _ _
            one.ascends rest.ascends);
    }

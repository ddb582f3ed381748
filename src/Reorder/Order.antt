-- ===== src/Reorder/Order.antt =====
-- One turn of the reorder thread, and a run of turns: what they deliver ascends.
use tcpudp.Base.{
  ℕ, zero, suc, ◌+◌, ◌≤◌, ◌<◌, ◌≡◌, ◌∙◌, refl, sym, subst, true, false, List, [], ◌∷◌, ◌++◌, none,
  arith, ◌⊎◌, inl, inr, length, All,
}
use tcpudp.Base.Int.{ℤ, pos, negsuc}
use tcpudp.Base.Assoc.{lookup}
use tcpudp.Reorder.{
  ReceivedItem, ReceivedMap, DeliveryItem, Reorder, record_rx, ingest_one, ingest,
  drain_received_data_map, skip_gap, gap_open, check_gap, first_key,
}
use tcpudp.Reorder.Map.{Above, max_id, try_emplace-Above}
use tcpudp.Reorder.Drain.{IsValid, drain-Drained, ids, count_up}

-- Ids from `lo` on, ascending, each below `hi`.
abbrev pub Ascends : ℕ → List ℕ → ℕ → Type 0
Ascends lo [] hi = lo ≤ hi
Ascends lo (x ∷ xs) hi = (lo ≤ x) × (x < hi) × Ascends (suc x) xs hi

Ascends-weaken :
    (lo lo' : ℕ) (xs : List ℕ) (hi : ℕ) → lo ≤ lo' → Ascends lo' xs hi → Ascends lo xs hi
Ascends-weaken lo lo' [] hi h a = omega arith
Ascends-weaken lo lo' (x ∷ xs) hi h a = (omega arith, a.1, a.2)

Ascends-le : (lo : ℕ) (xs : List ℕ) (hi : ℕ) → Ascends lo xs hi → lo ≤ hi
Ascends-le lo [] hi a = a
Ascends-le lo (x ∷ xs) hi a = omega arith

pub Ascends-append :
    (lo : ℕ) (xs : List ℕ) (mid : ℕ) (ys : List ℕ) (hi : ℕ)
    → Ascends lo xs mid
    → Ascends mid ys hi
    → Ascends lo (xs ++ ys) hi
Ascends-append lo [] mid ys hi a b = Ascends-weaken lo mid ys hi a b
Ascends-append lo (x ∷ xs) mid ys hi a b =
    (a.0, omega (arith, Ascends-le mid ys hi b), Ascends-append (suc x) xs mid ys hi a.2 b)

count_up-Ascends : (n k : ℕ) → Ascends n (count_up n k) (n + k)
unfolding count_up
count_up-Ascends n zero = omega arith
count_up-Ascends n (suc k) = (
  omega arith,
  omega arith,
  subst (Ascends (suc n) (count_up (suc n) k)) (omega arith) (count_up-Ascends (suc n) k),
)

-- A packet that comes in over the queues carries an id that the sender can have given.
abbrev pub IsItem : ℕ × DeliveryItem → Type 0
IsItem x = x.1.message_id < max_id

-- The fields that the receive bookkeeping leaves alone.
pub record_rx-keeps :
    (c : ℤ) (id now : ℕ) (s : Reorder)
    → let r = record_rx c id now s in
      (r.received ≡ s.received)
      × (r.next_message_id ≡ s.next_message_id)
      × (r.gap_timer_active ≡ s.gap_timer_active)
      × (r.gap_first_seen ≡ s.gap_first_seen)
      × (r.reorder_timeout_ms ≡ s.reorder_timeout_ms)
unfolding record_rx
record_rx-keeps (pos i) id now s = ground arith
record_rx-keeps (negsuc i) id now s = ground arith

-- What an ingested packet changes of the state: nothing but the map.
pub ingest_one-keeps :
    (x : ℕ × DeliveryItem) (s : Reorder)
    → let r = ingest_one x s in
      (r.next_message_id ≡ s.next_message_id)
      × (r.gap_timer_active ≡ s.gap_timer_active)
      × (r.gap_first_seen ≡ s.gap_first_seen)
      × (r.reorder_timeout_ms ≡ s.reorder_timeout_ms)
unfolding ingest_one
ingest_one-keeps (now, item) s =
    ground (arith, record_rx-keeps item.source_conn_index item.message_id now s)

pub ingest_one-IsValid :
    (x : ℕ × DeliveryItem) (s : Reorder) → IsItem x → IsValid s → IsValid (ingest_one x s)
unfolding ingest_one
ingest_one-IsValid (now, item) s h v =
    let k = record_rx-keeps item.source_conn_index item.message_id now s in
    let entry : ReceivedItem = record {
      payload = item.payload;
      source_conn_index = item.source_conn_index;
    } in
    ground (
      arith,
      k,
      v.above,
      v.next_small,
      try_emplace-Above item.message_id entry s.next_message_id s.received v.above,
    )

pub ingest-keeps :
    (xs : List (ℕ × DeliveryItem)) (s : Reorder)
    → let r = ingest xs s in
      (r.next_message_id ≡ s.next_message_id)
      × (r.gap_timer_active ≡ s.gap_timer_active)
      × (r.gap_first_seen ≡ s.gap_first_seen)
      × (r.reorder_timeout_ms ≡ s.reorder_timeout_ms)
unfolding ingest
ingest-keeps [] s = (refl, refl, refl, refl)
ingest-keeps (x ∷ xs) s =
    let k = ingest_one-keeps x s in
    let ih = ingest-keeps xs (ingest_one x s) in (ih.0 ∙ k.0, ih.1 ∙ k.1, ih.2 ∙ k.2, ih.3 ∙ k.3)

pub ingest-IsValid :
    (xs : List (ℕ × DeliveryItem)) (s : Reorder) → All IsItem xs → IsValid s → IsValid (ingest xs s)
unfolding ingest
ingest-IsValid [] s h v = v
ingest-IsValid (x ∷ xs) s h v =
    ingest-IsValid xs (ingest_one x s) h.1 (ingest_one-IsValid x s h.0 v)

-- The state's next id is not buffered.
abbrev pub IsIdle : Reorder → Type 0
IsIdle s = lookup s.next_message_id s.received ≡ none

-- What a part of a turn does that may deliver: it ends idle, and what it delivers ascends from
-- the expected id before it up to the expected id after it.
pub record Advances (s : Reorder) (out : List DeliveryItem × Reorder) : Type 0 where
  pub valid : IsValid out.1
  pub idle : IsIdle out.1
  pub ascends : Ascends s.next_message_id (ids out.0) out.1.next_message_id

pub drain-Advances : (s : Reorder) → IsValid s → Advances s (drain_received_data_map s)
drain-Advances s v =
    let d = drain-Drained s v in
    record {
      valid = d.valid;
      idle = d.nothing_next;
      ascends =
          rw (d.in_order, d.advance)
            (count_up-Ascends s.next_message_id (length (drain_received_data_map s).0));
    }

skip_gap-Advances :
    (s : Reorder) (k : ℕ) (v : ReceivedItem) (m : ReceivedMap)
    → s.received ≡ (k, v) ∷ m
    → IsValid s
    → Advances s (skip_gap s)
unfolding skip_gap first_key
skip_gap-Advances s k v m e w =
    let a : Above s.next_message_id ((k, v) ∷ m) = rw e at w.above in
    let from : Reorder = record s {
      next_message_id = first_key s.received s.next_message_id;
      notified_missing_ids = [];
      gap_timer_active = false;
    } in
    let f : from.next_message_id ≡ k = rw e in
    let d =
      drain-Advances from
        (record { above = rw (f, e) (omega arith, a.1, a.2); next_small = omega arith }) in
    record {
      valid = d.valid;
      idle = d.idle;
      ascends = Ascends-weaken s.next_message_id from.next_message_id _ _ (omega arith) d.ascends;
    }

pub gap_open-cases :
    (now : ℕ) (s : Reorder)
    → (gap_open now s ≡ ([], record s { gap_first_seen = now; gap_timer_active = true }))
      ⊎ (gap_open now s ≡ skip_gap s)
      ⊎ (gap_open now s ≡ ([], s))
unfolding gap_open
gap_open-cases now s = ground arith

pub check_gap-cons :
    (now : ℕ) (s : Reorder) (x : ℕ × ReceivedItem) (m : ReceivedMap)
    → s.received ≡ x ∷ m
    → check_gap now s ≡ gap_open now s
unfolding check_gap
check_gap-cons now s x m e = ground arith

gap_open-Advances :
    (now : ℕ) (s : Reorder)
    → Advances s (skip_gap s)
    → IsValid s
    → IsIdle s
    → Advances s (gap_open now s)
gap_open-Advances now s skipped v i = elim (gap_open-cases now s) [
  | inl started ↦ rw started (record {
    valid = record { above = v.above; next_small = v.next_small };
    idle = i;
    ascends = omega arith;
  })
  | inr (inl expired) ↦ rw expired skipped
  | inr (inr waiting) ↦ rw waiting (record { valid = v; idle = i; ascends = omega arith })
]

pub check_gap-Advances :
    (now : ℕ) (m : ReceivedMap) (s : Reorder)
    → s.received ≡ m
    → IsValid s
    → IsIdle s
    → Advances s (check_gap now s)
unfolding check_gap
check_gap-Advances now [] s e v i =
    rw (e, check_gap)
      (record {
        valid = record { above = v.above; next_small = v.next_small };
        idle = i;
        ascends = omega arith;
      })
check_gap-Advances now ((k, w) ∷ m) s e v i =
    let done = gap_open-Advances now s (skip_gap-Advances s k w m e v) v i in
    subst (Advances s) (sym (check_gap-cons now s (k, w) m e)) done

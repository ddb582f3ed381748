-- ===== src/Reorder/Payload.antt =====
-- What is delivered under an id is what arrived under it.
use mathlib.Core.Option.{none-ne-some, some-injective}
use tcpudp.Base.{
  ℕ, zero, suc, ◌≡◌, refl, sym, subst, true, false, List, [], ◌∷◌, some, Option-cases, Bool-cases,
  inl, inr, length, ◌==◌, ==→eq, ltb, if◌then◌else◌, All, All-append,
}
use tcpudp.Base.Assoc.{lookup, erase}
use tcpudp.Reorder.{
  ReceivedItem, ReceivedMap, DeliveryItem, Reorder, try_emplace, take_next, drain_loop,
  drain_received_data_map, ingest_one, ingest, skip_gap, gap_open, check_gap, Turn, turn, run,
}
use tcpudp.Reorder.Order.{gap_open-cases, check_gap-cons}
use tcpudp.Reorder.Complete.{received-ingest_one, entry_of}
use tcpudp.Reorder.Turns.{send_missing_notifications-Same}

-- `Sent id payload` says what may have been sent under an id.
module _ {ℓ} (Sent : ℕ → List ℕ → Type ℓ) where
  abbrev EntryOk : ℕ × ReceivedItem → Type ℓ
  EntryOk entry = Sent entry.0 entry.1.payload

  abbrev pub ItemOk : DeliveryItem → Type ℓ
  ItemOk item = Sent item.message_id item.payload

  abbrev pub MapOk : Reorder → Type ℓ
  MapOk s = All EntryOk s.received

  -- The parts of a turn: what they deliver, and what they keep.
  abbrev Delivers : List DeliveryItem × Reorder → Type ℓ
  Delivers out = All ItemOk out.0 × MapOk out.1

  try_emplace-Ok :
      (k : ℕ) (v : ReceivedItem) (m : ReceivedMap)
      → Sent k v.payload
      → All EntryOk m
      → All EntryOk (try_emplace k v m)
  unfolding try_emplace
  try_emplace-Ok k v [] p h = (p, tt)
  try_emplace-Ok k v ((j, w) ∷ m) p h =
      let ih = try_emplace-Ok k v m p h.1 in
      elim (Bool-cases (k == j)) [
        | inl same ↦ rw same h
        | inr other ↦ elim (Bool-cases (ltb k j)) [
          | inl before ↦ rw (other, before) (p, h)
          | inr after ↦ rw (other, after) (h.0, ih)
        ]
      ]

  erase-Ok : (k : ℕ) (m : ReceivedMap) → All EntryOk m → All EntryOk (erase k m)
  unfolding erase
  erase-Ok k [] h = tt
  erase-Ok k ((j, w) ∷ m) h =
      let ih = erase-Ok k m h.1 in
      elim (Bool-cases (j == k)) [ inl same ↦ rw same ih | inr other ↦ rw other (h.0, ih) ]

  lookup-Ok :
      (k : ℕ) (v : ReceivedItem) (m : ReceivedMap)
      → All EntryOk m
      → lookup k m ≡ some v
      → Sent k v.payload
  unfolding lookup
  lookup-Ok k v [] h e = absurd (none-ne-some v e)
  lookup-Ok k v ((j, w) ∷ m) h e = elim (Bool-cases (j == k)) [
    | inl same ↦
        let found : w ≡ v = some-injective w v (rw same at e) in
        subst (λ i. Sent i v.payload) (==→eq j k same) (subst (λ u. Sent j u.payload) found (h.0))
    | inr other ↦ lookup-Ok k v m h.1 (rw other at e)
  ]

  drain_loop-Ok : (fuel : ℕ) (s : Reorder) → MapOk s → Delivers (drain_loop fuel s)
  unfolding drain_loop take_next
  drain_loop-Ok zero s h = (tt, h)
  drain_loop-Ok (suc fuel) s h = elim (Option-cases (lookup s.next_message_id s.received)) [
    | inl gap ↦ rw (gap, drain_loop) (tt, h)
    | inr (v, found) ↦
        let rest = drain_loop-Ok fuel (take_next v s).1 (erase-Ok s.next_message_id s.received h) in
        rw (found, drain_loop) ((lookup-Ok s.next_message_id v s.received h found, rest.0), rest.1)
  ]

  drain-Ok : (s : Reorder) → MapOk s → Delivers (drain_received_data_map s)
  unfolding drain_received_data_map
  drain-Ok s h = drain_loop-Ok (suc (length s.received)) s h

  ingest-Ok :
      (xs : List (ℕ × DeliveryItem)) (s : Reorder)
      → All (λ (x : ℕ × DeliveryItem). ItemOk x.1) xs
      → MapOk s
      → MapOk (ingest xs s)
  unfolding ingest
  ingest-Ok [] s a h = h
  ingest-Ok ((now, item) ∷ xs) s a h = ingest-Ok xs (ingest_one (now, item) s) a.1 (
      subst (All EntryOk) (sym (received-ingest_one now item s))
        (elim (ltb item.message_id s.next_message_id)
          as (λ b.
            All EntryOk
              (if b then s.received else try_emplace item.message_id (entry_of item) s.received)) [
                | true ↦ h
                | false ↦ try_emplace-Ok item.message_id (entry_of item) s.received a.0 h
              ]))

  gap_open-Ok : (now : ℕ) (s : Reorder) → MapOk s → Delivers (gap_open now s)
  unfolding skip_gap
  gap_open-Ok now s h = elim (gap_open-cases now s) [
    | inl started ↦ subst Delivers (sym started) (tt, h)
    | inr (inl expired) ↦ subst Delivers (sym expired) (drain-Ok _ h)
    | inr (inr waiting) ↦ subst Delivers (sym waiting) (tt, h)
  ]

  check_gap-Ok :
      (now : ℕ) (m : ReceivedMap) (s : Reorder)
      → s.received ≡ m
      → MapOk s
      → Delivers (check_gap now s)
  unfolding check_gap
  check_gap-Ok now [] s e h = rw (e, check_gap) (tt, h)
  check_gap-Ok now (x ∷ m) s e h =
      subst Delivers (sym (check_gap-cons now s x m e)) (gap_open-Ok now s h)

  turn-Ok :
      (t : Turn) (s : Reorder)
      → All (λ (x : ℕ × DeliveryItem). ItemOk x.1) t.items
      → MapOk s
      → All ItemOk (turn t s).delivered × MapOk (turn t s).state
  unfolding turn
  turn-Ok t s a h =
      let drained = drain_received_data_map (ingest t.items s) in
      let first = drain-Ok (ingest t.items s) (ingest-Ok t.items s a h) in
      let more = check_gap-Ok t.gap_now drained.1.received drained.1 refl first.1 in
      let same = send_missing_notifications-Same t.notify_now (check_gap t.gap_now drained.1).1 in
      (All-append ItemOk _ _ first.0 more.0, subst (All EntryOk) (sym same.received) more.1)

  pub run-Ok :
      (ts : List Turn) (s : Reorder)
      → All (λ t. All (λ (x : ℕ × DeliveryItem). ItemOk x.1) t.items) ts
      → MapOk s
      → All ItemOk (run ts s).0
  unfolding run
  run-Ok [] s a h = tt
  run-Ok (t ∷ ts) s a h =
      let one = turn-Ok t s a.0 h in
      All-append ItemOk _ _ one.0 (run-Ok ts (turn t s).state a.1 one.1)

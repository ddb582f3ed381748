-- ===== src/Reorder/Complete.antt =====
-- Nothing that arrives is lost: a packet is delivered, skipped by a timeout, or kept.
use tcpudp.Base.{
  ℕ, suc, ◌+◌, ◌<◌, ◌≡◌, ◌∙◌, refl, sym, ap, subst, Bool, true, false, List, [], ◌∷◌, Option, none,
  some, arith, ◌⊎◌, inl, inr, length, All, ◌==◌, ltb, if◌then◌else◌, Bool-cases, ==_refl, ==→eq,
  if_false,
}
use tcpudp.Base.Assoc.{lookup}
use tcpudp.Reorder.{
  ReceivedItem, ReceivedMap, DeliveryItem, Reorder, ingest_one, ingest, drain_received_data_map,
  skip_gap, check_gap, Turn, try_emplace, first_key,
}
use tcpudp.Reorder.Map.{Above, lookup-try_emplace, keep_first, leading, trailing}
use tcpudp.Reorder.Drain.{IsValid, drain_received_data_map-Drains}
use tcpudp.Reorder.Order.{
  IsItem, record_rx-keeps, ingest_one-keeps, ingest_one-IsValid, gap_open-cases, check_gap-cons,
}

-- The packet with this id is done with (delivered, or given up), or it is buffered.
abbrev pub Has : Reorder → ℕ → Type 0
Has s id = (id < s.next_message_id) ⊎ ((it : ReceivedItem) × (lookup id s.received ≡ some it))

keep_first-some :
    (o : Option ReceivedItem) (b : Bool) (v w : ReceivedItem)
    → o ≡ some w
    → keep_first o b v ≡ some w
unfolding keep_first
keep_first-some o b v w e = ground arith

keep_first-hit :
    (o : Option ReceivedItem) (b : Bool) (v : ReceivedItem)
    → b ≡ true
    → (it : ReceivedItem) × (keep_first o b v ≡ some it)
unfolding keep_first
keep_first-hit none b v e = (v, ground arith)
keep_first-hit (some w) b v e = (w, refl)

abbrev pub entry_of : DeliveryItem → ReceivedItem
entry_of item = record { payload = item.payload; source_conn_index = item.source_conn_index }

pub received-ingest_one :
    (now : ℕ) (item : DeliveryItem) (s : Reorder)
    → (ingest_one (now, item) s).received ≡ (
        if ltb item.message_id s.next_message_id
        then s.received
        else try_emplace item.message_id (entry_of item) s.received)
unfolding ingest_one
received-ingest_one now item s =
    ground (arith, record_rx-keeps item.source_conn_index item.message_id now s)

-- An ingested packet is in the map, unless its turn is over; those in it stay.
module _ (now : ℕ) (item : DeliveryItem) (s : Reorder) (v : IsValid s) where
  lookup-ingest_one :
      (id : ℕ)
      → lookup id (ingest_one (now, item) s).received ≡ (
          if ltb item.message_id s.next_message_id
          then lookup id s.received
          else keep_first (lookup id s.received) (item.message_id == id) (entry_of item))
  lookup-ingest_one id = ground (
    arith,
    received-ingest_one now item s,
    lookup-try_emplace item.message_id id (entry_of item) s.next_message_id s.received v.above,
  )

  ingest_one-Has : (id : ℕ) → Has s id → Has (ingest_one (now, item) s) id
  ingest_one-Has id (inl h) = inl (omega (arith, (ingest_one-keeps (now, item) s).0))
  ingest_one-Has id (inr (it, e)) = inr (
    it,
    lookup-ingest_one id
        ∙ ground (
          arith,
          keep_first-some (lookup id s.received) (item.message_id == id) (entry_of item) it e,
        ),
  )

  ingest_one-Has_self : Has (ingest_one (now, item) s) item.message_id
  ingest_one-Has_self = elim (Bool-cases (ltb item.message_id s.next_message_id)) [
    | inl old ↦ inl (ground (arith, (ingest_one-keeps (now, item) s).0))
    | inr new ↦
        let hit =
          keep_first-hit (lookup item.message_id s.received) _ (entry_of item)
            (==_refl item.message_id) in
        inr (hit.0, lookup-ingest_one item.message_id ∙ (if_false _ _ new ∙ hit.1))
  ]

-- The ids of the packets that come out of the queues, in a turn and in a run.
abbrev pub ItemIn : ℕ → List (ℕ × DeliveryItem) → Type 0
ItemIn id [] = ⊥
ItemIn id (x ∷ xs) = (x.1.message_id ≡ id) ⊎ ItemIn id xs

abbrev pub Arrives : ℕ → List Turn → Type 0
Arrives id [] = ⊥
Arrives id (t ∷ ts) = ItemIn id t.items ⊎ Arrives id ts

pub ingest-Has :
    (xs : List (ℕ × DeliveryItem)) (s : Reorder) (id : ℕ)
    → All IsItem xs
    → IsValid s
    → Has s id ⊎ ItemIn id xs
    → Has (ingest xs s) id
unfolding ingest
ingest-Has [] s id h v (inl a) = a
ingest-Has [] s id h v (inr b) = absurd b
ingest-Has ((now, item) ∷ xs) s id h v a =
    ingest-Has xs (ingest_one (now, item) s) id h.1 (ingest_one-IsValid (now, item) s h.0 v)
      (elim a [
        | inl here ↦ inl (ingest_one-Has now item s v id here)
        | inr (inl e) ↦
            inl (subst (Has (ingest_one (now, item) s)) e (ingest_one-Has_self now item s v))
        | inr (inr later) ↦ inr later
      ])

lookup-trailing :
    (n id : ℕ) (m : ReceivedMap) (it : ReceivedItem)
    → lookup id m ≡ some it
    → (id < n + length (leading n m)) ⊎ (lookup id (trailing n m) ≡ some it)
unfolding leading trailing lookup
lookup-trailing n id [] it e = inr e
lookup-trailing n id ((k, v) ∷ m) it e = elim (Bool-cases (k == n)) [
  | inl first ↦ rw first (elim (Bool-cases (k == id)) [
    | inl same ↦ inl (omega (arith, ==→eq _ _ first, ==→eq _ _ same))
    | inr other ↦ elim (lookup-trailing (suc n) id m it (rw other at e)) [
      | inl done ↦ inl (omega arith)
      | inr kept ↦ inr kept
    ]
  ])
  | inr ne ↦ inr (rw (ne, trailing) e)
]

pub drain-Has : (s : Reorder) (id : ℕ) → IsValid s → Has s id → Has (drain_received_data_map s).1 id
drain-Has s id v (inl old) = inl (omega (arith, (drain_received_data_map-Drains s v).next))
drain-Has s id v (inr (it, e)) =
    let d = drain_received_data_map-Drains s v in
    elim (lookup-trailing s.next_message_id id s.received it e) [
      | inl done ↦ inl (omega (arith, d.next))
      | inr kept ↦ inr (it, ap (lookup id) d.rest ∙ kept)
    ]

skip_gap-Has :
    (s : Reorder) (id k : ℕ) (w : ReceivedItem) (m : ReceivedMap)
    → s.received ≡ (k, w) ∷ m
    → IsValid s
    → Has s id
    → Has (skip_gap s).1 id
unfolding skip_gap
skip_gap-Has s id k w m e v h =
    let a : Above s.next_message_id ((k, w) ∷ m) = rw e at v.above in
    let from : Reorder = record s {
      next_message_id = first_key s.received s.next_message_id;
      notified_missing_ids = [];
      gap_timer_active = false;
    } in
    let f : from.next_message_id ≡ k = rw e in
    drain-Has from id
      (record { above = rw (f, e) (omega arith, a.1, a.2); next_small = omega arith })
      (elim h [ inl old ↦ inl (omega arith) | inr kept ↦ inr kept ])

pub check_gap-Has :
    (now : ℕ) (m : ReceivedMap) (s : Reorder) (id : ℕ)
    → s.received ≡ m
    → IsValid s
    → Has s id
    → Has (check_gap now s).1 id
unfolding check_gap
check_gap-Has now [] s id e v h = rw (e, check_gap) h
check_gap-Has now ((k, w) ∷ m) s id e v h =
    let skipped = skip_gap-Has s id k w m e v h in
    subst (λ (out : List DeliveryItem × Reorder). Has out.1 id)
      (sym (check_gap-cons now s (k, w) m e))
      (elim (gap_open-cases now s) [
        | inl started ↦ rw started h
        | inr (inl expired) ↦ rw expired skipped
        | inr (inr waiting) ↦ rw waiting h
      ])

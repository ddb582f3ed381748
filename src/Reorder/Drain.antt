-- ===== src/Reorder/Drain.antt =====
-- `drainReceivedDataMap`: the loop of find and erase is one pass over the front of the map.
use tcpudp.Base.{
  ℕ, zero, suc, ◌+◌, ◌≤◌, ◌<◌, ◌≡◌, ◌∙◌, refl, sym, ap, true, List, [], ◌∷◌, map, none, some, arith,
  ◌==◌, Bool-cases, inl, inr, length, ==→eq, if_true, if_false, length-map,
}
use tcpudp.Base.Assoc.{lookup, erase}
use tcpudp.Reorder.{
  ReceivedItem, ReceivedMap, DeliveryItem, Reorder, take_next, drain_loop, drain_received_data_map,
}
use tcpudp.Reorder.Map.{
  Above, Above-mono, max_id, leading, trailing, lookup-Above, lookup-first, erase-Above,
  trailing-Above,
}

-- An entry of the map, as it is delivered.
unfoldable pub to_delivery : ℕ × ReceivedItem → DeliveryItem
to_delivery (k, it) = record {
  message_id = k;
  payload = it.payload;
  source_conn_index = it.source_conn_index;
}

-- The ids from `n` on, `k` of them.
unfoldable pub count_up : ℕ → ℕ → List ℕ
count_up n zero = []
count_up n (suc k) = n ∷ count_up (suc n) k

abbrev pub ids : List DeliveryItem → List ℕ
ids = map (λ item. item.message_id)

-- What the loop makes of a state whose map holds no id before the expected one.
pub record Drains (s : Reorder) (out : List DeliveryItem × Reorder) : Type 0 where
  pub items : out.0 ≡ map to_delivery (leading s.next_message_id s.received)
  pub rest : out.1.received ≡ trailing s.next_message_id s.received
  pub next :
      out.1.next_message_id ≡ s.next_message_id + length (leading s.next_message_id s.received)
  pub gap : out.1.gap_timer_active ≡ s.gap_timer_active
  pub seen : out.1.gap_first_seen ≡ s.gap_first_seen
  pub timeout : out.1.reorder_timeout_ms ≡ s.reorder_timeout_ms

erase-first :
    (n k : ℕ) (v : ReceivedItem) (m : ReceivedMap)
    → (k == n) ≡ true
    → Above (suc k) m
    → erase n ((k, v) ∷ m) ≡ m
unfolding erase
erase-first n k v m e a = ground (arith, erase-Above n (suc k) m a)

drain_loop-Drains :
    (fuel : ℕ) (m : ReceivedMap) (s : Reorder)
    → s.received ≡ m
    → Above s.next_message_id m
    → length m < fuel
    → Drains s (drain_loop fuel s)
unfolding drain_loop leading trailing take_next to_delivery
drain_loop-Drains zero m s e a h = absurd (omega arith)
drain_loop-Drains (suc fuel) [] s e a h =
    let f : lookup s.next_message_id s.received ≡ none =
      rw e (lookup-first s.next_message_id [] a) in
    rw (f, drain_loop)
      (record {
        items = rw e;
        rest = rw e;
        next = rw e (omega arith);
        gap = refl;
        seen = refl;
        timeout = refl;
      })
drain_loop-Drains (suc fuel) ((k, v) ∷ m) s e a h = elim (Bool-cases (k == s.next_message_id)) [
  | inl eq ↦
      let n : k ≡ s.next_message_id = ==→eq _ _ eq in
      let f : lookup s.next_message_id s.received ≡ some v =
        rw e (lookup-first s.next_message_id ((k, v) ∷ m) a ∙ if_true _ _ eq) in
      let s' : Reorder = (take_next v s).1 in
      let r : s'.received ≡ m =
        ap (erase s.next_message_id) e ∙ erase-first s.next_message_id k v m eq a.2 in
      let i : s'.next_message_id ≡ suc s.next_message_id = omega arith in
      let ih = drain_loop-Drains fuel m s' r (rw (i, ← n) a.2) (omega arith) in
      let lead : leading s.next_message_id s.received ≡ (k, v) ∷ leading (suc s.next_message_id) m =
        rw (e, eq) in
      let trail : trailing s.next_message_id s.received ≡ trailing (suc s.next_message_id) m =
        rw (e, eq) in
      let later : leading s'.next_message_id s'.received ≡ leading (suc s.next_message_id) m =
        rw (r, i) in
      rw (f, drain_loop)
        (record {
          items = rw (lead, ih.items, later, n);
          rest = rw trail (ih.rest ∙ rw (r, i));
          next = rw lead (omega (arith, ih.next, i, ap length later));
          gap = ih.gap;
          seen = ih.seen;
          timeout = ih.timeout;
        })
  | inr ne ↦
      let f : lookup s.next_message_id s.received ≡ none =
        rw e (lookup-first s.next_message_id ((k, v) ∷ m) a ∙ if_false _ _ ne) in
      rw (f, drain_loop)
        (record {
          items = rw (e, ne);
          rest = rw (e, ne);
          next = rw (e, ne) (omega arith);
          gap = refl;
          seen = refl;
          timeout = refl;
        })
]

-- What a state satisfies between two calls: no packet before the expected one is kept.
pub record IsValid (s : Reorder) : Type 0 where
  pub above : Above s.next_message_id s.received
  pub next_small : s.next_message_id ≤ max_id

-- `drainReceivedDataMap` delivers exactly the packets with the ids `n`, `n + 1`, … with which the
-- map begins, `n` the expected id; it leaves the others, and advances the expected id by as many.
-- Condition: the map holds no id before the expected one.
pub drain_received_data_map-Drains :
    (s : Reorder) → IsValid s → Drains s (drain_received_data_map s)
unfolding drain_received_data_map
drain_received_data_map-Drains s v =
    drain_loop-Drains (suc (length s.received)) s.received s refl v.above (omega arith)

pub ids-leading :
    (n : ℕ) (m : ReceivedMap)
    → ids (map to_delivery (leading n m)) ≡ count_up n (length (leading n m))
unfolding leading count_up to_delivery
ids-leading n [] = refl
ids-leading n ((k, v) ∷ m) = ground (arith, ids-leading (suc n) m)

leading_small :
    (n : ℕ) (m : ReceivedMap) → Above n m → n ≤ max_id → n + length (leading n m) ≤ max_id
unfolding leading
leading_small n [] a h = omega arith
leading_small n ((k, v) ∷ m) a h = elim (Bool-cases (k == n)) [
  | inl e ↦
      let k_n : k ≡ n = ==→eq _ _ e in
      let ih = leading_small (suc n) m (rw k_n at a.2) (omega arith) in rw e (omega arith)
  | inr ne ↦ rw ne (omega arith)
]

-- After a drain the expected packet is not there.
pub record Drained (s : Reorder) (out : List DeliveryItem × Reorder) : Type 0 where
  pub valid : IsValid out.1
  pub nothing_next : lookup out.1.next_message_id out.1.received ≡ none
  pub in_order : ids out.0 ≡ count_up s.next_message_id (length out.0)
  pub advance : out.1.next_message_id ≡ s.next_message_id + length out.0

pub drain-Drained : (s : Reorder) → IsValid s → Drained s (drain_received_data_map s)
drain-Drained s v =
    let n = s.next_message_id in
    let d = drain_received_data_map-Drains s v in
    let t = trailing-Above n s.received v.above in
    let k : length (drain_received_data_map s).0 ≡ length (leading n s.received) =
      ap length d.items ∙ length-map to_delivery (leading n s.received) in
    let small = leading_small n s.received v.above v.next_small in
    record {
      valid = record {
        above = rw (d.rest, d.next) (Above-mono _ _ _ (omega arith) t);
        next_small = omega (arith, d.next);
      };
      nothing_next = rw (d.rest, d.next) (lookup-Above _ _ _ t (omega arith));
      in_order = rw (k, d.items) (ids-leading n s.received);
      advance = d.next ∙ ap (◌+◌ n) (sym k);
    }

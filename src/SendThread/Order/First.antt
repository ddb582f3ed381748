-- ===== src/SendThread/Order/First.antt =====
-- Which connection is tried first for a packet, src/common/TcpVCSendThread.cpp.
use mathlib.Core.Bool.{false≢true}
use native.Mathlib.Nat.{mod-lt, mod-eq_of_lt, mod-add-mod, add-mul-mod_self_right}
use tcpudp.Base.{
  ℕ, zero, suc, ◌+◌, ◌-◌, ◌%◌, ◌≤◌, ◌<◌, ◌≡◌, sym, ap, ◌∙◌, arith, true, false, List, some, length,
  get_elem?, ltb, All, Bool-cases, inl, inr, subst, if_true, if_false, ltb→le, ltb→lt, ◌*◌,
}
use tcpudp.Base.Int.{ℤ, negsuc, non_negative, greater}
use tcpudp.SendThread.Order.{
  score_at, best, any_eligible, sorted_order, leading, rotate_count, rotated, send_order,
  next_start,
}
use tcpudp.SendThread.Order.Sorting.{sorted_order_once, length-sorted_order, sorted_order-IsSorted}
use tcpudp.SendThread.Order.Leading.{
  best_score-ge, best_score_attained, leading-le, leading_best, leading_reaches, rotate-first,
  count-get_elem?, All-count,
}

-- The length of the leading run.
abbrev run : List ℤ → ℕ
run scores = leading scores (best scores) (sorted_order scores)

module _ (scores : List ℤ) (eligible : any_eligible scores ≡ true) where
  -- A connection with the best score stands in the leading run.
  in_run :
      (i : ℕ)
      → i < length scores
      → score_at scores i ≡ best scores
      → (k : ℕ) × (k < run scores) × (get_elem? (sorted_order scores) k ≡ some i)
  in_run i h e =
      let order = sorted_order scores in
      let (k, below, found) =
        count-get_elem? i order (ground (arith, sorted_order_once scores i)) in
      let bounded : All (λ j. greater (score_at scores j) (best scores) ≡ false) order =
        All-count (λ j. greater (score_at scores j) (best scores) ≡ false) order
          (λ j c. best_score-ge (negsuc 0) scores j (ground (arith, sorted_order_once scores j))) in
      (
        k,
        leading_reaches scores (best scores) order k i (sorted_order-IsSorted scores) bounded found
            e,
        found,
      )

  run_positive : 0 < run scores
  run_positive = elim (best_score_attained (negsuc 0) scores) [
    | inl e ↦ absurd (false≢true (ap non_negative (sym e) ∙ eligible))
    | inr (i, below, e) ↦ let (k, h, found) = in_run i below e in omega arith
  ]

  -- The first connection of the order is the one of the leading run that the counter picks.
  send_order-first :
      (start : ℕ)
      → get_elem? (send_order scores start) 0 ≡ get_elem? (sorted_order scores) (start % run scores)
  unfolding send_order rotated rotate_count
  send_order-first start =
      let order = sorted_order scores in
      let n = run scores in
      let pick : start % n < n = mod-lt start run_positive in
      let bound : n ≤ length order = leading-le scores (best scores) order in
      ap (λ c. get_elem? (rotated start c order) 0) (if_true _ _ eligible)
      ∙ elim (Bool-cases (ltb 1 n)) [
        | inl many ↦
            ap (λ xs. get_elem? xs 0) (if_true _ _ many)
            ∙ rotate-first (start % n) n order pick bound
        | inr one ↦
            let none_left : 0 ≡ start % n = omega (arith, pick, ltb→le 1 n one) in
            ap (λ xs. get_elem? xs 0) (if_false _ _ one) ∙ ap (get_elem? order) none_left
      ]

  -- If some data connection can be used, the first one that is tried has the best score: no other
  -- has a higher one.
  pub first_is_best :
      (start : ℕ)
      → (first : ℕ) × (get_elem? (send_order scores start) 0 ≡ some first)
        × (score_at scores first ≡ best scores)
        × ((i : ℕ)
            → i < length scores
            → greater (score_at scores i) (score_at scores first) ≡ false)
  first_is_best start =
      let pick : start % run scores < run scores = mod-lt start run_positive in
      let (first, found, e) =
        leading_best scores (best scores) (sorted_order scores) (start % run scores) pick in
      (
        first,
        send_order-first start ∙ found,
        e,
        λ i h.
            subst (λ s. greater (score_at scores i) s ≡ false) (sym e)
              (best_score-ge (negsuc 0) scores i h),
      )

-- The counter after a number of packets.
unfoldable pub start_after : ℕ → ℕ → ℕ → ℕ
start_after zero n start = start
start_after (suc packets) n start = next_start n (start_after packets n start)

start_after-mod :
    (packets n start : ℕ) → start < n → start_after packets n start ≡ (start + packets) % n
unfolding start_after next_start
start_after-mod zero n start h =
    let e : start + 0 ≡ start = omega arith in sym (ap (λ s. s % n) e ∙ mod-eq_of_lt h)
start_after-mod (suc packets) n start h =
    let e : start + packets + 1 ≡ start + suc packets = omega arith in
    ap (λ s. (s + 1) % n) (start_after-mod packets n start h)
    ∙ mod-add-mod (start + packets) n 1
    ∙ ap (λ s. s % n) e

-- The counter passes each value below its bound.
pub passes :
    (start k n : ℕ)
    → start < n
    → k < n
    → (packets : ℕ) × (packets < n) × ((start + packets) % n ≡ k)
passes start k n h below = elim (Bool-cases (ltb k start)) [
  | inl past ↦
      let before : k < start = ltb→lt k start past in
      let e : start + (k + n - start) ≡ k + 1 * n = omega arith in
      (
        k + n - start,
        omega arith,
        ap (λ s. s % n) e ∙ add-mul-mod_self_right k 1 n ∙ mod-eq_of_lt below,
      )
  | inr ahead ↦
      let from : start ≤ k = ltb→le k start ahead in
      let e : start + (k - start) ≡ k = omega arith in
      (k - start, omega arith, ap (λ s. s % n) e ∙ mod-eq_of_lt below)
]

module _ (scores : List ℤ) (eligible : any_eligible scores ≡ true) where
  -- While the scores stay as they are, each connection with the best score is the first choice of
  -- one of the next packets, as many as there are data connections. Condition: the counter is below
  -- their number, as it is after each packet.
  pub best_gets_a_turn :
      (start i : ℕ)
      → start < length scores
      → i < length scores
      → score_at scores i ≡ best scores
      → (packets : ℕ) × (packets < length scores)
        × (get_elem? (send_order scores (start_after packets (length scores) start)) 0 ≡ some i)
  best_gets_a_turn start i h k e =
      let n = length scores in
      let order = sorted_order scores in
      let (j, early, found) = in_run scores eligible i k e in
      let fits : run scores ≤ n =
        omega (arith, leading-le scores (best scores) order, length-sorted_order scores) in
      let (packets, few, lands) = passes start j n h (omega arith) in
      (
        packets,
        few,
        send_order-first scores eligible (start_after packets n start)
            ∙ ap (λ s. get_elem? order (s % run scores)) (start_after-mod packets n start h ∙ lands)
            ∙ ap (get_elem? order) (mod-eq_of_lt early)
            ∙ found,
      )

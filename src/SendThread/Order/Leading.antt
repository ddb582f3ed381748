-- ===== src/SendThread/Order/Leading.antt =====
-- The leading run of best-scored connections in the order of src/common/TcpVCSendThread.cpp.
use mathlib.Core.Option.{none-ne-some, some-injective}
use tcpudp.Base.{
  All-get_elem?, count, ℕ, zero, suc, ◌≤◌, ◌<◌, ◌≡◌, refl, sym, ap, ◌∙◌, arith, true, false, List,
  [], ◌∷◌, ◌++◌, some, length, length-append, get_elem?, take, drop, ◌==◌, ==→eq, ==_refl,
  if◌then◌else◌, All, Bool-cases, inl, inr, ◌⊎◌, subst, length-take, length-drop, if_true, if_false,
}
use tcpudp.Base.Int.{
  ℤ, greater, equal, equal→≡, equal_refl, greater_irrefl, greater_asym, greater_trans,
  greater_antisym,
}
use tcpudp.SendThread.Order.{score_at, best_score, scored_before, leading, rotate}
use tcpudp.SendThread.Order.Sorting.{IsSorted}

pub best_score-ge_start :
    (best : ℤ) (scores : List ℤ) → greater best (best_score best scores) ≡ false
unfolding best_score
best_score-ge_start best [] = greater_irrefl best
best_score-ge_start best (x ∷ xs) = elim (Bool-cases (greater x best)) [
  | inl e ↦
      rw (e, best_score)
        (greater_trans best x (best_score x xs) (greater_asym x best e) (best_score-ge_start x xs))
  | inr e ↦ rw (e, best_score) (best_score-ge_start best xs)
]

-- No score is above the best one.
pub best_score-ge :
    (best : ℤ) (scores : List ℤ) (i : ℕ)
    → i < length scores
    → greater (score_at scores i) (best_score best scores) ≡ false
unfolding best_score
best_score-ge best [] i h = elim h [ ]
best_score-ge best (x ∷ xs) zero h = elim (Bool-cases (greater x best)) [
  | inl e ↦ rw (e, best_score) (best_score-ge_start x xs)
  | inr e ↦
      rw (e, best_score) (greater_trans x best (best_score best xs) e (best_score-ge_start best xs))
]
best_score-ge best (x ∷ xs) (suc i) h =
    best_score-ge (if greater x best then x else best) xs i (omega arith)

-- The best score is the one that the loop starts with, or a connection has it.
pub best_score_attained :
    (best : ℤ) (scores : List ℤ)
    → (best_score best scores ≡ best)
      ⊎ ((i : ℕ) × (i < length scores) × (score_at scores i ≡ best_score best scores))
unfolding best_score
best_score_attained best [] = inl refl
best_score_attained best (x ∷ xs) =
    attained (best_score_attained (if greater x best then x else best) xs)
      (Bool-cases (greater x best))
  where
    attained :
        (best_score (if greater x best then x else best) xs ≡ (if greater x best then x else best))
          ⊎ ((i : ℕ) × (i < length xs)
              × (score_at xs i ≡ best_score (if greater x best then x else best) xs))
        → (greater x best ≡ true) ⊎ (greater x best ≡ false)
        → (best_score best (x ∷ xs) ≡ best)
          ⊎ ((i : ℕ) × (i < length (x ∷ xs)) × (score_at (x ∷ xs) i ≡ best_score best (x ∷ xs)))
    attained (inr (i, h, e)) s = inr (suc i, omega arith, e)
    attained (inl e) (inl g) = inr (0, omega arith, sym (e ∙ if_true _ _ g))
    attained (inl e) (inr g) = inl (e ∙ if_false _ _ g)

pub leading-le : (scores : List ℤ) (best : ℤ) (xs : List ℕ) → leading scores best xs ≤ length xs
unfolding leading
leading-le scores best [] = omega arith
leading-le scores best (x ∷ xs) = ground (arith, leading-le scores best xs)

-- What stands in the leading run has the best score.
pub leading_best :
    (scores : List ℤ) (best : ℤ) (xs : List ℕ) (k : ℕ)
    → k < leading scores best xs
    → (i : ℕ) × (get_elem? xs k ≡ some i) × (score_at scores i ≡ best)
unfolding leading
leading_best scores best [] k h = elim h [ ]
leading_best scores best (x ∷ xs) zero h =
    (x, refl, equal→≡ (score_at scores x) best (ground arith))
leading_best scores best (x ∷ xs) (suc k) h = leading_best scores best xs k (ground arith)

-- In a sorted order every connection with the best score stands in the leading run.
pub leading_reaches :
    (scores : List ℤ) (best : ℤ) (xs : List ℕ) (k i : ℕ)
    → IsSorted scores xs
    → All (λ j. greater (score_at scores j) best ≡ false) xs
    → get_elem? xs k ≡ some i
    → score_at scores i ≡ best
    → k < leading scores best xs
unfolding leading
leading_reaches scores best [] k i h b e s = absurd (none-ne-some i e)
leading_reaches scores best (x ∷ xs) zero i h b e s =
    let same : equal (score_at scores x) best ≡ true =
      ap (λ j. equal (score_at scores j) best) (some-injective _ _ e)
      ∙ ap (λ y. equal y best) s
      ∙ equal_refl best in
    rw (same, leading) (omega arith)
leading_reaches scores best (x ∷ xs) (suc k) i h b e s =
    let below : scored_before scores i x ≡ false =
      All-get_elem? (λ y. scored_before scores y x ≡ false) xs k i h.0 e in
    let same : equal (score_at scores x) best ≡ true =
      greater_antisym (score_at scores x) best b.0
        (subst (λ y. greater y (score_at scores x) ≡ false) s below) in
    let rest = leading_reaches scores best xs k i h.1 b.1 e s in rw (same, leading) (omega arith)

get_elem?-append : (xs ys : List ℕ) → 0 < length xs → get_elem? (xs ++ ys) 0 ≡ get_elem? xs 0
get_elem?-append [] ys h = elim h [ ]
get_elem?-append (x ∷ xs) ys h = refl

get_elem?-drop : (n : ℕ) (xs : List ℕ) → get_elem? (drop n xs) 0 ≡ get_elem? xs n
get_elem?-drop zero xs = refl
get_elem?-drop (suc n) [] = refl
get_elem?-drop (suc n) (x ∷ xs) = get_elem?-drop n xs

get_elem?-take : (n k : ℕ) (xs : List ℕ) → k < n → get_elem? (take n xs) k ≡ get_elem? xs k
get_elem?-take zero k xs h = elim h [ ]
get_elem?-take (suc n) k [] h = refl
get_elem?-take (suc n) zero (x ∷ xs) h = refl
get_elem?-take (suc n) (suc k) (x ∷ xs) h = get_elem?-take n k xs (omega arith)

-- A rotation of the leading run starts at the pick.
pub rotate-first :
    (pick n : ℕ) (xs : List ℕ)
    → pick < n
    → n ≤ length xs
    → get_elem? (rotate pick n xs) 0 ≡ get_elem? xs pick
unfolding rotate
rotate-first pick n xs p h =
    let front = take n xs in
    let piece : 0 < length (drop pick front) =
      omega (arith, length-drop pick front, length-take n xs) in
    let pieces : 0 < length (drop pick front ++ take pick front) =
      omega (arith, length-append (drop pick front) (take pick front)) in
    get_elem?-append (drop pick front ++ take pick front) (drop n xs) pieces
    ∙ get_elem?-append (drop pick front) (take pick front) piece
    ∙ get_elem?-drop pick front
    ∙ get_elem?-take n pick xs p

pub count-get_elem? :
    (i : ℕ) (xs : List ℕ) → 0 < count i xs → (k : ℕ) × (k < length xs) × (get_elem? xs k ≡ some i)
count-get_elem? i [] h = elim h [ ]
count-get_elem? i (x ∷ xs) h = elim (Bool-cases (x == i)) [
  | inl e ↦ (0, omega arith, ap some (==→eq x i e))
  | inr e ↦
      let (k, below, found) = count-get_elem? i xs (ground arith) in (suc k, omega arith, found)
]

pub All-count : (P : ℕ → Type 0) (xs : List ℕ) → ((i : ℕ) → 0 < count i xs → P i) → All P xs
All-count P [] h = tt
All-count P (x ∷ xs) h =
    let here : 0 < count x (x ∷ xs) = ground (arith, ==_refl x) in
    (h x here, All-count P xs (λ i k. h i (ground arith)))

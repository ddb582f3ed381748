-- ===== src/SendThread/Order/Sorting.antt =====
-- The sort of the send thread's order, src/common/TcpVCSendThread.cpp.
use tcpudp.Base.{
  ℕ, zero, suc, ◌+◌, ◌%◌, ◌≤◌, ◌<◌, ◌≡◌, refl, sym, ap, ◌∙◌, arith, Bool, true, false, List, [],
  ◌∷◌, ◌++◌, length, take, drop, take-append-drop, ltb, if◌then◌else◌, All, Bool-cases, inl, inr,
  if_true, if_false, count, count-append, All-map, ap₂,
}
use tcpudp.Base.Int.{ℤ, greater, equal→≡, equal_refl, greater_irrefl, greater_asym, greater_trans}
use tcpudp.SendThread.Order.{
  score_at, all_equal, uniform_scores, iota, insert_by, stable_sort, scored_before, sorted_order,
  rotate, rotate_count, rotated, send_order,
}

count-insert_by :
    (before : ℕ → ℕ → Bool) (i x : ℕ) (ys : List ℕ)
    → count i (insert_by before x ys) ≡ count i (x ∷ ys)
unfolding insert_by
count-insert_by before i x [] = refl
count-insert_by before i x (y ∷ ys) = ground (arith, count-insert_by before i x ys)

count-stable_sort :
    (before : ℕ → ℕ → Bool) (i : ℕ) (xs : List ℕ) → count i (stable_sort before xs) ≡ count i xs
unfolding stable_sort
count-stable_sort before i [] = refl
count-stable_sort before i (x ∷ xs) =
    ground
      (arith, count-insert_by before i x (stable_sort before xs), count-stable_sort before i xs)

count-rotate : (i pick n : ℕ) (xs : List ℕ) → count i (rotate pick n xs) ≡ count i xs
unfolding rotate
count-rotate i pick n xs =
    let front = take n xs in
    omega (
      arith,
      count-append i (drop pick front ++ take pick front) (drop n xs),
      count-append i (drop pick front) (take pick front),
      count-append i (take pick front) (drop pick front),
      count-append i front (drop n xs),
      ap (count i) (take-append-drop pick front),
      ap (count i) (take-append-drop n xs),
    )

count-iota :
    (i from n : ℕ)
    → count i (iota from n) ≡ (if ltb i from then 0 else if ltb i (from + n) then 1 else 0)
unfolding iota
count-iota i from zero = ground arith
count-iota i from (suc n) = ground (arith, count-iota i (from + 1) n)

count-sorted_order :
    (i : ℕ) (scores : List ℤ) → count i (sorted_order scores) ≡ count i (iota 0 (length scores))
unfolding sorted_order
count-sorted_order i scores =
    ground (arith, count-stable_sort (scored_before scores) i (iota 0 (length scores)))

pub sorted_order_once :
    (scores : List ℤ) (i : ℕ)
    → count i (sorted_order scores) ≡ (if ltb i (length scores) then 1 else 0)
sorted_order_once scores i =
    ground (arith, count-sorted_order i scores, count-iota i 0 (length scores))

length-insert_by :
    (before : ℕ → ℕ → Bool) (x : ℕ) (ys : List ℕ) → length (insert_by before x ys) ≡ suc (length ys)
unfolding insert_by
length-insert_by before x [] = refl
length-insert_by before x (y ∷ ys) = ground (arith, length-insert_by before x ys)

length-stable_sort :
    (before : ℕ → ℕ → Bool) (xs : List ℕ) → length (stable_sort before xs) ≡ length xs
unfolding stable_sort
length-stable_sort before [] = refl
length-stable_sort before (x ∷ xs) =
    length-insert_by before x (stable_sort before xs) ∙ ap suc (length-stable_sort before xs)

length-iota : (from n : ℕ) → length (iota from n) ≡ n
unfolding iota
length-iota from zero = refl
length-iota from (suc n) = ap suc (length-iota (from + 1) n)

pub length-sorted_order : (scores : List ℤ) → length (sorted_order scores) ≡ length scores
unfolding sorted_order
length-sorted_order scores = ground (
  arith,
  length-stable_sort (scored_before scores) (iota 0 (length scores)),
  length-iota 0 (length scores),
)

-- Whatever the scores and the counter are, the order names each data connection exactly once, and
-- nothing else.
send_order_once :
    (scores : List ℤ) (start i : ℕ)
    → count i (send_order scores start) ≡ (if ltb i (length scores) then 1 else 0)
unfolding send_order rotated
send_order_once scores start i =
    let order = sorted_order scores in
    let n = rotate_count scores order in
    ground (arith, count-rotate i (start % n) n order, sorted_order_once scores i)

-- No connection stands behind one with a lower score.
abbrev pub IsSorted : List ℤ → List ℕ → Type 0
IsSorted scores [] = Unit {0}
IsSorted scores (x ∷ xs) = All (λ y. scored_before scores y x ≡ false) xs × IsSorted scores xs

All-insert_by :
    (P : ℕ → Type 0) (before : ℕ → ℕ → Bool) (x : ℕ) (ys : List ℕ)
    → P x
    → All P ys
    → All P (insert_by before x ys)
unfolding insert_by
All-insert_by P before x [] p h = (p, tt)
All-insert_by P before x (y ∷ ys) p h = elim (Bool-cases (before y x)) [
  | inl e ↦ rw (e, insert_by) (h.0, All-insert_by P before x ys p h.1)
  | inr e ↦ rw (e, insert_by) (p, h)
]

insert_by-IsSorted :
    (scores : List ℤ) (x : ℕ) (ys : List ℕ)
    → IsSorted scores ys
    → IsSorted scores (insert_by (scored_before scores) x ys)
unfolding insert_by
insert_by-IsSorted scores x [] h = (tt, tt)
insert_by-IsSorted scores x (y ∷ ys) h = elim (Bool-cases (scored_before scores y x)) [
  | inl e ↦
      rw (e, insert_by)
        (
          All-insert_by (λ z. scored_before scores z y ≡ false) (scored_before scores) x ys
              (greater_asym (score_at scores y) (score_at scores x) e) h.0,
          insert_by-IsSorted scores x ys h.1,
        )
  | inr e ↦
      rw (e, insert_by)
        (
          (
            e,
            All-map
                (λ z k.
                  greater_trans (score_at scores z) (score_at scores y) (score_at scores x) k e)
                ys h.0,
          ),
          h,
        )
]

stable_sort-IsSorted :
    (scores : List ℤ) (xs : List ℕ) → IsSorted scores (stable_sort (scored_before scores) xs)
unfolding stable_sort
stable_sort-IsSorted scores [] = tt
stable_sort-IsSorted scores (x ∷ xs) =
    insert_by-IsSorted scores x (stable_sort (scored_before scores) xs)
      (stable_sort-IsSorted scores xs)

-- A list of items none of which comes before another is sorted as it is.
insert_by_front :
    (before : ℕ → ℕ → Bool) (x : ℕ) (ys : List ℕ)
    → All (λ y. before y x ≡ false) ys
    → insert_by before x ys ≡ x ∷ ys
unfolding insert_by
insert_by_front before x [] h = refl
insert_by_front before x (y ∷ ys) h = if_false _ _ h.0

stable_sort_same :
    (P : ℕ → Type 0) (before : ℕ → ℕ → Bool) (xs : List ℕ)
    → ((a b : ℕ) → P a → P b → before a b ≡ false)
    → All P xs
    → stable_sort before xs ≡ xs
unfolding stable_sort
stable_sort_same P before [] same h = refl
stable_sort_same P before (x ∷ xs) same h =
    ap (insert_by before x) (stable_sort_same P before xs same h.1)
    ∙ insert_by_front before x xs (All-map (λ y p. same y x p h.0) xs h.1)

iota_below : (from n top : ℕ) → from + n ≤ top → All (λ i. i < top) (iota from n)
unfolding iota
iota_below from zero top h = tt
iota_below from (suc n) top h = (omega arith, iota_below (from + 1) n top (omega arith))

score_at-all_equal :
    (first : ℤ) (scores : List ℤ) (i : ℕ)
    → all_equal first scores ≡ true
    → i < length scores
    → score_at scores i ≡ first
score_at-all_equal first [] i h k = elim k [ ]
score_at-all_equal first (x ∷ xs) zero h k = equal→≡ x first (ground arith)
score_at-all_equal first (x ∷ xs) (suc i) h k =
    score_at-all_equal first xs i (ground arith) (omega arith)

uniform_same :
    (scores : List ℤ) (i j : ℕ)
    → uniform_scores scores ≡ true
    → i < length scores
    → j < length scores
    → scored_before scores i j ≡ false
unfolding uniform_scores
uniform_same [] i j u h k = elim h [ ]
uniform_same (x ∷ xs) i j u h k =
    let all : all_equal x (x ∷ xs) ≡ true = rw (equal_refl x) u in
    let p = score_at-all_equal x (x ∷ xs) i all h in
    let q = score_at-all_equal x (x ∷ xs) j all k in ap₂ greater p q ∙ greater_irrefl x

-- Leaving out the sort when all scores are equal makes no difference.
pub sorted_order-stable_sort :
    (scores : List ℤ)
    → sorted_order scores ≡ stable_sort (scored_before scores) (iota 0 (length scores))
unfolding sorted_order
sorted_order-stable_sort scores = elim (Bool-cases (uniform_scores scores)) [
  | inl u ↦
      if_true _ _ u
      ∙ sym (
          stable_sort_same (λ i. i < length scores) (scored_before scores) (iota 0 (length scores))
            (λ i j h k. uniform_same scores i j u h k)
            (iota_below 0 (length scores) (length scores) (omega arith)))
  | inr u ↦ if_false _ _ u
]

pub sorted_order-IsSorted : (scores : List ℤ) → IsSorted scores (sorted_order scores)
sorted_order-IsSorted scores =
    rw (sorted_order-stable_sort scores) (stable_sort-IsSorted scores (iota 0 (length scores)))

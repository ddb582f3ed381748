-- ===== src/SendThread/Order.antt =====
-- src/common/TcpVCSendThread.cpp, run: the order in which the data connections are tried for a packet,
-- from their scores and the round-robin counter.
pub mod Sorting
pub mod First
mod Leading
use tcpudp.Base.{
  ℕ, zero, suc, ◌+◌, ◌%◌, Bool, true, false, List, [], ◌∷◌, ◌++◌, length, take, drop, ltb, ◌&&◌,
  if◌then◌else◌,
}
use tcpudp.Base.Int.{ℤ, negsuc, greater, equal, non_negative}

-- `scores[i]`
abbrev pub score_at : List ℤ → ℕ → ℤ
score_at [] i = negsuc 0
score_at (x ∷ xs) zero = x
score_at (x ∷ xs) (suc i) = score_at xs i

-- `bestScore`, and `uniformScores`, of a loop over the scores.
unfoldable pub best_score : ℤ → List ℤ → ℤ
best_score best [] = best
best_score best (x ∷ xs) = best_score (if greater x best then x else best) xs

-- The best score of the data connections.
abbrev pub best : List ℤ → ℤ
best scores = best_score (negsuc 0) scores

-- `anyEligible`
abbrev pub any_eligible : List ℤ → Bool
any_eligible scores = non_negative (best scores)

abbrev all_equal : ℤ → List ℤ → Bool
all_equal first [] = true
all_equal first (x ∷ xs) = equal x first && all_equal first xs

unfoldable pub uniform_scores : List ℤ → Bool
uniform_scores [] = true
uniform_scores (x ∷ xs) = all_equal x xs

-- `order[i] = i`, from some index on.
unfoldable pub iota : ℕ → ℕ → List ℕ
iota from zero = []
iota from (suc n) = from ∷ iota (from + 1) n

-- `std::stable_sort`, as insertion from the back: an item comes before its equals that follow it.
module _ (before : ℕ → ℕ → Bool) where
  unfoldable pub insert_by : ℕ → List ℕ → List ℕ
  insert_by x [] = x ∷ []
  insert_by x (y ∷ ys) = let rest = insert_by x ys in if before y x then y ∷ rest else x ∷ y ∷ ys

  unfoldable pub stable_sort : List ℕ → List ℕ
  stable_sort [] = []
  stable_sort (x ∷ xs) = insert_by x (stable_sort xs)

-- `scores[a] > scores[b]`
abbrev pub scored_before : List ℤ → ℕ → ℕ → Bool
scored_before scores a b = greater (score_at scores a) (score_at scores b)

unfoldable pub sorted_order : List ℤ → List ℕ
sorted_order scores =
    let identity = iota 0 (length scores) in
    if uniform_scores scores then identity else stable_sort (scored_before scores) identity

-- The leading run of connections with the best score.
unfoldable pub leading : List ℤ → ℤ → List ℕ → ℕ
leading scores score [] = 0
leading scores score (i ∷ is) =
    let run = leading scores score is in if equal (score_at scores i) score then suc run else 0

-- `std::rotate(begin, begin + pick, begin + count)`
unfoldable pub rotate : ℕ → ℕ → List ℕ → List ℕ
rotate pick count xs = (drop pick (take count xs) ++ take pick (take count xs)) ++ drop count xs

unfoldable pub rotate_count : List ℤ → List ℕ → ℕ
rotate_count scores order =
    if any_eligible scores then leading scores (best scores) order else length scores

unfoldable pub rotated : ℕ → ℕ → List ℕ → List ℕ
rotated start count order = if ltb 1 count then rotate (start % count) count order else order

-- The order of a packet, of `roundRobinStart`; and the counter after it.
unfoldable pub send_order : List ℤ → ℕ → List ℕ
send_order scores start =
    let order = sorted_order scores in rotated start (rotate_count scores order) order

unfoldable pub next_start : ℕ → ℕ → ℕ
next_start num_data_conns start = (start + 1) % num_data_conns

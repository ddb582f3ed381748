-- ===== src/Reorder/Map.antt =====
-- The ordered map of received packets: its keys ascend from the expected id on.
use tcpudp.Base.{
  ℕ, suc, ◌+◌, ◌-◌, ◌^◌, ◌≤◌, ◌<◌, ◌≡◌, refl, Bool, [], ◌∷◌, ◌++◌, Option, none, some, arith, ◌==◌,
  if◌then◌else◌, Bool-cases, inl, inr, length,
}
use tcpudp.Base.Assoc.{lookup, erase}
use tcpudp.Reorder.{ReceivedItem, ReceivedMap, try_emplace}

-- Message ids stay below the last one, 2^64 - 1, so that the id after each is no wrap.
abbrev pub max_id : ℕ
max_id = 2 ^ 64 - 1

-- The keys ascend, from `n` at least.
abbrev pub Above : ℕ → ReceivedMap → Type 0
Above n [] = Unit {0}
Above n ((k, v) ∷ m) = (n ≤ k) × (k < max_id) × Above (suc k) m

pub Above-mono : (n k : ℕ) (m : ReceivedMap) → n ≤ k → Above k m → Above n m
Above-mono n k [] h a = tt
Above-mono n k ((j, w) ∷ m) h a = (omega arith, a.1, a.2)

pub lookup-Above : (k n : ℕ) (m : ReceivedMap) → Above n m → k < n → lookup k m ≡ none
unfolding lookup
lookup-Above k n [] a h = refl
lookup-Above k n ((j, w) ∷ m) a h = ground (arith, lookup-Above k (suc j) m a.2)

pub erase-Above : (k n : ℕ) (m : ReceivedMap) → Above n m → k < n → erase k m ≡ m
unfolding erase
erase-Above k n [] a h = refl
erase-Above k n ((j, w) ∷ m) a h = ground (arith, erase-Above k (suc j) m a.2)

pub try_emplace-Above :
    (k : ℕ) (v : ReceivedItem) (n : ℕ) (m : ReceivedMap)
    → Above n m
    → n ≤ k
    → k < max_id
    → Above n (try_emplace k v m)
unfolding try_emplace
try_emplace-Above k v n [] a h l = (h, l, tt)
try_emplace-Above k v n ((j, w) ∷ m) a h l = ground (arith, try_emplace-Above k v (suc j) m a.2)

-- The first packet with an id is kept, and a later one dropped.
unfoldable pub keep_first : Option ReceivedItem → Bool → ReceivedItem → Option ReceivedItem
keep_first (some w) b v = some w
keep_first none b v = if b then some v else none

pub lookup-try_emplace :
    (k j : ℕ) (v : ReceivedItem) (n : ℕ) (m : ReceivedMap)
    → Above n m
    → lookup j (try_emplace k v m) ≡ keep_first (lookup j m) (k == j) v
unfolding lookup try_emplace keep_first
lookup-try_emplace k j v n [] a = refl
lookup-try_emplace k j v n ((i, w) ∷ m) a =
    ground (arith, lookup-try_emplace k j v (suc i) m a.2, lookup-Above k (suc i) m a.2)

-- The entries with the ids `n`, `n + 1`, … that the map begins with, and the others.
unfoldable pub leading : ℕ → ReceivedMap → ReceivedMap
leading n [] = []
leading n ((k, v) ∷ m) = let rest = leading (suc n) m in if k == n then (k, v) ∷ rest else []

unfoldable pub trailing : ℕ → ReceivedMap → ReceivedMap
trailing n [] = []
trailing n ((k, v) ∷ m) = let rest = trailing (suc n) m in if k == n then rest else (k, v) ∷ m

pub leading-append-trailing : (n : ℕ) (m : ReceivedMap) → leading n m ++ trailing n m ≡ m
unfolding leading trailing
leading-append-trailing n [] = refl
leading-append-trailing n ((k, v) ∷ m) = ground (arith, leading-append-trailing (suc n) m)

pub trailing-Above :
    (n : ℕ) (m : ReceivedMap) → Above n m → Above (suc (n + length (leading n m))) (trailing n m)
unfolding leading trailing
trailing-Above n [] a = tt
trailing-Above n ((k, v) ∷ m) a = elim (Bool-cases (k == n)) [
  | inl e ↦ rw e (
      Above-mono _ _ _ (omega arith)
        (trailing-Above (suc n) m (Above-mono _ _ m (ground arith) a.2)))
  | inr ne ↦ rw ne (ground arith, a.1, a.2)
]

-- What the loop of `drainReceivedDataMap` finds at the expected id.
pub lookup-first :
    (n : ℕ) (m : ReceivedMap)
    → Above n m
    → lookup n m ≡ (elim m [ [] ↦ none | (k, v) ∷ r ↦ if k == n then some v else none ])
unfolding lookup
lookup-first n [] a = refl
lookup-first n ((k, v) ∷ m) a = ground (arith, lookup-Above n (suc k) m a.2)

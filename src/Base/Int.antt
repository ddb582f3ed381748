-- ===== src/Base/Int.antt =====
-- `int`, as far as the program tests and stores it: an index, a score, or a negative code.
use Prim.Native.Nat.{ℕ}
use mathlib.Core.Path.{◌≡◌}
use mathlib.Core.Bool.{Bool, true, false}
use native.Mathlib.Omega.{arith}
use tcpudp.Base.Tests.{ltb, ◌==◌}

-- `negsuc n` is -(n + 1).
pub data ℤ : Type 0 where
  pos : ℕ → ℤ
  negsuc : ℕ → ℤ

-- `x >= 0 && x < size`
abbrev pub in_range : ℤ → ℕ → Bool
in_range (pos n) size = ltb n size
in_range (negsuc n) size = false

-- `x >= 0`
abbrev pub non_negative : ℤ → Bool
non_negative (pos n) = true
non_negative (negsuc n) = false

-- `x > y`
abbrev pub greater : ℤ → ℤ → Bool
greater (pos a) (pos b) = ltb b a
greater (pos a) (negsuc b) = true
greater (negsuc a) (pos b) = false
greater (negsuc a) (negsuc b) = ltb a b

-- `x == y`
abbrev pub equal : ℤ → ℤ → Bool
equal (pos a) (pos b) = a == b
equal (pos a) (negsuc b) = false
equal (negsuc a) (pos b) = false
equal (negsuc a) (negsuc b) = a == b

pub equal→≡ : (x y : ℤ) → equal x y ≡ true → x ≡ y
equal→≡ (pos a) (pos b) h = ground arith
equal→≡ (pos a) (negsuc b) h = cc
equal→≡ (negsuc a) (pos b) h = cc
equal→≡ (negsuc a) (negsuc b) h = ground arith

pub equal_refl : (x : ℤ) → equal x x ≡ true
equal_refl (pos a) = ground arith
equal_refl (negsuc a) = ground arith

pub greater_irrefl : (x : ℤ) → greater x x ≡ false
greater_irrefl (pos a) = ground arith
greater_irrefl (negsuc a) = ground arith

pub greater_asym : (x y : ℤ) → greater x y ≡ true → greater y x ≡ false
greater_asym (pos a) (pos b) h = ground arith
greater_asym (pos a) (negsuc b) h = ground arith
greater_asym (negsuc a) (pos b) h = cc
greater_asym (negsuc a) (negsuc b) h = ground arith

-- Not greater, twice.
pub greater_trans : (x y z : ℤ) → greater x y ≡ false → greater y z ≡ false → greater x z ≡ false
greater_trans (pos a) (pos b) (pos c) h k = ground arith
greater_trans (pos a) (pos b) (negsuc c) h k = cc
greater_trans (pos a) (negsuc b) z h k = cc
greater_trans (negsuc a) (pos b) (pos c) h k = ground arith
greater_trans (negsuc a) (pos b) (negsuc c) h k = cc
greater_trans (negsuc a) (negsuc b) (pos c) h k = ground arith
greater_trans (negsuc a) (negsuc b) (negsuc c) h k = ground arith

pub greater_antisym : (x y : ℤ) → greater x y ≡ false → greater y x ≡ false → equal x y ≡ true
greater_antisym (pos a) (pos b) h k = ground arith
greater_antisym (pos a) (negsuc b) h k = cc
greater_antisym (negsuc a) (pos b) h k = cc
greater_antisym (negsuc a) (negsuc b) h k = ground arith

-- ===== src/Bytes.antt =====
-- Integers in memory, as the packed structs of src/common/VcProtocol.h and the `memcpy` calls write
-- them: least significant byte first, the byte order of the hosts that the program is built for.
use native.Mathlib.Nat.{pow-suc}
use tcpudp.Base.{
  ℕ, zero, suc, ◌+◌, ◌*◌, ◌/◌, ◌%◌, ◌^◌, ◌≤◌, ◌<◌, ◌≡◌, ◌∙◌, refl, ap, List, [], ◌∷◌, ◌++◌, arith,
  length, All, take, take-append, take-append_le, drop, drop-append_le, length-drop,
}

abbrev pub IsByte : ℕ → Type 0
IsByte b = b < 256

-- The `k` bytes of an unsigned integer of `k` bytes.
unfoldable pub le_bytes : ℕ → ℕ → List ℕ
le_bytes zero v = []
le_bytes (suc k) v = v % 256 ∷ le_bytes k (v / 256)

unfoldable pub le_value : List ℕ → ℕ
le_value [] = 0
le_value (b ∷ bs) = b + 256 * le_value bs

pub length-le_bytes : (k v : ℕ) → length (le_bytes k v) ≡ k
unfolding le_bytes
length-le_bytes zero v = refl
length-le_bytes (suc k) v = ap suc (length-le_bytes k (v / 256))

pub le_bytes-IsByte : (k v : ℕ) → All IsByte (le_bytes k v)
unfolding le_bytes
le_bytes-IsByte zero v = tt
le_bytes-IsByte (suc k) v = (omega arith, le_bytes-IsByte k (v / 256))

pub le_value-le_bytes : (k v : ℕ) → v < 256 ^ k → le_value (le_bytes k v) ≡ v
unfolding le_bytes le_value
le_value-le_bytes zero v h = omega arith
le_value-le_bytes (suc k) v h =
    let p : 256 ^ suc k ≡ 256 ^ k * 256 = pow-suc 256 k in
    omega (arith, le_value-le_bytes k (v / 256) (omega arith))

-- A field of `k` bytes at the front of the memory.
unfoldable pub read : ℕ → List ℕ → ℕ
read k bs = le_value (take k bs)

pub read-append : (k v : ℕ) (rest : List ℕ) → v < 256 ^ k → read k (le_bytes k v ++ rest) ≡ v
unfolding read
read-append k v rest h =
    ap le_value (take-append k (le_bytes k v) rest (length-le_bytes k v)) ∙ le_value-le_bytes k v h

-- A field of `k` bytes at offset `off` of a packed struct.
abbrev pub field : ℕ → ℕ → List ℕ → ℕ
field off k bs = read k (drop off bs)

-- A field that has arrived whole is not changed by what arrives later.
pub field-append :
    (off k : ℕ) (xs ys : List ℕ) → off + k ≤ length xs → field off k (xs ++ ys) ≡ field off k xs
unfolding read
field-append off k xs ys h =
    ap (λ zs. le_value (take k zs)) (drop-append_le off xs ys (omega arith))
    ∙ ap le_value (take-append_le k (drop off xs) ys (omega (arith, length-drop off xs)))

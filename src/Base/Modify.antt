-- ===== src/Base/Modify.antt =====
-- `f(items[i])`, which changes one item of a vector in place.
use Prim.Native.Nat.{ℕ, zero, suc, ◌<◌}
use mathlib.Core.Path.{◌≡◌, refl, ap, subst}
use mathlib.Core.Option.{Option, none, some, none-ne-some, some-injective}
use mathlib.Core.Option
use mathlib.Core.Logic.{◌≢◌}
use mathlib.Core.List.{List, [], ◌∷◌}
use native.Mathlib.Omega.{arith}
use tcpudp.Base.Lists.{length, get_elem?, replicate, set, All}

module _ {ℓ} {A : Type ℓ} where
  abbrev pub modify : ℕ → (A → A) → List A → List A
  modify i f [] = []
  modify zero f (x ∷ xs) = f x ∷ xs
  modify (suc i) f (x ∷ xs) = x ∷ modify i f xs

  pub length-modify : (i : ℕ) (f : A → A) (xs : List A) → length (modify i f xs) ≡ length xs
  length-modify i f [] = refl
  length-modify zero f (x ∷ xs) = refl
  length-modify (suc i) f (x ∷ xs) = ap suc (length-modify i f xs)

  pub get_elem?-modify_self :
      (i : ℕ) (f : A → A) (xs : List A) (x : A)
      → get_elem? xs i ≡ some x
      → get_elem? (modify i f xs) i ≡ some (f x)
  get_elem?-modify_self i f [] x h = absurd (none-ne-some x h)
  get_elem?-modify_self zero f (y ∷ ys) x h = ap (Option.map f) h
  get_elem?-modify_self (suc i) f (y ∷ ys) x h = get_elem?-modify_self i f ys x h

  pub get_elem?-modify_ne :
      (i j : ℕ) (f : A → A) (xs : List A) → i ≢ j → get_elem? (modify i f xs) j ≡ get_elem? xs j
  get_elem?-modify_ne i j f [] h = refl
  get_elem?-modify_ne zero zero f (x ∷ xs) h = absurd (h refl)
  get_elem?-modify_ne zero (suc j) f (x ∷ xs) h = refl
  get_elem?-modify_ne (suc i) zero f (x ∷ xs) h = refl
  get_elem?-modify_ne (suc i) (suc j) f (x ∷ xs) h =
      get_elem?-modify_ne i j f xs (λ e. h (ap suc e))

  pub get_elem?-replicate : (n i : ℕ) (x : A) → i < n → get_elem? (replicate n x) i ≡ some x
  get_elem?-replicate zero i x h = absurd (omega arith)
  get_elem?-replicate (suc n) zero x h = refl
  get_elem?-replicate (suc n) (suc i) x h = get_elem?-replicate n i x (omega arith)

  pub length-replicate : (n : ℕ) (x : A) → length (replicate n x) ≡ n
  length-replicate zero x = refl
  length-replicate (suc n) x = ap suc (length-replicate n x)

  pub modify-modify :
      (i : ℕ) (f g : A → A) (xs : List A) → modify i f (modify i g xs) ≡ modify i (λ x. f (g x)) xs
  modify-modify i f g [] = refl
  modify-modify zero f g (x ∷ xs) = refl
  modify-modify (suc i) f g (x ∷ xs) = ap (◌∷◌ x) (modify-modify i f g xs)

module _ {ℓ κ} {A : Type ℓ} (Holds : A → Type κ) where
  pub All-get_elem? :
      (xs : List A) (k : ℕ) (x : A) → All Holds xs → get_elem? xs k ≡ some x → Holds x
  All-get_elem? [] k x h e = absurd (none-ne-some x e)
  All-get_elem? (y ∷ ys) zero x h e = subst Holds (some-injective _ _ e) h.0
  All-get_elem? (y ∷ ys) (suc k) x h e = All-get_elem? ys k x h.1 e

  pub All-modify :
      (i : ℕ) (f : A → A) (xs : List A)
      → ((x : A) → Holds x → Holds (f x))
      → All Holds xs
      → All Holds (modify i f xs)
  All-modify i f [] keep h = tt
  All-modify zero f (x ∷ xs) keep h = (keep x h.0, h.1)
  All-modify (suc i) f (x ∷ xs) keep h = (h.0, All-modify i f xs keep h.1)

  pub All-set : (i : ℕ) (y : A) (xs : List A) → Holds y → All Holds xs → All Holds (set xs i y)
  All-set i y [] p h = tt
  All-set zero y (x ∷ xs) p h = (p, h.1)
  All-set (suc i) y (x ∷ xs) p h = (h.0, All-set i y xs p h.1)

-- ===== src/Queue/Spsc/Ring.antt =====
-- Positions that go round a ring, and the items between two of them.
use native.Mathlib.Nat.{mod-add-mod, mod-eq_of_lt}
use tcpudp.Base.{
  ℕ, zero, suc, ◌+◌, ◌%◌, ◌<◌, ◌≡◌, ◌≢◌, ◌∙◌, refl, sym, ap, ap₂, List, [], ◌∷◌, ◌++◌, arith,
}
use tcpudp.Queue.Spsc.{update}

-- The place `n` after `r`.
abbrev pub after : ℕ → ℕ → ℕ → ℕ
after cap r n = (r + n) % cap

pub after-zero : (cap r : ℕ) → r < cap → after cap r 0 ≡ r
after-zero cap r h = let z : r + 0 ≡ r = omega arith in rw z (mod-eq_of_lt h)

-- Fewer steps than there are places, and at least one, do not lead back; as many do.
pub after-ne : (cap r k : ℕ) → r < cap → suc k < cap → after cap r (suc k) ≢ r
after-ne cap r k hr hk = grind arith

pub after-cap : (cap r : ℕ) → r < cap → after cap r cap ≡ r
after-cap cap r h = grind arith

pub after-suc : (cap r n : ℕ) → after cap (after cap r 1) n ≡ after cap r (suc n)
after-suc cap r n =
    let e : r + 1 + n ≡ r + suc n = omega arith in mod-add-mod (r + 1) cap n ∙ ap (λ k. k % cap) e

pub after-add : (cap r n : ℕ) → after cap (after cap r n) 1 ≡ after cap r (suc n)
after-add cap r n =
    let e : r + n + 1 ≡ r + suc n = omega arith in mod-add-mod (r + n) cap 1 ∙ ap (λ k. k % cap) e

module _ {ℓ} {A : Type ℓ} (cap : ℕ) where
  -- The `n` items from the place `r` on.
  unfoldable pub window : (ℕ → A) → ℕ → ℕ → List A
  window buffer r zero = []
  window buffer r (suc n) = buffer r ∷ window buffer (after cap r 1) n

  pub window-suc :
      (buffer : ℕ → A) (r n : ℕ)
      → r < cap
      → window buffer r (suc n) ≡ window buffer r n ++ (buffer (after cap r n) ∷ [])
  unfolding window
  window-suc buffer r zero h = rw (after-zero cap r h)
  window-suc buffer r (suc n) h = ap (◌∷◌ (buffer r)) (
      window-suc buffer (after cap r 1) n (omega arith)
      ∙ ap (λ i. window buffer (after cap r 1) n ++ (buffer i ∷ [])) (after-suc cap r n))

  -- A write past the window, and before its start comes round again, leaves it.
  pub window-update :
      (buffer : ℕ → A) (w : ℕ) (x : A) (r n d : ℕ)
      → r < cap
      → n + d < cap
      → w ≡ after cap r (n + d)
      → window (update buffer w x) r n ≡ window buffer r n
  unfolding window
  window-update buffer w x r zero d hr h e = refl
  window-update buffer w x r (suc n) d hr h e =
      let k : suc n + d ≡ suc (n + d) = omega arith in
      let other : w ≢ r = λ (p : w ≡ r).
        after-ne cap r (n + d) hr (omega arith) (ap (after cap r) (sym k) ∙ (sym e ∙ p)) in
      ap₂ ◌∷◌ (ground arith) (
        window-update buffer w x (after cap r 1) n d (omega arith) (omega arith)
          (e ∙ (ap (after cap r) k ∙ sym (after-suc cap r (n + d)))))

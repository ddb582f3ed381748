-- ===== src/VcSlots/Dead.antt =====
-- The dead slots of a channel of src/common/TcpVirtualChannel.cpp, and their replacement.
use mathlib.Core.Bool.{false≢true}
use tcpudp.Base.{
  ℕ, zero, suc, ◌+◌, ◌<◌, ◌≤◌, ◌≡◌, ◌≢◌, refl, sym, ap, ◌∙◌, arith, Bool, true, false, ◌||◌, List,
  [], ◌∷◌, Option, none, some, length, get_elem?, get_elem?-set_self, get_elem?-set_ne, contains,
  ltb, ◌==◌, ==→eq, if◌then◌else◌, if_true, if_false, Bool-cases, inl, inr, not, eq→==, ltb→lt,
  ltb→le, if_ind,
}
use tcpudp.Base.Int.{pos}
use tcpudp.Connection.{TcpConnection, new_connection}
use tcpudp.VcSlots.{VcSlots, is_up, dead_from, get_dead_slots, replace_connection}

-- A hot-swap of each of these slots, with the descriptor that was opened for it.
unfoldable pub replace_each : (ℕ → ℕ) → List ℕ → VcSlots → VcSlots
replace_each fd [] v = v
replace_each fd (slot ∷ slots) v = replace_each fd slots (replace_connection (pos slot) (fd slot) v)

-- Beyond the slots nothing is down.
abbrev pub up_at : Option (Option TcpConnection) → Bool
up_at none = true
up_at (some conn) = is_up conn

all_up-dead_from :
    (k : ℕ) (conns : List (Option TcpConnection))
    → ((i : ℕ) → up_at (get_elem? conns i) ≡ true)
    → dead_from k conns ≡ []
unfolding dead_from
all_up-dead_from k [] up = refl
all_up-dead_from k (conn ∷ conns) up =
    if_true _ _ (up 0) ∙ all_up-dead_from (k + 1) conns (λ i. up (suc i))

below-dead_from :
    (k i : ℕ) (conns : List (Option TcpConnection)) → i < k → contains i (dead_from k conns) ≡ false
unfolding dead_from
below-dead_from k i [] h = refl
below-dead_from k i (conn ∷ conns) h =
    let rest = below-dead_from (k + 1) i conns (omega arith) in ground (arith, rest)

-- The dead slots are those that are not up.
contains-dead_from :
    (k i : ℕ) (conns : List (Option TcpConnection))
    → contains (k + i) (dead_from k conns) ≡ not (up_at (get_elem? conns i))
unfolding dead_from
contains-dead_from k i [] = refl
contains-dead_from k zero (conn ∷ conns) =
    let e : k + 0 ≡ k = omega arith in
    let rest = below-dead_from (k + 1) k conns (omega arith) in
    ap (λ j. contains j (dead_from k (conn ∷ conns))) e ∙ ground (arith, rest)
contains-dead_from k (suc i) (conn ∷ conns) =
    let e : k + suc i ≡ k + 1 + i = omega arith in
    let rest = contains-dead_from (k + 1) i conns in
    ap (λ j. contains j (dead_from k (conn ∷ conns))) e ∙ ground (arith, rest)

get_elem?-beyond :
    (conns : List (Option TcpConnection)) (i : ℕ) → length conns ≤ i → get_elem? conns i ≡ none
get_elem?-beyond [] i h = refl
get_elem?-beyond (conn ∷ conns) zero h = absurd (omega arith)
get_elem?-beyond (conn ∷ conns) (suc i) h = get_elem?-beyond conns i (omega arith)

replace_other :
    (slot fd i : ℕ) (v : VcSlots)
    → (slot == i) ≡ false
    → get_elem? (replace_connection (pos slot) fd v).connections i ≡ get_elem? v.connections i
unfolding replace_connection
replace_other slot fd i v h =
    let other : slot ≢ i = λ e. false≢true (sym h ∙ eq→== slot i e) in
    if_ind (λ (u : VcSlots). get_elem? u.connections i ≡ get_elem? v.connections i)
      (ltb slot (length v.connections)) _ _
      (get_elem?-set_ne v.connections slot i (some (new_connection fd)) other) refl

replace_self :
    (slot fd : ℕ) (v : VcSlots)
    → up_at (get_elem? (replace_connection (pos slot) fd v).connections slot) ≡ true
unfolding replace_connection
replace_self slot fd v = elim (Bool-cases (ltb slot (length v.connections))) [
  | inl e ↦
      let below = ltb→lt slot (length v.connections) e in
      ap (λ (u : VcSlots). up_at (get_elem? u.connections slot)) (if_true _ _ e)
      ∙ ap up_at (get_elem?-set_self v.connections slot (some (new_connection fd)) below)
  | inr e ↦
      let beyond = ltb→le slot (length v.connections) e in
      ap (λ (u : VcSlots). up_at (get_elem? u.connections slot)) (if_false _ _ e)
      ∙ ap up_at (get_elem?-beyond v.connections slot beyond)
]

replace-up :
    (slot fd i : ℕ) (v : VcSlots)
    → up_at (get_elem? (replace_connection (pos slot) fd v).connections i)
      ≡ (if slot == i then true else up_at (get_elem? v.connections i))
replace-up slot fd i v = elim (Bool-cases (slot == i)) [
  | inl e ↦
      let same : i ≡ slot = sym (==→eq slot i e) in
      ap (λ j. up_at (get_elem? (replace_connection (pos slot) fd v).connections j)) same
      ∙ replace_self slot fd v
      ∙ sym (if_true _ _ e)
  | inr e ↦ ap up_at (replace_other slot fd i v e) ∙ sym (if_false _ _ e)
]

replace_each-up :
    (fd : ℕ → ℕ) (slots : List ℕ) (i : ℕ) (v : VcSlots)
    → up_at (get_elem? (replace_each fd slots v).connections i)
      ≡ (contains i slots || up_at (get_elem? v.connections i))
unfolding replace_each
replace_each-up fd [] i v = refl
replace_each-up fd (slot ∷ slots) i v =
    replace_each-up fd slots i (replace_connection (pos slot) (fd slot) v)
    ∙ ground (arith, replace-up slot (fd slot) i v)

replace_each-other :
    (fd : ℕ → ℕ) (slots : List ℕ) (i : ℕ) (v : VcSlots)
    → contains i slots ≡ false
    → get_elem? (replace_each fd slots v).connections i ≡ get_elem? v.connections i
unfolding replace_each
replace_each-other fd [] i v h = refl
replace_each-other fd (slot ∷ slots) i v h =
    replace_each-other fd slots i (replace_connection (pos slot) (fd slot) v) (ground arith)
    ∙ replace_other slot (fd slot) i v (ground arith)

-- When each dead slot has been given a new connection, no slot is dead, and no slot that was up has
-- another connection than before.
pub dead_replaced :
    (fd : ℕ → ℕ) (v : VcSlots)
    → (get_dead_slots (replace_each fd (get_dead_slots v) v) ≡ [])
      × ((i : ℕ)
          → up_at (get_elem? v.connections i) ≡ true
          → get_elem? (replace_each fd (get_dead_slots v) v).connections i
            ≡ get_elem? v.connections i)
unfolding get_dead_slots
dead_replaced fd v =
    let dead = dead_from 0 v.connections in
    (
      all_up-dead_from 0 (replace_each fd dead v).connections
          (λ i. replace_each-up fd dead i v ∙ covered i),
      λ i up. replace_each-other fd dead i v (listed i ∙ ap not up),
    )
  where
    listed :
        (i : ℕ) → contains i (dead_from 0 v.connections) ≡ not (up_at (get_elem? v.connections i))
    listed i =
        let e : i ≡ 0 + i = omega arith in
        ap (λ j. contains j (dead_from 0 v.connections)) e ∙ contains-dead_from 0 i v.connections

    covered :
        (i : ℕ)
        → (contains i (dead_from 0 v.connections) || up_at (get_elem? v.connections i)) ≡ true
    covered i = ground (arith, listed i)

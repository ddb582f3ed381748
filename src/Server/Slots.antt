-- ===== src/Server/Slots.antt =====
-- Which slot a reconnecting socket takes, and what it changes.
use mathlib.Core.Bool.{false≢true}
use tcpudp.Base.{
  ℕ, zero, suc, ◌+◌, ◌<◌, ◌≡◌, ◌≢◌, ◌⊎◌, inl, inr, refl, subst, arith, Bool, true, false, List, [],
  ◌∷◌, Option, none, some, get_elem?, ◌==◌, Bool-cases, contains, not, All, lt→ltb, eq→==,
}
use tcpudp.Base.Int.{ℤ, pos, negsuc, in_range}
use tcpudp.Server.{TcpConnection, VirtualChannel, Server, dead_slots, decide_replace_slot}

-- A slot is among the dead ones exactly if its connection is down.
abbrev is_down : Option TcpConnection → Bool
is_down none = false
is_down (some c) = not (c.connected)

pos-negsuc : (n k : ℕ) → pos n ≢ negsuc k
pos-negsuc n k e = subst is_pos e tt
  where
    is_pos : ℤ → Type 0
    is_pos (pos m) = Unit
    is_pos (negsuc m) = ⊥

contains-dead_slots_before :
    (i j : ℕ) (vc : VirtualChannel) → j < i → contains j (dead_slots i vc) ≡ false
unfolding dead_slots
contains-dead_slots_before i j [] h = refl
contains-dead_slots_before i j (c ∷ cs) h =
    ground (arith, contains-dead_slots_before (i + 1) j cs (omega arith))

contains-dead_slots :
    (i j k : ℕ) (vc : VirtualChannel)
    → j ≡ i + k
    → contains j (dead_slots i vc) ≡ is_down (get_elem? vc k)
unfolding dead_slots
contains-dead_slots i j k [] e = refl
contains-dead_slots i j zero (c ∷ cs) e =
    let here : (i == j) ≡ true = eq→== i j (omega arith) in
    let later = contains-dead_slots_before (i + 1) j cs (omega arith) in
    elim (Bool-cases c.connected) [ inl up ↦ rw up later | inr down ↦ rw (down, here) refl ]
contains-dead_slots i j (suc k) (c ∷ cs) e =
    let there : (i == j) ≡ false = ground arith in
    let ih = contains-dead_slots (i + 1) j k cs (omega arith) in
    elim (Bool-cases c.connected) [ inl up ↦ rw up ih | inr down ↦ rw (down, there) ih ]

-- The slot that a replacement takes is a slot of the channel; it is -1 only if the connection id is
-- unknown, the slot index that the client sent is out of range, and no slot is dead. Conditions: a
-- slot found by the connection id is in range, and so are the dead slots.
decide_in_range :
    (found index : ℤ) (num : ℕ) (dead : List ℕ)
    → (found ≡ negsuc 0) ⊎ (in_range found num ≡ true)
    → All (λ slot. slot < num) dead
    → let slot = decide_replace_slot found index num dead in
      (in_range slot num ≡ true)
      ⊎ ((slot ≡ negsuc 0) × (found ≡ negsuc 0) × (in_range index num ≡ false) × (dead ≡ []))
unfolding decide_replace_slot
decide_in_range (pos slot) index num dead (inl e) h = absurd (pos-negsuc slot 0 e)
decide_in_range (pos slot) index num dead (inr e) h = inl e
decide_in_range (negsuc n) index num dead (inr e) h = absurd (false≢true e)
decide_in_range (negsuc n) index num dead (inl e) h = elim (Bool-cases (in_range index num)) [
  | inl usable ↦ inl (rw usable usable)
  | inr unusable ↦ fallback dead h unusable
]
  where
    fallback :
        (slots : List ℕ)
        → All (λ slot. slot < num) slots
        → in_range index num ≡ false
        → let slot = decide_replace_slot (negsuc n) index num slots in
          (in_range slot num ≡ true)
          ⊎ ((slot ≡ negsuc 0)
              × (negsuc n ≡ negsuc 0)
              × (in_range index num ≡ false)
              × (slots ≡ []))
    fallback [] all_in unusable = inr (rw unusable refl, e, unusable, refl)
    fallback (slot ∷ slots) all_in unusable = inl (rw unusable (lt→ltb slot num (all_in.0)))

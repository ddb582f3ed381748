-- ===== src/Cache/Shard.antt =====
-- One shard of `SentDataCache` while the messages of one residue class are put in, in order.
use mathlib.Core.Bool.{false≢true}
use native.Mathlib.Nat.{mul-le-mul_right}
use tcpudp.Base.{
  ℕ, zero, suc, ◌+◌, ◌*◌, ◌<◌, ◌≤◌, ◌≡◌, ◌≢◌, ◌∙◌, ◌⊎◌, inl, inr, refl, sym, ap, arith, true, false,
  List, [], ◌∷◌, ◌++◌, Option, none, some, length, contains, contains-append, ◌==◌, ltb,
  if◌then◌else◌, Bool-cases, ==→eq, le→ltb, lt→ltb, ltb→lt, ltb→le, subst,
}
use tcpudp.Base.Assoc.{lookup, insert, erase, lookup-insert, lookup-erase}
use tcpudp.Cache.{ConnShard, evict_front, insert_shard}

module _ (n s : ℕ) where
  -- `m` ids of the shard `s` from its `q`-th one on.
  unfoldable pub ids : ℕ → ℕ → List ℕ
  ids q zero = []
  ids q (suc m) = (s + q * n) ∷ ids (q + 1) m

  pub length-ids : (q m : ℕ) → length (ids q m) ≡ m
  unfolding ids
  length-ids q zero = refl
  length-ids q (suc m) = ap suc (length-ids (q + 1) m)

  pub ids-snoc : (q m : ℕ) → ids q m ++ ((s + (q + m) * n) ∷ []) ≡ ids q (suc m)
  unfolding ids
  ids-snoc q zero = let e : q + 0 ≡ q = omega arith in ap (λ i. (s + i * n) ∷ []) e
  ids-snoc q (suc m) =
      let e : q + suc m ≡ q + 1 + m = omega arith in
      ap (◌∷◌ (s + q * n)) (ap (λ i. ids (q + 1) m ++ ((s + i * n) ∷ [])) e ∙ ids-snoc (q + 1) m)

  pub rounds_le : (p q : ℕ) → p < q → p * n + n ≤ q * n
  rounds_le p q h = let k : suc p * n ≤ q * n = mul-le-mul_right n h in omega (arith, k)

  pub round_more : (p q : ℕ) → q ≡ suc p → q * n ≡ p * n + n
  round_more p q e = let k : suc p * n ≡ p * n + n = omega arith in ap (λ i. i * n) e ∙ k

  pub contains-ids_before : (p q m : ℕ) → 0 < n → p < q → contains (s + p * n) (ids q m) ≡ false
  unfolding ids
  contains-ids_before p q zero pos h = refl
  contains-ids_before p q (suc m) pos h =
      ground (arith, rounds_le p q h, contains-ids_before p (q + 1) m pos (omega arith))

  pub contains-ids_after : (p q m : ℕ) → 0 < n → q + m ≤ p → contains (s + p * n) (ids q m) ≡ false
  unfolding ids
  contains-ids_after p q zero pos h = refl
  contains-ids_after p q (suc m) pos h =
      ground (arith, rounds_le q p (omega arith), contains-ids_after p (q + 1) m pos (omega arith))

  pub contains-ids_in : (p q m : ℕ) → q ≤ p → p < q + m → contains (s + p * n) (ids q m) ≡ true
  unfolding ids
  contains-ids_in p q zero h k = absurd (omega arith)
  contains-ids_in p q (suc m) h k = elim (Bool-cases (p == q)) [
    | inl e ↦ ground arith
    | inr e ↦ ground (arith, contains-ids_in p (q + 1) m (ground arith) (omega arith))
  ]

  pub contains-ids_below : (j q m : ℕ) → contains j (ids q m) ≡ true → j + n ≤ s + (q + m) * n
  unfolding ids
  contains-ids_below j q zero h = absurd (false≢true h)
  contains-ids_below j q (suc m) h = elim (Bool-cases (s + q * n == j)) [
    | inl e ↦
        let p = ==→eq (s + q * n) j e in
        let r = rounds_le q (q + suc m) (omega arith) in omega arith
    | inr e ↦
        let ih = contains-ids_below j (q + 1) m (rw e at h) in
        let shift : q + 1 + m ≡ q + suc m = omega arith in rw shift at ih
  ]

module _ {ℓ} {A : Type ℓ} (n cap : ℕ) (packet : ℕ → A) where
  -- The shard `s` when the messages below `k` have been put in: the latest of its ids, at most
  -- `cap` of them, each with its packet.
  pub record ShardHolds (s k : ℕ) (shard : ConnShard A) : Type ℓ where
    pub q : ℕ
    pub m : ℕ
    pub order : shard.insertion_order ≡ ids n s q m
    pub found :
        (j : ℕ)
        → lookup j shard.items ≡ (if contains j (ids n s q m) then some (packet j) else none)
    pub low : k ≤ s + (q + m) * n
    pub high : s + (q + m) * n < k + n
    pub small : m ≤ cap
    pub full : (q ≡ 0) ⊎ (m ≡ cap)

  -- The next message of another shard.
  pub skip-ShardHolds :
      (s k : ℕ) (shard : ConnShard A) (h : ShardHolds s k shard)
      → k ≢ s + (h.q + h.m) * n
      → ShardHolds s (k + 1) shard
  skip-ShardHolds s k shard h ne = record {
    q = h.q;
    m = h.m;
    order = h.order;
    found = h.found;
    low = let l = h.low in omega arith;
    high = let u = h.high in omega arith;
    small = h.small;
    full = h.full;
  }

  with_last :
      (k j : ℕ) (xs : List ℕ) (before : Option A)
      → before ≡ (if contains j xs then some (packet j) else none)
      → (if k == j then some (packet k) else before)
        ≡ (if contains j (xs ++ (k ∷ [])) then some (packet j) else none)
  with_last k j xs before e =
      rw (contains-append j xs (k ∷ []), e)
        (elim (Bool-cases (k == j)) [
          | inl same ↦
              let p : k ≡ j = ==→eq k j same in
              elim (Bool-cases (contains j xs)) [
                | inl c ↦ rw (same, p, c) refl
                | inr c ↦ rw (same, p, c) refl
              ]
          | inr other ↦ elim (Bool-cases (contains j xs)) [
            | inl c ↦ rw (other, c) refl
            | inr c ↦ rw (other, c) refl
          ]
        ])

  kept_order :
      (s k : ℕ) (shard : ConnShard A) (h : ShardHolds s k shard)
      → k ≡ s + (h.q + h.m) * n
      → shard.insertion_order ++ (k ∷ []) ≡ ids n s h.q (suc h.m)
  kept_order s k shard h e =
      ap (λ xs. xs ++ (k ∷ [])) h.order
      ∙ (ap (λ i. ids n s h.q h.m ++ (i ∷ [])) e ∙ ids-snoc n s h.q h.m)

  kept_found :
      (s k : ℕ) (shard : ConnShard A) (h : ShardHolds s k shard) (j : ℕ)
      → k ≡ s + (h.q + h.m) * n
      → lookup j (insert k (packet k) shard.items)
        ≡ (if contains j (ids n s h.q (suc h.m)) then some (packet j) else none)
  kept_found s k shard h j e =
      let snoc : ids n s h.q h.m ++ (k ∷ []) ≡ ids n s h.q (suc h.m) =
        ap (λ i. ids n s h.q h.m ++ (i ∷ [])) e ∙ ids-snoc n s h.q h.m in
      lookup-insert k j (packet k) shard.items
      ∙ (with_last k j (ids n s h.q h.m) (lookup j shard.items) (h.found j)
          ∙ ap (λ xs. if contains j xs then some (packet j) else none) snoc)

  inserted-room :
      (s k : ℕ) (shard : ConnShard A) (h : ShardHolds s k shard)
      → k ≡ s + (h.q + h.m) * n
      → h.m < cap
      → insert_shard cap k (packet k) shard ≡ record {
        items = insert k (packet k) shard.items;
        insertion_order = ids n s h.q (suc h.m);
      }
  unfolding insert_shard
  inserted-room s k shard h e room =
      let fits : ltb cap (suc h.m) ≡ false = le→ltb cap (suc h.m) (omega arith) in
      rw (kept_order s k shard h e, length-ids n s h.q (suc h.m), fits) refl

  inserted-full :
      (s k : ℕ) (shard : ConnShard A) (h : ShardHolds s k shard)
      → k ≡ s + (h.q + h.m) * n
      → h.m ≡ cap
      → insert_shard cap k (packet k) shard ≡ record {
        items = erase (s + h.q * n) (insert k (packet k) shard.items);
        insertion_order = ids n s (h.q + 1) h.m;
      }
  unfolding insert_shard evict_front ids
  inserted-full s k shard h e full =
      let over : ltb cap (suc h.m) ≡ true = lt→ltb cap (suc h.m) (omega arith) in
      rw (kept_order s k shard h e, length-ids n s h.q (suc h.m), over) refl

  without_first :
      (s q m j : ℕ) (before : Option A)
      → 0 < n
      → before ≡ (if contains j (ids n s q (suc m)) then some (packet j) else none)
      → (if (s + q * n) == j then none else before)
        ≡ (if contains j (ids n s (q + 1) m) then some (packet j) else none)
  unfolding ids
  without_first s q m j before pos e = elim (Bool-cases ((s + q * n) == j)) [
    | inl same ↦
        let p : s + q * n ≡ j = ==→eq (s + q * n) j same in
        let out : contains j (ids n s (q + 1) m) ≡ false =
          ap (λ i. contains i (ids n s (q + 1) m)) (sym p)
          ∙ contains-ids_before n s q (q + 1) m pos (omega arith) in
        rw (same, out) refl
    | inr other ↦ rw (e, other) refl
  ]

  -- The next message of this shard, which has room or gives its oldest one up.
  pub put-ShardHolds :
      (s k : ℕ) (shard : ConnShard A) (h : ShardHolds s k shard)
      → 0 < n
      → k ≡ s + (h.q + h.m) * n
      → ShardHolds s (k + 1) (insert_shard cap k (packet k) shard)
  put-ShardHolds s k shard h pos e =
      let exact : (h.q + suc h.m) * n ≡ (h.q + h.m) * n + n =
        round_more n s (h.q + h.m) (h.q + suc h.m) (omega arith) in
      let small = h.small in
      elim (Bool-cases (ltb h.m cap)) [
        | inl room ↦
            let lt : h.m < cap = ltb→lt h.m cap room in
            subst (ShardHolds s (k + 1)) (sym (inserted-room s k shard h e lt)) (record {
              q = h.q;
              m = suc h.m;
              order = refl;
              found = λ j. kept_found s k shard h j e;
              low = omega arith;
              high = omega arith;
              small = omega arith;
              full = elim h.full [ inl z ↦ inl z | inr f ↦ absurd (omega arith) ];
            })
        | inr none_left ↦
            let f : h.m ≡ cap = let l = ltb→le h.m cap none_left in omega arith in
            let shift : h.q + 1 + h.m ≡ h.q + suc h.m = omega arith in
            subst (ShardHolds s (k + 1)) (sym (inserted-full s k shard h e f)) (record {
              q = h.q + 1;
              m = h.m;
              order = refl;
              found = λ j.
                  lookup-erase (s + h.q * n) j (insert k (packet k) shard.items)
                  ∙ without_first s h.q h.m j _ pos (kept_found s k shard h j e);
              low = rw shift (omega arith);
              high = rw shift (omega arith);
              small = h.small;
              full = inr f;
            })
      ]

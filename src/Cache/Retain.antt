-- ===== src/Cache/Retain.antt =====
-- The whole `SentDataCache` while a sender numbers its messages 0, 1, 2, ...: it holds the latest
-- ones, as many as its shards have room for, and nothing else.
use native.Mathlib.Nat.{
  add-mul, mod-lt, mod-add-div', add-mul-mod_self_right, mod-eq_of_lt, mul-le-mul_right,
}
use native.Mathlib.Decide.{ℕ_discrete}
use tcpudp.Base.{
  ℕ, zero, suc, ◌+◌, ◌*◌, ◌%◌, ◌/◌, ◌<◌, ◌≤◌, ◌≡◌, ◌∙◌, ◌⊎◌, inl, inr, refl, sym, ap, subst, arith,
  true, false, none, some, length, get_elem?, modify, length-modify, get_elem?-modify_self,
  get_elem?-modify_ne, get_elem?-replicate, contains, ltb, leb, ◌&&◌, ltb→lt, ltb→le, Bool-cases,
  if◌then◌else◌, length-replicate,
}
use tcpudp.Base.Assoc.{lookup}
use tcpudp.Cache.{
  ConnShard, SentDataCache, empty_shard, make_cache, insert_shard, insert_sent, find,
}
use tcpudp.Cache.Shard.{
  ids, rounds_le, contains-ids_before, contains-ids_after, contains-ids_in, contains-ids_below,
  ShardHolds, skip-ShardHolds, put-ShardHolds,
}

module _ {ℓ} {A : Type ℓ} (n cap : ℕ) (packet : ℕ → A) where
  -- The cache after the messages 0 .. k - 1, each put in when it is sent.
  unfoldable pub sent : ℕ → SentDataCache A
  sent zero = make_cache n cap
  sent (suc k) = insert_sent k (packet k) (sent k)

  pub record CacheHolds (k : ℕ) (cache : SentDataCache A) : Type ℓ where
    pub size : length cache.shards ≡ n
    pub capacity : cache.capacity_per_conn ≡ cap
    pub each :
        (s : ℕ)
        → s < n
        → (shard : ConnShard A) × (get_elem? cache.shards s ≡ some shard)
          × ShardHolds n cap packet s k shard

  pub make-CacheHolds : CacheHolds 0 (make_cache n cap)
  unfolding ids lookup
  make-CacheHolds = record {
    size = length-replicate n empty_shard;
    capacity = refl;
    each = λ s h. (
      empty_shard,
      get_elem?-replicate n s empty_shard h,
      record {
        q = 0;
        m = 0;
        order = refl;
        found = λ j. refl;
        low = omega arith;
        high = omega arith;
        small = omega arith;
        full = inl refl;
      },
    );
  }

  -- The next id of a shard, if it falls into this shard.
  next_id : (k u : ℕ) → 0 < n → k ≤ k % n + u * n → k % n + u * n < k + n → k ≡ k % n + u * n
  next_id k u pos low high = elim (ℕ_discrete u (k / n)) [
    | yes e ↦ sym (ap (λ i. k % n + i * n) e ∙ mod-add-div' k n)
    | no ne ↦
        let split : k % n + k / n * n ≡ k = mod-add-div' k n in
        let above : k / n < u → k / n * n + n ≤ u * n = rounds_le n 0 (k / n) u in
        let below : u < k / n → u * n + n ≤ k / n * n = rounds_le n 0 u (k / n) in grind arith
  ]

  own_id :
      (k s q m : ℕ)
      → 0 < n
      → k % n ≡ s
      → k ≤ s + (q + m) * n
      → s + (q + m) * n < k + n
      → k ≡ s + (q + m) * n
  own_id k s q m pos e low high =
      next_id k (q + m) pos (omega arith) (omega arith) ∙ ap (λ i. i + (q + m) * n) e

  pub insert-CacheHolds :
      (k : ℕ) (cache : SentDataCache A)
      → 0 < n
      → CacheHolds k cache
      → CacheHolds (k + 1) (insert_sent k (packet k) cache)
  unfolding insert_sent
  insert-CacheHolds k cache pos h =
      rw (h.size, h.capacity)
        (record {
          size = length-modify (k % n) (insert_shard cap k (packet k)) cache.shards ∙ h.size;
          capacity = refl;
          each = λ s lt.
              let (shard, at, held) = h.each s lt in
              elim (ℕ_discrete (k % n) s) [
                | yes e ↦ (
                  insert_shard cap k (packet k) shard,
                  ap
                        (λ i.
                          get_elem? (modify (k % n) (insert_shard cap k (packet k)) cache.shards) i)
                        (sym e)
                      ∙ get_elem?-modify_self (k % n) (insert_shard cap k (packet k)) cache.shards
                          shard (ap (get_elem? cache.shards) e ∙ at),
                  put-ShardHolds n cap packet s k shard held pos
                      (own_id k s held.q held.m pos e held.low held.high),
                )
                | no ne ↦ (
                  shard,
                  get_elem?-modify_ne (k % n) s (insert_shard cap k (packet k)) cache.shards ne
                      ∙ at,
                  skip-ShardHolds n cap packet s k shard held (λ p. ne (
                      ap (λ i. i % n) p
                      ∙ (add-mul-mod_self_right s (held.q + held.m) n ∙ mod-eq_of_lt lt))),
                )
              ];
        })

  sent-CacheHolds : (k : ℕ) → 0 < n → CacheHolds k (sent k)
  unfolding sent
  sent-CacheHolds zero pos = make-CacheHolds
  sent-CacheHolds (suc k) pos =
      let e : suc k ≡ k + 1 = omega arith in
      subst (λ i. CacheHolds i (sent (suc k))) (sym e)
        (insert-CacheHolds k (sent k) pos (sent-CacheHolds k pos))

  -- Which ids of its shard an id is compared with.
  contains-window :
      (s p q m k : ℕ)
      → 0 < n
      → k ≤ s + (q + m) * n
      → s + (q + m) * n < k + n
      → m ≤ cap
      → (q ≡ 0) ⊎ (m ≡ cap)
      → contains (s + p * n) (ids n s q m) ≡ (ltb (s + p * n) k && leb k (s + p * n + cap * n))
  contains-window s p q m k pos low high small full = elim (Bool-cases (ltb p q)) [
    | inl before ↦
        let lt : p < q = ltb→lt p q before in
        let f : m ≡ cap = elim full [ inl z ↦ absurd (omega arith) | inr f ↦ f ] in
        let gap : (p + cap) * n + n ≤ (q + m) * n = rounds_le n s (p + cap) (q + m) (omega arith) in
        let sum : (p + cap) * n ≡ p * n + cap * n = add-mul p cap n in
        let late : leb k (s + p * n + cap * n) ≡ false = ground arith in
        rw (contains-ids_before n s p q m pos lt, late)
          (elim (ltb (s + p * n) k) as (λ b. false ≡ (b && false)) [ true ↦ refl | false ↦ refl ])
    | inr from ↦
        let le : q ≤ p = ltb→le p q from in
        elim (Bool-cases (ltb p (q + m))) [
          | inl upto ↦
              let lt : p < q + m = ltb→lt p (q + m) upto in
              let gap : p * n + n ≤ (q + m) * n = rounds_le n s p (q + m) lt in
              let most : (q + m) * n ≤ (p + cap) * n = mul-le-mul_right n (omega arith) in
              let sum : (p + cap) * n ≡ p * n + cap * n = add-mul p cap n in
              let sent_already : ltb (s + p * n) k ≡ true = ground arith in
              let in_time : leb k (s + p * n + cap * n) ≡ true = ground arith in
              rw (contains-ids_in n s p q m le lt, sent_already, in_time) refl
          | inr after ↦
              let ge : q + m ≤ p = ltb→le p (q + m) after in
              let far : (q + m) * n ≤ p * n = mul-le-mul_right n ge in
              let unsent : ltb (s + p * n) k ≡ false = ground arith in
              rw (contains-ids_after n s p q m pos ge, unsent) refl
        ]
  ]

  pub find-CacheHolds :
      (k id : ℕ) (cache : SentDataCache A)
      → 0 < n
      → CacheHolds k cache
      → find id cache ≡ (if ltb id k && leb k (id + cap * n) then some (packet id) else none)
  unfolding find
  find-CacheHolds k id cache pos h =
      let (shard, at, held) = h.each (id % n) (mod-lt id pos) in
      let split : id % n + id / n * n ≡ id = mod-add-div' id n in
      let inside =
        contains-window (id % n) (id / n) held.q held.m k pos held.low held.high held.small
          held.full in
      rw (h.size, at, find)
        (held.found id
          ∙ ap (λ b. if b then some (packet id) else none)
              (subst
                (λ i. contains i (ids n (id % n) held.q held.m) ≡ (ltb i k && leb k (i + cap * n)))
                split inside))

  -- After the messages 0 .. k - 1 have been sent over `n` connections, the cache finds the packet
  -- of an id exactly if it has been sent and is one of the last `cap * n`. Condition: there is a
  -- connection.
  pub find-sent :
      (k id : ℕ)
      → 0 < n
      → find id (sent k) ≡ (if ltb id k && leb k (id + cap * n) then some (packet id) else none)
  find-sent k id pos = find-CacheHolds k id (sent k) pos (sent-CacheHolds k pos)

-- The cache says nothing of packets that are yet to be sent.
module _ {ℓ} {A : Type ℓ} (n cap k : ℕ) (packet other : ℕ → A)
    (agree : (i : ℕ) → i < k → packet i ≡ other i) where
  found-agree :
      (s q m j : ℕ)
      → s + (q + m) * n < k + n
      → (if contains j (ids n s q m) then some (packet j) else none)
        ≡ (if contains j (ids n s q m) then some (other j) else none)
  found-agree s q m j high = elim (Bool-cases (contains j (ids n s q m))) [
    | inl inside ↦
        rw inside (ap some (agree j (let b = contains-ids_below n s j q m inside in omega arith)))
    | inr out ↦ rw out refl
  ]

  pub agree-CacheHolds :
      (cache : SentDataCache A) → CacheHolds n cap packet k cache → CacheHolds n cap other k cache
  agree-CacheHolds cache h = record {
    size = h.size;
    capacity = h.capacity;
    each = λ s lt.
        let (shard, at, held) = h.each s lt in
        (
          shard,
          at,
          record {
            q = held.q;
            m = held.m;
            order = held.order;
            found = λ j. held.found j ∙ found-agree s held.q held.m j held.high;
            low = held.low;
            high = held.high;
            small = held.small;
            full = held.full;
          },
        );
  }

-- ===== src/Queue/Blocking/Counter.antt =====
-- The lock-free counter of `BlockingQueue`. `enqueue` pushes under the lock and counts after it;
-- `dequeue` pops under the lock and counts after it; `tryDequeue` does both under the lock. Other
-- threads run in between: `adds` and `subs` are the calls that have not counted yet.
use tcpudp.Base.{
  ℕ, suc, ◌+◌, ◌-◌, ◌%◌, ◌<◌, ◌≡◌, ◌∙◌, refl, sym, ap, append-nil, append_assoc, true, false, List,
  [], ◌∷◌, ◌++◌, arith, length, length-append,
}
use tcpudp.Queue.Blocking.{
  BlockingQueue, size_mod, incr, decr, enqueue, try_dequeue, take_front, approx_size, size,
}

pub record Shared {ℓ} (A : Type ℓ) : Type ℓ where
  pub q : BlockingQueue A
  pub adds : ℕ
  pub subs : ℕ

-- One atomic step of some thread.
module _ {ℓ} {A : Type ℓ} where
  pub data Step (s : Shared A) : Shared A → Type ℓ where
    push :
        {t : Shared A} (x : A)
        → t ≡ record s { q = record (s.q) { queue = s.q.queue ++ (x ∷ []) }; adds = s.adds + 1 }
        → Step s t
    count_push :
        {t : Shared A} (n : ℕ)
        → s.adds ≡ suc n
        → t ≡ record s {
          q = record (s.q) { approx_queue_size = incr s.q.approx_queue_size };
          adds = n;
        }
        → Step s t
    pop :
        {t : Shared A} (x : A) (xs : List A)
        → s.q.queue ≡ x ∷ xs
        → s.q.cancelled ≡ false
        → t ≡ record s { q = record (s.q) { queue = xs }; subs = s.subs + 1 }
        → Step s t
    count_pop :
        {t : Shared A} (n : ℕ)
        → s.subs ≡ suc n
        → t ≡ record s {
          q = record (s.q) { approx_queue_size = decr s.q.approx_queue_size };
          subs = n;
        }
        → Step s t
    try_pop :
        {t : Shared A} (x : A) (xs : List A)
        → s.q.queue ≡ x ∷ xs
        → s.q.cancelled ≡ false
        → t ≡ record s {
          q = record (s.q) { queue = xs; approx_queue_size = decr s.q.approx_queue_size };
        }
        → Step s t
    cancel : {t : Shared A} → t ≡ record s { q = record (s.q) { cancelled = true } } → Step s t

  pub data Reach (s : Shared A) : Shared A → Type ℓ where
    here : Reach s s
    next : {t u : Shared A} → Reach s t → Step t u → Reach s u

  -- The counter and the calls still to count agree with the queue, modulo the counter's range.
  abbrev pub Agrees : Shared A → Type 0
  Agrees s =
      (s.q.approx_queue_size < size_mod)
      × ((s.q.approx_queue_size + s.adds) % size_mod ≡ (length s.q.queue + s.subs) % size_mod)

  Step-Agrees : {s t : Shared A} → Step s t → Agrees s → Agrees t
  Step-Agrees {s} (push x e) a = let k = length-append s.q.queue (x ∷ []) in ground (arith, e, k)
  Step-Agrees (count_push n h e) a = ground arith
  Step-Agrees (pop x xs h c e) a = ground arith
  Step-Agrees (count_pop n h e) a = ground arith
  Step-Agrees (try_pop x xs h c e) a = ground arith
  Step-Agrees (cancel e) a = ground arith

  Reach-Agrees : {s t : Shared A} → Agrees s → Reach s t → Agrees t
  Reach-Agrees a here = a
  Reach-Agrees a (next r st) = Step-Agrees st (Reach-Agrees a r)

  -- What a step puts into the queue and takes out of it.
  pub put_of : {s t : Shared A} → Step s t → List A
  put_of (push x e) = x ∷ []
  put_of (count_push n h e) = []
  put_of (pop x xs h c e) = []
  put_of (count_pop n h e) = []
  put_of (try_pop x xs h c e) = []
  put_of (cancel e) = []

  pub taken_of : {s t : Shared A} → Step s t → List A
  taken_of (push x e) = []
  taken_of (count_push n h e) = []
  taken_of (pop x xs h c e) = x ∷ []
  taken_of (count_pop n h e) = []
  taken_of (try_pop x xs h c e) = x ∷ []
  taken_of (cancel e) = []

  -- The items of a run, in the order of the pushes, and in the order of the pops.
  unfoldable pub puts : {s t : Shared A} → Reach s t → List A
  puts here = []
  puts (next r st) = puts r ++ put_of st

  unfoldable pub takes : {s t : Shared A} → Reach s t → List A
  takes here = []
  takes (next r st) = takes r ++ taken_of st

  Step-fifo : {s t : Shared A} (st : Step s t) → taken_of st ++ t.q.queue ≡ s.q.queue ++ put_of st
  unfolding put_of taken_of
  Step-fifo (push x e) = ap (λ (s : Shared A). s.q.queue) e
  Step-fifo {s} (count_push n h e) = ap (λ (s : Shared A). s.q.queue) e ∙ sym (append-nil s.q.queue)
  Step-fifo {s} (pop x xs h c e) =
      ap (λ (s : Shared A). x ∷ s.q.queue) e ∙ (sym h ∙ sym (append-nil s.q.queue))
  Step-fifo {s} (count_pop n h e) = ap (λ (s : Shared A). s.q.queue) e ∙ sym (append-nil s.q.queue)
  Step-fifo {s} (try_pop x xs h c e) =
      ap (λ (s : Shared A). x ∷ s.q.queue) e ∙ (sym h ∙ sym (append-nil s.q.queue))
  Step-fifo {s} (cancel e) = ap (λ (s : Shared A). s.q.queue) e ∙ sym (append-nil s.q.queue)

  -- However the steps of the threads interleave, and whether or not the queue is cancelled on the
  -- way, items leave the queue in the order in which they were pushed, once each and no others: what
  -- was taken and what is left make up what was there and what was put. The lock-free counter is off
  -- from the size only by the calls that have not counted yet, modulo 2^64. Condition: it is so at
  -- the start.
  pub interleaved_fifo :
      (s t : Shared A) (r : Reach s t)
      → Agrees s
      → (takes r ++ t.q.queue ≡ s.q.queue ++ puts r) × Agrees t
  unfolding puts takes
  interleaved_fifo s t here a = (sym (append-nil s.q.queue), a)
  interleaved_fifo s u (next {t} r st) a =
      let before = interleaved_fifo s t r a in
      (
        append_assoc (takes r) (taken_of st) u.q.queue
            ∙ ap (◌++◌ (takes r)) (Step-fifo st)
            ∙ sym (append_assoc (takes r) t.q.queue (put_of st))
            ∙ ap (λ xs. xs ++ put_of st) before.0
            ∙ append_assoc s.q.queue (puts r) (put_of st),
        Step-Agrees st before.1,
      )

  -- `enqueue` and `tryDequeue`, as the model has them in one piece, are runs of these steps.
  enqueue-Reach : (s : Shared A) (x : A) → Reach s (record s { q = (enqueue x s.q).0 })
  unfolding enqueue
  enqueue-Reach s x =
      let pushed : Shared A = record s {
        q = record (s.q) { queue = s.q.queue ++ (x ∷ []) };
        adds = s.adds + 1;
      } in
      next (next here (push {t = pushed} x refl)) (count_push s.adds (omega arith) refl)

  try_dequeue-Reach :
      (s : Shared A) (x : A) (xs : List A)
      → s.q.queue ≡ x ∷ xs
      → s.q.cancelled ≡ false
      → Reach s (record s { q = (try_dequeue s.q).1 })
  unfolding try_dequeue take_front
  try_dequeue-Reach s x xs h c = next here (try_pop x xs h c (ground arith))

  -- A queue that no call is working on, with an exact counter.
  abbrev pub IsQuiet : Shared A → Type 0
  IsQuiet s =
      (s.adds ≡ 0)
      × (s.subs ≡ 0)
      × (length s.q.queue < size_mod)
      × (s.q.approx_queue_size ≡ length s.q.queue)

  -- However the steps of the threads interleave, the lock-free size is the true size of the queue
  -- whenever no call is between its change of the queue and its change of the counter. Conditions:
  -- it was so at the start, and the queue holds fewer than 2^64 items at the end.
  pub counter_exact :
      (s t : Shared A)
      → IsQuiet s
      → Reach s t
      → t.adds ≡ 0
      → t.subs ≡ 0
      → length t.q.queue < size_mod
      → approx_size t.q ≡ size t.q
  unfolding approx_size size
  counter_exact s t h r a b c = let g = Reach-Agrees {s = s} (omega arith) r in omega arith

  -- While an `enqueue` has not counted yet, another thread that takes its item makes the counter of
  -- an empty queue wrap: it reads 2^64 - 1. Condition: the queue is quiet, empty and not cancelled.
  pub counter_wraps :
      (s : Shared A) (x : A)
      → IsQuiet s
      → s.q.queue ≡ []
      → s.q.cancelled ≡ false
      → (t : Shared A) × Reach s t × (size t.q ≡ 0) × (approx_size t.q ≡ size_mod - 1)
  unfolding approx_size size
  counter_wraps s x h e c =
      let pushed : Shared A = record s {
        q = record (s.q) { queue = s.q.queue ++ (x ∷ []) };
        adds = s.adds + 1;
      } in
      let popped : Shared A = record pushed {
        q = record (pushed.q) { queue = []; approx_queue_size = decr s.q.approx_queue_size };
      } in
      let z : s.q.approx_queue_size ≡ 0 = omega (arith, h.3, ap length e) in
      (
        popped,
        next (next here (push x refl)) (try_pop x [] (ap (λ xs. xs ++ (x ∷ [])) e) c refl),
        refl,
        omega (arith, z),
      )

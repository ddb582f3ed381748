-- ===== src/Queue/Blocking/Fifo.antt =====
-- What one `tryDequeue` of `BlockingQueue` does to the items.
use tcpudp.Base.{◌≡◌, refl, false, List, [], ◌∷◌, Option, some, none, arith, Bool-cases, inl, inr}
use tcpudp.Queue.Blocking.{BlockingQueue, try_dequeue}

module _ {ℓ} {A : Type ℓ} where
  abbrev pub cons? : Option A → List A → List A
  cons? none xs = xs
  cons? (some x) xs = x ∷ xs

  -- A `tryDequeue` of a queue that is not cancelled.
  pub try_dequeue-front :
      (q : BlockingQueue A)
      → q.cancelled ≡ false
      → let (x, q') = try_dequeue q in (cons? x q'.queue ≡ q.queue) × (q'.cancelled ≡ false)
  unfolding try_dequeue
  try_dequeue-front q c = by_queue q.queue refl
    where
      by_queue :
          (xs : List A)
          → q.queue ≡ xs
          → let (x, q') = try_dequeue q in (cons? x q'.queue ≡ q.queue) × (q'.cancelled ≡ false)
      by_queue [] p = ground arith
      by_queue (x ∷ xs) p = ground arith

  -- Cancelled or not, a `tryDequeue` loses nothing.
  pub try_dequeue-cons? :
      (q : BlockingQueue A) → cons? (try_dequeue q).0 (try_dequeue q).1.queue ≡ q.queue
  unfolding try_dequeue
  try_dequeue-cons? q = elim (Bool-cases q.cancelled) [
    | inl c ↦ ground arith
    | inr c ↦ (try_dequeue-front q c).0
  ]

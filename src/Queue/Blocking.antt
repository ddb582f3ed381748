-- ===== src/Queue/Blocking.antt =====
-- src/common/BlockingQueue.{h,cpp}. Each method as one step; `Counter` has the steps of two threads
-- between which the other one can run.
pub mod Counter
pub mod Fifo
use tcpudp.Base.{
  ℕ, suc, ◌+◌, ◌-◌, ◌%◌, ◌^◌, Bool, true, false, List, [], ◌∷◌, ◌++◌, Option, some, none, length,
  ltb,
}

abbrev pub size_mod : ℕ
size_mod = 2 ^ 64

-- `enqueueNotifier` is there or not; that it is called is part of what `enqueue` returns.
pub record BlockingQueue {ℓ} (A : Type ℓ) : Type ℓ where
  pub queue : List A
  pub cancelled : Bool
  pub approx_queue_size : ℕ
  pub has_notifier : Bool

-- `fetch_add(1)` and `fetch_sub(1)` of a `size_t`, which wrap.
abbrev pub incr : ℕ → ℕ
incr n = (n + 1) % size_mod

abbrev pub decr : ℕ → ℕ
decr n = (n + size_mod - 1) % size_mod

-- `dequeue` waits on a queue that is empty and not cancelled; `nullptr` is `none`.
pub data Dequeued {ℓ} (A : Type ℓ) : Type ℓ where
  waits : Dequeued A
  returned : Option A → BlockingQueue A → Dequeued A

module _ {ℓ} {A : Type ℓ} where
  pub fresh : BlockingQueue A
  fresh = record { queue = []; cancelled = false; approx_queue_size = 0; has_notifier = false }

  -- The new queue, and whether the notifier was called. The push and the count are one step here;
  -- `Counter` has the count apart, after the lock has been released.
  unfoldable pub enqueue : A → BlockingQueue A → BlockingQueue A × Bool
  enqueue x q = (
    record q { queue = q.queue ++ (x ∷ []); approx_queue_size = incr q.approx_queue_size },
    q.has_notifier,
  )

  take_front : List A → BlockingQueue A → Option A × BlockingQueue A
  take_front [] q = (none, q)
  take_front (x ∷ xs) q =
      (some x, record q { queue = xs; approx_queue_size = decr q.approx_queue_size })

  abbrev is_empty : List A → Bool
  is_empty [] = true
  is_empty (_ ∷ _) = false

  unfoldable pub dequeue : BlockingQueue A → Dequeued A
  unfolding take_front
  dequeue q = elim q.cancelled [
    | true ↦ returned none q
    | false ↦ elim (is_empty q.queue) [
      | true ↦ waits
      | false ↦ let (x, q') = take_front q.queue q in returned x q'
    ]
  ]

  unfoldable pub try_dequeue : BlockingQueue A → Option A × BlockingQueue A
  unfolding take_front
  try_dequeue q = elim q.cancelled [ true ↦ (none, q) | false ↦ take_front q.queue q ]

  unfoldable pub cancel_wait : BlockingQueue A → BlockingQueue A
  cancel_wait q = record q { cancelled = true }

  unfoldable pub size : BlockingQueue A → ℕ
  size q = length q.queue

  unfoldable pub approx_size : BlockingQueue A → ℕ
  approx_size q = q.approx_queue_size

  unfoldable pub set_enqueue_notifier : Bool → BlockingQueue A → BlockingQueue A
  set_enqueue_notifier b q = record q { has_notifier = b }

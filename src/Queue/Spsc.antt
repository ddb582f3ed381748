-- ===== src/Queue/Spsc.antt =====
-- src/common/SpscQueue.h: one producer and one consumer over a ring, with no lock. Each atomic access
-- of `try_enqueue` and `try_dequeue` is a step of its thread; release and acquire order the write
-- of an item before the read that its published position allows, so that the steps are taken one
-- at a time.
pub mod Ring
pub mod Order
pub mod Steps
use tcpudp.Base.{
  ℕ, ◌+◌, ◌%◌, ◌<◌, ◌≡◌, ◌≢◌, Bool, true, false, List, [], ◌∷◌, ◌++◌, ◌==◌, if◌then◌else◌, arith,
}

-- `buffer[place] = item`
abbrev pub update {ℓ} : {A : Type ℓ} (buffer : ℕ → A) (place : ℕ) (item : A) → ℕ → A
update buffer place item asked = if asked == place then item else buffer asked

-- Where the producer stands in `try_enqueue`, with its locals `item`, `w` and `nextW`.
pub data Producer {ℓ} (A : Type ℓ) : Type ℓ where
  out_of_call : Producer A
  has_room : A → ℕ → ℕ → Producer A
  has_written : A → ℕ → ℕ → Producer A

-- Where the consumer stands in `try_dequeue`, with its local `r` and the item that it moved out.
pub data Consumer {ℓ} (A : Type ℓ) : Type ℓ where
  out_of_call : Consumer A
  has_item : ℕ → Consumer A
  has_moved : ℕ → A → Consumer A

pub record Spsc {ℓ} (A : Type ℓ) : Type ℓ where
  pub buffer : ℕ → A
  pub write_pos : ℕ
  pub read_pos : ℕ
  pub producer : Producer A
  pub consumer : Consumer A
  -- what the completed calls have put in and taken out, oldest first
  pub enqueued : List A
  pub dequeued : List A

abbrev pub next_pos : ℕ → ℕ → ℕ
next_pos capacity i = (i + 1) % capacity

module _ {ℓ} {A : Type ℓ} (capacity : ℕ) where
  pub data Step (s : Spsc A) : Spsc A → Type ℓ where
    enqueue_check :
        {t : Spsc A} (x : A)
        → s.producer ≡ Producer.out_of_call
        → next_pos capacity s.write_pos ≢ s.read_pos
        → t ≡ record s { producer = has_room x s.write_pos (next_pos capacity s.write_pos) }
        → Step s t
    enqueue_full :
        s.producer ≡ Producer.out_of_call → next_pos capacity s.write_pos ≡ s.read_pos → Step s s
    enqueue_write :
        {t : Spsc A} (x : A) (w next_w : ℕ)
        → s.producer ≡ has_room x w next_w
        → t ≡ record s { buffer = update s.buffer w x; producer = has_written x w next_w }
        → Step s t
    enqueue_publish :
        {t : Spsc A} (x : A) (w next_w : ℕ)
        → s.producer ≡ has_written x w next_w
        → t ≡ record s {
          write_pos = next_w;
          producer = Producer.out_of_call;
          enqueued = s.enqueued ++ (x ∷ []);
        }
        → Step s t
    dequeue_check :
        {t : Spsc A}
        → s.consumer ≡ Consumer.out_of_call
        → s.read_pos ≢ s.write_pos
        → t ≡ record s { consumer = has_item s.read_pos }
        → Step s t
    dequeue_empty : s.consumer ≡ Consumer.out_of_call → s.read_pos ≡ s.write_pos → Step s s
    dequeue_move :
        {t : Spsc A} (r : ℕ)
        → s.consumer ≡ has_item r
        → t ≡ record s { consumer = has_moved r (s.buffer r) }
        → Step s t
    dequeue_publish :
        {t : Spsc A} (r : ℕ) (x : A)
        → s.consumer ≡ has_moved r x
        → t ≡ record s {
          read_pos = next_pos capacity r;
          consumer = Consumer.out_of_call;
          dequeued = s.dequeued ++ (x ∷ []);
        }
        → Step s t

  pub data Reach (s : Spsc A) : Spsc A → Type ℓ where
    here : Reach s s
    next : {t u : Spsc A} → Reach s t → Step t u → Reach s u

-- A new queue; `filler` is what the slots hold before they are written.
abbrev pub fresh {ℓ} : {A : Type ℓ} → A → Spsc A
fresh filler = record {
  buffer = λ _. filler;
  write_pos = 0;
  read_pos = 0;
  producer = Producer.out_of_call;
  consumer = Consumer.out_of_call;
  enqueued = [];
  dequeued = [];
}

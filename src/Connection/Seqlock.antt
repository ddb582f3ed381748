-- ===== src/Connection/Seqlock.antt =====
-- `refreshRuntimeInfoIfStale` and `getLastRuntimeInfo` of src/common/TcpConnection.{h,cpp}: one
-- thread writes the cached info between two increments of a generation, another reads it without the
-- lock and compares the generations. The info is as wide as two words; the steps of the two threads
-- interleave, each atomic and seen by the other thread at once. The memory orders of the code allow
-- these interleavings and more, so that the model shows what can happen, and not what cannot.
use tcpudp.Base.{ℕ, ◌+◌, ◌%◌, ◌^◌, ◌≡◌, refl}

-- Where the writer stands in an update.
pub data Writer : Type 0 where
  idle opened half stored : Writer

-- Where the reader stands: the generation that it loaded, and what it has copied.
pub data Reader (A : Type 0) : Type 0 where
  outside : Reader A
  loaded : ℕ → Reader A
  copied_one : ℕ → A → Reader A
  copied_two : ℕ → A → A → Reader A
  returned : ℕ → A → A → Reader A

pub record Seqlock (A : Type 0) : Type 0 where
  pub generation : ℕ
  pub first_word : A
  pub second_word : A
  pub writer : Writer
  pub reader : Reader A
  -- how many updates have ended
  pub updates : ℕ

-- The words of the n-th info that was sampled; the 0-th is there from the start.
module _ {A : Type 0} (first second : ℕ → A) where
  abbrev pub start : Seqlock A
  start = record {
    generation = 0;
    first_word = first 0;
    second_word = second 0;
    writer = idle;
    reader = outside;
    updates = 0;
  }

  -- `fetch_add(1)`, the copy of the info, `fetch_add(1)`; and the loop of `getLastRuntimeInfo`.
  pub data Step : Seqlock A → Seqlock A → Type 0 where
    opens :
        (s : Seqlock A)
        → s.writer ≡ idle
        → Step s (record s { writer = opened; generation = (s.generation + 1) % 2 ^ 32 })
    stores_one :
        (s : Seqlock A)
        → s.writer ≡ opened
        → Step s (record s { writer = half; first_word = first (s.updates + 1) })
    stores_two :
        (s : Seqlock A)
        → s.writer ≡ half
        → Step s (record s { writer = stored; second_word = second (s.updates + 1) })
    closes :
        (s : Seqlock A)
        → s.writer ≡ stored
        → Step s (record s {
          writer = idle;
          generation = (s.generation + 1) % 2 ^ 32;
          updates = s.updates + 1;
        })
    loads : (s : Seqlock A) → Step s (record s { reader = loaded s.generation })
    copies_one :
        (s : Seqlock A) (g : ℕ)
        → s.reader ≡ loaded g
        → Step s (record s { reader = copied_one g s.first_word })
    copies_two :
        (s : Seqlock A) (g : ℕ) (a : A)
        → s.reader ≡ copied_one g a
        → Step s (record s { reader = copied_two g a s.second_word })
    checks :
        (s : Seqlock A) (g : ℕ) (a b : A)
        → s.reader ≡ copied_two g a b
        → g ≡ s.generation
        → Step s (record s { reader = returned g a b })

  pub data Reach : Seqlock A → Seqlock A → Type 0 where
    here : {s : Seqlock A} → Reach s s
    next : {s t u : Seqlock A} → Reach s t → Step t u → Reach s u

  -- The state in which one word of the next info has been stored, and the reader has returned it
  -- with the other word of the info before.
  abbrev pub torn : Seqlock A → Seqlock A
  torn s = record s {
    generation = (s.generation + 1) % 2 ^ 32;
    first_word = first (s.updates + 1);
    writer = half;
    reader = returned ((s.generation + 1) % 2 ^ 32) (first (s.updates + 1)) s.second_word;
  }

  -- Whenever no update is in progress, the next update can be interleaved with a read that returns
  -- the first word of the new info with the second word of the old one: the loop compares the two
  -- generations that it loaded, and does not ask whether they are even.
  pub read_torn : (s : Seqlock A) → s.writer ≡ idle → Reach s (torn s)
  read_torn s e =
      let g = (s.generation + 1) % 2 ^ 32 in
      let a = first (s.updates + 1) in
      let s1 : Seqlock A = record s { generation = g; writer = opened } in
      let s2 : Seqlock A = record s1 { writer = half; first_word = a } in
      let s3 : Seqlock A = record s2 { reader = loaded g } in
      let s4 : Seqlock A = record s3 { reader = copied_one g a } in
      let s5 : Seqlock A = record s4 { reader = copied_two g a s.second_word } in
      let stored_one = next (next (here {s = s}) (opens s e)) (stores_one s1 refl) in
      next
        (next (next (next stored_one (loads s2)) (copies_one s3 g refl)) (copies_two s4 g a refl))
        (checks s5 g a s.second_word refl refl)

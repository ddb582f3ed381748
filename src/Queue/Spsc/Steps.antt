-- ===== src/Queue/Spsc/Steps.antt =====
-- Any interleaving of the two threads of `SpscQueue`: no item is lost, doubled, reordered or
-- overwritten.
use tcpudp.Base.{
  ℕ, zero, suc, ◌<◌, ◌≡◌, ◌≢◌, ◌∙◌, refl, sym, ap, ap₂, subst, List, [], ◌∷◌, ◌++◌, arith,
  append_assoc, ==_refl,
}
use tcpudp.Queue.Spsc.{
  Spsc, Producer, Consumer, has_room, has_written, has_item, has_moved, update, next_pos, Step,
  enqueue_check, enqueue_full, enqueue_write, enqueue_publish, dequeue_check, dequeue_empty,
  dequeue_move, dequeue_publish, Reach, here, next, fresh,
}
use tcpudp.Queue.Spsc.Ring.{
  after, after-zero, after-add, after-ne, after-suc, window, window-suc, window-update,
}
use tcpudp.Queue.Spsc.Order.{
  Holds, ProducerOk, ConsumerOk, room, some_item, consumer-write, consumer-more, producer-fewer,
}

module _ {ℓ} {A : Type ℓ} (cap : ℕ) where
  written_ok : (buffer : ℕ → A) (w : ℕ) (x : A) → update buffer w x w ≡ x
  written_ok buffer w x = rw (==_refl w)

  write_elsewhere :
      (n w : ℕ) (s : Spsc A) → Holds cap n s → w ≡ s.write_pos → 0 < n → w ≢ s.read_pos
  write_elsewhere zero w s h e lt = absurd (omega arith)
  write_elsewhere (suc n) w s h e lt =
      λ p. after-ne cap s.read_pos n h.read_in h.small (sym h.write ∙ (sym e ∙ p))

  enqueue_write-Holds :
      (n : ℕ) (s : Spsc A) (x : A) (w next_w : ℕ)
      → Holds cap n s
      → s.producer ≡ has_room x w next_w
      → Holds cap n (record s { buffer = update s.buffer w x; producer = has_written x w next_w })
  enqueue_write-Holds n s x w next_w h at =
      let p : ProducerOk cap n s.write_pos s.buffer (has_room x w next_w) =
        rw at at h.producer_ok in
      record {
        items =
            h.items
            ∙ ap (◌++◌ s.dequeued) (
                sym (
                  window-update cap s.buffer w x s.read_pos n 0 h.read_in (omega (arith, h.small))
                    (p.0 ∙ (h.write ∙ ap (after cap s.read_pos) (omega arith)))));
        read_in = h.read_in;
        small = h.small;
        write = h.write;
        producer_ok = (p.0, p.1, p.2, written_ok s.buffer w x);
        consumer_ok =
            consumer-write cap n s.read_pos w x s.buffer s.consumer (write_elsewhere n w s h p.0)
              h.consumer_ok;
      }

  enqueue_publish-Holds :
      (n : ℕ) (s : Spsc A) (x : A) (w next_w : ℕ)
      → Holds cap n s
      → s.producer ≡ has_written x w next_w
      → Holds cap (suc n) (record s {
        write_pos = next_w;
        producer = Producer.out_of_call;
        enqueued = s.enqueued ++ (x ∷ []);
      })
  enqueue_publish-Holds n s x w next_w h at =
      let p : ProducerOk cap n s.write_pos s.buffer (has_written x w next_w) =
        rw at at h.producer_ok in
      let slot : s.buffer (after cap s.read_pos n) ≡ x = ap s.buffer (sym (p.0 ∙ h.write)) ∙ p.3 in
      record {
        items =
            ap (λ xs. xs ++ (x ∷ [])) h.items
            ∙ (append_assoc s.dequeued (window cap s.buffer s.read_pos n) (x ∷ [])
                ∙ ap (◌++◌ s.dequeued) (
                    ap (λ y. window cap s.buffer s.read_pos n ++ (y ∷ [])) (sym slot)
                    ∙ sym (window-suc cap s.buffer s.read_pos n h.read_in)));
        read_in = h.read_in;
        small = omega (arith, p.2);
        write = p.1 ∙ (ap (λ i. after cap i 1) (p.0 ∙ h.write) ∙ after-add cap s.read_pos n);
        producer_ok = tt;
        consumer_ok = consumer-more cap n s.read_pos s.buffer s.consumer h.consumer_ok;
      }

  dequeue_publish-Holds :
      (n : ℕ) (s : Spsc A) (r : ℕ) (x : A)
      → Holds cap n s
      → s.consumer ≡ has_moved r x
      → (k : ℕ) × Holds cap k (record s {
        read_pos = next_pos cap r;
        consumer = Consumer.out_of_call;
        dequeued = s.dequeued ++ (x ∷ []);
      })
  unfolding window
  dequeue_publish-Holds zero s r x h at =
      let c : ConsumerOk cap 0 s.read_pos s.buffer (has_moved r x) = rw at at h.consumer_ok in
      absurd (omega (arith, c.1))
  dequeue_publish-Holds (suc n) s r x h at =
      let c : ConsumerOk cap (suc n) s.read_pos s.buffer (has_moved r x) = rw at at h.consumer_ok in
      let e : next_pos cap r ≡ after cap s.read_pos 1 = ap (λ i. after cap i 1) c.0 in
      let slot : s.buffer s.read_pos ≡ x = ap s.buffer (sym c.0) ∙ c.2 in
      (
        n,
        record {
          items =
              h.items
              ∙ (ap (◌++◌ s.dequeued) (ap₂ ◌∷◌ slot (ap (λ i. window cap s.buffer i n) (sym e)))
                  ∙ sym
                      (append_assoc s.dequeued (x ∷ []) (window cap s.buffer (next_pos cap r) n)));
          read_in = omega (arith, h.read_in);
          small = omega (arith, h.small);
          write = h.write ∙ (sym (after-suc cap s.read_pos n) ∙ ap (λ i. after cap i n) (sym e));
          producer_ok = producer-fewer cap n s.write_pos s.buffer s.producer h.producer_ok;
          consumer_ok = tt;
        },
      )

  enqueue_check-Holds :
      (n : ℕ) (s : Spsc A) (x : A)
      → Holds cap n s
      → next_pos cap s.write_pos ≢ s.read_pos
      → Holds cap n (record s { producer = has_room x s.write_pos (next_pos cap s.write_pos) })
  enqueue_check-Holds n s x h ne = record {
    items = h.items;
    read_in = h.read_in;
    small = h.small;
    write = h.write;
    producer_ok = (refl, refl, room cap n s h ne, tt);
    consumer_ok = h.consumer_ok;
  }

  dequeue_check-Holds :
      (n : ℕ) (s : Spsc A)
      → Holds cap n s
      → s.read_pos ≢ s.write_pos
      → Holds cap n (record s { consumer = has_item s.read_pos })
  dequeue_check-Holds n s h ne = record {
    items = h.items;
    read_in = h.read_in;
    small = h.small;
    write = h.write;
    producer_ok = h.producer_ok;
    consumer_ok = (refl, some_item cap n s h ne, tt);
  }

  dequeue_move-Holds :
      (n : ℕ) (s : Spsc A) (r : ℕ)
      → Holds cap n s
      → s.consumer ≡ has_item r
      → Holds cap n (record s { consumer = has_moved r (s.buffer r) })
  dequeue_move-Holds n s r h at =
      let c : ConsumerOk cap n s.read_pos s.buffer (has_item r) = rw at at h.consumer_ok in
      record {
        items = h.items;
        read_in = h.read_in;
        small = h.small;
        write = h.write;
        producer_ok = h.producer_ok;
        consumer_ok = (c.0, c.1, refl);
      }

  moved_item :
      (t : Spsc A) (r : ℕ) (x : A) (n : ℕ)
      → Holds cap n t
      → t.consumer ≡ has_moved r x
      → (rest : List A) × (t.enqueued ≡ t.dequeued ++ (x ∷ rest))
  unfolding window
  moved_item t r x zero h at =
      let c : ConsumerOk cap 0 t.read_pos t.buffer (has_moved r x) = rw at at h.consumer_ok in
      absurd (omega (arith, c.1))
  moved_item t r x (suc n) h at =
      let c : ConsumerOk cap (suc n) t.read_pos t.buffer (has_moved r x) = rw at at h.consumer_ok in
      let rest : List A = window cap t.buffer (after cap t.read_pos 1) n in
      (rest, h.items ∙ ap (λ y. t.dequeued ++ (y ∷ rest)) (ap t.buffer (sym c.0) ∙ c.2))

  Step-Holds : (n : ℕ) (s t : Spsc A) → Holds cap n s → Step cap s t → (k : ℕ) × Holds cap k t
  Step-Holds n s t h (enqueue_check x out ne e) =
      (n, subst (Holds cap n) (sym e) (enqueue_check-Holds n s x h ne))
  Step-Holds n s t h (enqueue_full out e) = (n, h)
  Step-Holds n s t h (enqueue_write x w next_w at e) =
      (n, subst (Holds cap n) (sym e) (enqueue_write-Holds n s x w next_w h at))
  Step-Holds n s t h (enqueue_publish x w next_w at e) =
      (suc n, subst (Holds cap (suc n)) (sym e) (enqueue_publish-Holds n s x w next_w h at))
  Step-Holds n s t h (dequeue_check out ne e) =
      (n, subst (Holds cap n) (sym e) (dequeue_check-Holds n s h ne))
  Step-Holds n s t h (dequeue_empty out e) = (n, h)
  Step-Holds n s t h (dequeue_move r at e) =
      (n, subst (Holds cap n) (sym e) (dequeue_move-Holds n s r h at))
  Step-Holds n s t h (dequeue_publish r x at e) =
      subst (λ u. (k : ℕ) × Holds cap k u) (sym e) (dequeue_publish-Holds n s r x h at)

  fresh-Holds : (filler : A) → 0 < cap → Holds cap 0 (fresh filler)
  unfolding window
  fresh-Holds filler pos = record {
    items = refl;
    read_in = pos;
    small = pos;
    write = sym (after-zero cap 0 pos);
    producer_ok = tt;
    consumer_ok = tt;
  }

  reach-Holds : (s t : Spsc A) (n : ℕ) → Holds cap n s → Reach cap s t → (k : ℕ) × Holds cap k t
  reach-Holds s t n h here = (n, h)
  reach-Holds s t n h (next {t = u} r step) =
      let before = reach-Holds s u n h r in Step-Holds (before.0) u t (before.1) step

  -- In a state that the two threads reach from a new queue with at least one place, in any
  -- interleaving of their steps, the items put in by the completed enqueues are, in their order,
  -- those taken out by the completed dequeues and then the fewer than `cap` that stand in the ring
  -- from the read position on; the write position is the place after those.
  pub reach_fifo :
      (filler : A) (t : Spsc A)
      → 0 < cap
      → Reach cap (fresh filler) t
      → (n : ℕ) × (n < cap)
        × (t.write_pos ≡ after cap t.read_pos n)
        × (t.enqueued ≡ t.dequeued ++ window cap t.buffer t.read_pos n)
  reach_fifo filler t pos r =
      let held = reach-Holds (fresh filler) t 0 (fresh-Holds filler pos) r in
      (held.0, held.1.small, held.1.write, held.1.items)

  -- A consumer that has moved an item out, and not yet published it, holds the oldest item that is
  -- not yet counted as taken out, in every state reachable from a new queue with at least one place.
  pub moved_is_next :
      (filler : A) (t : Spsc A) (r : ℕ) (x : A)
      → 0 < cap
      → Reach cap (fresh filler) t
      → t.consumer ≡ has_moved r x
      → (rest : List A) × (t.enqueued ≡ t.dequeued ++ (x ∷ rest))
  moved_is_next filler t r x pos reach at =
      let held = reach-Holds (fresh filler) t 0 (fresh-Holds filler pos) reach in
      moved_item t r x (held.0) (held.1) at

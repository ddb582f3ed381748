-- ===== src/Queue/Spsc/Order.antt =====
-- The two threads of `SpscQueue` in any interleaving: no item is lost, doubled, reordered or
-- overwritten.
use native.Mathlib.Decide.{ℕ_discrete}
use tcpudp.Base.{ℕ, zero, suc, ◌+◌, ◌<◌, ◌≡◌, ◌≢◌, ◌∙◌, sym, ap, ◌++◌, arith}
use tcpudp.Queue.Spsc.{
  Spsc, Producer, Consumer, has_room, has_written, has_item, has_moved, update, next_pos,
}
use tcpudp.Queue.Spsc.Ring.{after, after-add, after-zero, after-cap, window}

module _ {ℓ} {A : Type ℓ} (cap : ℕ) where
  -- What the locals of the two threads say of the queue, with `n` items in it.
  abbrev pub ProducerOk : ℕ → ℕ → (ℕ → A) → Producer A → Type ℓ
  ProducerOk n write buffer Producer.out_of_call = Unit
  ProducerOk n write buffer (has_room x w next_w) =
      (w ≡ write) × (next_w ≡ next_pos cap w) × (n + 1 < cap) × Unit {ℓ}
  ProducerOk n write buffer (has_written x w next_w) =
      (w ≡ write) × (next_w ≡ next_pos cap w) × (n + 1 < cap) × (buffer w ≡ x)

  abbrev pub ConsumerOk : ℕ → ℕ → (ℕ → A) → Consumer A → Type ℓ
  ConsumerOk n read buffer Consumer.out_of_call = Unit
  ConsumerOk n read buffer (has_item r) = (r ≡ read) × (0 < n) × Unit {ℓ}
  ConsumerOk n read buffer (has_moved r x) = (r ≡ read) × (0 < n) × (buffer r ≡ x)

  -- The ring holds `n` items, those put in and not yet taken out.
  pub record Holds (n : ℕ) (s : Spsc A) : Type ℓ where
    pub items : s.enqueued ≡ s.dequeued ++ window cap s.buffer s.read_pos n
    pub read_in : s.read_pos < cap
    pub small : n < cap
    pub write : s.write_pos ≡ after cap s.read_pos n
    pub producer_ok : ProducerOk n s.write_pos s.buffer s.producer
    pub consumer_ok : ConsumerOk n s.read_pos s.buffer s.consumer

  -- There is room if the place after the write position is not the read position.
  pub room : (n : ℕ) (s : Spsc A) → Holds n s → next_pos cap s.write_pos ≢ s.read_pos → n + 1 < cap
  room n s h ne = elim (ℕ_discrete (n + 1) cap) [
    | yes full ↦
        let k : suc n ≡ cap = omega arith in
        let e : after cap s.write_pos 1 ≡ after cap s.read_pos (suc n) =
          ap (λ w. after cap w 1) h.write ∙ after-add cap s.read_pos n in
        absurd (ne (e ∙ (ap (after cap s.read_pos) k ∙ after-cap cap s.read_pos h.read_in)))
    | no free ↦ omega (arith, h.small)
  ]

  -- There is an item if the positions differ.
  pub some_item : (n : ℕ) (s : Spsc A) → Holds n s → s.read_pos ≢ s.write_pos → 0 < n
  some_item zero s h ne = absurd (ne (sym (h.write ∙ after-zero cap s.read_pos h.read_in)))
  some_item (suc n) s h ne = omega arith

  pub consumer-write :
      (n read w : ℕ) (x : A) (buffer : ℕ → A) (c : Consumer A)
      → (0 < n → w ≢ read)
      → ConsumerOk n read buffer c
      → ConsumerOk n read (update buffer w x) c
  consumer-write n read w x buffer Consumer.out_of_call h k = tt
  consumer-write n read w x buffer (has_item r) h k = k
  consumer-write n read w x buffer (has_moved r y) h k =
      let ne : w ≢ read = h k.1 in (k.0, k.1, ground (arith, k))

  pub consumer-more :
      (n read : ℕ) (buffer : ℕ → A) (c : Consumer A)
      → ConsumerOk n read buffer c
      → ConsumerOk (suc n) read buffer c
  consumer-more n read buffer Consumer.out_of_call k = tt
  consumer-more n read buffer (has_item r) k = (k.0, omega arith, tt)
  consumer-more n read buffer (has_moved r y) k = (k.0, omega arith, k.2)

  pub producer-fewer :
      (n write : ℕ) (buffer : ℕ → A) (p : Producer A)
      → ProducerOk (suc n) write buffer p
      → ProducerOk n write buffer p
  producer-fewer n write buffer Producer.out_of_call k = tt
  producer-fewer n write buffer (has_room x w next_w) k = (k.0, k.1, omega arith, tt)
  producer-fewer n write buffer (has_written x w next_w) k = (k.0, k.1, omega arith, k.3)

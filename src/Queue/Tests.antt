-- ===== src/Queue/Tests.antt =====
-- Small queues, and the theorems on them.
use tcpudp.Base.{ℕ, ◌+◌, ◌-◌, ◌%◌, ◌<◌, ◌≡◌, refl, arith, [], ◌∷◌, ◌++◌, false}
use tcpudp.Queue.Blocking.{BlockingQueue, size_mod, approx_size, size}
use tcpudp.Queue.Blocking.Counter
use tcpudp.Queue.Blocking.Counter.{
  Shared, Step, Reach, push, count_push, try_pop, puts, takes, interleaved_fifo, counter_wraps,
}
use tcpudp.Queue.Spsc.{
  Spsc, Producer, Consumer, has_room, has_item, has_written, has_moved, update, next_pos,
  enqueue_check, enqueue_write, enqueue_publish, dequeue_check, dequeue_move,
}
use tcpudp.Queue.Spsc
use tcpudp.Queue.Spsc.Ring.{after, window}
use tcpudp.Queue.Spsc.Steps.{reach_fifo}

abbrev empty_queue : BlockingQueue ℕ
empty_queue = record { queue = []; cancelled = false; approx_queue_size = 0; has_notifier = false }

abbrev quiet : Shared ℕ
quiet = record { q = empty_queue; adds = 0; subs = 0 }

abbrev pushed : Shared ℕ
pushed = record { q = record empty_queue { queue = 7 ∷ [] }; adds = 1; subs = 0 }

abbrev counted : Shared ℕ
counted = record {
  q = record empty_queue { queue = 7 ∷ []; approx_queue_size = 1 };
  adds = 0;
  subs = 0;
}

abbrev push_and_count : Reach quiet counted
push_and_count =
    Counter.next (Counter.next Counter.here (push {t = pushed} 7 refl)) (count_push 0 refl refl)

abbrev taken : Shared ℕ
taken = record { q = empty_queue; adds = 0; subs = 0 }

abbrev put_and_taken : Reach quiet taken
put_and_taken = Counter.next push_and_count (try_pop 7 [] refl refl refl)

-- The 7 that was put is the 7 that was taken, and the counter is 0 again.
interleaved_fifo_example :
    (takes put_and_taken ++ taken.q.queue ≡ quiet.q.queue ++ puts put_and_taken)
    × ((0 < size_mod) × ((0 + 0) % size_mod ≡ (0 + 0) % size_mod))
interleaved_fifo_example = interleaved_fifo quiet taken put_and_taken (omega arith, refl)

counter_wraps_example :
    (t : Shared ℕ) × Reach quiet t × (size t.q ≡ 0) × (approx_size t.q ≡ size_mod - 1)
counter_wraps_example = counter_wraps quiet 7 (refl, refl, omega arith, refl) refl refl

-- A ring of three places, in which 7 has been put in and is about to be taken out.
abbrev ring0 : Spsc ℕ
ring0 = Spsc.fresh 0

abbrev ring1 : Spsc ℕ
ring1 = record ring0 { producer = has_room 7 0 1 }

abbrev ring2 : Spsc ℕ
ring2 = record ring1 { buffer = update (λ _. 0) 0 7; producer = has_written 7 0 1 }

abbrev ring3 : Spsc ℕ
ring3 = record ring2 { write_pos = 1; producer = Producer.out_of_call; enqueued = 7 ∷ [] }

abbrev ring4 : Spsc ℕ
ring4 = record ring3 { consumer = has_item 0 }

abbrev ring5 : Spsc ℕ
ring5 = record ring4 { consumer = has_moved 0 7 }

abbrev to_ring3 : Spsc.Reach 3 ring0 ring3
to_ring3 =
    Spsc.next
      (Spsc.next (Spsc.next Spsc.here (enqueue_check {t = ring1} 7 refl (omega arith) refl))
        (enqueue_write {t = ring2} 7 0 1 refl refl))
      (enqueue_publish 7 0 1 refl refl)

abbrev to_ring5 : Spsc.Reach 3 ring0 ring5
to_ring5 =
    Spsc.next (Spsc.next to_ring3 (dequeue_check {t = ring4} refl (omega arith) refl))
      (dequeue_move 0 refl refl)

reach_fifo_example :
    (n : ℕ) × (n < 3)
    × (ring5.write_pos ≡ after 3 ring5.read_pos n)
    × (ring5.enqueued ≡ ring5.dequeued ++ window 3 ring5.buffer ring5.read_pos n)
reach_fifo_example = reach_fifo 3 0 ring5 (omega arith) to_ring5

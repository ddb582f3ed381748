-- ===== src/SendThread/Complete.antt =====
-- src/common/TcpVCSendThread.cpp: the loop by which run and sendOnResendConn complete a packet of which
-- some bytes were written.
use tcpudp.Base.{
  ℕ, zero, suc, ◌+◌, ◌-◌, ◌≤◌, ◌<◌, ◌≡◌, refl, arith, Bool, true, false, ltb, leb, min, ◌⊎◌, inl,
  inr, if◌then◌else◌, Bool-cases, ltb→lt, ltb→le,
}
use tcpudp.Socket.{SendResult, wrote, would_block, interrupted, connection_closed, send_tcp_direct}
use tcpudp.SendThread.State.{Round}

abbrev pub partial_send_budget_ms : ℕ
partial_send_budget_ms = 3000

-- What a round means for the loop: it ends, with or without `hardError`, or so many bytes more have
-- been sent.
pub data Next : Type 0 where
  stop : Bool → Next
  go : ℕ → Next

-- `elapsedMs >= PARTIAL_SEND_BUDGET_MS`
abbrev pub stalled : ℕ → Next
stalled elapsed_ms = if leb partial_send_budget_ms elapsed_ms then stop false else go 0

-- `send` is documented to take no more bytes than it is given, which is what is left.
abbrev pub sent_more : SendResult → ℕ → ℕ → Next
sent_more (wrote zero) elapsed_ms left = stop true
sent_more (wrote (suc n)) elapsed_ms left = go (min (suc n) left)
sent_more would_block elapsed_ms left = stalled elapsed_ms
sent_more interrupted elapsed_ms left = stalled elapsed_ms
sent_more connection_closed elapsed_ms left = stop true

unfoldable pub next_round : Round → ℕ → Next
next_round r left =
    if r.up
    then if r.writable
      then sent_more (send_tcp_direct r.result) r.elapsed_ms left
      else stalled r.elapsed_ms
    else stop false

-- The end of the loop, or its next round.
abbrev pub after : Next → ℕ → (ℕ → ℕ × Bool) → ℕ × Bool
after (stop hard_error) total on = (total, hard_error)
after (go n) total on = on (total + n)

-- `totalSent` and `hardError` at the end.
unfoldable pub complete : ℕ → (ℕ → Round) → ℕ → ℕ → ℕ → ℕ × Bool
complete zero rounds k total size = (total, false)
complete (suc fuel) rounds k total size = elim (ltb total size) [
  | false ↦ (total, false)
  | true ↦
      after (next_round (rounds k) (size - total)) total
        (λ sent. complete fuel rounds (k + 1) sent size)
]

-- A round that goes on has sent bytes, no more than were left, or is within the budget.
abbrev Progress : Next → ℕ → ℕ → Type 0
Progress (stop h) elapsed_ms left = Unit {0}
Progress (go n) elapsed_ms left = (n ≤ left) × ((1 ≤ n) ⊎ (suc elapsed_ms ≤ partial_send_budget_ms))

stalled-Progress : (elapsed_ms left : ℕ) → Progress (stalled elapsed_ms) elapsed_ms left
stalled-Progress elapsed_ms left = elim (Bool-cases (leb partial_send_budget_ms elapsed_ms)) [
  | inl e ↦ rw e tt
  | inr e ↦ rw e (omega arith, inr (ground arith))
]

sent_more-Progress :
    (x : SendResult) (elapsed_ms left : ℕ)
    → 0 < left
    → Progress (sent_more x elapsed_ms left) elapsed_ms left
sent_more-Progress (wrote zero) elapsed_ms left h = tt
sent_more-Progress (wrote (suc n)) elapsed_ms left h = (omega arith, inl (omega arith))
sent_more-Progress would_block elapsed_ms left h = stalled-Progress elapsed_ms left
sent_more-Progress interrupted elapsed_ms left h = stalled-Progress elapsed_ms left
sent_more-Progress connection_closed elapsed_ms left h = tt

next_round-Progress :
    (r : Round) (left : ℕ) → 0 < left → Progress (next_round r left) r.elapsed_ms left
unfolding next_round
next_round-Progress r left h = elim (Bool-cases r.up) [
  | inl u ↦ elim (Bool-cases r.writable) [
    | inl w ↦
        rw (u, w, next_round) (sent_more-Progress (send_tcp_direct r.result) r.elapsed_ms left h)
    | inr w ↦ rw (u, w, next_round) (stalled-Progress r.elapsed_ms left)
  ]
  | inr u ↦ rw (u, next_round) tt
]

-- The rounds still possible: those before the clock passes the budget, and one for each byte.
abbrev rounds_left : ℕ → ℕ → ℕ → ℕ → ℕ
rounds_left late k total size = (late - k) + (size - total)

after_same :
    (x : Next) (elapsed_ms left total : ℕ) (f g : ℕ → ℕ × Bool)
    → Progress x elapsed_ms left
    → ((n : ℕ) → Progress (go n) elapsed_ms left → f (total + n) ≡ g (total + n))
    → after x total f ≡ after x total g
after_same (stop h) elapsed_ms left total f g p same = refl
after_same (go n) elapsed_ms left total f g p same = same n p

module _ (rounds : ℕ → Round) (late : ℕ)
    (passes : (k : ℕ) → late ≤ k → partial_send_budget_ms ≤ (rounds k).elapsed_ms) where
  -- A round that goes on leaves fewer rounds possible.
  fewer :
      (k n total size : ℕ)
      → total < size
      → Progress (go n) (rounds k).elapsed_ms (size - total)
      → rounds_left late (k + 1) (total + n) size < rounds_left late k total size
  fewer k n total size h (bound, inl more) = omega arith
  fewer k n total size h (bound, inr early) = elim (Bool-cases (ltb k late)) [
    | inl before ↦ omega (arith, ltb→lt k late before)
    | inr past ↦ absurd (omega (arith, passes k (ltb→le k late past)))
  ]

  complete-fuel :
      (fuel more k total size : ℕ)
      → rounds_left late k total size ≤ fuel
      → complete (fuel + more) rounds k total size ≡ complete fuel rounds k total size
  unfolding complete
  complete-fuel zero zero k total size h = refl
  complete-fuel zero (suc more) k total size h =
      let e : 0 + suc more ≡ suc more = omega arith in
      let done : ltb total size ≡ false = ground arith in rw (e, done, complete) refl
  complete-fuel (suc fuel) more k total size h =
      let e : suc fuel + more ≡ suc (fuel + more) = omega arith in
      elim (Bool-cases (ltb total size)) [
        | inl open_bytes ↦
            let below : total < size = ltb→lt total size open_bytes in
            rw (e, open_bytes, complete)
              (after_same (next_round (rounds k) (size - total)) (rounds k).elapsed_ms
                (size - total) total (λ sent. complete (fuel + more) rounds (k + 1) sent size)
                (λ sent. complete fuel rounds (k + 1) sent size)
                (next_round-Progress (rounds k) (size - total) (omega arith))
                (λ n p.
                  complete-fuel fuel more (k + 1) (total + n) size
                    (omega (arith, fewer k n total size below p))))
        | inr done ↦ rw (e, done, complete) refl
      ]

-- Where a property holds of a round that stops, and of what follows one that goes on, it holds of
-- the end.
after_ind :
    (E : ℕ × Bool → Type 0) (x : Next) (elapsed_ms left total : ℕ) (f : ℕ → ℕ × Bool)
    → Progress x elapsed_ms left
    → ((h : Bool) → x ≡ stop h → E (total, h))
    → ((n : ℕ) → Progress (go n) elapsed_ms left → E (f (total + n)))
    → E (after x total f)
after_ind E (stop h) elapsed_ms left total f p at_stop on = at_stop h refl
after_ind E (go n) elapsed_ms left total f p at_stop on = on n p

-- All bytes have been counted, or some round with what is left now stops the loop.
abbrev pub Ends : (ℕ → Round) → ℕ → ℕ × Bool → Type 0
Ends rounds size ended =
    (ended.0 ≡ size) ⊎ ((j : ℕ) × (next_round (rounds j) (size - ended.0) ≡ stop ended.1))

complete-Ends :
    (rounds : ℕ → Round) (late : ℕ)
    → ((k : ℕ) → late ≤ k → partial_send_budget_ms ≤ (rounds k).elapsed_ms)
    → (fuel k total size : ℕ) → rounds_left late k total size ≤ fuel
    → total ≤ size
    → Ends rounds size (complete fuel rounds k total size)
unfolding complete
complete-Ends rounds late passes zero k total size h b = inl (omega arith)
complete-Ends rounds late passes (suc fuel) k total size h b = elim (Bool-cases (ltb total size)) [
  | inl open_bytes ↦
      let below : total < size = ltb→lt total size open_bytes in
      rw (open_bytes, complete)
        (after_ind (Ends rounds size) (next_round (rounds k) (size - total)) (rounds k).elapsed_ms
          (size - total) total (λ sent. complete fuel rounds (k + 1) sent size)
          (next_round-Progress (rounds k) (size - total) (omega arith)) (λ h e. inr (k, e))
          (λ n p.
            complete-Ends rounds late passes fuel (k + 1) (total + n) size
              (omega (arith, fewer rounds late passes k n total size below p))
              (omega (arith, p.0))))
  | inr done ↦ rw (done, complete) (inl (ground arith))
]

after_bounds :
    (x : Next) (elapsed_ms total size : ℕ) (f : ℕ → ℕ × Bool)
    → total ≤ size
    → Progress x elapsed_ms (size - total)
    → ((sent : ℕ) → total ≤ sent → sent ≤ size → (sent ≤ (f sent).0) × ((f sent).0 ≤ size))
    → (total ≤ (after x total f).0) × ((after x total f).0 ≤ size)
after_bounds (stop h) elapsed_ms total size f b p rest = (omega arith, b)
after_bounds (go n) elapsed_ms total size f b p rest =
    let r = rest (total + n) (omega arith) (omega (arith, p.0)) in (omega (arith, r.0), r.1)

-- The bytes counted at the end are no fewer than at the start, and no more than the packet has.
pub complete-bounds :
    (fuel : ℕ) (rounds : ℕ → Round) (k total size : ℕ)
    → total ≤ size
    → (total ≤ (complete fuel rounds k total size).0)
      × ((complete fuel rounds k total size).0 ≤ size)
unfolding complete
complete-bounds zero rounds k total size h = (omega arith, h)
complete-bounds (suc fuel) rounds k total size h = elim (Bool-cases (ltb total size)) [
  | inl open_bytes ↦
      let below : total < size = ltb→lt total size open_bytes in
      rw (open_bytes, complete)
        (after_bounds (next_round (rounds k) (size - total)) (rounds k).elapsed_ms total size
          (λ sent. complete fuel rounds (k + 1) sent size) h
          (next_round-Progress (rounds k) (size - total) (omega arith))
          (λ sent a b. complete-bounds fuel rounds (k + 1) sent size b))
  | inr done ↦ rw (done, complete) (omega arith, h)
]

-- The loop that completes a packet ends: when the clock has passed the budget from round `late` on,
-- no more rounds are run than `late` and one for each byte that was left, whatever the socket
-- answers, so that more fuel changes nothing. A round in which the socket takes bytes goes on even
-- after the budget. The count never falls, and at the end it is the size of the packet, or a round
-- with what is left has stopped the loop, with the error that is returned. Condition: the bytes
-- written before are no more than the packet has. That the count stays within the packet rests on
-- `send` taking no more than it is given.
pub complete_total :
    (rounds : ℕ → Round) (late total size more : ℕ)
    → ((k : ℕ) → late ≤ k → partial_send_budget_ms ≤ (rounds k).elapsed_ms)
    → total ≤ size
    → let fuel = late + (size - total) in
      let ended = complete fuel rounds 0 total size in
      (complete (fuel + more) rounds 0 total size ≡ ended)
      × (total ≤ ended.0)
      × (ended.0 ≤ size)
      × Ends rounds size ended
complete_total rounds late total size more passes h =
    let fuel = late + (size - total) in
    let bounds = complete-bounds fuel rounds 0 total size h in
    (
      complete-fuel rounds late passes fuel more 0 total size (omega arith),
      bounds.0,
      bounds.1,
      complete-Ends rounds late passes fuel 0 total size (omega arith) h,
    )

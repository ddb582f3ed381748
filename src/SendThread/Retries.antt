-- ===== src/SendThread/Retries.antt =====
-- What becomes of a packet on the resend queue of src/common/TcpVCSendThread.cpp.
pub mod Bounded
use native.Mathlib.Nat.{mod-lt, mod-add-mod, mod-eq_of_lt}
use tcpudp.Base.{
  ℕ, zero, suc, ◌+◌, ◌-◌, ◌%◌, ◌^◌, ◌≤◌, ◌<◌, ◌≡◌, refl, sym, ap, ap₂, ◌∙◌, subst, arith, Bool,
  true, false, List, [], ◌∷◌, ◌++◌, Option, none, some, length, get_elem?, if_ind, ltb, leb, ◌==◌,
  if◌then◌else◌, if_true, if_false, Bool-cases, inl, inr, All, contains, le→ltb, lt→ltb,
}
use tcpudp.Base.Assoc.{lookup, insert, erase, lookup-insert, lookup-erase}
use tcpudp.Base.Int.{ℤ, pos, negsuc}
use tcpudp.Queue.Blocking.{BlockingQueue, enqueue, try_dequeue}
use tcpudp.VcPacket.{vc_first_resend_conn_index}
use tcpudp.SendThread.State.{SendThread, World}
use tcpudp.SendThread.Resend.{
  Resent, try_resend, resend_failed, resend_ended, send_on_resend_conn, drain_resend, resend_phase,
  resend_order, resend_count, message_id, max_resend_batch, with_counts, requeue, turn_resend,
  next_resend, retries, retry_count, max_resend_retries,
}
use tcpudp.SendThread.Order.First.{passes}
use tcpudp.SendThread.Frame.{Same, Same-refl, try_resend-Same}

-- The attempts that a packet gets now, with their outcome.
unfoldable pub attempts_on : World → List ℕ → SendThread → Resent
attempts_on w packet s =
    try_resend w packet (resend_order s.resend_round_robin (resend_count s) 0 (resend_count s)) 0 s

-- The packets on the resend queue and the count of the id that should be left, by outcome: sent; no
-- connection alive; tries left; none left.
unfoldable pub fate : ℕ → List ℕ → SendThread → Resent → List (List ℕ) × ℕ
fate id packet s r =
    let queued = s.resend_queue.queue in
    let count = retry_count id s in
    if r.sent
    then (queued, 0)
    else if r.alive == 0
    then (queued ++ packet ∷ [], count)
    else if ltb count max_resend_retries
    then (queued ++ packet ∷ [], count + 1)
    else (queued, 0)

abbrev pub Leaves : ℕ → List (List ℕ) × ℕ → SendThread → Type 0
Leaves id (queued, count) t = (t.resend_queue.queue ≡ queued) × (retry_count id t ≡ count)

lookup-erase_self : (id : ℕ) (m : List (ℕ × ℕ)) → lookup id (erase id m) ≡ none
lookup-erase_self id m = ground (arith, lookup-erase id id m)

lookup-insert_self : (id n : ℕ) (m : List (ℕ × ℕ)) → lookup id (insert id n m) ≡ some n
lookup-insert_self id n m = ground (arith, lookup-insert id id n m)

failed-fate :
    (id : ℕ) (packet : List ℕ) (s t : SendThread) (alive : ℕ)
    → t.resend_queue ≡ s.resend_queue
    → t.resend_retry_count ≡ s.resend_retry_count
    → Leaves id
        (fate id packet s (record { state = t; alive = alive; sent = false }))
        (resend_failed id packet alive t)
unfolding fate resend_failed requeue with_counts enqueue
failed-fate id packet s t alive e f =
    let count = retry_count id t in
    let counted = insert id count t.resend_retry_count in
    let more = (count + 1) % 2 ^ 8 in
    ground (
      arith,
      ap (lookup id) f,
      ap (λ (q : BlockingQueue (List ℕ)). q.queue) e,
      lookup-insert_self id count t.resend_retry_count,
      lookup-insert_self id more counted,
      lookup-erase_self id counted,
    )

ended-fate :
    (id : ℕ) (packet : List ℕ) (s : SendThread) (r : Resent)
    → Same s r.state
    → Leaves id (fate id packet s r) (resend_ended id packet r)
unfolding fate turn_resend with_counts
ended-fate id packet s r v = elim (Bool-cases r.sent) [
  | inl e ↦ ground (
    arith,
    v.counts,
    ap (λ (q : BlockingQueue (List ℕ)). q.queue) v.resends,
    lookup-erase_self id r.state.resend_retry_count,
  )
  | inr e ↦
      let failed = failed-fate id packet s (turn_resend r.state) r.alive v.resends v.counts in
      ground (arith, failed.0, failed.1)
]

-- A packet from the resend queue, of the id in its header, ends in one of four ways: an attempt sent
-- it, and it is not enqueued again; no resend connection was alive, and it is enqueued again with its
-- count of failures as it was; all attempts failed and the count was below 6, and it is enqueued
-- again with one failure more; or the count was 6, and it is dropped. In the first and the last case
-- the count is forgotten. Condition: the channel has resend connections.
pub resend_fate :
    (w : World) (packet : List ℕ) (s : SendThread)
    → vc_first_resend_conn_index < length s.connections
    → Leaves
        (message_id packet)
        (fate (message_id packet) packet s (attempts_on w packet s))
        (send_on_resend_conn w packet s)
unfolding send_on_resend_conn attempts_on
resend_fate w packet s h =
    let order = resend_order s.resend_round_robin (resend_count s) 0 (resend_count s) in
    let r = try_resend w packet order 0 s in
    let same = try_resend-Same s w packet order 0 (Same-refl s) in
    let enough : leb (length s.connections) vc_first_resend_conn_index ≡ false = ground arith in
    subst (Leaves (message_id packet) (fate (message_id packet) packet s r))
      (sym (if_false _ _ enough)) (ended-fate (message_id packet) packet s r same)

-- The attempts name resend slots only.
resend_order_in_range :
    (round_robin count a n top : ℕ)
    → 0 < count
    → vc_first_resend_conn_index + count ≤ top
    → All (λ i. (vc_first_resend_conn_index ≤ i) × (i < top)) (resend_order round_robin count a n)
unfolding resend_order
resend_order_in_range round_robin count a zero top h k = tt
resend_order_in_range round_robin count a (suc n) top h k =
    let small : (round_robin + a) % count < count = mod-lt (round_robin + a) h in
    ((omega arith, omega arith), resend_order_in_range round_robin count (a + 1) n top h k)

resend_order_names :
    (round_robin count a n k j : ℕ)
    → k < n
    → (round_robin + (a + k)) % count ≡ j
    → contains (vc_first_resend_conn_index + j) (resend_order round_robin count a n) ≡ true
unfolding resend_order
resend_order_names round_robin count a zero k j h e = elim h [ ]
resend_order_names round_robin count a (suc n) zero j h e =
    let same : a + 0 ≡ a = omega arith in
    let named : (round_robin + a) % count ≡ j =
      ap (λ b. (round_robin + b) % count) (sym same) ∙ e in
    ground arith
resend_order_names round_robin count a (suc n) (suc k) j h e =
    let same : a + suc k ≡ a + 1 + k = omega arith in
    let rest =
      resend_order_names round_robin count (a + 1) n k j (omega arith)
        (ap (λ b. (round_robin + b) % count) (sym same) ∙ e) in
    ground (arith, rest)

-- The attempts for a packet name resend slots only, and each of them, from the one that the
-- round-robin counter picks. Condition: the counter is below their number, as it is after each
-- packet.
resend_order_covers :
    (round_robin count : ℕ)
    → round_robin < count
    → All
        (λ i. (vc_first_resend_conn_index ≤ i) × (i < vc_first_resend_conn_index + count))
        (resend_order round_robin count 0 count)
      × ((j : ℕ)
          → j < count
          → contains (vc_first_resend_conn_index + j) (resend_order round_robin count 0 count)
            ≡ true)
resend_order_covers round_robin count h = (
  resend_order_in_range round_robin count 0 count (vc_first_resend_conn_index + count) (omega arith)
      (omega arith),
  λ j k.
      let (a, few, lands) = passes round_robin j count h k in
      let same : a ≡ 0 + a = omega arith in
      resend_order_names round_robin count 0 count a j few
        (ap (λ b. (round_robin + b) % count) (sym same) ∙ lands),
)

-- ===== src/SendThread/Retries/Bounded.antt =====
-- The retry counts of src/common/TcpVCSendThread.cpp stay within their bound, so that a `uint8_t` holds
-- them.
use tcpudp.Base.{
  ℕ, zero, suc, ◌+◌, ◌%◌, ◌^◌, ◌≤◌, ◌<◌, sym, subst, arith, Bool, true, false, List, [], ◌∷◌,
  Option, none, some, if_ind, ltb, ltb→lt, ◌==◌, if_true, if_false, Bool-cases, inl, inr, All,
  length,
}
use tcpudp.Base.Assoc.{lookup, insert, erase}
use tcpudp.Base.Int.{ℤ, pos, negsuc}
use tcpudp.Connection.{TcpConnection}
use tcpudp.Status.{SocketStatus}
use tcpudp.Queue.Blocking.{try_dequeue}
use tcpudp.SendThread.State.{SendThread, World, ConnSendStats, replace_connection}
use tcpudp.SendThread.Resend.{
  Resent, try_resend, resend_failed, resend_ended, send_on_resend_conn, drain_resend, resend_phase,
  resend_order, resend_count, message_id, max_resend_batch, with_counts, requeue, turn_resend,
  next_resend, retries, retry_count, max_resend_retries,
}
use tcpudp.SendThread.{
  Turn, send_packet, unsent, take_packet, take_retained, handle, turn, Event, round, replaced, step,
  run,
}
use tcpudp.SendThread.Frame.{Same, Same-refl, try_resend-Same}
use tcpudp.SendThread.Conserve.{Tried, tries, send_packet-Tried}

abbrev IsSmall : ℕ × ℕ → Type 0
IsSmall entry = entry.1 ≤ max_resend_retries

abbrev pub Small : List (ℕ × ℕ) → Type 0
Small counts = All IsSmall counts

insert-Small :
    (id n : ℕ) (m : List (ℕ × ℕ)) → n ≤ max_resend_retries → Small m → Small (insert id n m)
unfolding insert
insert-Small id n [] h s = (h, tt)
insert-Small id n ((k, old) ∷ rest) h s =
    if_ind Small (k == id) _ _ (h, s.1) (s.0, insert-Small id n rest h s.1)

erase-Small : (id : ℕ) (m : List (ℕ × ℕ)) → Small m → Small (erase id m)
unfolding erase
erase-Small id [] s = tt
erase-Small id ((k, n) ∷ rest) s =
    if_ind Small (k == id) _ _ (erase-Small id rest s.1) (s.0, erase-Small id rest s.1)

retries-le : (id : ℕ) (m : List (ℕ × ℕ)) → Small m → retries (lookup id m) ≤ max_resend_retries
unfolding lookup
retries-le id [] s = omega arith
retries-le id ((k, n) ∷ rest) s =
    if_ind (λ (o : Option ℕ). retries o ≤ max_resend_retries) (k == id) _ _ s.0
      (retries-le id rest s.1)

pub record IsBounded (s : SendThread) : Type 0 where
  pub small : Small s.resend_retry_count

requeue-IsBounded :
    (packet : List ℕ) (counts : List (ℕ × ℕ)) (s : SendThread)
    → Small counts
    → IsBounded (requeue packet (with_counts counts s))
unfolding requeue with_counts
requeue-IsBounded packet counts s h = record { small = h }

with_counts-IsBounded :
    (counts : List (ℕ × ℕ)) (s : SendThread) → Small counts → IsBounded (with_counts counts s)
unfolding with_counts
with_counts-IsBounded counts s h = record { small = h }

resend_failed-IsBounded :
    (id : ℕ) (packet : List ℕ) (alive : ℕ) (s : SendThread)
    → IsBounded s
    → IsBounded (resend_failed id packet alive s)
unfolding resend_failed
resend_failed-IsBounded id packet alive s v =
    let count = retry_count id s in
    let counts = insert id count s.resend_retry_count in
    let bound = retries-le id s.resend_retry_count v.small in
    let counted = insert-Small id count s.resend_retry_count bound v.small in
    if_ind IsBounded (alive == 0) _ _ (requeue-IsBounded packet counts s counted)
      (elim (Bool-cases (ltb count max_resend_retries)) [
        | inl few ↦
            let below : count < max_resend_retries = ltb→lt count max_resend_retries few in
            let more = insert-Small id ((count + 1) % 2 ^ 8) counts (omega arith) counted in
            subst IsBounded (sym (if_true _ _ few)) (requeue-IsBounded packet _ s more)
        | inr many ↦
            subst IsBounded (sym (if_false _ _ many))
              (with_counts-IsBounded (erase id counts) s (erase-Small id counts counted))
      ])

resend_ended-IsBounded :
    (id : ℕ) (packet : List ℕ) (r : Resent)
    → IsBounded r.state
    → IsBounded (resend_ended id packet r)
unfolding turn_resend
resend_ended-IsBounded id packet r v =
    let v' : IsBounded (turn_resend r.state) = record { small = v.small } in
    if_ind IsBounded r.sent _ _
      (with_counts-IsBounded _ (turn_resend r.state)
        (erase-Small id r.state.resend_retry_count v.small))
      (resend_failed-IsBounded id packet r.alive (turn_resend r.state) v')

Same-IsBounded : {s t : SendThread} → Same s t → IsBounded s → IsBounded t
Same-IsBounded same v = record { small = subst Small (sym same.counts) v.small }

send_on_resend_conn-IsBounded :
    (w : World) (packet : List ℕ) (s : SendThread)
    → IsBounded s
    → IsBounded (send_on_resend_conn w packet s)
unfolding send_on_resend_conn
send_on_resend_conn-IsBounded w packet s v =
    let order = resend_order s.resend_round_robin (resend_count s) 0 (resend_count s) in
    let same = try_resend-Same s w packet order 0 (Same-refl s) in
    if_ind IsBounded _ _ _ v (
      resend_ended-IsBounded (message_id packet) packet (try_resend w packet order 0 s)
        (Same-IsBounded same v))

next_resend-IsBounded :
    (o : Option (List ℕ)) (on : List ℕ → SendThread → SendThread) (s : SendThread)
    → ((p : List ℕ) (t : SendThread) → IsBounded t → IsBounded (on p t))
    → IsBounded s
    → IsBounded (next_resend o on s)
next_resend-IsBounded none on s keeps v = v
next_resend-IsBounded (some packet) on s keeps v = keeps packet s v

drain_resend-IsBounded :
    (n : ℕ) (worlds : ℕ → World) (s : SendThread)
    → IsBounded s
    → IsBounded (drain_resend n worlds s)
unfolding drain_resend
drain_resend-IsBounded zero worlds s v = v
drain_resend-IsBounded (suc n) worlds s v =
    next_resend-IsBounded (try_dequeue s.resend_queue).0
      (λ p t. drain_resend n worlds (send_on_resend_conn (worlds n) p t))
      (record s { resend_queue = (try_dequeue s.resend_queue).1 })
      (λ p t v'.
        drain_resend-IsBounded n worlds (send_on_resend_conn (worlds n) p t)
          (send_on_resend_conn-IsBounded (worlds n) p t v'))
      (record { small = v.small })

resend_phase-IsBounded :
    (worlds : ℕ → World) (s : SendThread) → IsBounded s → IsBounded (resend_phase worlds s)
unfolding resend_phase
resend_phase-IsBounded worlds s v =
    let drained = if_ind IsBounded _ _ _ (drain_resend-IsBounded max_resend_batch worlds s v) v in
    if_ind IsBounded _ _ _ (with_counts-IsBounded [] _ tt) drained

unsent-IsBounded :
    (s : SendThread) (packet : List ℕ) (r : SendThread × Bool)
    → IsBounded s
    → Tried s packet r
    → IsBounded (unsent packet r)
unsent-IsBounded s packet (t, true) v (i, same) = record {
  small = subst Small (sym same.counts) v.small;
}
unsent-IsBounded s packet (t, false) v same = record {
  small = subst Small (sym same.counts) v.small;
}

send_packet-IsBounded :
    (w : World) (packet : List ℕ) (s : SendThread)
    → IsBounded s
    → IsBounded (send_packet w packet s)
unfolding send_packet tries
send_packet-IsBounded w packet s v =
    unsent-IsBounded s packet (tries w packet s) v (send_packet-Tried w packet s)

handle-IsBounded :
    (t : Turn) (o : Option (List ℕ)) (s : SendThread) → IsBounded s → IsBounded (handle t (o, s))
handle-IsBounded t none s v = v
handle-IsBounded t (some packet) s v =
    if_ind IsBounded _ _ _ (if_ind IsBounded _ _ _ v (send_packet-IsBounded t.world packet s v)) v

turn-IsBounded : (t : Turn) (s : SendThread) → IsBounded s → IsBounded (turn t s)
unfolding turn take_packet
turn-IsBounded t s v =
    let s1 = resend_phase t.resends s in
    taken s1.pending_data s1 (resend_phase-IsBounded t.resends s v)
  where
    taken :
        (o : Option (List ℕ)) (s1 : SendThread)
        → IsBounded s1
        → IsBounded (handle t (take_retained o s1))
    taken (some packet) s1 v1 =
        handle-IsBounded t (some packet) (record s1 { pending_data = none })
          (record { small = v1.small })
    taken none s1 v1 =
        handle-IsBounded t (try_dequeue s1.send_queue).0
          (record s1 { send_queue = (try_dequeue s1.send_queue).1 }) (record { small = v1.small })

replace-IsBounded :
    (now : ℕ) (slot : ℤ) (conn : TcpConnection) (stats : Option ConnSendStats)
    (status : Option SocketStatus) (s : SendThread)
    → IsBounded s
    → IsBounded (replace_connection now slot conn stats status s)
unfolding replace_connection
replace-IsBounded now (negsuc i) conn stats status s v = v
replace-IsBounded now (pos i) conn stats status s v =
    elim (Bool-cases (ltb i (length s.connections))) [
      | inl e ↦ subst IsBounded (sym (if_true _ _ e)) (record { small = v.small })
      | inr e ↦ subst IsBounded (sym (if_false _ _ e)) v
    ]

step-IsBounded : (e : Event) (s : SendThread) → IsBounded s → IsBounded (step e s)
unfolding step
step-IsBounded (round t) s v = turn-IsBounded t s v
step-IsBounded (replaced now slot conn stats status) s v =
    replace-IsBounded now slot conn stats status s v

-- Over any number of rounds and hot-swaps no retry count exceeds 6, so that the `uint8_t` that holds
-- it never wraps. Condition: it is so at the start, as it is when no count has been made.
pub run-IsBounded : (es : List Event) (s : SendThread) → IsBounded s → IsBounded (run es s)
unfolding run
run-IsBounded [] s v = v
run-IsBounded (e ∷ es) s v = run-IsBounded es (step e s) (step-IsBounded e s v)

-- ===== src/SendThread/Framing/Rounds.antt =====
-- The rounds of the loop in src/common/TcpVCSendThread.cpp keep each stream whole.
use tcpudp.Base.{
  ℕ, zero, suc, ◌+◌, ◌%◌, ◌^◌, refl, sym, subst, Bool, true, false, List, [], ◌∷◌, Option, none,
  some, All, All-append, All-set, if_ind, ltb, ◌==◌,
}
use tcpudp.Base.Int.{ℤ, pos, negsuc}
use tcpudp.Base.Assoc.{insert, erase}
use tcpudp.Queue.Blocking.{BlockingQueue, enqueue, try_dequeue}
use tcpudp.Queue.Blocking.Fifo.{cons?, try_dequeue-cons?}
use tcpudp.Status.{SocketStatus}
use tcpudp.Connection.{TcpConnection}
use tcpudp.SendThread.Order.{send_order, any_eligible}
use tcpudp.SendThread.State.{SendThread, World, pending_list, ConnSendStats, replace_connection}
use tcpudp.SendThread.Rate.{rate_all}
use tcpudp.SendThread.Resend.{
  Resent, resend_failed, resend_ended, send_on_resend_conn, drain_resend, resend_phase,
  resend_order, resend_count, message_id, max_resend_batch, with_counts, requeue, turn_resend,
  next_resend, retry_count, max_resend_retries,
}
use tcpudp.SendThread.{
  Turn, send_packet, unsent, take_packet, take_retained, handle, turn, Event, round, replaced, step,
  run, num_data_conns,
}
use tcpudp.SendThread.Framing.{
  LinkOk, IsFramed, try_order-IsFramed, try_resend-IsFramed, rate_all-IsFramed,
}

module _ (IsPacket : List ℕ → Type 0) where
  with_counts-IsFramed :
      (counts : List (ℕ × ℕ)) {s : SendThread}
      → IsFramed IsPacket s
      → IsFramed IsPacket (with_counts counts s)
  unfolding with_counts
  with_counts-IsFramed counts v = record {
    links = v.links;
    sends = v.sends;
    resends = v.resends;
    pending = v.pending;
  }

  requeue-IsFramed :
      (packet : List ℕ) {s : SendThread}
      → IsPacket packet
      → IsFramed IsPacket s
      → IsFramed IsPacket (requeue packet s)
  unfolding requeue enqueue
  requeue-IsFramed packet {s} p v = record {
    links = v.links;
    sends = v.sends;
    resends = All-append IsPacket s.resend_queue.queue (packet ∷ []) v.resends (p, tt);
    pending = v.pending;
  }

  turn_resend-IsFramed : {s : SendThread} → IsFramed IsPacket s → IsFramed IsPacket (turn_resend s)
  unfolding turn_resend
  turn_resend-IsFramed v = record {
    links = v.links;
    sends = v.sends;
    resends = v.resends;
    pending = v.pending;
  }

  resend_failed-IsFramed :
      (id : ℕ) (packet : List ℕ) (alive : ℕ) {s : SendThread}
      → IsPacket packet
      → IsFramed IsPacket s
      → IsFramed IsPacket (resend_failed id packet alive s)
  unfolding resend_failed
  resend_failed-IsFramed id packet alive {s} p v =
      let count = retry_count id s in
      let counted = insert id count s.resend_retry_count in
      let more = insert id ((count + 1) % 2 ^ 8) counted in
      let again : (counts : List (ℕ × ℕ))
          → IsFramed IsPacket (requeue packet (with_counts counts s)) =
        λ counts. requeue-IsFramed packet p (with_counts-IsFramed counts v) in
      if_ind (IsFramed IsPacket) (alive == 0) _ _ (again counted) (
        if_ind (IsFramed IsPacket) (ltb count max_resend_retries) _ _ (again more)
          (with_counts-IsFramed (erase id counted) v))

  resend_ended-IsFramed :
      (id : ℕ) (packet : List ℕ) (r : Resent)
      → IsPacket packet
      → IsFramed IsPacket r.state
      → IsFramed IsPacket (resend_ended id packet r)
  resend_ended-IsFramed id packet r p v =
      let v' = turn_resend-IsFramed v in
      if_ind (IsFramed IsPacket) r.sent _ _ (with_counts-IsFramed _ v')
        (resend_failed-IsFramed id packet r.alive p v')

  send_on_resend_conn-IsFramed :
      (w : World) (packet : List ℕ) {s : SendThread}
      → IsPacket packet
      → IsFramed IsPacket s
      → IsFramed IsPacket (send_on_resend_conn w packet s)
  unfolding send_on_resend_conn
  send_on_resend_conn-IsFramed w packet {s} p v = if_ind (IsFramed IsPacket) _ _ _ v (
      resend_ended-IsFramed (message_id packet) packet _ p (
        try_resend-IsFramed IsPacket w packet
          (resend_order s.resend_round_robin (resend_count s) 0 (resend_count s)) 0 p v))

  -- What `tryDequeue` returns was in the queue, and so was what it leaves.
  Dequeued : Option (List ℕ) × BlockingQueue (List ℕ) → Type 0
  Dequeued (packet, queue) = All IsPacket (pending_list packet) × All IsPacket queue.queue

  try_dequeue-Dequeued :
      (q : BlockingQueue (List ℕ)) → All IsPacket q.queue → Dequeued (try_dequeue q)
  unfolding Dequeued
  try_dequeue-Dequeued q h =
      split (try_dequeue q).0 (subst (All IsPacket) (sym (try_dequeue-cons? q)) h)
    where
      split :
          (o : Option (List ℕ))
          → All IsPacket (cons? o (try_dequeue q).1.queue)
          → All IsPacket (pending_list o) × All IsPacket (try_dequeue q).1.queue
      split none h = (tt, h)
      split (some x) h = ((h.0, tt), h.1)

  next_resend-IsFramed :
      (o : Option (List ℕ)) (on : List ℕ → SendThread → SendThread) {s : SendThread}
      → All IsPacket (pending_list o)
      → ((p : List ℕ) (s : SendThread)
          → IsPacket p
          → IsFramed IsPacket s
          → IsFramed IsPacket (on p s))
      → IsFramed IsPacket s
      → IsFramed IsPacket (next_resend o on s)
  next_resend-IsFramed none on h keeps v = v
  next_resend-IsFramed (some packet) on {s} h keeps v = keeps packet s h.0 v

  drain_resend-IsFramed :
      (n : ℕ) (worlds : ℕ → World) {s : SendThread}
      → IsFramed IsPacket s
      → IsFramed IsPacket (drain_resend n worlds s)
  unfolding drain_resend Dequeued
  drain_resend-IsFramed zero worlds v = v
  drain_resend-IsFramed (suc n) worlds {s} v =
      let d = try_dequeue-Dequeued s.resend_queue v.resends in
      next_resend-IsFramed (try_dequeue s.resend_queue).0
        (λ p s'. drain_resend n worlds (send_on_resend_conn (worlds n) p s')) d.0
        (λ p s' h v'.
          drain_resend-IsFramed n worlds (send_on_resend_conn-IsFramed (worlds n) p h v'))
        (record { links = v.links; sends = v.sends; resends = d.1; pending = v.pending })

  resend_phase-IsFramed :
      (worlds : ℕ → World) {s : SendThread}
      → IsFramed IsPacket s
      → IsFramed IsPacket (resend_phase worlds s)
  unfolding resend_phase
  resend_phase-IsFramed worlds v =
      let drained =
        if_ind (IsFramed IsPacket) _ _ _ (drain_resend-IsFramed max_resend_batch worlds v) v in
      if_ind (IsFramed IsPacket) _ _ _ (with_counts-IsFramed [] drained) drained

  unsent-IsFramed :
      (packet : List ℕ) (r : SendThread × Bool)
      → IsPacket packet
      → IsFramed IsPacket r.0
      → IsFramed IsPacket (unsent packet r)
  unsent-IsFramed packet (s, true) p v = v
  unsent-IsFramed packet (s, false) p v = record {
    links = v.links;
    sends = v.sends;
    resends = v.resends;
    pending = (p, tt);
  }

  send_packet-IsFramed :
      (w : World) (packet : List ℕ) {s : SendThread}
      → IsPacket packet
      → IsFramed IsPacket s
      → IsFramed IsPacket (send_packet w packet s)
  unfolding send_packet
  send_packet-IsFramed w packet {s} p v =
      let rated = rate_all-IsFramed IsPacket w 0 (num_data_conns s) v in
      let scores = (rate_all w 0 (num_data_conns s) s).0 in
      unsent-IsFramed packet _ p (
        try_order-IsFramed IsPacket w (any_eligible scores) scores (message_id packet) packet
          (send_order scores s.round_robin_start) p
          (record {
            links = rated.links;
            sends = rated.sends;
            resends = rated.resends;
            pending = rated.pending;
          }))

  handle-IsFramed :
      (t : Turn) (o : Option (List ℕ)) {s : SendThread}
      → All IsPacket (pending_list o)
      → IsFramed IsPacket s
      → IsFramed IsPacket (handle t (o, s))
  handle-IsFramed t none h v = v
  handle-IsFramed t (some packet) h v =
      if_ind (IsFramed IsPacket) _ _ _
        (if_ind (IsFramed IsPacket) _ _ _ v (send_packet-IsFramed t.world packet h.0 v)) v

  turn-IsFramed : (t : Turn) {s : SendThread} → IsFramed IsPacket s → IsFramed IsPacket (turn t s)
  unfolding turn take_packet Dequeued
  turn-IsFramed t {s} v =
      let v1 = resend_phase-IsFramed t.resends v in
      taken (resend_phase t.resends s).pending_data v1 v1.pending
    where
      taken :
          (o : Option (List ℕ)) {s1 : SendThread}
          → IsFramed IsPacket s1
          → All IsPacket (pending_list o)
          → IsFramed IsPacket (handle t (take_retained o s1))
      taken (some packet) v1 h =
          handle-IsFramed t (some packet) h
            (record { links = v1.links; sends = v1.sends; resends = v1.resends; pending = tt })
      taken none {s1} v1 h =
          let d = try_dequeue-Dequeued s1.send_queue v1.sends in
          handle-IsFramed t (try_dequeue s1.send_queue).0 d.0
            (record { links = v1.links; sends = d.1; resends = v1.resends; pending = v1.pending })

  replace-IsFramed :
      (now : ℕ) (slot : ℤ) (conn : TcpConnection) (stats : Option ConnSendStats)
      (status : Option SocketStatus) {s : SendThread}
      → IsFramed IsPacket s
      → IsFramed IsPacket (replace_connection now slot conn stats status s)
  unfolding replace_connection
  replace-IsFramed now (negsuc i) conn stats status v = v
  replace-IsFramed now (pos i) conn stats status {s} v =
      if_ind (IsFramed IsPacket) _ _ _
        (record {
          links = All-set (LinkOk IsPacket) i _ s.connections (λ up. ([], tt, refl)) v.links;
          sends = v.sends;
          resends = v.resends;
          pending = v.pending;
        })
        v

  step-IsFramed : (e : Event) {s : SendThread} → IsFramed IsPacket s → IsFramed IsPacket (step e s)
  unfolding step
  step-IsFramed (round t) v = turn-IsFramed t v
  step-IsFramed (replaced now slot conn stats status) v =
      replace-IsFramed now slot conn stats status v

  -- Whatever the clock, the kernel and the sockets answer, over any number of rounds and
  -- hot-swaps a connection that is up has nothing but whole packets on its stream: one that got
  -- part of a packet is disconnected. Condition: it is so at the start, and what is in the queues
  -- and retained are packets.
  pub run-IsFramed :
      (es : List Event) (s : SendThread) → IsFramed IsPacket s → IsFramed IsPacket (run es s)
  unfolding run
  run-IsFramed [] s v = v
  run-IsFramed (e ∷ es) s v = run-IsFramed es (step e s) (step-IsFramed e v)

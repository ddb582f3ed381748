-- ===== src/SendThread/Conserve/Rounds.antt =====
-- The rounds of the loop in src/common/TcpVCSendThread.cpp, and what they do with the packets taken.
use mathlib.Core.Bool.{false≢true}
use tcpudp.Base.{
  ℕ, zero, suc, ◌+◌, ◌%◌, ◌^◌, ◌≡◌, refl, sym, ap, ap₂, ◌∙◌, arith, true, false, List, [], ◌∷◌,
  ◌++◌, Option, none, some, length, get_elem?, set, if_ind, ltb, ◌==◌, ◌||◌, if◌then◌else◌, if_true,
  if_false, All,
}
use tcpudp.Base.Assoc.{insert, erase}
use tcpudp.Base.Int.{ℤ, pos, negsuc}
use tcpudp.Queue.Blocking.{try_dequeue}
use tcpudp.Queue.Blocking.Fifo.{cons?, try_dequeue-cons?}
use tcpudp.Connection.{TcpConnection}
use tcpudp.Status.{SocketStatus}
use tcpudp.VcPacket.{vc_first_resend_conn_index}
use tcpudp.SendThread.State.{
  SendThread, Link, World, ConnSendStats, pending_list, replace_connection,
}
use tcpudp.SendThread.Resend.{
  Resent, resend_failed, resend_ended, send_on_resend_conn, drain_resend, resend_phase,
  resend_order, resend_count, message_id, max_resend_batch, with_counts, requeue, turn_resend,
  next_resend, retry_count, max_resend_retries,
}
use tcpudp.SendThread.{
  Turn, send_packet, take_packet, take_retained, handle, turn, Event, round, replaced, step, run,
  is_null, num_data_conns,
}
use tcpudp.SendThread.Frame.{Same-refl, try_resend-Same}
use tcpudp.SendThread.Conserve.{contents_by, packets_of, contents, send_packet-contents}

-- `t` has the packets for the data connections, and the first slot, of `s`.
record Kept (s t : SendThread) : Type 0 where
  sends : t.send_queue ≡ s.send_queue
  pending : t.pending_data ≡ s.pending_data
  logged : t.sent_log ≡ s.sent_log
  first : is_null (get_elem? t.connections 0) ≡ is_null (get_elem? s.connections 0)

module _ (s : SendThread) where
  with_counts-Kept :
      (counts : List (ℕ × ℕ)) {t : SendThread} → Kept s t → Kept s (with_counts counts t)
  unfolding with_counts
  with_counts-Kept counts v = record {
    sends = v.sends;
    pending = v.pending;
    logged = v.logged;
    first = v.first;
  }

  requeue-Kept : (packet : List ℕ) {t : SendThread} → Kept s t → Kept s (requeue packet t)
  unfolding requeue
  requeue-Kept packet v = record {
    sends = v.sends;
    pending = v.pending;
    logged = v.logged;
    first = v.first;
  }

  turn_resend-Kept : {t : SendThread} → Kept s t → Kept s (turn_resend t)
  unfolding turn_resend
  turn_resend-Kept v = record {
    sends = v.sends;
    pending = v.pending;
    logged = v.logged;
    first = v.first;
  }

  resend_failed-Kept :
      (id : ℕ) (packet : List ℕ) (alive : ℕ) {t : SendThread}
      → Kept s t
      → Kept s (resend_failed id packet alive t)
  unfolding resend_failed
  resend_failed-Kept id packet alive {t} v =
      let count = retry_count id t in
      let counted = insert id count t.resend_retry_count in
      let more = insert id ((count + 1) % 2 ^ 8) counted in
      let again : (counts : List (ℕ × ℕ)) → Kept s (requeue packet (with_counts counts t)) =
        λ counts. requeue-Kept packet (with_counts-Kept counts v) in
      if_ind (Kept s) (alive == 0) _ _ (again counted) (
        if_ind (Kept s) (ltb count max_resend_retries) _ _ (again more)
          (with_counts-Kept (erase id counted) v))

  resend_ended-Kept :
      (id : ℕ) (packet : List ℕ) (r : Resent) → Kept s r.state → Kept s (resend_ended id packet r)
  resend_ended-Kept id packet r v =
      let v' = turn_resend-Kept v in
      if_ind (Kept s) r.sent _ _ (with_counts-Kept _ v') (resend_failed-Kept id packet r.alive v')

  send_on_resend_conn-Kept :
      (w : World) (packet : List ℕ) {t : SendThread}
      → Kept s t
      → Kept s (send_on_resend_conn w packet t)
  unfolding send_on_resend_conn
  send_on_resend_conn-Kept w packet {t} v =
      let order = resend_order t.resend_round_robin (resend_count t) 0 (resend_count t) in
      let same = try_resend-Same t w packet order 0 (Same-refl t) in
      if_ind (Kept s) _ _ _ v (
        resend_ended-Kept (message_id packet) packet _ (record {
          sends = same.sends ∙ v.sends;
          pending = same.pending ∙ v.pending;
          logged = same.logged ∙ v.logged;
          first = same.first ∙ v.first;
        }))

  next_resend-Kept :
      (o : Option (List ℕ)) (on : List ℕ → SendThread → SendThread) {t : SendThread}
      → ((p : List ℕ) (t : SendThread) → Kept s t → Kept s (on p t))
      → Kept s t
      → Kept s (next_resend o on t)
  next_resend-Kept none on keeps v = v
  next_resend-Kept (some packet) on {t} keeps v = keeps packet t v

  drain_resend-Kept :
      (n : ℕ) (worlds : ℕ → World) {t : SendThread} → Kept s t → Kept s (drain_resend n worlds t)
  unfolding drain_resend
  drain_resend-Kept zero worlds v = v
  drain_resend-Kept (suc n) worlds {t} v =
      next_resend-Kept (try_dequeue t.resend_queue).0
        (λ p t'. drain_resend n worlds (send_on_resend_conn (worlds n) p t'))
        (λ p t' v'. drain_resend-Kept n worlds (send_on_resend_conn-Kept (worlds n) p v'))
        (record { sends = v.sends; pending = v.pending; logged = v.logged; first = v.first })

  resend_phase-Kept : (worlds : ℕ → World) → Kept s (resend_phase worlds s)
  unfolding resend_phase
  resend_phase-Kept worlds =
      let start : Kept s s = record { sends = refl; pending = refl; logged = refl; first = refl } in
      let drained = if_ind (Kept s) _ _ _ (drain_resend-Kept max_resend_batch worlds start) start in
      if_ind (Kept s) _ _ _ (with_counts-Kept [] drained) drained

-- A connection object in the first slot.
abbrev pub HasFirst : SendThread → Type 0
HasFirst s = is_null (get_elem? s.connections 0) ≡ false

has_data : (s : SendThread) → HasFirst s → (num_data_conns s == 0) ≡ false
unfolding num_data_conns
has_data s h = by_links s.connections h
  where
    by_links :
        (links : List Link)
        → is_null (get_elem? links 0) ≡ false
        → ((if ltb vc_first_resend_conn_index (length links)
              then vc_first_resend_conn_index
              else length links)
            == 0)
          ≡ false
    by_links [] h = absurd (false≢true (sym h))
    by_links (link ∷ links) h = ground arith

handle-send_packet :
    (t : Turn) (packet : List ℕ) (s : SendThread)
    → t.running ≡ true
    → HasFirst s
    → handle t (some packet, s) ≡ send_packet t.world packet s
handle-send_packet t packet s running h =
    let no_skip : ((num_data_conns s == 0) || is_null (get_elem? s.connections 0)) ≡ false =
      ap₂ (λ a b. a || b) (has_data s h) h in
    if_true _ _ running ∙ if_false _ _ no_skip

-- What the step does to the packets, and that the first slot is not emptied.
abbrev Conserves : SendThread → SendThread → Type 0
Conserves s t = (contents t ≡ contents s) × HasFirst t

handle-Conserves :
    (t : Turn) (o : Option (List ℕ)) (s : SendThread)
    → t.running ≡ true
    → HasFirst s
    → s.pending_data ≡ none
    → (contents (handle t (o, s)) ≡ packets_of s.sent_log ++ cons? o s.send_queue.queue)
      × HasFirst (handle t (o, s))
handle-Conserves t none s running h e =
    (ap (λ o. packets_of s.sent_log ++ (pending_list o ++ s.send_queue.queue)) e, h)
handle-Conserves t (some packet) s running h e =
    let sent = send_packet-contents t.world packet s e in
    let same = handle-send_packet t packet s running h in
    (ap contents same ∙ sent.0, ap (λ u. is_null (get_elem? u.connections 0)) same ∙ sent.1 ∙ h)

taken-Conserves :
    (t : Turn) (o : Option (List ℕ)) (s : SendThread)
    → t.running ≡ true
    → HasFirst s
    → s.pending_data ≡ o
    → (contents (handle t (take_retained o s))
        ≡ packets_of s.sent_log ++ (pending_list o ++ s.send_queue.queue))
      × HasFirst (handle t (take_retained o s))
taken-Conserves t (some packet) s running h e =
    handle-Conserves t (some packet) (record s { pending_data = none }) running h refl
taken-Conserves t none s running h e =
    let (packet, queue) = try_dequeue s.send_queue in
    let r = handle-Conserves t packet (record s { send_queue = queue }) running h e in
    (r.0 ∙ ap (λ q. packets_of s.sent_log ++ q) (try_dequeue-cons? s.send_queue), r.1)

turn-Conserves :
    (t : Turn) (s : SendThread) → t.running ≡ true → HasFirst s → Conserves s (turn t s)
unfolding turn take_packet
turn-Conserves t s running h =
    let kept = resend_phase-Kept s t.resends in
    let s1 = resend_phase t.resends s in
    let r = taken-Conserves t s1.pending_data s1 running (kept.first ∙ h) refl in
    (r.0 ∙ contents_by kept.logged kept.pending kept.sends, r.1)

replace-Conserves :
    (now : ℕ) (slot : ℤ) (conn : TcpConnection) (stats : Option ConnSendStats)
    (status : Option SocketStatus) (s : SendThread)
    → HasFirst s
    → Conserves s (replace_connection now slot conn stats status s)
unfolding replace_connection
replace-Conserves now (negsuc i) conn stats status s h = (refl, h)
replace-Conserves now (pos i) conn stats status s h =
    if_ind (Conserves s) _ _ _ (refl, set_first i s.connections h) (refl, h)
  where
    set_first :
        (i : ℕ) (links : List Link)
        → is_null (get_elem? links 0) ≡ false
        → is_null (get_elem? (set links i (record { connection = some conn; stream = [] })) 0)
          ≡ false
    set_first i [] h = h
    set_first zero (link ∷ links) h = refl
    set_first (suc i) (link ∷ links) h = h

-- The rounds find the thread running.
abbrev pub IsRunning : Event → Type 0
IsRunning (round t) = t.running ≡ true
IsRunning (replaced now slot conn stats status) = Unit {0}

step-Conserves : (e : Event) (s : SendThread) → IsRunning e → HasFirst s → Conserves s (step e s)
unfolding step
step-Conserves (round t) s running h = turn-Conserves t s running h
step-Conserves (replaced now slot conn stats status) s running h =
    replace-Conserves now slot conn stats status s h

-- Over any number of rounds and hot-swaps, the packets sent whole on data connections, then the
-- retained one, then those in the queue are the same list, in the same order: no packet that is
-- taken from the queue is lost, sent twice or overtaken, whatever the sockets answer. Conditions:
-- the thread is not told to stop, and the first slot holds a connection object, connected or not.
pub run_conserves :
    (es : List Event) (s : SendThread)
    → All IsRunning es
    → HasFirst s
    → (contents (run es s) ≡ contents s) × HasFirst (run es s)
unfolding run
run_conserves [] s running h = (refl, h)
run_conserves (e ∷ es) s running h =
    let first = step-Conserves e s running.0 h in
    let rest = run_conserves es (step e s) running.1 first.1 in (rest.0 ∙ first.0, rest.1)

-- ===== src/SendThread/Framing.antt =====
-- What src/common/TcpVCSendThread.cpp writes on each connection: whole packets, as long as the
-- connection is up.
pub mod Rounds
use mathlib.Core.Option
use mathlib.Core.Bool.{false≢true}
use tcpudp.Base.{
  ℕ, zero, suc, ◌+◌, ◌-◌, ◌≡◌, refl, sym, ap, ◌∙◌, subst, arith, Bool, true, false, List, [], ◌∷◌,
  ◌++◌, append_assoc, append-nil, Option, none, some, length, take, get_elem?, flatten,
  flatten-concat, modify, modify-modify, All, All-append, All-modify, if_ind, ltb, if◌then◌else◌,
}
use tcpudp.Queue.Blocking.{BlockingQueue, enqueue, try_dequeue}
use tcpudp.Base.Int.{ℤ}
use tcpudp.Connection.{
  TcpConnection, KernelInfo, disconnect, refresh_runtime_info_if_stale, diag_mark_send_start,
  diag_mark_send_end,
}
use tcpudp.SendThread.State.{
  SendThread, Link, ConnSendStats, World, Answers, on_connection, write_on, drop_connection,
  change_connection, write_stream, link_alive, pending_list,
}
use tcpudp.SendThread.Rate.{
  refresh_conn_runtime_info, rate_connection, rate_all, tcp_runtime_refresh_ms,
}
use tcpudp.SendThread.Attempt.{
  Attempt, whole, part, refused, attempt, count_failure, mark_send, sent_whole, sent_part,
  sent_none, after_attempt, try_connection, may_try, unless_sent, try_order,
}
use tcpudp.SendThread.Order.{send_order, next_start, any_eligible}
use tcpudp.SendThread.Resend.{
  Resent, resend_attempted, unless_resent, try_resend, resend_failed, resend_ended,
  send_on_resend_conn, drain_resend, resend_phase, resend_order, resend_count, message_id,
  max_resend_batch,
}
use tcpudp.SendThread.{Turn, send_packet, unsent, take_packet, handle, turn, run, num_data_conns}

module _ (IsPacket : List ℕ → Type 0) where
  -- Packets, one after the other.
  abbrev pub IsWhole : List ℕ → Type 0
  IsWhole bytes = (packets : List (List ℕ)) × All IsPacket packets × (bytes ≡ flatten packets)

  -- A connection that is up has whole packets on its stream.
  abbrev pub Carries : Option TcpConnection → List ℕ → Type 0
  Carries none bytes = Unit {0}
  Carries (some c) bytes = c.connected ≡ true → IsWhole bytes

  abbrev pub LinkOk : Link → Type 0
  LinkOk link = Carries link.connection link.stream

  -- The links, and the packets that wait.
  pub record IsFramed (s : SendThread) : Type 0 where
    pub links : All LinkOk s.connections
    pub sends : All IsPacket s.send_queue.queue
    pub resends : All IsPacket s.resend_queue.queue
    pub pending : All IsPacket (pending_list s.pending_data)

  IsWhole-append :
      (bytes packet : List ℕ) → IsWhole bytes → IsPacket packet → IsWhole (bytes ++ packet)
  IsWhole-append bytes packet (ps, all, e) p = (
    ps ++ packet ∷ [],
    All-append IsPacket ps (packet ∷ []) all (p, tt),
    ap (λ b. b ++ packet) e ∙ sym (flatten-concat ps packet),
  )

  -- A change of the objects that brings none up.
  on_connection-LinkOk :
      (f : TcpConnection → TcpConnection)
      → ((c : TcpConnection) → (f c).connected ≡ true → c.connected ≡ true)
      → (link : Link) → LinkOk link
      → LinkOk (on_connection f link)
  on_connection-LinkOk f keeps link h = changed link.connection link.stream h
    where
      changed :
          (o : Option TcpConnection) (bytes : List ℕ)
          → Carries o bytes
          → Carries (Option.map f o) bytes
      changed none bytes h = tt
      changed (some c) bytes h = λ up. h (keeps c up)

  change-IsFramed :
      (i : ℕ) (f : TcpConnection → TcpConnection) {s : SendThread}
      → ((c : TcpConnection) → (f c).connected ≡ true → c.connected ≡ true)
      → IsFramed s
      → IsFramed (change_connection i f s)
  change-IsFramed i f {s} keeps v = record {
    links =
        All-modify LinkOk i (on_connection f) s.connections (on_connection-LinkOk f keeps) v.links;
    sends = v.sends;
    resends = v.resends;
    pending = v.pending;
  }

  write-IsFramed :
      (i : ℕ) (packet : List ℕ) {s : SendThread}
      → IsPacket packet
      → IsFramed s
      → IsFramed (write_stream i packet s)
  write-IsFramed i packet {s} p v = record {
    links = All-modify LinkOk i (write_on packet) s.connections written v.links;
    sends = v.sends;
    resends = v.resends;
    pending = v.pending;
  }
    where
      carries :
          (o : Option TcpConnection) (bytes : List ℕ)
          → Carries o bytes
          → Carries o (bytes ++ packet)
      carries none bytes h = tt
      carries (some c) bytes h = λ up. IsWhole-append bytes packet (h up) p

      written : (link : Link) → LinkOk link → LinkOk (write_on packet link)
      written link h = carries link.connection link.stream h

  -- Whatever was written, the connection is down.
  disconnect-down : (c : TcpConnection) → (disconnect c).0.connected ≡ false
  unfolding disconnect
  disconnect-down c = ground arith

  cut-IsFramed :
      (i : ℕ) (bytes : List ℕ) {s : SendThread}
      → IsFramed s
      → IsFramed (drop_connection i (write_stream i bytes s))
  unfolding drop_connection
  cut-IsFramed i bytes {s} v = record {
    links =
        subst (All LinkOk)
          (sym (
            modify-modify i (on_connection (λ c. (disconnect c).0)) (write_on bytes) s.connections))
          (All-modify LinkOk i (λ link. on_connection (λ c. (disconnect c).0) (write_on bytes link))
            s.connections (λ link h. down link.connection (link.stream ++ bytes)) v.links);
    sends = v.sends;
    resends = v.resends;
    pending = v.pending;
  }
    where
      down :
          (o : Option TcpConnection) (bytes : List ℕ)
          → Carries (Option.map (λ c. (disconnect c).0) o) bytes
      down none bytes = tt
      down (some c) bytes = λ up. absurd (false≢true (sym (disconnect-down c) ∙ up))

  drop-IsFramed : (i : ℕ) {s : SendThread} → IsFramed s → IsFramed (drop_connection i s)
  unfolding drop_connection
  drop-IsFramed i {s} v = record {
    links =
        All-modify LinkOk i (on_connection (λ c. (disconnect c).0)) s.connections
          (on_connection-LinkOk (λ c. (disconnect c).0)
            (λ c up. absurd (false≢true (sym (disconnect-down c) ∙ up))))
          v.links;
    sends = v.sends;
    resends = v.resends;
    pending = v.pending;
  }

  -- The refresh of an info, and the marks round a send, leave the connection up or down.
  refresh-keeps :
      (now interval : ℕ) (kernel : KernelInfo) (c : TcpConnection)
      → (refresh_runtime_info_if_stale now interval kernel c).0.connected ≡ true
      → c.connected ≡ true
  unfolding refresh_runtime_info_if_stale
  refresh-keeps now interval kernel c up = ground arith

  refresh-IsFramed :
      (w : World) (i : ℕ) {s : SendThread} → IsFramed s → IsFramed (refresh_conn_runtime_info w i s)
  unfolding refresh_conn_runtime_info
  refresh-IsFramed w i {s} v =
      if_ind IsFramed _ _ _
        (if_ind IsFramed _ _ _ v (
          change-IsFramed i _ (refresh-keeps w.now tcp_runtime_refresh_ms (w.kernel i)) (record {
            links = v.links;
            sends = v.sends;
            resends = v.resends;
            pending = v.pending;
          })))
        v

  rate_all-IsFramed :
      (w : World) (i n : ℕ) {s : SendThread} → IsFramed s → IsFramed (rate_all w i n s).1
  unfolding rate_all rate_connection
  rate_all-IsFramed w i zero v = v
  rate_all-IsFramed w i (suc n) v = rate_all-IsFramed w (i + 1) n (refresh-IsFramed w i v)

  mark-keeps :
      (id now : ℕ) (c : TcpConnection) → (mark_send id now c).connected ≡ true → c.connected ≡ true
  unfolding diag_mark_send_start diag_mark_send_end
  mark-keeps id now c up = up

  module _ (w : World) (i id : ℕ) (packet : List ℕ) (p : IsPacket packet) where
    after_attempt-IsFramed :
        (a : Attempt) {s : SendThread} → IsFramed s → IsFramed (after_attempt w i id packet a s).0
    unfolding after_attempt sent_whole sent_part sent_none
    after_attempt-IsFramed whole v =
        let v' = write-IsFramed i packet p v in
        record { links = v'.links; sends = v.sends; resends = v.resends; pending = v.pending }
    after_attempt-IsFramed (part total) v =
        let v' = cut-IsFramed i (take total packet) v in
        record { links = v'.links; sends = v'.sends; resends = v'.resends; pending = v'.pending }
    after_attempt-IsFramed (refused closed) {s} v =
        let v' : IsFramed (count_failure i s) = record {
          links = v.links;
          sends = v.sends;
          resends = v.resends;
          pending = v.pending;
        } in
        if_ind IsFramed closed _ _ (drop-IsFramed i v') v'

    try_connection-IsFramed :
        {s : SendThread} → IsFramed s → IsFramed (try_connection w i id packet s).0
    unfolding try_connection
    try_connection-IsFramed v =
        after_attempt-IsFramed (attempt (w.answers i) (length packet))
          (change-IsFramed i (mark_send id w.now) (mark-keeps id w.now) v)

    resend_attempted-IsFramed :
        (a : Attempt) {s : SendThread} → IsFramed s → IsFramed (resend_attempted i packet a s).0
    unfolding resend_attempted
    resend_attempted-IsFramed whole v = write-IsFramed i packet p v
    resend_attempted-IsFramed (part total) v = cut-IsFramed i (take total packet) v
    resend_attempted-IsFramed (refused true) v = drop-IsFramed i v
    resend_attempted-IsFramed (refused false) v = v

  unless_sent-IsFramed :
      (r : SendThread × Bool) (next : SendThread → SendThread × Bool)
      → IsFramed r.0
      → ((s : SendThread) → IsFramed s → IsFramed (next s).0)
      → IsFramed (unless_sent r next).0
  unless_sent-IsFramed (s, true) next v rest = v
  unless_sent-IsFramed (s, false) next v rest = rest s v

  try_order-IsFramed :
      (w : World) (any : Bool) (scores : List ℤ) (id : ℕ) (packet : List ℕ) (order : List ℕ)
      {s : SendThread}
      → IsPacket packet
      → IsFramed s
      → IsFramed (try_order w any scores id packet order s).0
  unfolding try_order
  try_order-IsFramed w any scores id packet [] p v = v
  try_order-IsFramed w any scores id packet (i ∷ order) {s} p v =
      if_ind (λ (r : SendThread × Bool). IsFramed r.0) (may_try any scores i s) _ _
        (unless_sent-IsFramed (try_connection w i id packet s)
          (try_order w any scores id packet order) (try_connection-IsFramed w i id packet p v)
          (λ s' v'. try_order-IsFramed w any scores id packet order p v'))
        (try_order-IsFramed w any scores id packet order p v)

  unless_resent-IsFramed :
      (r : SendThread × Bool) (alive : ℕ) (next : SendThread → Resent)
      → IsFramed r.0
      → ((s : SendThread) → IsFramed s → IsFramed (next s).state)
      → IsFramed (unless_resent r alive next).state
  unless_resent-IsFramed (s, true) alive next v rest = v
  unless_resent-IsFramed (s, false) alive next v rest = rest s v

  try_resend-IsFramed :
      (w : World) (packet order : List ℕ) (alive : ℕ) {s : SendThread}
      → IsPacket packet
      → IsFramed s
      → IsFramed (try_resend w packet order alive s).state
  unfolding try_resend
  try_resend-IsFramed w packet [] alive p v = v
  try_resend-IsFramed w packet (i ∷ order) alive {s} p v =
      let v' = refresh-IsFramed w i v in
      let Ok = λ (r : Resent). IsFramed r.state in
      if_ind Ok _ _ _
        (if_ind Ok _ _ _ (try_resend-IsFramed w packet order alive p v') (
          unless_resent-IsFramed _ (alive + 1) (try_resend w packet order (alive + 1))
            (resend_attempted-IsFramed w i 0 packet p (attempt (w.answers i) (length packet)) v')
            (λ s'' v''. try_resend-IsFramed w packet order (alive + 1) p v'')))
        (try_resend-IsFramed w packet order alive p v)

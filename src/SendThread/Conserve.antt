-- ===== src/SendThread/Conserve.antt =====
-- No packet that src/common/TcpVCSendThread.cpp takes from its queue is lost or sent twice.
pub mod Rounds
use tcpudp.Base.{
  ℕ, zero, suc, ◌+◌, ◌≡◌, refl, sym, ap, ◌∙◌, arith, Bool, true, false, List, [], ◌∷◌, ◌++◌,
  append_assoc, append-nil, Option, none, some, length, take, map, get_elem?, modify, if_ind, ltb,
  if◌then◌else◌, Bool-cases, inl, inr, All, ap₂,
}
use mathlib.Core.List.{map-append}
use tcpudp.Base.Int.{ℤ}
use tcpudp.Queue.Blocking.{BlockingQueue, try_dequeue}
use tcpudp.Queue.Blocking.Fifo.{cons?, try_dequeue-cons?}
use tcpudp.SendThread.State.{
  SendThread, Link, World, pending_list, change_connection, write_stream, drop_connection,
}
use tcpudp.SendThread.Order.{send_order, any_eligible, next_start}
use tcpudp.SendThread.Rate.{rate_all}
use tcpudp.SendThread.Attempt.{
  Attempt, whole, part, refused, attempt, mark_send, count_failure, sent_whole, sent_part,
  sent_none, after_attempt, try_connection, may_try, unless_sent, try_order,
}
use tcpudp.SendThread.Resend.{resend_phase, message_id}
use tcpudp.SendThread.{
  Turn, send_packet, unsent, take_packet, take_retained, handle, turn, is_null, num_data_conns,
}
use tcpudp.SendThread.Frame.{Same, Same-refl, change-Same, write-Same, drop-Same, rate_all-Same}

-- The state with one entry more in the log.
abbrev pub logged_as : ℕ → List ℕ → SendThread → SendThread
logged_as i packet s = record s { sent_log = s.sent_log ++ (i, packet) ∷ [] }

-- What trying a packet leaves: the log has an entry for it exactly if it was sent.
abbrev pub Tried : SendThread → List ℕ → SendThread × Bool → Type 0
Tried s packet (t, true) = (i : ℕ) × Same (logged_as i packet s) t
Tried s packet (t, false) = Same s t

module _ (s : SendThread) where
  count-Same : (i : ℕ) {t : SendThread} → Same s t → Same s (count_failure i t)
  count-Same i v = record {
    sends = v.sends;
    resends = v.resends;
    counts = v.counts;
    pending = v.pending;
    logged = v.logged;
    first = v.first;
  }

  after_attempt-Tried :
      (w : World) (i id : ℕ) (packet : List ℕ) (a : Attempt) {t : SendThread}
      → Same s t
      → Tried s packet (after_attempt w i id packet a t)
  unfolding after_attempt sent_whole sent_part sent_none
  after_attempt-Tried w i id packet whole v =
      let v' = write-Same s i packet v in
      (
        i,
        record {
          sends = v.sends;
          resends = v.resends;
          counts = v.counts;
          pending = v.pending;
          logged = ap (λ log. log ++ (i, packet) ∷ []) v.logged;
          first = v'.first;
        },
      )
  after_attempt-Tried w i id packet (part total) v =
      count-Same i (drop-Same s i (write-Same s i (take total packet) v))
  after_attempt-Tried w i id packet (refused closed) v =
      if_ind (Same s) closed _ _ (drop-Same s i (count-Same i v)) (count-Same i v)

  try_connection-Tried :
      (w : World) (i id : ℕ) (packet : List ℕ) {t : SendThread}
      → Same s t
      → Tried s packet (try_connection w i id packet t)
  unfolding try_connection
  try_connection-Tried w i id packet v =
      after_attempt-Tried w i id packet (attempt (w.answers i) (length packet))
        (change-Same s i (mark_send id w.now) v)

  unless_sent-Tried :
      (packet : List ℕ) (r : SendThread × Bool) (next : SendThread → SendThread × Bool)
      → Tried s packet r
      → ((t : SendThread) → Same s t → Tried s packet (next t))
      → Tried s packet (unless_sent r next)
  unless_sent-Tried packet (t, true) next v rest = v
  unless_sent-Tried packet (t, false) next v rest = rest t v

  pub try_order-Tried :
      (w : World) (any : Bool) (scores : List ℤ) (id : ℕ) (packet order : List ℕ) {t : SendThread}
      → Same s t
      → Tried s packet (try_order w any scores id packet order t)
  unfolding try_order
  try_order-Tried w any scores id packet [] v = v
  try_order-Tried w any scores id packet (i ∷ order) {t} v =
      if_ind (Tried s packet) (may_try any scores i t) _ _
        (unless_sent-Tried packet (try_connection w i id packet t)
          (try_order w any scores id packet order) (try_connection-Tried w i id packet v)
          (λ t' v'. try_order-Tried w any scores id packet order v'))
        (try_order-Tried w any scores id packet order v)

-- The packets sent, the one retained and those that wait, oldest first.
abbrev pub packets_of : List (ℕ × List ℕ) → List (List ℕ)
packets_of log = map (λ e. e.1) log

abbrev pub contents : SendThread → List (List ℕ)
contents s = packets_of s.sent_log ++ (pending_list s.pending_data ++ s.send_queue.queue)

-- A packet in hand, between the log and the queue.
abbrev pub with_hand : List ℕ → SendThread → List (List ℕ)
with_hand packet s = packets_of s.sent_log ++ packet ∷ s.send_queue.queue

pub contents_by :
    {log log' : List (ℕ × List ℕ)} {o o' : Option (List ℕ)} {q q' : BlockingQueue (List ℕ)}
    → log ≡ log'
    → o ≡ o'
    → q ≡ q'
    → packets_of log ++ (pending_list o ++ q.queue)
      ≡ packets_of log' ++ (pending_list o' ++ q'.queue)
contents_by e f g =
    ap₂ (λ a b. a ++ b) (ap packets_of e) (ap₂ (λ o q. pending_list o ++ q.queue) f g)

pub unsent-contents :
    (s : SendThread) (packet : List ℕ) (r : SendThread × Bool)
    → s.pending_data ≡ none
    → Tried s packet r
    → contents (unsent packet r) ≡ with_hand packet s
unsent-contents s packet (t, true) none_retained (i, v) =
    contents_by v.logged (v.pending ∙ none_retained) v.sends
    ∙ ap (λ ps. ps ++ s.send_queue.queue) (map-append (λ e. e.1) s.sent_log ((i, packet) ∷ []))
    ∙ append_assoc (packets_of s.sent_log) (packet ∷ []) s.send_queue.queue
unsent-contents s packet (t, false) none_retained v =
    ap₂ (λ log q. packets_of log ++ packet ∷ q.queue) v.logged v.sends

pub unsent-first :
    (s : SendThread) (packet : List ℕ) (r : SendThread × Bool)
    → Tried s packet r
    → is_null (get_elem? (unsent packet r).connections 0) ≡ is_null (get_elem? s.connections 0)
unsent-first s packet (t, true) (i, v) = v.first
unsent-first s packet (t, false) v = v.first

-- The attempts of `send_packet`, between the rating and the retention.
unfoldable pub tries : World → List ℕ → SendThread → SendThread × Bool
tries w packet s =
    let n = num_data_conns s in
    let (scores, rated) = rate_all w 0 n s in
    let turned : SendThread = record rated {
      round_robin_start = next_start n s.round_robin_start;
    } in
    try_order w (any_eligible scores) scores (message_id packet) packet
      (send_order scores s.round_robin_start) turned

pub send_packet-Tried :
    (w : World) (packet : List ℕ) (s : SendThread) → Tried s packet (tries w packet s)
unfolding tries
send_packet-Tried w packet s =
    let n = num_data_conns s in
    let scores = (rate_all w 0 n s).0 in
    let rated = rate_all-Same s w 0 n (Same-refl s) in
    let turned : Same s
        (record (rate_all w 0 n s).1 { round_robin_start = next_start n s.round_robin_start }) =
      record {
        sends = rated.sends;
        resends = rated.resends;
        counts = rated.counts;
        pending = rated.pending;
        logged = rated.logged;
        first = rated.first;
      } in
    try_order-Tried s w (any_eligible scores) scores (message_id packet) packet
      (send_order scores s.round_robin_start) turned

-- The packet in hand is sent and logged once, or retained.
pub send_packet-contents :
    (w : World) (packet : List ℕ) (s : SendThread)
    → s.pending_data ≡ none
    → (contents (send_packet w packet s) ≡ with_hand packet s)
      × (is_null (get_elem? (send_packet w packet s).connections 0)
          ≡ is_null (get_elem? s.connections 0))
unfolding send_packet tries
send_packet-contents w packet s none_retained =
    let tried = send_packet-Tried w packet s in
    (
      unsent-contents s packet (tries w packet s) none_retained tried,
      unsent-first s packet (tries w packet s) tried,
    )

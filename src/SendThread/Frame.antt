-- ===== src/SendThread/Frame.antt =====
-- What the parts of the loop in src/common/TcpVCSendThread.cpp leave as it is.
use tcpudp.Base.{
  ℕ, zero, suc, ◌+◌, ◌≡◌, refl, ◌∙◌, Bool, true, false, List, [], ◌∷◌, Option, none, some, length,
  take, get_elem?, modify, if_ind,
}
use tcpudp.Connection.{TcpConnection, disconnect}
use tcpudp.SendThread.State.{
  SendThread, Link, World, on_connection, write_on, drop_connection, change_connection,
  write_stream,
}
use tcpudp.SendThread.Rate.{refresh_conn_runtime_info, rate_connection, rate_all}
use tcpudp.SendThread.Attempt.{Attempt, whole, part, refused, attempt}
use tcpudp.SendThread.Resend.{Resent, resend_attempted, unless_resent, try_resend}
use tcpudp.SendThread.{is_null}

-- `t` has the packets, the counts and the first slot of `s`.
pub record Same (s t : SendThread) : Type 0 where
  pub sends : t.send_queue ≡ s.send_queue
  pub resends : t.resend_queue ≡ s.resend_queue
  pub counts : t.resend_retry_count ≡ s.resend_retry_count
  pub pending : t.pending_data ≡ s.pending_data
  pub logged : t.sent_log ≡ s.sent_log
  pub first : is_null (get_elem? t.connections 0) ≡ is_null (get_elem? s.connections 0)

pub Same-refl : (s : SendThread) → Same s s
Same-refl s = record {
  sends = refl;
  resends = refl;
  counts = refl;
  pending = refl;
  logged = refl;
  first = refl;
}

-- A change of one slot that leaves a pointer null or not.
first-modify :
    (i : ℕ) (f : Link → Link) (links : List Link)
    → ((link : Link) → is_null (some (f link)) ≡ is_null (some link))
    → is_null (get_elem? (modify i f links) 0) ≡ is_null (get_elem? links 0)
first-modify i f [] keeps = refl
first-modify zero f (link ∷ links) keeps = keeps link
first-modify (suc i) f (link ∷ links) keeps = refl

on_connection-is_null :
    (f : TcpConnection → TcpConnection) (link : Link)
    → is_null (some (on_connection f link)) ≡ is_null (some link)
on_connection-is_null f link = by_pointer link.connection link.stream
  where
    by_pointer :
        (o : Option TcpConnection) (bytes : List ℕ)
        → is_null (some (on_connection f (record { connection = o; stream = bytes })))
          ≡ is_null (some (record { connection = o; stream = bytes }))
    by_pointer none bytes = refl
    by_pointer (some c) bytes = refl

module _ (s : SendThread) where
  pub change-Same :
      (i : ℕ) (f : TcpConnection → TcpConnection) {t : SendThread}
      → Same s t
      → Same s (change_connection i f t)
  change-Same i f {t} v = record {
    sends = v.sends;
    resends = v.resends;
    counts = v.counts;
    pending = v.pending;
    logged = v.logged;
    first = first-modify i (on_connection f) t.connections (on_connection-is_null f) ∙ v.first;
  }

  pub write-Same :
      (i : ℕ) (bytes : List ℕ) {t : SendThread} → Same s t → Same s (write_stream i bytes t)
  write-Same i bytes {t} v = record {
    sends = v.sends;
    resends = v.resends;
    counts = v.counts;
    pending = v.pending;
    logged = v.logged;
    first = first-modify i (write_on bytes) t.connections (λ link. refl) ∙ v.first;
  }

  pub drop-Same : (i : ℕ) {t : SendThread} → Same s t → Same s (drop_connection i t)
  unfolding drop_connection
  drop-Same i {t} v =
      let v' = change-Same i (λ c. (disconnect c).0) v in
      record {
        sends = v.sends;
        resends = v.resends;
        counts = v.counts;
        pending = v.pending;
        logged = v.logged;
        first = v'.first;
      }

  pub refresh-Same :
      (w : World) (i : ℕ) {t : SendThread} → Same s t → Same s (refresh_conn_runtime_info w i t)
  unfolding refresh_conn_runtime_info
  refresh-Same w i {t} v =
      if_ind (Same s) _ _ _
        (if_ind (Same s) _ _ _ v (
          change-Same i _ (record {
            sends = v.sends;
            resends = v.resends;
            counts = v.counts;
            pending = v.pending;
            logged = v.logged;
            first = v.first;
          })))
        v

  pub rate_all-Same :
      (w : World) (i n : ℕ) {t : SendThread} → Same s t → Same s (rate_all w i n t).1
  unfolding rate_all rate_connection
  rate_all-Same w i zero v = v
  rate_all-Same w i (suc n) v = rate_all-Same w (i + 1) n (refresh-Same w i v)

  resend_attempted-Same :
      (i : ℕ) (packet : List ℕ) (a : Attempt) {t : SendThread}
      → Same s t
      → Same s (resend_attempted i packet a t).0
  unfolding resend_attempted
  resend_attempted-Same i packet whole v = write-Same i packet v
  resend_attempted-Same i packet (part total) v = drop-Same i (write-Same i (take total packet) v)
  resend_attempted-Same i packet (refused true) v = drop-Same i v
  resend_attempted-Same i packet (refused false) v = v

  unless_resent-Same :
      (r : SendThread × Bool) (alive : ℕ) (next : SendThread → Resent)
      → Same s r.0
      → ((t : SendThread) → Same s t → Same s (next t).state)
      → Same s (unless_resent r alive next).state
  unless_resent-Same (t, true) alive next v rest = v
  unless_resent-Same (t, false) alive next v rest = rest t v

  -- The attempts of a resend touch connections only.
  pub try_resend-Same :
      (w : World) (packet order : List ℕ) (alive : ℕ) {t : SendThread}
      → Same s t
      → Same s (try_resend w packet order alive t).state
  unfolding try_resend
  try_resend-Same w packet [] alive v = v
  try_resend-Same w packet (i ∷ order) alive {t} v =
      let v' = refresh-Same w i v in
      let Ok = λ (r : Resent). Same s r.state in
      if_ind Ok _ _ _
        (if_ind Ok _ _ _ (try_resend-Same w packet order alive v') (
          unless_resent-Same _ (alive + 1) (try_resend w packet order (alive + 1))
            (resend_attempted-Same i packet (attempt (w.answers i) (length packet)) v')
            (λ t' v''. try_resend-Same w packet order (alive + 1) v'')))
        (try_resend-Same w packet order alive v)

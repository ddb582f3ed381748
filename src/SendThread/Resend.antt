-- ===== src/SendThread/Resend.antt =====
-- src/common/TcpVCSendThread.cpp: sendOnResendConn, and the part of run that drains the resend queue.
use tcpudp.Base.{
  ℕ, zero, suc, ◌+◌, ◌-◌, ◌%◌, ◌^◌, Bool, true, false, List, [], ◌∷◌, Option, none, some, length,
  take, get_elem?, drop, ltb, leb, ◌==◌, if◌then◌else◌,
}
use tcpudp.Base.Assoc.{lookup, insert, erase}
use tcpudp.Bytes.{field}
use tcpudp.VcPacket.{vc_first_resend_conn_index}
use tcpudp.Queue.Blocking.{enqueue, try_dequeue}
use tcpudp.Connection.{TcpConnection}
use tcpudp.SendThread.State.{
  SendThread, Link, World, write_stream, drop_connection, link_alive, is_connected,
}
use tcpudp.SendThread.Rate.{refresh_conn_runtime_info}
use tcpudp.SendThread.Attempt.{Attempt, whole, part, refused, attempt}

abbrev pub max_resend_retries : ℕ
max_resend_retries = 6

abbrev pub max_resend_batch : ℕ
max_resend_batch = 8

abbrev pub max_resend_tracked : ℕ
max_resend_tracked = 2000

-- `packet->header.messageId`
abbrev pub message_id : List ℕ → ℕ
message_id packet = field 1 8 packet

-- `conns.size() - VC_FIRST_RESEND_CONN_INDEX`, of more connections than that.
abbrev pub resend_count : SendThread → ℕ
resend_count s = length s.connections - vc_first_resend_conn_index

-- The slots that the attempts from some number on name.
unfoldable pub resend_order : ℕ → ℕ → ℕ → ℕ → List ℕ
resend_order round_robin count attempt_number zero = []
resend_order round_robin count attempt_number (suc n) =
    (vc_first_resend_conn_index + (round_robin + attempt_number) % count)
    ∷ resend_order round_robin count (attempt_number + 1) n

abbrev in_backoff : Option TcpConnection → Bool
in_backoff none = false
in_backoff (some c) = c.last_runtime_info.is_in_exponential_backoff

abbrev backing_off : Option Link → Bool
backing_off none = false
backing_off (some link) = in_backoff link.connection

-- What an attempt does; the flag says that the packet was sent.
unfoldable pub resend_attempted : ℕ → List ℕ → Attempt → SendThread → SendThread × Bool
resend_attempted i packet whole s = (write_stream i packet s, true)
resend_attempted i packet (part total) s =
    (drop_connection i (write_stream i (take total packet) s), false)
resend_attempted i packet (refused true) s = (drop_connection i s, false)
resend_attempted i packet (refused false) s = (s, false)

-- `aliveCount` of the attempts, and whether one of them sent the packet.
pub record Resent : Type 0 where
  pub state : SendThread
  pub alive : ℕ
  pub sent : Bool

abbrev pub unless_resent : SendThread × Bool → ℕ → (SendThread → Resent) → Resent
unless_resent (s, true) alive next = record { state = s; alive = alive; sent = true }
unless_resent (s, false) alive next = next s

-- The loop over the attempts: a connection that is down, or in back-off after a refresh of its
-- info, is passed over.
unfoldable pub try_resend : World → List ℕ → List ℕ → ℕ → SendThread → Resent
try_resend w packet [] alive s = record { state = s; alive = alive; sent = false }
try_resend w packet (i ∷ order) alive s =
    let rest = try_resend w packet order in
    let s' = refresh_conn_runtime_info w i s in
    let tried = resend_attempted i packet (attempt (w.answers i) (length packet)) s' in
    if link_alive (get_elem? s.connections i)
    then if backing_off (get_elem? s'.connections i)
      then rest alive s'
      else unless_resent tried (alive + 1) (rest (alive + 1))
    else rest alive s

-- `resendRetryCount[messageId]` of an id without an entry is 0.
abbrev pub retries : Option ℕ → ℕ
retries none = 0
retries (some n) = n

abbrev pub retry_count : ℕ → SendThread → ℕ
retry_count id s = retries (lookup id s.resend_retry_count)

-- What follows the loop when no attempt sent the packet: it is enqueued again, with its count or
-- without, or dropped.
unfoldable pub with_counts : List (ℕ × ℕ) → SendThread → SendThread
with_counts counts s = record s { resend_retry_count = counts }

unfoldable pub requeue : List ℕ → SendThread → SendThread
requeue packet s = record s { resend_queue = (enqueue packet s.resend_queue).0 }

unfoldable pub resend_failed : ℕ → List ℕ → ℕ → SendThread → SendThread
resend_failed id packet alive s =
    let count = retry_count id s in
    let counted = insert id count s.resend_retry_count in
    if alive == 0
    then requeue packet (with_counts counted s)
    else if ltb count max_resend_retries
    then requeue packet (with_counts (insert id ((count + 1) % 2 ^ 8) counted) s)
    else with_counts (erase id counted) s

unfoldable pub turn_resend : SendThread → SendThread
turn_resend s = record s { resend_round_robin = (s.resend_round_robin + 1) % resend_count s }

abbrev pub resend_ended : ℕ → List ℕ → Resent → SendThread
resend_ended id packet r =
    let s = turn_resend r.state in
    if r.sent
    then with_counts (erase id s.resend_retry_count) s
    else resend_failed id packet r.alive s

unfoldable pub send_on_resend_conn : World → List ℕ → SendThread → SendThread
send_on_resend_conn w packet s =
    let count = resend_count s in
    if leb (length s.connections) vc_first_resend_conn_index
    then s
    else resend_ended (message_id packet) packet
        (try_resend w packet (resend_order s.resend_round_robin count 0 count) 0 s)

abbrev any_alive : List Link → Bool
any_alive [] = false
any_alive (link ∷ links) = if is_connected link.connection then true else any_alive links

-- `anyResendAlive`
unfoldable pub any_resend_alive : SendThread → Bool
any_resend_alive s = any_alive (drop vc_first_resend_conn_index s.connections)

abbrev pub next_resend :
    Option (List ℕ) → (List ℕ → SendThread → SendThread) → SendThread → SendThread
next_resend none on s = s
next_resend (some packet) on s = on packet s

-- The batch: `worlds n` is what the send with `n` more to go finds.
unfoldable pub drain_resend : ℕ → (ℕ → World) → SendThread → SendThread
drain_resend zero worlds s = s
drain_resend (suc n) worlds s =
    let (packet, queue) = try_dequeue s.resend_queue in
    next_resend packet (λ p s'. drain_resend n worlds (send_on_resend_conn (worlds n) p s'))
      (record s { resend_queue = queue })

-- `resendRetryCount.clear()`
abbrev forget_stale : SendThread → SendThread
forget_stale s =
    if ltb max_resend_tracked (length s.resend_retry_count) then with_counts [] s else s

unfoldable pub resend_phase : (ℕ → World) → SendThread → SendThread
resend_phase worlds s =
    forget_stale (if any_resend_alive s then drain_resend max_resend_batch worlds s else s)

-- ===== src/SendThread/Attempt.antt =====
-- src/common/TcpVCSendThread.cpp: what run does with one data connection for one packet, and the loop
-- over the order.
use tcpudp.Base.{
  ℕ, zero, suc, ◌+◌, Bool, true, false, List, [], ◌∷◌, ◌++◌, length, take, get_elem?, modify, ltb,
  min, if◌then◌else◌,
}
use mathlib.Core.Option
use tcpudp.Base.Int.{ℤ, pos, non_negative}
use tcpudp.Connection.{TcpConnection, diag_mark_send_start, diag_mark_send_end}
use tcpudp.Tracker.{record_message}
use tcpudp.Socket.{SendResult, wrote, would_block, interrupted, connection_closed, send_tcp_direct}
use tcpudp.SendThread.Order.{score_at}
use tcpudp.SendThread.State.{
  SendThread, ConnSendStats, World, Answers, change_connection, write_stream, drop_connection,
  link_alive,
}
use tcpudp.SendThread.Complete.{complete}

-- The packet was sent whole; or so many bytes of it, less than it has; or none, with the connection
-- closed or not.
pub data Attempt : Type 0 where
  whole : Attempt
  part : ℕ → Attempt
  refused : Bool → Attempt

-- After the loop that completes the packet.
abbrev pub completed : ℕ → ℕ → Attempt
completed size total = if ltb total size then part total else whole

abbrev pub attempted : SendResult → Answers → ℕ → Attempt
attempted (wrote zero) a size = refused false
attempted (wrote (suc n)) a size =
    completed size (complete (a.patience + size) a.rounds 0 (min (suc n) size) size).0
attempted would_block a size = refused false
attempted interrupted a size = refused false
attempted connection_closed a size = refused true

unfoldable pub attempt : Answers → ℕ → Attempt
attempt a size = attempted (send_tcp_direct a.first) a size

-- `reenqueueCount.fetch_add(1)`
abbrev pub count_failure : ℕ → SendThread → SendThread
count_failure i s = record s {
  conn_send_stats =
      modify i
        (Option.map (λ (t : ConnSendStats). record t { reenqueue_count = t.reenqueue_count + 1 }))
        s.conn_send_stats;
}

abbrev pub sent_stats : ℕ → ℕ → ConnSendStats → ConnSendStats
sent_stats id now t = record t {
  last_tx_message_id = id;
  last_tx_time_ms = now;
  tx_count = t.tx_count + 1;
  valid = true;
  reenqueue_count = 0;
}

-- `diagMarkSendStart` and `diagMarkSendEnd`, round the first `send`.
abbrev pub mark_send : ℕ → ℕ → TcpConnection → TcpConnection
mark_send id now c = diag_mark_send_end id now (diag_mark_send_start id now c)

-- The packet is on the connection's stream; the tracker and the statistics learn of it. The pieces
-- that the loop completing a packet hands to `send` start at `data() + totalSent`, so that they are
-- consecutive bytes of the packet: the stream has it as a whole, without the cuts between the pieces.
unfoldable pub sent_whole : ℕ → ℕ → ℕ → List ℕ → SendThread → SendThread
sent_whole now i id packet s =
    let s' : SendThread = write_stream i packet s in
    record s' {
      message_tracker = record_message id (pos i) s.message_tracker;
      conn_send_stats = modify i (Option.map (sent_stats id now)) s.conn_send_stats;
      sent_log = s.sent_log ++ (i, packet) ∷ [];
    }

unfoldable pub sent_part : ℕ → ℕ → List ℕ → SendThread → SendThread
sent_part i total packet s =
    count_failure i (drop_connection i (write_stream i (take total packet) s))

unfoldable pub sent_none : ℕ → Bool → SendThread → SendThread
sent_none i closed s = let s' = count_failure i s in if closed then drop_connection i s' else s'

-- The next connection is tried unless the packet was sent whole.
unfoldable pub after_attempt : World → ℕ → ℕ → List ℕ → Attempt → SendThread → SendThread × Bool
after_attempt w i id packet whole s = (sent_whole w.now i id packet s, true)
after_attempt w i id packet (part total) s = (sent_part i total packet s, false)
after_attempt w i id packet (refused closed) s = (sent_none i closed s, false)

unfoldable pub try_connection : World → ℕ → ℕ → List ℕ → SendThread → SendThread × Bool
try_connection w i id packet s =
    after_attempt w i id packet (attempt (w.answers i) (length packet))
      (change_connection i (mark_send id w.now) s)

-- The tests at the head of the loop: with no eligible connection, any that is connected will do.
abbrev pub may_try : Bool → List ℤ → ℕ → SendThread → Bool
may_try any scores i s =
    if any then non_negative (score_at scores i) else link_alive (get_elem? s.connections i)

abbrev pub unless_sent : SendThread × Bool → (SendThread → SendThread × Bool) → SendThread × Bool
unless_sent (s, true) next = (s, true)
unless_sent (s, false) next = next s

-- The loop over the ranks.
unfoldable pub try_order :
    World → Bool → List ℤ → ℕ → List ℕ → List ℕ → SendThread → SendThread × Bool
try_order w any scores id packet [] s = (s, false)
try_order w any scores id packet (i ∷ order) s =
    let rest = try_order w any scores id packet order in
    if may_try any scores i s then unless_sent (try_connection w i id packet s) rest else rest s

-- ===== src/SendThread.antt =====
-- src/common/TcpVCSendThread.cpp, run: the loop of a channel's send thread. What the clock, the kernel
-- and the sockets say is an argument of each round; `replaceConnection` can come between two rounds.
pub mod Order
pub mod State
pub mod Rate
pub mod Complete
pub mod Attempt
pub mod Resend
pub mod Framing
pub mod Frame
pub mod Conserve
pub mod Retries
mod Tests
use tcpudp.Base.{
  ℕ, zero, suc, ◌+◌, Bool, true, false, List, [], ◌∷◌, Option, none, some, length, get_elem?, ltb,
  ◌==◌, ◌||◌, if◌then◌else◌,
}
use tcpudp.Base.Int.{ℤ}
use tcpudp.Status.{SocketStatus}
use tcpudp.VcPacket.{vc_first_resend_conn_index}
use tcpudp.Queue.Blocking.{BlockingQueue, try_dequeue}
use tcpudp.Connection.{TcpConnection}
use tcpudp.SendThread.Order.{send_order, next_start, any_eligible}
use tcpudp.SendThread.State.{SendThread, Link, World, ConnSendStats, replace_connection}
use tcpudp.SendThread.Rate.{rate_all}
use tcpudp.SendThread.Attempt.{try_order}
use tcpudp.SendThread.Resend.{message_id, resend_phase}

-- `numDataConns`: the last slots are kept for resends when there are enough.
unfoldable pub num_data_conns : SendThread → ℕ
num_data_conns s =
    let n = length s.connections in
    if ltb vc_first_resend_conn_index n then vc_first_resend_conn_index else n

abbrev pub unsent : List ℕ → SendThread × Bool → SendThread
unsent packet (s, true) = s
unsent packet (s, false) = record s { pending_data = some packet }

-- From the scores to the retained packet.
unfoldable pub send_packet : World → List ℕ → SendThread → SendThread
send_packet w packet s =
    let n = num_data_conns s in
    let (scores, rated) = rate_all w 0 n s in
    let turned : SendThread = record rated {
      round_robin_start = next_start n s.round_robin_start;
    } in
    unsent packet (
      try_order w (any_eligible scores) scores (message_id packet) packet
        (send_order scores s.round_robin_start) turned)

-- `!connSnap[0]`
abbrev is_none : Option TcpConnection → Bool
is_none none = true
is_none (some c) = false

abbrev pub is_null : Option Link → Bool
is_null none = true
is_null (some link) = is_none link.connection

-- The packet of a round: the retained one, or the front of the queue.
abbrev take_retained : Option (List ℕ) → SendThread → Option (List ℕ) × SendThread
take_retained (some packet) s = (some packet, record s { pending_data = none })
take_retained none s =
    let (packet, queue) = try_dequeue s.send_queue in (packet, record s { send_queue = queue })

unfoldable pub take_packet : SendThread → Option (List ℕ) × SendThread
take_packet s = take_retained s.pending_data s

-- A round of the loop, with what the sends of its batch of resends and of its packet find, and
-- whether the thread is still running after the packet was taken.
pub record Turn : Type 0 where
  pub resends : ℕ → World
  pub world : World
  pub running : Bool

abbrev handle : Turn → Option (List ℕ) × SendThread → SendThread
handle t (none, s) = s
handle t (some packet, s) =
    if t.running
    then if (num_data_conns s == 0) || is_null (get_elem? s.connections 0)
      then s
      else send_packet t.world packet s
    else s

unfoldable pub turn : Turn → SendThread → SendThread
turn t s = handle t (take_packet (resend_phase t.resends s))

-- What happens to the thread: a round, or a hot-swap by the thread that accepts connections.
pub data Event : Type 0 where
  round : Turn → Event
  replaced : ℕ → ℤ → TcpConnection → Option ConnSendStats → Option SocketStatus → Event

unfoldable pub step : Event → SendThread → SendThread
step (round t) s = turn t s
step (replaced now slot conn stats status) s = replace_connection now slot conn stats status s

unfoldable pub run : List Event → SendThread → SendThread
run [] s = s
run (e ∷ es) s = run es (step e s)

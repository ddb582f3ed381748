-- ===== src/SendThread/State.antt =====
-- src/common/TcpVCSendThread.h and ConnSendStats of src/common/TcpVCWriteThread.h: the state of a
-- channel's send thread.
use tcpudp.Base.{
  ℕ, Bool, true, false, List, [], ◌∷◌, ◌++◌, Option, none, some, length, map, replicate, modify,
  set, ltb, if◌then◌else◌,
}
use mathlib.Core.Option
use tcpudp.Base.Int.{ℤ, pos, negsuc}
use tcpudp.Queue.Blocking.{BlockingQueue, set_enqueue_notifier}
use tcpudp.Connection.{TcpConnection, disconnect, KernelInfo}
use tcpudp.Tracker.{MessageTracker}
use tcpudp.Status.{SocketStatus}
use tcpudp.Socket.{SendCall}

pub record ConnSendStats : Type 0 where
  pub last_tx_message_id : ℕ
  pub last_tx_time_ms : ℕ
  pub tx_count : ℕ
  pub reenqueue_count : ℕ
  pub slow_send_count : ℕ
  pub valid : Bool

abbrev pub new_stats : ConnSendStats
new_stats = record {
  last_tx_message_id = 0;
  last_tx_time_ms = 0;
  tx_count = 0;
  reenqueue_count = 0;
  slow_send_count = 0;
  valid = false;
}

-- A slot of `connections`; and, for the statements, the bytes that were written on the connection.
pub record Link : Type 0 where
  pub connection : Option TcpConnection
  pub stream : List ℕ

pub record SendThread : Type 0 where
  pub connections : List Link
  pub send_queue : BlockingQueue (List ℕ)
  pub resend_queue : BlockingQueue (List ℕ)
  pub conn_send_stats : List (Option ConnSendStats)
  pub message_tracker : MessageTracker
  pub socket_statuses : List (Option SocketStatus)
  pub last_runtime_refresh : List ℕ
  pub round_robin_start : ℕ
  pub resend_round_robin : ℕ
  pub resend_retry_count : List (ℕ × ℕ)
  -- `pendingDataVec` of `run`
  pub pending_data : Option (List ℕ)
  -- the slots that `disconnectCallback` was called for
  pub reported : List ℕ
  -- for the statements: the packets sent whole on a data connection, with the slot of each
  pub sent_log : List (ℕ × List ℕ)

abbrev pub link_of : Option TcpConnection → Link
link_of connection = record { connection = connection; stream = [] }

-- The constructor, of a channel's connections; both queues get the notifier.
unfoldable pub make_send_thread :
    ℕ
    → List (Option TcpConnection)
    → BlockingQueue (List ℕ)
    → BlockingQueue (List ℕ)
    → List (Option ConnSendStats)
    → MessageTracker
    → List (Option SocketStatus)
    → SendThread
make_send_thread now connections send_queue resend_queue stats tracker statuses = record {
  connections = map link_of connections;
  send_queue = set_enqueue_notifier true send_queue;
  resend_queue = set_enqueue_notifier true resend_queue;
  conn_send_stats = stats;
  message_tracker = tracker;
  socket_statuses = statuses;
  last_runtime_refresh = replicate (length connections) now;
  round_robin_start = 0;
  resend_round_robin = 0;
  resend_retry_count = [];
  pending_data = none;
  reported = [];
  sent_log = [];
}

-- The destructor.
unfoldable pub destroy_send_thread : SendThread → SendThread
destroy_send_thread s = record s {
  send_queue = set_enqueue_notifier false s.send_queue;
  resend_queue = set_enqueue_notifier false s.resend_queue;
}

abbrev pub on_connection : (TcpConnection → TcpConnection) → Link → Link
on_connection f link = record link { connection = Option.map f link.connection }

abbrev pub change_connection : ℕ → (TcpConnection → TcpConnection) → SendThread → SendThread
change_connection i f s = record s { connections = modify i (on_connection f) s.connections }

abbrev pub write_on : List ℕ → Link → Link
write_on bytes link = record link { stream = link.stream ++ bytes }

abbrev pub write_stream : ℕ → List ℕ → SendThread → SendThread
write_stream i bytes s = record s { connections = modify i (write_on bytes) s.connections }

abbrev pub pending_list : Option (List ℕ) → List (List ℕ)
pending_list none = []
pending_list (some packet) = packet ∷ []

-- `conn->disconnect()` and `disconnectCallback(conn)`.
unfoldable pub drop_connection : ℕ → SendThread → SendThread
drop_connection i s = record s {
  connections = modify i (on_connection (λ c. (disconnect c).0)) s.connections;
  reported = s.reported ++ i ∷ [];
}

-- `connections[i] && connections[i]->isConnected()`
abbrev pub is_connected : Option TcpConnection → Bool
is_connected none = false
is_connected (some c) = c.connected

abbrev pub link_alive : Option Link → Bool
link_alive none = false
link_alive (some link) = is_connected link.connection

-- `replaceConnection`: a new connection has an empty stream.
abbrev replace_at :
    ℕ → ℕ → TcpConnection → Option ConnSendStats → Option SocketStatus → SendThread → SendThread
replace_at now i conn stats status s = record s {
  connections = set s.connections i (record { connection = some conn; stream = [] });
  conn_send_stats = set s.conn_send_stats i stats;
  socket_statuses = set s.socket_statuses i status;
  last_runtime_refresh = set s.last_runtime_refresh i now;
}

unfoldable pub replace_connection :
    ℕ → ℤ → TcpConnection → Option ConnSendStats → Option SocketStatus → SendThread → SendThread
replace_connection now (negsuc i) conn stats status s = s
replace_connection now (pos i) conn stats status s =
    if ltb i (length s.connections) then replace_at now i conn stats status s else s

-- What a call of `poll` and of `send` find in a round of the loop that completes a packet:
-- whether the connection is up and the thread runs, whether the socket became writable in time, what
-- `send` returned, and the time since the first bytes were written.
pub record Round : Type 0 where
  pub up : Bool
  pub writable : Bool
  pub result : SendCall
  pub elapsed_ms : ℕ

-- What the socket of a slot answers while a packet is tried on it, and a bound on the rounds that
-- bring no progress.
pub record Answers : Type 0 where
  pub first : SendCall
  pub rounds : ℕ → Round
  pub patience : ℕ

-- What a send finds: the clock, what the kernel tells of each slot, and what each socket answers.
pub record World : Type 0 where
  pub now : ℕ
  pub kernel : ℕ → KernelInfo
  pub answers : ℕ → Answers

-- ===== src/SendThread/Tests.antt =====
-- Runs of the model of src/common/TcpVCSendThread.cpp, and its theorems at concrete inputs.
use tcpudp.EndToEnd.Wire.{IsEncoded, stream_delivered}
use tcpudp.VcPacket.{data_packet}
use tcpudp.VcPacket.Message.{Message, payload_of, IsMessage, encode, encode_all}
use tcpudp.IoThread.{Received, empty_buffer}
use tcpudp.IoThread.Stream.{event}
use tcpudp.IoThread.Session.{received, Survives, session}
use tcpudp.Base.{
  All, flatten, map, get_elem?, Option, ℕ, ◌+◌, ◌-◌, ◌*◌, ◌≤◌, ◌<◌, ◌≡◌, refl, arith, true, false,
  List, [], ◌∷◌, none, some, replicate, ◌==◌, if◌then◌else◌,
}
use tcpudp.Base.Int.{ℤ, pos, negsuc}
use tcpudp.Base.Assoc.{insert, lookup}
use tcpudp.Bytes.{le_bytes, le_value, read}
use tcpudp.Connection.{
  TcpConnection, RuntimeInfo, no_info, new_connection, windows, disconnect, diag_mark_send_start,
  diag_mark_send_end, refresh_runtime_info_if_stale, sample_runtime_info,
}
use tcpudp.Queue.Blocking.{BlockingQueue, try_dequeue}
use tcpudp.Tracker.{make_tracker, record_message}
use tcpudp.Socket.{transferred, failed, other_error}
use tcpudp.SendThread.Order.{
  score_at, iota, rotated, rotate_count, best_score, leading, uniform_scores, insert_by, rotate,
  stable_sort, scored_before, sorted_order, send_order, next_start, best, any_eligible,
}
use tcpudp.SendThread.Order.Sorting.{sorted_order-stable_sort}
use tcpudp.SendThread.Order.First.{start_after, best_gets_a_turn}
use tcpudp.SendThread.State.{SendThread, World, Answers, Round, drop_connection, new_stats, Link}
use tcpudp.SendThread.Rate.{
  score, score_pattern, rate_all, rate_connection, refresh_conn_runtime_info,
}
use tcpudp.SendThread.Complete.{partial_send_budget_ms, next_round, complete, Ends, complete_total}
use tcpudp.SendThread.{Event, round, run, step, turn, take_packet, num_data_conns, send_packet}
use tcpudp.SendThread.Resend.{send_on_resend_conn, resend_phase, any_resend_alive}
use tcpudp.SendThread.Attempt.{
  try_order, after_attempt, attempt, sent_none, sent_part, sent_whole, try_connection,
}
use tcpudp.SendThread.Framing.{IsFramed}
use tcpudp.SendThread.Conserve.{contents}
use tcpudp.SendThread.Conserve.Rounds.{HasFirst, run_conserves}
use tcpudp.SendThread.Retries.{attempts_on, fate, Leaves, resend_fate}
use tcpudp.SendThread.Retries.Bounded.{IsBounded, run-IsBounded}

-- Four data connections; the second and the last one are best.
abbrev scores : List ℤ
scores = pos 5 ∷ pos 9 ∷ negsuc 0 ∷ pos 9 ∷ []

sent_in_order :
    (send_order scores 0 ≡ 1 ∷ 3 ∷ 0 ∷ 2 ∷ []) × (send_order scores 1 ≡ 3 ∷ 1 ∷ 0 ∷ 2 ∷ [])
unfolding send_order rotated rotate_count best_score leading sorted_order uniform_scores stable_sort
    iota insert_by rotate
sent_in_order = (refl, refl)

sorted_order-stable_sort_example :
    sorted_order scores ≡ stable_sort (scored_before scores) (iota 0 4)
sorted_order-stable_sort_example = sorted_order-stable_sort scores

eligible : any_eligible scores ≡ true
unfolding best_score
eligible = refl

best_is_nine : score_at scores 3 ≡ best scores
unfolding best_score
best_is_nine = refl

best_gets_a_turn_example :
    (packets : ℕ) × (packets < 4)
    × (get_elem? (send_order scores (start_after packets 4 2)) 0 ≡ some 3)
best_gets_a_turn_example =
    best_gets_a_turn scores eligible 2 3 (omega arith) (omega arith) best_is_nine

abbrev busy : RuntimeInfo
busy = record no_info {
  congestion_window_bytes = 20_000;
  smoothed_rtt_us = 50_000;
  timeout_episodes = 2;
}

-- The socket takes 4 bytes in round 2, and no more; the clock passes the budget in round 5.
abbrev slow_rounds : ℕ → Round
slow_rounds k = record {
  up = true;
  writable = k == 2;
  result = transferred 4;
  elapsed_ms = k * 600;
}

late_rounds : (k : ℕ) → 5 ≤ k → partial_send_budget_ms ≤ (slow_rounds k).elapsed_ms
late_rounds k h = omega arith

complete_total_example :
    let ended = complete 12 slow_rounds 0 3 10 in
    (complete (5 + (10 - 3) + 9) slow_rounds 0 3 10 ≡ ended)
    × (3 ≤ ended.0)
    × (ended.0 ≤ 10)
    × Ends slow_rounds 10 ended
complete_total_example = complete_total slow_rounds 5 3 10 9 late_rounds (omega arith)

completed-slow : complete 12 slow_rounds 0 3 10 ≡ (7, false)
unfolding complete next_round
completed-slow = refl

-- On the first connection the packet stays in part; on the second it is sent whole.
abbrev answers_of : ℕ → Answers
answers_of i = record {
  first = if i == 0 then transferred 5 else transferred 14;
  rounds = λ k. record { up = true; writable = true; result = failed other_error; elapsed_ms = k };
  patience = 1;
}

abbrev world : World
world = record { now = 1000; kernel = λ i. windows; answers = answers_of }

abbrev packet : List ℕ
packet = 0 ∷ 7 ∷ 0 ∷ 0 ∷ 0 ∷ 0 ∷ 0 ∷ 0 ∷ 0 ∷ 3 ∷ 0 ∷ 65 ∷ 66 ∷ 67 ∷ []

abbrev queue_with : List (List ℕ) → BlockingQueue (List ℕ)
queue_with items = record {
  queue = items;
  cancelled = false;
  approx_queue_size = 1;
  has_notifier = true;
}

abbrev slots : ℕ → List Link
slots n = replicate n (record { connection = some (new_connection 9); stream = [] })

abbrev thread_of : ℕ → List (List ℕ) → List (List ℕ) → SendThread
thread_of n sends resends = record {
  connections = slots n;
  send_queue = queue_with sends;
  resend_queue = queue_with resends;
  conn_send_stats = replicate n (some new_stats);
  message_tracker = make_tracker n;
  socket_statuses = [];
  last_runtime_refresh = replicate n 900;
  round_robin_start = 0;
  resend_round_robin = 0;
  resend_retry_count = [];
  pending_data = none;
  reported = [];
  sent_log = [];
}

abbrev events : List Event
events = round (record { resends = λ n. world; world = world; running = true }) ∷ []

run_conserves_example :
    let s = thread_of 2 (packet ∷ []) [] in
    (contents (run events s) ≡ contents s) × HasFirst (run events s)
run_conserves_example = run_conserves events (thread_of 2 (packet ∷ []) []) (refl, tt) refl

abbrev ran : SendThread
ran = run events (thread_of 2 (packet ∷ []) [])

abbrev the_link : Option Link → Link
the_link none = record { connection = none; stream = [] }
the_link (some link) = link

abbrev the_connection : Option TcpConnection → TcpConnection
the_connection none = new_connection 9
the_connection (some c) = c

abbrev second_link : Link
second_link = the_link (get_elem? ran.connections 1)

-- The first connection of the two is dropped with 5 bytes on it, and the packet is on the second one.
ran_second :
    (ran.reported ≡ 0 ∷ [])
    × (ran.sent_log ≡ (1, packet) ∷ [])
    × (get_elem? ran.connections 1 ≡ some second_link)
    × (second_link.connection ≡ some (the_connection second_link.connection))
    × ((the_connection second_link.connection).connected ≡ true)
    × (second_link.stream ≡ packet)
unfolding run step turn take_packet resend_phase any_resend_alive try_dequeue num_data_conns
    send_packet try_order send_order rotated rotate_count best_score rate_all rate_connection
    refresh_conn_runtime_info insert le_value read diag_mark_send_end diag_mark_send_start
    disconnect refresh_runtime_info_if_stale sample_runtime_info after_attempt attempt sent_none
    sent_part sent_whole try_connection insert_by iota leading next_start rotate sorted_order
    stable_sort uniform_scores score score_pattern drop_connection record_message complete
    next_round lookup
ran_second = (refl, refl, refl, refl, refl, refl)

encoded_packet : packet ≡ encode (payload_of 7 (65 ∷ 66 ∷ 67 ∷ []))
unfolding encode data_packet le_bytes
encoded_packet = refl

two-IsFramed : IsFramed IsEncoded (thread_of 2 (packet ∷ []) [])
two-IsFramed = record {
  links = (λ up. ([], tt, refl), (λ up. ([], tt, refl), tt));
  sends = ((payload_of 7 (65 ∷ 66 ∷ 67 ∷ []), (omega arith, omega arith), encoded_packet), tt);
  resends = tt;
  pending = tt;
}

stream_delivered_example :
    (ms : List Message) × All IsMessage ms
    × (second_link.stream ≡ encode_all ms)
    × ((conn : ℕ) (wakes : List (List Received))
        → All Survives wakes
        → flatten (map received wakes) ≡ second_link.stream
        → (session conn empty_buffer wakes).0 ≡ map (event conn) ms)
stream_delivered_example =
    stream_delivered events (thread_of 2 (packet ∷ []) []) two-IsFramed 1 second_link
      (the_connection second_link.connection) ran_second.2 ran_second.3 ran_second.4

-- 26 connections: two of them are kept for resends, and the sockets fail.
abbrev failing : World
failing = record world { answers = λ i. record (answers_of i) { first = failed other_error } }

resend_fate_example :
    let s = thread_of 26 [] [] in
    Leaves 7 (fate 7 packet s (attempts_on failing packet s)) (send_on_resend_conn failing packet s)
unfolding read le_value
resend_fate_example = resend_fate failing packet (thread_of 26 [] []) (omega arith)

run-IsBounded_example : IsBounded (run events (thread_of 26 [] (packet ∷ [])))
run-IsBounded_example = run-IsBounded events (thread_of 26 [] (packet ∷ [])) (record { small = tt })

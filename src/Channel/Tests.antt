-- ===== src/Channel/Tests.antt =====
-- A small channel, its cache, its tracker and its statuses, and the theorems on them.
use tcpudp.Base.{ℕ, ◌+◌, ◌≡◌, refl, arith, true, false, List, map, [], ◌∷◌, ◌++◌, some}
use tcpudp.Base.Int.{pos}
use tcpudp.VcPacket.{data_packet}
use tcpudp.Queue.Blocking.{BlockingQueue, enqueue, try_dequeue, approx_size}
use tcpudp.Cache.{make_cache, insert_sent, insert_shard, evict_front, find}
use tcpudp.Base.Assoc.{lookup, insert, erase}
use tcpudp.Cache.Retain.{sent}
use tcpudp.Tracker.{
  TrackerCall, recorded, removed, make_tracker, track_all, get_connection_index, tracker_is_map,
}
use tcpudp.Channel.{
  missing_notify_callback, Channel, open_channel, send, process_resend_request,
  process_missing_notify,
}
use tcpudp.Channel.Calls.{
  ChannelCall, sends, takes, reports, notifies, call, run, numbered, packet_at, notice,
  data_packets, other_packets,
}
use tcpudp.Channel.Resend.{IsNew, opened_session, sends_numbered, resend_exact}
use tcpudp.Channel.Missing.{second_report_silent}

-- Ten messages over two connections with room for three each: the last six are kept.
abbrev name_of : ℕ → ℕ
name_of i = 100 + i

sent-run : find 4 (sent 2 3 name_of 10) ≡ some 104
unfolding sent insert_sent find insert_shard evict_front lookup insert erase
sent-run = refl

abbrev track_calls : List TrackerCall
track_calls = recorded 7 (pos 1) ∷ recorded 8 (pos 0) ∷ removed 7 ∷ []

tracker_is_map_example : get_connection_index 8 (track_all track_calls (make_tracker 2)) ≡ pos 0
tracker_is_map_example = tracker_is_map 2 track_calls 8 (omega arith)

abbrev empty_queue : BlockingQueue (List ℕ)
empty_queue = record { queue = []; cancelled = false; approx_queue_size = 0; has_notifier = false }

abbrev new_channel : Channel
new_channel = record {
  opened = false;
  last_send_message_id = 0;
  send_queue = empty_queue;
  resend_queue = empty_queue;
  sent_data_cache = make_cache 0 128;
  message_tracker = [];
  socket_statuses = [];
  pending_resend_ids = [];
}

new_channel-IsNew : IsNew new_channel
new_channel-IsNew = record { first_id = refl; no_packets = refl; running = refl }

abbrev calls : List ChannelCall
calls = sends (5 ∷ 6 ∷ []) ∷ takes ∷ notifies (3 ∷ []) ∷ sends (7 ∷ []) ∷ reports 10 (0 ∷ []) ∷ []

sends_numbered_example :
    let s = run calls (opened_session 2 new_channel) in
    (data_packets (s.taken ++ s.channel.send_queue.queue) ≡ numbered 0 s.accepted)
    × (other_packets (s.taken ++ s.channel.send_queue.queue) ≡ map notice s.notices)
sends_numbered_example =
    sends_numbered 2 new_channel calls (omega arith) new_channel-IsNew (omega arith)

resend_exact_example :
    let s = run calls (opened_session 2 new_channel) in
    (process_resend_request 20 1 s.channel).resend_queue.queue
    ≡ s.channel.resend_queue.queue ++ (packet_at s.accepted 1 ∷ [])
unfolding call send open_channel approx_size try_dequeue enqueue missing_notify_callback
resend_exact_example =
    resend_exact 2 new_channel calls (omega arith) new_channel-IsNew (omega arith) 20 1
      (omega arith)

abbrev waiting : Channel
waiting = record new_channel {
  opened = true;
  last_send_message_id = 2;
  sent_data_cache = insert_sent 1 (data_packet 1 (7 ∷ [])) (make_cache 2 128);
  pending_resend_ids = (0, 10) ∷ [];
}

second_report_silent_example :
    let once = process_missing_notify 20 (0 ∷ 1 ∷ []) waiting in
    (process_missing_notify 300 (0 ∷ 1 ∷ []) once).resend_queue ≡ once.resend_queue
second_report_silent_example =
    second_report_silent 20 300 (0 ∷ 1 ∷ []) waiting (omega arith) (omega arith, tt)

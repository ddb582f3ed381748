-- ===== src/Channel.antt =====
-- src/common/TcpVirtualChannel.cpp: what the threads and callbacks of an open channel do on the sending
-- side, one function for each method. The receiving side is `Reorder`.
pub mod Keeps
pub mod Calls
pub mod Sending
pub mod Resend
pub mod Missing
mod Tests
use tcpudp.Base.{
  ℕ, zero, suc, ◌+◌, ◌-◌, ◌*◌, ◌%◌, ◌^◌, min, Bool, true, false, ◌&&◌, ◌||◌, not, List, [], ◌∷◌,
  ◌++◌, Option, none, some, length, get_elem?, take, drop, replicate, contains, map, modify, set,
  ltb, leb, ◌==◌, if◌then◌else◌,
}
use tcpudp.Base.Int.{ℤ, pos, negsuc, in_range}
use tcpudp.Base.Assoc.{lookup, insert, erase}
use tcpudp.Bytes.{field}
use tcpudp.VcPacket.{
  data_packet, missing_notify_packet, vc_min_data_packet_size, vc_max_data_payload_size,
  send_queue_drop_threshold, vc_max_missing_ids_per_notify,
}
use tcpudp.Queue.Blocking.{BlockingQueue, enqueue, try_dequeue, cancel_wait, approx_size}
use tcpudp.Cache.{SentDataCache, make_cache, insert_sent, find, clear}
use tcpudp.Tracker.{MessageTracker, make_tracker, get_connection_index, clear_tracker}
use tcpudp.Status.{SocketStatus, new_status, mark_degraded}

-- `lastSendMessageId.fetch_add(1)` on a `uint64_t`
abbrev pub u64_mod : ℕ
u64_mod = 2 ^ 64

-- `pendingResendTtl`
abbrev pub pending_resend_ttl : ℕ
pending_resend_ttl = 2000

pub record Channel : Type 0 where
  pub opened : Bool
  pub last_send_message_id : ℕ
  pub send_queue : BlockingQueue (List ℕ)
  pub resend_queue : BlockingQueue (List ℕ)
  pub sent_data_cache : SentDataCache (List ℕ)
  pub message_tracker : MessageTracker
  pub socket_statuses : List SocketStatus
  -- the ids that wait to be sent again, with the time at which they were enqueued
  pub pending_resend_ids : List (ℕ × ℕ)

-- `open` makes the state of the `num` connections; a channel is opened once.
unfoldable pub open_channel : ℕ → Channel → Channel
open_channel num ch = record ch {
  opened = true;
  sent_data_cache = make_cache num 128;
  message_tracker = make_tracker num;
  socket_statuses = replicate num new_status;
}

-- `size > 0`, and the tests after it.
abbrev pub accepts : List ℕ → Channel → Bool
accepts payload ch =
    ch.opened
    && ltb 0 (length payload)
    && not (ltb vc_max_data_payload_size (length payload))
    && not (ltb send_queue_drop_threshold (approx_size ch.send_queue))

unfoldable pub send : List ℕ → Channel → Channel
send payload ch =
    let id = ch.last_send_message_id in
    let packet = data_packet id payload in
    if accepts payload ch
    then record ch {
      last_send_message_id = (id + 1) % u64_mod;
      sent_data_cache = insert_sent id packet ch.sent_data_cache;
      send_queue = (enqueue packet ch.send_queue).0;
    }
    else ch

-- The default `resendCallback`: the payload as a packet with its old id, on the resend queue.
unfoldable pub resend_callback : ℕ → List ℕ → Channel → Channel
resend_callback id payload ch =
    if ch.opened
    then record ch { resend_queue = (enqueue (data_packet id payload) ch.resend_queue).0 }
    else ch

-- `packet->data`, `packet->dataLength` bytes of it.
abbrev pub packet_payload : List ℕ → List ℕ
packet_payload packet = take (field 9 2 packet) (drop vc_min_data_packet_size packet)

-- `connIndex >= 0 && connIndex < size`: the connection that carried the message is degraded.
abbrev pub degrade_at : ℕ → ℤ → Channel → Channel
degrade_at now (pos i) ch = record ch {
  socket_statuses = modify i (mark_degraded now) ch.socket_statuses;
}
degrade_at now (negsuc i) ch = ch

unfoldable pub degrade : ℕ → ℕ → Channel → Channel
degrade now id ch = degrade_at now (get_connection_index id ch.message_tracker) ch

abbrev pub resend_found : ℕ → Option (List ℕ) → Channel → Channel
resend_found id none ch = ch
resend_found id (some packet) ch = resend_callback id (packet_payload packet) ch

unfoldable pub process_resend_request : ℕ → ℕ → Channel → Channel
process_resend_request now id ch = resend_found id (find id ch.sent_data_cache) (degrade now id ch)

-- The first loop of `processMissingNotify`: drop the ids that are absent from the notice, and those
-- enqueued too long ago.
unfoldable pub expire_pending : ℕ → List ℕ → List (ℕ × ℕ) → List (ℕ × ℕ)
expire_pending now missing [] = []
expire_pending now missing ((id, since) ∷ rest) =
    let rest' = expire_pending now missing rest in
    if not (contains id missing) || leb pending_resend_ttl (now - since)
    then rest'
    else (id, since) ∷ rest'

-- What follows the marking in a round of the second loop, by what `pendingResendIds` and the cache
-- say of the id.
abbrev pub resend_once : ℕ → ℕ → Option ℕ → Option (List ℕ) → Channel → Channel
resend_once now id (some since) found ch = ch
resend_once now id none none ch = ch
resend_once now id none (some packet) ch = record (resend_callback id (packet_payload packet) ch) {
  pending_resend_ids = insert id now ch.pending_resend_ids;
}

unfoldable pub process_missing_id : ℕ → ℕ → Channel → Channel
process_missing_id now id ch =
    resend_once now id (lookup id ch.pending_resend_ids) (find id ch.sent_data_cache)
      (degrade now id ch)

unfoldable pub process_missing_ids : ℕ → List ℕ → Channel → Channel
process_missing_ids now [] ch = ch
process_missing_ids now (id ∷ ids) ch = process_missing_ids now ids (process_missing_id now id ch)

unfoldable pub process_missing_notify : ℕ → List ℕ → Channel → Channel
process_missing_notify now missing ch =
    process_missing_ids now missing
      (record ch { pending_resend_ids = expire_pending now missing ch.pending_resend_ids })

-- The default `missingNotifyCallback`.
unfoldable pub missing_notify_callback : List ℕ → Channel → Channel
missing_notify_callback missing ch =
    if ch.opened
    then record ch {
      send_queue =
          (enqueue (missing_notify_packet (take vc_max_missing_ids_per_notify missing))
            ch.send_queue).0;
    }
    else ch

-- `close`, as far as the state goes; it stops and joins the threads first.
unfoldable pub close : Channel → Channel
close ch =
    let stopped : Channel =
      if ch.opened
      then record ch {
        opened = false;
        send_queue = cancel_wait ch.send_queue;
        resend_queue = cancel_wait ch.resend_queue;
      }
      else ch in
    record stopped {
      message_tracker = clear_tracker ch.message_tracker;
      sent_data_cache = clear ch.sent_data_cache;
    }

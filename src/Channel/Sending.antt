-- ===== src/Channel/Sending.antt =====
-- What an open channel has put on its send queue, and what it keeps, after any calls.
use tcpudp.Base.{
  ℕ, zero, suc, ◌+◌, ◌%◌, ◌<◌, ◌≤◌, ◌≡◌, ◌∙◌, refl, sym, ap, subst, arith, true, false, List, [],
  ◌∷◌, ◌++◌, append_assoc, map, Option, none, some, length, length-append, Bool-cases, if_true,
  if_false, ap₂, inl, inr, All, All-append,
}
use mathlib.Core.List.{map-append}
use tcpudp.VcPacket.{data_packet, vc_max_data_payload_size}
use tcpudp.Queue.Blocking.{BlockingQueue, enqueue, try_dequeue}
use tcpudp.Cache.{insert_sent}
use tcpudp.Cache.Retain.{CacheHolds, insert-CacheHolds, agree-CacheHolds}
use tcpudp.Channel.{Channel, u64_mod, accepts, send, missing_notify_callback}
use tcpudp.Queue.Blocking.Fifo.{cons?, try_dequeue-front}
use tcpudp.Channel.Keeps.{Keeps, process_resend_request-Keeps, process_missing_notify-Keeps}
use tcpudp.Channel.Calls.{
  append_option, ChannelCall, sends, takes, asks, reports, notifies, Session, call, run, numbered,
  payload_at, packet_at, notice, data_packets, other_packets, data_packets-data, other_packets-data,
  data_packets-notice, other_packets-notice,
}

numbered-append :
    (i : ℕ) (ps : List (List ℕ)) (p : List ℕ)
    → numbered i (ps ++ (p ∷ [])) ≡ numbered i ps ++ (data_packet (i + length ps) p ∷ [])
numbered-append i [] p = ap (λ k. data_packet k p ∷ []) (omega arith)
numbered-append i (q ∷ ps) p =
    let e : i + 1 + length ps ≡ i + suc (length ps) = omega arith in
    ap (◌∷◌ (data_packet i q))
      (numbered-append (i + 1) ps p ∙ ap (λ k. numbered (i + 1) ps ++ (data_packet k p ∷ [])) e)

payload_at-before :
    (ps : List (List ℕ)) (p : List ℕ) (i : ℕ)
    → i < length ps
    → payload_at ps i ≡ payload_at (ps ++ (p ∷ [])) i
payload_at-before [] p i h = absurd (omega arith)
payload_at-before (q ∷ ps) p zero h = refl
payload_at-before (q ∷ ps) p (suc i) h = payload_at-before ps p i (omega arith)

payload_at-last : (ps : List (List ℕ)) (p : List ℕ) → payload_at (ps ++ (p ∷ [])) (length ps) ≡ p
payload_at-last [] p = refl
payload_at-last (q ∷ ps) p = payload_at-last ps p

accepts-fits :
    (payload : List ℕ) (ch : Channel)
    → accepts payload ch ≡ true
    → length payload ≤ vc_max_data_payload_size
accepts-fits payload ch h = ground arith

module _ (n : ℕ) where
  -- The state of an open channel with `n` connections that has accepted some datagrams.
  pub record Sends (s : Session) : Type 0 where
    pub is_open : s.channel.opened ≡ true
    pub running : s.channel.send_queue.cancelled ≡ false
    pub number : s.channel.last_send_message_id ≡ length s.accepted
    pub queued : data_packets (s.taken ++ s.channel.send_queue.queue) ≡ numbered 0 s.accepted
    pub noticed : other_packets (s.taken ++ s.channel.send_queue.queue) ≡ map notice s.notices
    pub small : All (λ p. length p ≤ vc_max_data_payload_size) s.accepted
    pub kept : CacheHolds n 128 (packet_at s.accepted) (length s.accepted) s.channel.sent_data_cache

  -- A datagram that passes the guards of `send`.
  abbrev after_send : List ℕ → Session → Session
  after_send payload s =
      let id = s.channel.last_send_message_id in
      record s {
        channel = record (s.channel) {
          last_send_message_id = (id + 1) % u64_mod;
          sent_data_cache = insert_sent id (data_packet id payload) s.channel.sent_data_cache;
          send_queue = (enqueue (data_packet id payload) s.channel.send_queue).0;
        };
        accepted = s.accepted ++ (payload ∷ []);
      }

  accepted-Sends :
      (payload : List ℕ) (s : Session)
      → 0 < n
      → length s.accepted + 1 < u64_mod
      → length payload ≤ vc_max_data_payload_size
      → Sends s
      → Sends (after_send payload s)
  unfolding enqueue
  accepted-Sends payload s pos few fits h =
      let k = length s.accepted in
      let from_zero : k ≡ 0 + k = omega arith in
      let more : length (s.accepted ++ (payload ∷ [])) ≡ k + 1 =
        length-append s.accepted (payload ∷ []) in
      let packet : data_packet s.channel.last_send_message_id payload
          ≡ packet_at (s.accepted ++ (payload ∷ [])) k =
        ap₂ data_packet h.number (sym (payload_at-last s.accepted payload)) in
      let before =
        agree-CacheHolds n 128 k (packet_at s.accepted) (packet_at (s.accepted ++ (payload ∷ [])))
          (λ i lt. ap (data_packet i) (payload_at-before s.accepted payload i lt))
          s.channel.sent_data_cache h.kept in
      record {
        is_open = h.is_open;
        running = h.running;
        number = let e = h.number in omega (arith, more);
        queued =
            ap data_packets (
              sym (
                append_assoc s.taken s.channel.send_queue.queue
                  (data_packet s.channel.last_send_message_id payload ∷ [])))
            ∙ data_packets-data (s.taken ++ s.channel.send_queue.queue)
                s.channel.last_send_message_id payload
            ∙ (ap₂ (λ xs i. xs ++ (data_packet i payload ∷ [])) h.queued (h.number ∙ from_zero)
                ∙ sym (numbered-append 0 s.accepted payload));
        noticed =
            ap other_packets (
              sym (
                append_assoc s.taken s.channel.send_queue.queue
                  (data_packet s.channel.last_send_message_id payload ∷ [])))
            ∙ other_packets-data (s.taken ++ s.channel.send_queue.queue)
                s.channel.last_send_message_id payload
            ∙ h.noticed;
        small =
            All-append (λ p. length p ≤ vc_max_data_payload_size) s.accepted (payload ∷ []) h.small
              (fits, tt);
        kept =
            subst
              (λ i.
                CacheHolds n 128 (packet_at (s.accepted ++ (payload ∷ []))) i
                  (after_send payload s).channel.sent_data_cache)
              (sym more)
              (subst (λ c. CacheHolds n 128 (packet_at (s.accepted ++ (payload ∷ []))) (k + 1) c)
                (ap₂ (λ i p. insert_sent i p s.channel.sent_data_cache) (sym h.number) (sym packet))
                (insert-CacheHolds n 128 (packet_at (s.accepted ++ (payload ∷ []))) k
                  s.channel.sent_data_cache pos before));
      }

  send-Sends :
      (payload : List ℕ) (s : Session)
      → 0 < n
      → length s.accepted + 1 < u64_mod
      → Sends s
      → Sends (call (sends payload) s)
  unfolding call send
  send-Sends payload s pos few h = elim (Bool-cases (accepts payload s.channel)) [
    | inl passes ↦
        subst Sends
          (sym (
            ap₂ (λ c xs. record s { channel = c; accepted = xs }) (if_true _ _ passes)
              (if_true _ _ passes)))
          (accepted-Sends payload s pos few (accepts-fits payload s.channel passes) h)
    | inr fails ↦
        subst Sends
          (sym (
            ap₂ (λ c xs. record s { channel = c; accepted = xs }) (if_false _ _ fails)
              (if_false _ _ fails)))
          h
  ]

  Keeps-Sends :
      (s : Session) (ch : Channel)
      → Keeps s.channel ch
      → Sends s
      → Sends (record s { channel = ch })
  Keeps-Sends s ch k h = record {
    is_open = k.still_open ∙ h.is_open;
    running = ap BlockingQueue.cancelled k.same_queue ∙ h.running;
    number = k.same_id ∙ h.number;
    queued = ap (λ q. data_packets (s.taken ++ q.queue)) k.same_queue ∙ h.queued;
    noticed = ap (λ q. other_packets (s.taken ++ q.queue)) k.same_queue ∙ h.noticed;
    small = h.small;
    kept =
        subst (CacheHolds n 128 (packet_at s.accepted) (length s.accepted)) (sym k.same_cache)
          h.kept;
  }

  append_option-cons :
      (xs ys zs : List (List ℕ)) (o : Option (List ℕ))
      → cons? o ys ≡ zs
      → append_option xs o ++ ys ≡ xs ++ zs
  append_option-cons xs ys zs none e = ap (◌++◌ xs) e
  append_option-cons xs ys zs (some x) e = append_assoc xs (x ∷ []) ys ∙ ap (◌++◌ xs) e

  takes-Sends : (s : Session) → Sends s → Sends (call takes s)
  unfolding call
  takes-Sends s h =
      let front = try_dequeue-front s.channel.send_queue h.running in
      let (packet, queue) = try_dequeue s.channel.send_queue in
      let same : append_option s.taken packet ++ queue.queue
          ≡ s.taken ++ s.channel.send_queue.queue =
        append_option-cons s.taken queue.queue s.channel.send_queue.queue packet front.0 in
      record {
        is_open = h.is_open;
        running = front.1;
        number = h.number;
        queued = ap data_packets same ∙ h.queued;
        noticed = ap other_packets same ∙ h.noticed;
        small = h.small;
        kept = h.kept;
      }

  -- A notification on the queue of an open channel.
  notifies-Sends : (ids : List ℕ) (s : Session) → Sends s → Sends (call (notifies ids) s)
  unfolding call missing_notify_callback enqueue
  notifies-Sends ids s h =
      let xs = s.taken ++ s.channel.send_queue.queue in
      let same : s.taken ++ (s.channel.send_queue.queue ++ (notice ids ∷ []))
          ≡ xs ++ (notice ids ∷ []) =
        sym (append_assoc s.taken s.channel.send_queue.queue (notice ids ∷ [])) in
      subst Sends
        (sym (
          ap₂ (λ c ns. record s { channel = c; notices = ns }) (if_true _ _ h.is_open)
            (if_true _ _ h.is_open)))
        (record {
          is_open = h.is_open;
          running = h.running;
          number = h.number;
          queued = ap data_packets same ∙ data_packets-notice xs ids ∙ h.queued;
          noticed =
              ap other_packets same
              ∙ other_packets-notice xs ids
              ∙ ap (λ ps. ps ++ (notice ids ∷ [])) h.noticed
              ∙ sym (map-append notice s.notices (ids ∷ []));
          small = h.small;
          kept = h.kept;
        })

  call-Sends :
      (c : ChannelCall) (s : Session)
      → 0 < n
      → length s.accepted + 1 < u64_mod
      → Sends s
      → Sends (call c s)
  unfolding call
  call-Sends (sends payload) s pos few h = send-Sends payload s pos few h
  call-Sends takes s pos few h = takes-Sends s h
  call-Sends (asks now id) s pos few h =
      Keeps-Sends s _ (process_resend_request-Keeps now id s.channel) h
  call-Sends (reports now ids) s pos few h =
      Keeps-Sends s _ (process_missing_notify-Keeps now ids s.channel) h
  call-Sends (notifies ids) s pos few h = notifies-Sends ids s h

  more-accepted :
      (c : ChannelCall) (s : Session) → length (call c s).accepted ≤ length s.accepted + 1
  unfolding call
  more-accepted (sends payload) s =
      let more = length-append s.accepted (payload ∷ []) in ground arith
  more-accepted takes s = omega arith
  more-accepted (asks now id) s = omega arith
  more-accepted (reports now ids) s = omega arith
  more-accepted (notifies ids) s = omega arith

  pub run-Sends :
      (cs : List ChannelCall) (s : Session)
      → 0 < n
      → length s.accepted + length cs < u64_mod
      → Sends s
      → Sends (run cs s)
  run-Sends [] s pos few h = h
  run-Sends (c ∷ cs) s pos few h =
      let more = more-accepted c s in
      run-Sends cs (call c s) pos (omega arith) (call-Sends c s pos (omega arith) h)

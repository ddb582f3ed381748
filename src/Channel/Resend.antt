-- ===== src/Channel/Resend.antt =====
-- What an open channel promises its peer: numbers without a gap, and the same packet again for any
-- message that is recent enough.
use tcpudp.Base.{
  ℕ, zero, suc, ◌+◌, ◌*◌, ◌<◌, ◌≤◌, ◌≡◌, ◌∙◌, refl, sym, ap, subst, arith, Bool, true, false, ◌&&◌,
  List, map, [], ◌∷◌, ◌++◌, append-nil, Option, none, some, length, take, drop, ltb, leb,
  if◌then◌else◌, All,
}
use tcpudp.VcPacket.{data_packet, vc_max_data_payload_size}
use tcpudp.VcPacket.Layout.{data_packet_fields}
use tcpudp.Queue.Blocking.{BlockingQueue, enqueue}
use tcpudp.Cache.Retain.{make-CacheHolds, find-CacheHolds}
use tcpudp.Channel.{
  Channel, u64_mod, open_channel, degrade, resend_callback, resend_found, packet_payload,
  process_resend_request,
}
use tcpudp.Channel.Keeps.{degrade-Keeps, degrade-resend_queue}
use tcpudp.Channel.Calls.{
  ChannelCall, Session, run, numbered, payload_at, packet_at, notice, data_packets, other_packets,
}
use tcpudp.Channel.Sending.{Sends, run-Sends}

-- A new channel, opened with `num` connections: nothing is sent yet, and its queue is not cancelled.
pub record IsNew (ch : Channel) : Type 0 where
  pub first_id : ch.last_send_message_id ≡ 0
  pub no_packets : ch.send_queue.queue ≡ []
  pub running : ch.send_queue.cancelled ≡ false

abbrev pub opened_session : ℕ → Channel → Session
opened_session n ch = record {
  channel = open_channel n ch;
  accepted = [];
  taken = [];
  notices = [];
}

opened-Sends : (n : ℕ) (ch : Channel) → IsNew ch → Sends n (opened_session n ch)
unfolding open_channel data_packets other_packets
opened-Sends n ch h = record {
  is_open = refl;
  running = h.running;
  number = h.first_id;
  queued = ap data_packets h.no_packets;
  noticed = ap other_packets h.no_packets;
  small = tt;
  kept = make-CacheHolds n 128 (packet_at []);
}

payload_at-small :
    (ps : List (List ℕ)) (i : ℕ)
    → All (λ p. length p ≤ vc_max_data_payload_size) ps
    → length (payload_at ps i) ≤ vc_max_data_payload_size
payload_at-small [] i h = omega arith
payload_at-small (p ∷ ps) zero h = h.0
payload_at-small (p ∷ ps) (suc i) h = payload_at-small ps i h.1

-- The payload of a packet that `send` built is the datagram.
packet_payload-data_packet :
    (id : ℕ) (p : List ℕ)
    → id < u64_mod
    → length p ≤ vc_max_data_payload_size
    → packet_payload (data_packet id p) ≡ p
packet_payload-data_packet id p few h =
    let f = data_packet_fields id p [] few h in
    let s : data_packet id p ++ [] ≡ data_packet id p = append-nil (data_packet id p) in
    subst (λ packet. packet_payload packet ≡ p) s
      (ap (λ k. take k (drop 11 (data_packet id p ++ []))) f.2 ∙ f.3)

resend_found-queue :
    (id : ℕ) (p : List ℕ) (b : Bool) (found : Option (List ℕ)) (ch : Channel)
    → id < u64_mod
    → length p ≤ vc_max_data_payload_size
    → ch.opened ≡ true
    → found ≡ (if b then some (data_packet id p) else none)
    → (resend_found id found ch).resend_queue.queue
      ≡ ch.resend_queue.queue ++ (if b then data_packet id p ∷ [] else [])
unfolding resend_callback enqueue
resend_found-queue id p true found ch few small open_ e =
    rw (e, packet_payload-data_packet id p few small, open_) refl
resend_found-queue id p false found ch few small open_ e =
    rw e (sym (append-nil ch.resend_queue.queue))

module _ (n : ℕ) (ch : Channel) (cs : List ChannelCall) (some_connection : 0 < n) (new : IsNew ch)
    (few : length cs < u64_mod) where
  -- Of the packets that have left the send queue, followed by those on it, the data packets are those
  -- of the accepted datagrams, each with its payload and with the numbers 0, 1, 2, ... in the order
  -- of the calls, so that no number is left out or used twice, and the others are the notifications
  -- of missing ids that this end has made, in order. This holds whatever the peer asks for in between.
  -- Conditions: the channel is new and is opened with at least one connection, and there are fewer
  -- than 2^64 calls.
  pub sends_numbered :
      let s = run cs (opened_session n ch) in
      (data_packets (s.taken ++ s.channel.send_queue.queue) ≡ numbered 0 s.accepted)
      × (other_packets (s.taken ++ s.channel.send_queue.queue) ≡ map notice s.notices)
  sends_numbered =
      let h =
        run-Sends n cs (opened_session n ch) some_connection (omega arith)
          (opened-Sends n ch new) in
      (h.queued, h.noticed)

  -- A request for a message is answered if and only if the message has been sent and is one of the
  -- last 128 for each connection: then the packet that goes on the resend queue is, byte for byte,
  -- the packet that was sent, and otherwise nothing does. Conditions: the channel is new and is
  -- opened with at least one connection, there are fewer than 2^64 calls, and the id has 64 bits.
  pub resend_exact :
      (now id : ℕ)
      → id < u64_mod
      → let s = run cs (opened_session n ch) in
        let k = length s.accepted in
        (process_resend_request now id s.channel).resend_queue.queue
        ≡ s.channel.resend_queue.queue
          ++ (if ltb id k && leb k (id + 128 * n) then packet_at s.accepted id ∷ [] else [])
  unfolding process_resend_request
  resend_exact now id small =
      let s = run cs (opened_session n ch) in
      let k = length s.accepted in
      let h =
        run-Sends n cs (opened_session n ch) some_connection (omega arith)
          (opened-Sends n ch new) in
      let found =
        find-CacheHolds n 128 (packet_at s.accepted) k id s.channel.sent_data_cache some_connection
          h.kept in
      let same = degrade-Keeps now id s.channel in
      let queue : (degrade now id s.channel).resend_queue.queue ≡ s.channel.resend_queue.queue =
        ap BlockingQueue.queue (degrade-resend_queue now id s.channel) in
      resend_found-queue id (payload_at s.accepted id) (ltb id k && leb k (id + 128 * n)) _
        (degrade now id s.channel) small (payload_at-small s.accepted id h.small)
        (same.still_open ∙ h.is_open) found
      ∙ ap
          (λ xs.
            xs ++ (if ltb id k && leb k (id + 128 * n) then packet_at s.accepted id ∷ [] else []))
          queue

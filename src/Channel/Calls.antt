-- ===== src/Channel/Calls.antt =====
-- The calls that reach an open channel from its threads, in the order in which they take effect,
-- with what has been accepted and what has gone out.
use tcpudp.Base.{
  ℕ, ◌+◌, ◌≡◌, ◌∙◌, refl, ap, Bool, false, List, [], ◌∷◌, ◌++◌, append-nil, Option, none, some,
  get_elem?, take, ◌==◌, if◌then◌else◌, Bool-cases, inl, inr,
}
use tcpudp.VcPacket.{data_packet, missing_notify_packet, vc_max_missing_ids_per_notify}
use tcpudp.Queue.Blocking.{try_dequeue}
use tcpudp.Channel.{
  Channel, accepts, send, process_resend_request, process_missing_notify, missing_notify_callback,
}

pub data ChannelCall : Type 0 where
  -- the client gives a datagram to `send`
  sends : List ℕ → ChannelCall
  -- the send thread takes the next packet of the send queue
  takes : ChannelCall
  -- the peer asks for one message, or reports ids as missing, at a clock reading
  asks : ℕ → ℕ → ChannelCall
  reports : ℕ → List ℕ → ChannelCall
  -- the reorder thread of this end tells the peer which ids are missing
  notifies : List ℕ → ChannelCall

pub record Session : Type 0 where
  pub channel : Channel
  -- the datagrams that `send` has accepted, and the packets taken off the send queue, oldest first
  pub accepted : List (List ℕ)
  pub taken : List (List ℕ)
  -- the lists of ids that were put on the send queue as notifications
  pub notices : List (List ℕ)

abbrev pub append_option : List (List ℕ) → Option (List ℕ) → List (List ℕ)
append_option xs none = xs
append_option xs (some x) = xs ++ (x ∷ [])

unfoldable pub call : ChannelCall → Session → Session
call (sends payload) s = record s {
  channel = send payload s.channel;
  accepted = if accepts payload s.channel then s.accepted ++ (payload ∷ []) else s.accepted;
}
call takes s =
    let (packet, queue) = try_dequeue s.channel.send_queue in
    record s {
      channel = record (s.channel) { send_queue = queue };
      taken = append_option s.taken packet;
    }
call (asks now id) s = record s { channel = process_resend_request now id s.channel }
call (reports now ids) s = record s { channel = process_missing_notify now ids s.channel }
call (notifies ids) s = record s {
  channel = missing_notify_callback ids s.channel;
  notices = if s.channel.opened then s.notices ++ (ids ∷ []) else s.notices;
}

abbrev pub run : List ChannelCall → Session → Session
run [] s = s
run (c ∷ cs) s = run cs (call c s)

-- The packets of the datagrams, numbered from `i` on.
abbrev pub numbered : ℕ → List (List ℕ) → List (List ℕ)
numbered i [] = []
numbered i (p ∷ ps) = data_packet i p ∷ numbered (i + 1) ps

-- The packet of the datagram with this number.
abbrev pub payload_at : List (List ℕ) → ℕ → List ℕ
payload_at ps i = elim (get_elem? ps i) [ none ↦ [] | some p ↦ p ]

abbrev pub packet_at : List (List ℕ) → ℕ → List ℕ
packet_at ps i = data_packet i (payload_at ps i)

abbrev pub notice : List ℕ → List ℕ
notice ids = missing_notify_packet (take vc_max_missing_ids_per_notify ids)

-- By the type in the first byte: the data packets of a list, and the others.
abbrev is_data : List ℕ → Bool
is_data [] = false
is_data (b ∷ bs) = b == 0

unfoldable pub data_packets : List (List ℕ) → List (List ℕ)
data_packets [] = []
data_packets (p ∷ ps) = let rest = data_packets ps in if is_data p then p ∷ rest else rest

unfoldable pub other_packets : List (List ℕ) → List (List ℕ)
other_packets [] = []
other_packets (p ∷ ps) = let rest = other_packets ps in if is_data p then rest else p ∷ rest

data_packets-append :
    (xs ys : List (List ℕ)) → data_packets (xs ++ ys) ≡ data_packets xs ++ data_packets ys
unfolding data_packets
data_packets-append [] ys = refl
data_packets-append (p ∷ ps) ys = elim (Bool-cases (is_data p)) [
  | inl d ↦ rw d (ap (◌∷◌ p) (data_packets-append ps ys))
  | inr d ↦ rw d (data_packets-append ps ys)
]

other_packets-append :
    (xs ys : List (List ℕ)) → other_packets (xs ++ ys) ≡ other_packets xs ++ other_packets ys
unfolding other_packets
other_packets-append [] ys = refl
other_packets-append (p ∷ ps) ys = elim (Bool-cases (is_data p)) [
  | inl d ↦ rw d (other_packets-append ps ys)
  | inr d ↦ rw d (ap (◌∷◌ p) (other_packets-append ps ys))
]

-- What one more packet adds to either.
module _ (xs : List (List ℕ)) where
  pub data_packets-data :
      (id : ℕ) (p : List ℕ)
      → data_packets (xs ++ (data_packet id p ∷ [])) ≡ data_packets xs ++ (data_packet id p ∷ [])
  unfolding data_packets data_packet
  data_packets-data id p = data_packets-append xs (data_packet id p ∷ [])

  pub other_packets-data :
      (id : ℕ) (p : List ℕ) → other_packets (xs ++ (data_packet id p ∷ [])) ≡ other_packets xs
  unfolding other_packets data_packet
  other_packets-data id p =
      other_packets-append xs (data_packet id p ∷ []) ∙ append-nil (other_packets xs)

  pub data_packets-notice :
      (ids : List ℕ) → data_packets (xs ++ (notice ids ∷ [])) ≡ data_packets xs
  unfolding data_packets missing_notify_packet
  data_packets-notice ids = data_packets-append xs (notice ids ∷ []) ∙ append-nil (data_packets xs)

  pub other_packets-notice :
      (ids : List ℕ)
      → other_packets (xs ++ (notice ids ∷ [])) ≡ other_packets xs ++ (notice ids ∷ [])
  unfolding other_packets missing_notify_packet
  other_packets-notice ids = other_packets-append xs (notice ids ∷ [])

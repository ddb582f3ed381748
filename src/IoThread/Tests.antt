-- ===== src/IoThread/Tests.antt =====
-- Runs of `readFromConnection` on concrete bytes.
use tcpudp.Base.{
  ℕ, ◌≤◌, ◌≡◌, refl, some, List, [], ◌∷◌, ◌++◌, map, arith, length, take, drop, flatten,
}
use tcpudp.Bytes.{le_bytes, le_value, read}
use tcpudp.VcPacket.{data_packet, missing_notify_packet, resend_request_packet}
use tcpudp.VcPacket.Message.{Message, payload_of, resend_of, missing, encode, encode_all, read_ids}
use tcpudp.IoThread.{
  available, ReadBuffer, empty_buffer, pending, parse, parse_one, parse_data, parse_missing_notify,
  parse_resend_request, parse_loop, Received, bytes_read, would_block, consume,
  read_from_connection, data_received, missing_notified,
}
use tcpudp.IoThread.Parse.{parse_total}
use tcpudp.IoThread.Stream.{event}
use tcpudp.IoThread.Session.{received, session, session_complete}
use tcpudp.IoThread.Reject.{oversized_blocks}
use tcpudp.IoThread.Slot.{
  IoSlot, poll_turns, clean_slot, announced, handover, reused_fd_misread, replaced_complete,
}

abbrev messages : List Message
messages = payload_of 5 (1 ∷ 2 ∷ 3 ∷ []) ∷ missing (7 ∷ 300 ∷ []) ∷ resend_of 0 9 ∷ []

abbrev sent : List ℕ
sent =
    0 ∷ 5 ∷ 0 ∷ 0 ∷ 0 ∷ 0 ∷ 0 ∷ 0 ∷ 0 ∷ 3 ∷ 0 ∷ 1 ∷ 2 ∷ 3 ∷ 3 ∷ 0 ∷ 0 ∷ 0 ∷ 0 ∷ 0 ∷ 0 ∷ 0 ∷ 0 ∷ 2
    ∷ 7 ∷ 0 ∷ 0 ∷ 0 ∷ 0 ∷ 0 ∷ 0 ∷ 0 ∷ 44 ∷ 1 ∷ 0 ∷ 0 ∷ 0 ∷ 0 ∷ 0 ∷ 0 ∷ 1 ∷ 0 ∷ 0 ∷ 0 ∷ 0 ∷ 0 ∷ 0 ∷ 0
    ∷ 0 ∷ 9 ∷ 0 ∷ 0 ∷ 0 ∷ 0 ∷ 0 ∷ 0 ∷ 0 ∷ []

sent_lem : encode_all messages ≡ sent
unfolding encode_all encode data_packet missing_notify_packet resend_request_packet le_bytes
sent_lem = refl

-- The stream over three wake-ups, cut inside the packets, the last byte of it missing.
abbrev wakes : List (List Received)
wakes =
    (bytes_read (take 9 sent) ∷ bytes_read (take 3 (drop 9 sent)) ∷ would_block ∷ [])
    ∷ (bytes_read (take 20 (drop 12 sent)) ∷ [])
    ∷ (bytes_read (take 24 (drop 32 sent)) ∷ would_block ∷ [])
    ∷ []

session_run :
    (session 4 empty_buffer wakes).0
    ≡ data_received 5 (1 ∷ 2 ∷ 3 ∷ []) 4 ∷ missing_notified (7 ∷ 300 ∷ []) ∷ []
unfolding session read_from_connection consume read le_value read_ids parse_one parse_data
    parse_missing_notify parse_resend_request
session_run = refl

session_complete_example :
    let out = session 4 empty_buffer ((bytes_read sent ∷ would_block ∷ []) ∷ []) in
    (out.0 ≡ map (event 4) messages) × (available out.1 ≡ 0)
unfolding encode_all encode data_packet missing_notify_packet resend_request_packet le_bytes
    received
session_complete_example =
    session_complete 4 ((bytes_read sent ∷ would_block ∷ []) ∷ []) messages (omega arith) (tt, tt)
      refl

abbrev half_read : ReadBuffer
half_read = record { bytes = take 30 sent; read_offset = 0 }

parse_total_example :
    (parse_loop 31 4 half_read ≡ parse 4 half_read)
    × ((parse 4 half_read).1.read_offset ≤ length (parse 4 half_read).1.bytes)
parse_total_example = parse_total 4 half_read 31 (omega arith) (omega arith)

-- A data packet of 2001 bytes.
abbrev oversized : ReadBuffer
oversized = record { bytes = 0 ∷ 5 ∷ 0 ∷ 0 ∷ 0 ∷ 0 ∷ 0 ∷ 0 ∷ 0 ∷ 209 ∷ 7 ∷ []; read_offset = 0 }

oversized_blocks_example :
    ((session 4 oversized wakes).0 ≡ [])
    × (pending (session 4 oversized wakes).1 ≡ oversized.bytes ++ flatten (map received wakes))
unfolding read le_value
oversized_blocks_example =
    oversized_blocks 4 wakes oversized (omega arith) (omega arith) (tt, (tt, (tt, tt)))

-- A slot with half a packet of an old connection.
abbrev half_slot : ℕ → IoSlot
half_slot fd = record { prev_fd = some fd; buffer = half_read }

-- The old connection announces 57 bytes and sends none of them; the new one sends three messages,
-- which make up 57 bytes.
abbrev announces : List (List Received)
announces = (bytes_read (announced 6 sent) ∷ would_block ∷ []) ∷ []

abbrev new_stream : List (List Received)
new_stream = (bytes_read sent ∷ would_block ∷ []) ∷ []

reused_fd_misread_example :
    (handover 4 12 announces 12 new_stream (clean_slot 12) ≡ data_received 6 sent 4 ∷ [])
    × (handover 4 12 announces 13 new_stream (clean_slot 12)
        ≡ (session 4 empty_buffer new_stream).0)
unfolding received le_bytes
reused_fd_misread_example =
    reused_fd_misread 4 12 13 6 sent announces new_stream refl (omega arith) (omega arith) (tt, tt)
      (tt, tt) refl refl

replaced_complete_example :
    (poll_turns 4 13 ((bytes_read sent ∷ would_block ∷ []) ∷ []) (half_slot 12)).0
    ≡ map (event 4) messages
unfolding received encode_all encode data_packet missing_notify_packet resend_request_packet
    le_bytes
replaced_complete_example =
    replaced_complete 4 13 (bytes_read sent ∷ would_block ∷ []) [] (half_slot 12) messages refl
      (omega arith) (tt, tt) refl

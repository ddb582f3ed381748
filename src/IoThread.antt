-- ===== src/IoThread.antt =====
-- src/common/TcpVCIoThread.{h,cpp}: the read buffer of a connection, and `readFromConnection`, which
-- drains the socket into it and takes the complete packets off. A callback is an event.
pub mod Parse
pub mod Stream
pub mod Delivery
pub mod Session
pub mod Reject
pub mod Slot
mod Tests
use tcpudp.Base.{
  ℕ, zero, suc, ◌+◌, ◌-◌, ◌*◌, ◌/◌, ◌≤◌, Bool, true, false, ◌&&◌, List, [], ◌∷◌, ◌++◌, ltb, leb,
  if◌then◌else◌, length, take, drop,
}
use tcpudp.Bytes.{field}
use tcpudp.VcPacket.{
  VcPacketType, data_type, resend_request, missing_notify, packet_type, vc_header_size,
  vc_min_data_packet_size, vc_min_resend_request_size, vc_max_missing_ids_per_notify,
  vc_max_data_payload_size,
}
use tcpudp.VcPacket.Message.{read_ids}

pub record ReadBuffer : Type 0 where
  pub bytes : List ℕ
  pub read_offset : ℕ

abbrev pub empty_buffer : ReadBuffer
empty_buffer = record { bytes = []; read_offset = 0 }

-- `readOffset` never passes the end (`IsValid`), so the subtraction is the program's.
abbrev pub available : ReadBuffer → ℕ
available b = length b.bytes - b.read_offset

-- The bytes from `begin()` on.
abbrev pub pending : ReadBuffer → List ℕ
pending b = drop b.read_offset b.bytes

abbrev pub IsValid : ReadBuffer → Type 0
IsValid b = b.read_offset ≤ length b.bytes

unfoldable pub consume : ℕ → ReadBuffer → ReadBuffer
consume n b =
    let offset = b.read_offset + n in
    if ltb 4096 offset && leb (length b.bytes / 2) offset
    then record { bytes = drop offset b.bytes; read_offset = 0 }
    else record b { read_offset = offset }

-- The calls of `dataCallback`, `resendRequestCallback` and `missingNotifyCallback`.
pub data Event : Type 0 where
  data_received : ℕ → List ℕ → ℕ → Event
  resend_requested : ℕ → Event
  missing_notified : List ℕ → Event

-- One round of the parse loop: it returns, or calls back and goes on.
pub data Round : Type 0 where
  stop : ReadBuffer → Round
  emit : Event → ReadBuffer → Round

pub parse_data : ℕ → ReadBuffer → Round
unfolding consume
parse_data conn b =
    let p = pending b in
    let data_length = field 9 2 p in
    let total = vc_min_data_packet_size + data_length in
    if ltb (available b) vc_min_data_packet_size
    then stop b
    else if ltb vc_max_data_payload_size data_length
    then stop b
    else if ltb (available b) total
    then stop b
    else emit (data_received (field 1 8 p) (take data_length (drop vc_min_data_packet_size p)) conn)
        (consume total b)

pub parse_resend_request : ReadBuffer → Round
unfolding consume
parse_resend_request b =
    if ltb (available b) vc_min_resend_request_size
    then stop b
    else emit (resend_requested (field 9 8 (pending b))) (consume vc_min_resend_request_size b)

pub parse_missing_notify : ReadBuffer → Round
unfolding consume
parse_missing_notify b =
    let p = pending b in
    let count = field 9 1 p in
    let expected = vc_header_size + 1 + count * 8 in
    if ltb (available b) (vc_header_size + 1)
    then stop b
    else if ltb vc_max_missing_ids_per_notify count
    then stop empty_buffer
    else if ltb (available b) expected
    then stop b
    else emit (missing_notified (read_ids count (drop (vc_header_size + 1) p))) (consume expected b)

pub parse_one : ℕ → ReadBuffer → Round
parse_one conn b = elim (packet_type (field 0 1 (pending b))) [
  | data_type ↦ parse_data conn b
  | resend_request ↦ parse_resend_request b
  | missing_notify ↦ parse_missing_notify b
  | _ ↦ stop empty_buffer
]

-- A round that returns ends the loop; after a callback it goes on with the rest.
abbrev pub after_round : Round → (ReadBuffer → List Event × ReadBuffer) → List Event × ReadBuffer
after_round (stop b) go_on = ([], b)
after_round (emit e b) go_on = let (es, b') = go_on b in (e ∷ es, b')

-- `while (buf.available() >= VC_MIN_DATA_PACKET_SIZE)`: a round takes ten bytes at least.
pub parse_loop : ℕ → ℕ → ReadBuffer → List Event × ReadBuffer
parse_loop zero conn b = ([], b)
parse_loop (suc fuel) conn b = elim (ltb (available b) vc_min_data_packet_size) [
  | true ↦ ([], b)
  | false ↦ after_round (parse_one conn b) (parse_loop fuel conn)
]

pub parse : ℕ → ReadBuffer → List Event × ReadBuffer
unfolding parse_loop
parse conn b = parse_loop (suc (available b)) conn b

-- What `RecvTcpDirect` returns, round by round; `failed` is any other error.
pub data Received : Type 0 where
  bytes_read : List ℕ → Received
  would_block timeout interrupted closed failed : Received

-- How the drain loop ends: with the bytes read so far, or with the connection torn down.
pub data Drained : Type 0 where
  drained : ReadBuffer → Drained
  torn_down : ReadBuffer → Drained

-- `while (this->isRunning())`: the list ends where the thread is told to stop.
pub drain : ReadBuffer → List Received → Drained
drain b [] = drained b
drain b (bytes_read xs ∷ rs) = drain (record b { bytes = b.bytes ++ xs }) rs
drain b (would_block ∷ rs) = drained b
drain b (timeout ∷ rs) = drained b
drain b (interrupted ∷ rs) = drained b
drain b (closed ∷ rs) = torn_down b
drain b (failed ∷ rs) = torn_down b

pub record Outcome : Type 0 where
  pub events : List Event
  pub buffer : ReadBuffer
  -- `conn->disconnect()` and then `disconnectCallback(conn)`
  pub disconnected : Bool

-- `usable` is `conn && conn->isConnected()`.
unfoldable pub read_from_connection : ℕ → Bool → ReadBuffer → List Received → Outcome
unfolding drain parse
read_from_connection conn usable b rs = elim usable [
  | false ↦ record { events = []; buffer = b; disconnected = false }
  | true ↦ elim (drain b rs) [
    | torn_down b' ↦ record { events = []; buffer = b'; disconnected = true }
    | drained b' ↦
        let (es, b'') = parse conn b' in record { events = es; buffer = b''; disconnected = false }
  ]
]

-- ===== src/Uvt.antt =====
-- src/common/Protocol.{h,cpp}: datagrams framed in a TCP stream (UVT), and the bind messages with which a
-- client claims a slot.
pub mod RoundTrip
pub mod Bind
mod Tests
use Prim.Native.Nat.{bit_xor}
use tcpudp.Base.{
  ℕ, ◌+◌, ◌-◌, ◌*◌, ◌/◌, ◌%◌, ◌^◌, Bool, true, false, List, [], ◌∷◌, ◌++◌, Option, none, some,
  length, take, drop, ltb, ◌==◌, if◌then◌else◌,
}
use tcpudp.Base.Int.{ℤ, pos, negsuc}
use tcpudp.Bytes.{le_bytes, field}

abbrev pub uvt_header_size : ℕ
uvt_header_size = 4

-- `for (...) xor_val ^= buffer[i]`
abbrev pub xor_from : ℕ → List ℕ → ℕ
xor_from xor_val [] = xor_val
xor_from xor_val (b ∷ bs) = xor_from (bit_xor xor_val b) bs

unfoldable pub xor_checksum : List ℕ → ℕ
xor_checksum bytes = xor_from 0 bytes

-- `htons(static_cast<uint16_t>(length))`: the high byte comes first in memory.
abbrev pub htons_bytes : ℕ → List ℕ
htons_bytes length = length % 2 ^ 16 / 256 ∷ length % 256 ∷ []

unfoldable pub append_udp_data : List ℕ → ℕ → List ℕ → List ℕ
append_udp_data payload id output =
    output ++ (htons_bytes (length payload) ++ (id ∷ xor_checksum payload ∷ payload))

-- `ExtractUdpData` returns what is left and fills the output buffer, or throws.
pub data Extracted : Type 0 where
  left_over : List ℕ → List ℕ → Extracted
  checksum_failed : Extracted

-- `header->size`, `header->checksum` and the bytes after the header.
unfoldable pub extract_udp_data : List ℕ → Extracted
extract_udp_data (high ∷ low ∷ id ∷ checksum ∷ rest) =
    let message_length = high * 256 + low in
    let message = take message_length rest in
    if ltb (length rest) message_length
    then left_over (high ∷ low ∷ id ∷ checksum ∷ rest) []
    else if xor_checksum message == checksum
    then left_over (drop message_length rest) message
    else checksum_failed
extract_udp_data short = left_over short []

-- An `int8_t` in memory.
abbrev pub int8_byte : ℤ → ℕ
int8_byte (pos n) = n
int8_byte (negsuc n) = 255 - n

abbrev pub byte_int8 : ℕ → ℤ
byte_int8 b = if ltb b 128 then pos b else negsuc (255 - b)

pub record MsgBind : Type 0 where
  pub client_id : ℕ
  pub slot_index : ℤ
  pub connection_id : ℕ

abbrev pub msg_bind_size : ℕ
msg_bind_size = 12

-- The compiler pads the slot index to the alignment of the next field; what the three bytes hold is
-- not determined.
unfoldable pub append_msg_bind : List ℕ → MsgBind → List ℕ → List ℕ
append_msg_bind padding bind output =
    output
    ++ (le_bytes 4 bind.client_id
        ++ (int8_byte bind.slot_index ∷ (padding ++ le_bytes 4 bind.connection_id)))

unfoldable pub extract_msg_bind : List ℕ → Option MsgBind
extract_msg_bind bytes =
    if ltb (length bytes) msg_bind_size
    then none
    else some (record {
      client_id = field 0 4 bytes;
      slot_index = byte_int8 (field 4 1 bytes);
      connection_id = field 8 4 bytes;
    })

unfoldable pub append_msg_bind_response : ℕ → List ℕ → List ℕ
append_msg_bind_response connection_id output = output ++ le_bytes 4 connection_id

unfoldable pub extract_msg_bind_response : List ℕ → Option ℕ
extract_msg_bind_response bytes = if ltb (length bytes) 4 then none else some (field 0 4 bytes)

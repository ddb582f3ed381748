-- ===== src/VcPacket.antt =====
-- src/common/VcProtocol.h: the packets of a virtual channel, packed structs in host byte order, and
-- the code of src/common/TcpVirtualChannel.cpp that builds them.
pub mod Message
pub mod Layout
use tcpudp.Base.{
  ℕ, zero, suc, ◌+◌, ◌*◌, ◌%◌, ◌^◌, Bool, true, false, ◌&&◌, List, [], ◌∷◌, ◌++◌, leb, ltb, ◌==◌,
  if◌then◌else◌, length, take, min,
}
use tcpudp.Bytes.{le_bytes}

-- `enum class VcPacketType : uint8_t`; a byte that names no packet is `unknown`.
pub data VcPacketType : Type 0 where
  data_type resend_request resend_response missing_notify unknown : VcPacketType

abbrev pub code : VcPacketType → ℕ
code data_type = 0x00
code resend_request = 0x01
code resend_response = 0x02
code missing_notify = 0x03
code unknown = 0xff

-- `static_cast<VcPacketType>(packetType)`
abbrev pub packet_type : ℕ → VcPacketType
packet_type b =
    if b == 0x00
    then data_type
    else if b == 0x01
    then resend_request
    else if b == 0x02
    then resend_response
    else if b == 0x03
    then missing_notify
    else unknown

-- `sizeof` of the packed structs: type and message id; then the length, or a count, or an id.
abbrev pub vc_header_size : ℕ
vc_header_size = 1 + 8

abbrev pub vc_min_data_packet_size : ℕ
vc_min_data_packet_size = vc_header_size + 2

abbrev pub vc_min_resend_request_size : ℕ
vc_min_resend_request_size = vc_header_size + 8

abbrev pub vc_max_missing_ids_per_notify : ℕ
vc_max_missing_ids_per_notify = 64

abbrev pub vc_min_missing_notify_size : ℕ
vc_min_missing_notify_size = vc_header_size + 1 + vc_max_missing_ids_per_notify * 8

abbrev pub vc_max_data_payload_size : ℕ
vc_max_data_payload_size = 2000

abbrev pub vc_tcp_connections : ℕ
vc_tcp_connections = 32

abbrev pub vc_first_resend_conn_index : ℕ
vc_first_resend_conn_index = 24

abbrev pub send_queue_drop_threshold : ℕ
send_queue_drop_threshold = 1000

unfoldable pub is_resend_connection_index : ℕ → Bool
is_resend_connection_index index =
    leb vc_first_resend_conn_index index && ltb index vc_tcp_connections

abbrev pub vc_header : VcPacketType → ℕ → List ℕ
vc_header t id = code t ∷ le_bytes 8 id

-- The `VCDataPacket` that `send` and the default resend callback fill in.
unfoldable pub data_packet : ℕ → List ℕ → List ℕ
data_packet id payload = vc_header data_type id ++ (le_bytes 2 (length payload % 2 ^ 16) ++ payload)

unfoldable pub resend_request_packet : ℕ → ℕ → List ℕ
resend_request_packet id missing = vc_header resend_request id ++ le_bytes 8 missing

unfoldable pub id_bytes : List ℕ → List ℕ
id_bytes [] = []
id_bytes (id ∷ ids) = le_bytes 8 id ++ id_bytes ids

-- The `VCMissingNotify` of the default missing-notify callback: at most 64 ids.
unfoldable pub missing_notify_packet : List ℕ → List ℕ
unfolding id_bytes
missing_notify_packet ids =
    let count = min (length ids) vc_max_missing_ids_per_notify in
    vc_header missing_notify 0 ++ (count % 2 ^ 8 ∷ id_bytes (take count ids))

-- ===== src/VcPacket/Message.antt =====
-- What a packet says, as its receiver is told, and where its fields stand in the bytes.
use tcpudp.Base.{
  ℕ, zero, suc, ◌*◌, ◌^◌, ◌≤◌, ◌<◌, ◌≡◌, refl, List, [], ◌∷◌, ◌++◌, arith, append_assoc, length,
  length-append, All, drop, drop-append,
}
use tcpudp.Bytes.{le_bytes, length-le_bytes, read, read-append}
use tcpudp.VcPacket.{data_packet, resend_request_packet, missing_notify_packet, id_bytes}

-- A resend request carries a message id of its own in the header, which no receiver reads.
pub data Message : Type 0 where
  payload_of : ℕ → List ℕ → Message
  resend_of : ℕ → ℕ → Message
  missing : List ℕ → Message

unfoldable pub encode : Message → List ℕ
encode (payload_of id p) = data_packet id p
encode (resend_of id wanted) = resend_request_packet id wanted
encode (missing ids) = missing_notify_packet ids

unfoldable pub encode_all : List Message → List ℕ
encode_all [] = []
encode_all (m ∷ ms) = encode m ++ encode_all ms

abbrev pub IsId : ℕ → Type 0
IsId id = id < 2 ^ 64

-- What the senders send: payloads of at most 2000 bytes, notifications of 1 to 64 ids.
abbrev pub IsMessage : Message → Type 0
IsMessage (payload_of id p) = IsId id × (length p ≤ 2000)
IsMessage (resend_of id wanted) = IsId id × IsId wanted
IsMessage (missing ids) = (1 ≤ length ids) × (length ids ≤ 64) × All IsId ids

pub length-id_bytes : (ids : List ℕ) → length (id_bytes ids) ≡ length ids * 8
unfolding id_bytes
length-id_bytes [] = omega arith
length-id_bytes (id ∷ ids) =
    omega (
      arith,
      length-append (le_bytes 8 id) (id_bytes ids),
      length-le_bytes 8 id,
      length-id_bytes ids,
    )

-- `std::vector<uint64_t>(notify->missingIds, notify->missingIds + count)`
unfoldable pub read_ids : ℕ → List ℕ → List ℕ
read_ids zero bs = []
read_ids (suc n) bs = read 8 bs ∷ read_ids n (drop 8 bs)

pub read_ids-id_bytes :
    (ids rest : List ℕ) → All IsId ids → read_ids (length ids) (id_bytes ids ++ rest) ≡ ids
unfolding id_bytes read_ids
read_ids-id_bytes [] rest h = refl
read_ids-id_bytes (id ∷ ids) rest h = rw (
  append_assoc (le_bytes 8 id) (id_bytes ids) rest,
  read-append 8 id (id_bytes ids ++ rest) h.0,
  drop-append 8 (le_bytes 8 id) (id_bytes ids ++ rest) (length-le_bytes 8 id),
  read_ids-id_bytes ids rest h.1,
)

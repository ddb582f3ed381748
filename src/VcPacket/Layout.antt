-- ===== src/VcPacket/Layout.antt =====
-- Where the fields of an encoded message stand, whatever bytes follow it.
use tcpudp.Base.{
  ℕ, suc, ◌+◌, ◌*◌, ◌%◌, ◌^◌, ◌≤◌, ◌≡◌, ◌∙◌, refl, sym, ap, List, ◌∷◌, ◌++◌, arith, append_assoc,
  length, length-append, take, take-append, take_all, drop, drop-append, drop-drop, min, All,
}
use tcpudp.Bytes.{field, read, read-append, length-le_bytes, le_bytes, le_value}
use tcpudp.VcPacket.{
  data_packet, resend_request_packet, missing_notify_packet, vc_header, data_type, resend_request,
  missing_notify, code, VcPacketType, id_bytes,
}
use tcpudp.VcPacket.Message.{IsId, length-id_bytes, read_ids, read_ids-id_bytes}

-- The type and the id of a packet.
header-type :
    (t : VcPacketType) (id : ℕ) (rest : List ℕ) → field 0 1 (vc_header t id ++ rest) ≡ code t
unfolding read le_value
header-type t id rest = omega arith

header-id :
    (t : VcPacketType) (id : ℕ) (rest : List ℕ) → IsId id → field 1 8 (vc_header t id ++ rest) ≡ id
header-id t id rest h = read-append 8 id rest h

drop-header : (t : VcPacketType) (id : ℕ) (rest : List ℕ) → drop 9 (vc_header t id ++ rest) ≡ rest
drop-header t id rest = drop-append 9 (vc_header t id) rest (ap suc (length-le_bytes 8 id))

length-header :
    (t : VcPacketType) (id : ℕ) (rest : List ℕ) → length (vc_header t id ++ rest) ≡ 9 + length rest
length-header t id rest = omega (arith, length-append (le_bytes 8 id) rest, length-le_bytes 8 id)

data_packet-append :
    (id : ℕ) (p rest : List ℕ)
    → data_packet id p ++ rest
      ≡ vc_header data_type id ++ (le_bytes 2 (length p % 2 ^ 16) ++ (p ++ rest))
unfolding data_packet
data_packet-append id p rest = simp append_assoc

missing_notify_packet-append :
    (ids rest : List ℕ)
    → length ids ≤ 64
    → missing_notify_packet ids ++ rest
      ≡ vc_header missing_notify 0 ++ (length ids ∷ (id_bytes ids ++ rest))
unfolding missing_notify_packet
missing_notify_packet-append ids rest h =
    let e : min (length ids) 64 ≡ length ids = omega arith in
    let m : length ids % 2 ^ 8 ≡ length ids = omega arith in
    rw (e, m, take_all (length ids) ids (omega arith))
      (append_assoc (vc_header missing_notify 0) (length ids ∷ id_bytes ids) rest)

resend_request_packet-append :
    (id wanted : ℕ) (rest : List ℕ)
    → resend_request_packet id wanted ++ rest
      ≡ vc_header resend_request id ++ (le_bytes 8 wanted ++ rest)
unfolding resend_request_packet
resend_request_packet-append id wanted rest = simp append_assoc

read-one : (v : ℕ) (rest : List ℕ) → read 1 (v ∷ rest) ≡ v
unfolding read le_value
read-one v rest = omega arith

module _ (id : ℕ) (p rest : List ℕ) (hid : IsId id) (small : length p ≤ 2000) where
  pub data_packet_fields :
      let s = data_packet id p ++ rest in
      (field 0 1 s ≡ 0)
      × (field 1 8 s ≡ id)
      × (field 9 2 s ≡ length p)
      × (take (length p) (drop 11 s) ≡ p)
      × (length s ≡ 11 + length p + length rest)
  data_packet_fields =
      let tail = le_bytes 2 (length p % 2 ^ 16) ++ (p ++ rest) in
      let n : length p % 2 ^ 16 ≡ length p = omega arith in
      rw (data_packet-append id p rest) (
        header-type data_type id tail,
        header-id data_type id tail hid,
        ap (read 2) (drop-header data_type id tail)
            ∙ read-append 2 (length p % 2 ^ 16) (p ++ rest) (omega arith)
            ∙ n,
        ap (take (length p)) (
              sym (drop-drop 9 2 (vc_header data_type id ++ tail))
              ∙ ap (drop 2) (drop-header data_type id tail)
              ∙ drop-append 2 (le_bytes 2 (length p % 2 ^ 16)) (p ++ rest) (length-le_bytes 2 _))
            ∙ take-append (length p) p rest refl,
        omega (
          arith,
          length-header data_type id tail,
          length-append (le_bytes 2 (length p % 2 ^ 16)) (p ++ rest),
          length-le_bytes 2 (length p % 2 ^ 16),
          length-append p rest,
        ),
      )

module _ (id wanted : ℕ) (rest : List ℕ) (h : IsId wanted) where
  pub resend_request_packet_fields :
      let s = resend_request_packet id wanted ++ rest in
      (field 0 1 s ≡ 1) × (field 9 8 s ≡ wanted) × (length s ≡ 17 + length rest)
  resend_request_packet_fields =
      let tail = le_bytes 8 wanted ++ rest in
      rw (resend_request_packet-append id wanted rest) (
        header-type resend_request id tail,
        ap (read 8) (drop-header resend_request id tail) ∙ read-append 8 wanted rest h,
        omega (
          arith,
          length-header resend_request id tail,
          length-append (le_bytes 8 wanted) rest,
          length-le_bytes 8 wanted,
        ),
      )

module _ (ids rest : List ℕ) (few : length ids ≤ 64) (h : All IsId ids) where
  pub missing_notify_packet_fields :
      let s = missing_notify_packet ids ++ rest in
      (field 0 1 s ≡ 3)
      × (field 9 1 s ≡ length ids)
      × (read_ids (length ids) (drop 10 s) ≡ ids)
      × (length s ≡ 10 + length ids * 8 + length rest)
  missing_notify_packet_fields =
      let tail = length ids ∷ (id_bytes ids ++ rest) in
      rw (missing_notify_packet-append ids rest few) (
        header-type missing_notify 0 tail,
        ap (read 1) (drop-header missing_notify 0 tail) ∙ read-one (length ids) _,
        ap (read_ids (length ids)) (
              sym (drop-drop 9 1 (vc_header missing_notify 0 ++ tail))
              ∙ ap (drop 1) (drop-header missing_notify 0 tail))
            ∙ read_ids-id_bytes ids rest h,
        omega (
          arith,
          length-header missing_notify 0 tail,
          length-append (id_bytes ids) rest,
          length-id_bytes ids,
        ),
      )

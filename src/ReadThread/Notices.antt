-- ===== src/ReadThread/Notices.antt =====
-- What the reader of src/common/TcpVCReadThread.cpp makes of packets that have arrived whole.
use tcpudp.Base.{
  ℕ, zero, suc, ◌+◌, ◌≤◌, ◌<◌, ◌≡◌, refl, ap, ◌∙◌, arith, false, List, [], ◌∷◌, ◌++◌, some, length,
  map, take, drop, drop-append, append_assoc, append-nil, All, length-append,
}
use tcpudp.Bytes.{field}
use tcpudp.VcPacket.Message.{Message, payload_of, resend_of, missing, encode, encode_all, IsMessage}
use tcpudp.VcPacket.Layout.{
  data_packet_fields, resend_request_packet_fields, missing_notify_packet_fields,
}
use tcpudp.IoThread.Stream.{size, size-ge, length-encode}
use tcpudp.ReadThread.{
  Callback, data_arrived, resend_wanted, ids_missing, enough, too_few, has_enough_data,
  has_enough_data_for_data, has_enough_data_for_missing_notify, process_buffer, process_data_buffer,
  Processed, after_call, after_packet, if_enough, process_loop,
}

-- The call that a message asks for.
unfoldable pub called : Message → Callback
called (payload_of id p) = data_arrived id p
called (resend_of id wanted) = resend_wanted wanted
called (missing ids) = ids_missing ids

-- A payload or a resend request.
abbrev pub IsPlain : Message → Type 0
IsPlain (payload_of id p) = IsMessage (payload_of id p)
IsPlain (resend_of id wanted) = IsMessage (resend_of id wanted)
IsPlain (missing ids) = ⊥

plain_message : (m : Message) → IsPlain m → IsMessage m
plain_message (payload_of id p) h = h
plain_message (resend_of id wanted) h = h
plain_message (missing ids) h = absurd h

drop-encode : (m : Message) (rest : List ℕ) → IsMessage m → drop (size m) (encode m ++ rest) ≡ rest
drop-encode m rest h =
    drop-append (size m) (encode m) rest
      (omega (arith, length-append (encode m) [], length-encode m [] h))

-- A plain message that is there whole is taken off.
has_enough-plain :
    (m : Message) (rest : List ℕ) → IsPlain m → has_enough_data (encode m ++ rest) ≡ enough
unfolding encode has_enough_data has_enough_data_for_data
has_enough-plain (payload_of id p) rest h =
    let f = data_packet_fields id p rest h.0 h.1 in
    rw (f.0, has_enough_data) (ground (arith, f.2, f.4))
has_enough-plain (resend_of id wanted) rest h =
    let f = resend_request_packet_fields id wanted rest h.1 in
    rw (f.0, has_enough_data) (ground (arith, f.2))
has_enough-plain (missing ids) rest h = absurd h

process_data-whole :
    (buffer : List ℕ) (id : ℕ) (p : List ℕ)
    → field 1 8 buffer ≡ id
    → field 9 2 buffer ≡ length p
    → take (length p) (drop 11 buffer) ≡ p
    → length p ≤ 2000
    → process_data_buffer buffer ≡ some (data_arrived id p, 11 + length p)
unfolding process_data_buffer
process_data-whole buffer id p hid hlen hp small = ground arith

process-plain :
    (m : Message) (rest : List ℕ)
    → IsPlain m
    → process_buffer (encode m ++ rest) ≡ some (called m, size m)
unfolding encode process_buffer called
process-plain (payload_of id p) rest h =
    let f = data_packet_fields id p rest h.0 h.1 in
    rw (f.0, process_buffer) (process_data-whole _ id p f.1 f.2 f.3 h.1)
process-plain (resend_of id wanted) rest h =
    let f = resend_request_packet_fields id wanted rest h.1 in
    rw (f.0, process_buffer) (ap (λ n. some (resend_wanted n, 17)) f.1)
process-plain (missing ids) rest h = absurd h

-- A round of the loop at a plain message that is there whole.
loop-plain :
    (fuel : ℕ) (m : Message) (rest : List ℕ)
    → IsPlain m
    → process_loop (suc fuel) (encode m ++ rest) ≡ after_call (called m) (process_loop fuel rest)
unfolding process_loop
loop-plain fuel m rest h =
    let buffer = encode m ++ rest in
    let next = process_loop fuel in
    ap (λ e. if_enough e buffer next) (has_enough-plain m rest h)
    ∙ ap (λ o. after_packet o buffer next) (process-plain m rest h)
    ∙ ap (λ left. after_call (called m) (next left)) (drop-encode m rest (plain_message m h))

-- Less than 522 bytes that begin with a notification are left where they are.
notice_waits :
    (fuel : ℕ) (ids rest : List ℕ)
    → IsMessage (missing ids)
    → size (missing ids) + length rest < 522
    → process_loop fuel (encode (missing ids) ++ rest)
      ≡ record { calls = []; buffer = encode (missing ids) ++ rest; threw = false }
unfolding encode process_loop has_enough_data has_enough_data_for_missing_notify
notice_waits zero ids rest h short = refl
notice_waits (suc fuel) ids rest h short =
    let f = missing_notify_packet_fields ids rest h.1 h.2 in
    let e : has_enough_data (encode (missing ids) ++ rest) ≡ too_few =
      rw (f.0, has_enough_data) (ground (arith, f.3)) in
    ap (λ e. if_enough e (encode (missing ids) ++ rest) (process_loop fuel)) e

loop-plain_all :
    (fuel : ℕ) (ms : List Message) (tail : List ℕ)
    → All IsPlain ms
    → length ms ≤ fuel
    → (more : ℕ) × (process_loop fuel (encode_all ms ++ tail)
        ≡ (let r = process_loop more tail in record r { calls = map called ms ++ r.calls }))
unfolding encode_all
loop-plain_all fuel [] tail h few = (fuel, refl)
loop-plain_all zero (m ∷ ms) tail h few = absurd (omega arith)
loop-plain_all (suc fuel) (m ∷ ms) tail h few =
    let (more, rest) = loop-plain_all fuel ms tail h.1 (omega arith) in
    (
      more,
      ap (process_loop (suc fuel)) (append_assoc (encode m) (encode_all ms) tail)
          ∙ loop-plain fuel m (encode_all ms ++ tail) h.0
          ∙ ap (after_call (called m)) rest,
    )

length-encode_all :
    (ms : List Message) (tail : List ℕ)
    → All IsPlain ms
    → length ms ≤ length (encode_all ms ++ tail)
unfolding encode_all
length-encode_all [] tail h = omega arith
length-encode_all (m ∷ ms) tail h =
    let rest = length-encode_all ms tail h.1 in
    let big = size-ge m (plain_message m h.0) in
    omega (
      arith,
      ap length (append_assoc (encode m) (encode_all ms) tail),
      length-encode m (encode_all ms ++ tail) (plain_message m h.0),
    )

-- The older reader has data packets and resend requests in its buffer, all whole, and then a whole
-- notification of missing messages, with any bytes after it. In one go it makes the calls of the packets, in order
-- and once each; but while the notification and what follows it are less than 522 bytes, it leaves both in the buffer,
-- though the notification is complete and there may be complete packets behind it. No exception is thrown.
pub notice_blocks :
    (ms : List Message) (ids rest : List ℕ)
    → All IsPlain ms
    → IsMessage (missing ids)
    → size (missing ids) + length rest < 522
    → let buffer = encode_all ms ++ (encode (missing ids) ++ rest) in
      process_loop (suc (length buffer)) buffer
      ≡ record { calls = map called ms; buffer = encode (missing ids) ++ rest; threw = false }
notice_blocks ms ids rest h g short =
    let tail = encode (missing ids) ++ rest in
    let buffer = encode_all ms ++ tail in
    let enough = length-encode_all ms tail h in
    let (more, e) = loop-plain_all (suc (length buffer)) ms tail h (omega arith) in
    e
    ∙ ap (λ (r : Processed). record r { calls = map called ms ++ r.calls })
        (notice_waits more ids rest g short)
    ∙ ap (λ (calls : List Callback). record { calls = calls; buffer = tail; threw = false })
        (append-nil (map called ms))

-- ===== src/IoThread/Stream.antt =====
-- The packets that a stream of encoded messages is cut into, however the socket delivers it.
use tcpudp.Base.{ℕ, ◌+◌, ◌*◌, ◌≤◌, ◌<◌, ◌≡◌, ◌∙◌, sym, List, ◌++◌, arith, length, take, drop}
use tcpudp.Bytes.{field, field-append}
use tcpudp.VcPacket.Message.{Message, payload_of, resend_of, missing, encode, IsMessage, read_ids}
use tcpudp.VcPacket.Layout.{
  data_packet_fields, resend_request_packet_fields, missing_notify_packet_fields,
}
use tcpudp.IoThread.{
  ReadBuffer, available, pending, consume, Event, data_received, resend_requested, missing_notified,
  stop, emit, parse_data, parse_resend_request, parse_missing_notify, parse_one,
}
use tcpudp.IoThread.Parse.{length-pending}

-- What the callbacks are told of a message that came over connection `conn`.
unfoldable pub event : ℕ → Message → Event
event conn (payload_of id p) = data_received id p conn
event conn (resend_of id wanted) = resend_requested wanted
event conn (missing ids) = missing_notified ids

-- `parse_data` at a packet that is there whole, and at one that is not.
module _ (conn : ℕ) (b : ReadBuffer) where
  parse_data-whole :
      (id : ℕ) (p : List ℕ)
      → field 1 8 (pending b) ≡ id
      → field 9 2 (pending b) ≡ length p
      → take (length p) (drop 11 (pending b)) ≡ p
      → length p ≤ 2000
      → 11 + length p ≤ available b
      → parse_data conn b ≡ emit (data_received id p conn) (consume (11 + length p) b)
  unfolding parse_data
  parse_data-whole id p hid hlen hp small fits = ground arith

  parse_data-short : available b < 11 + field 9 2 (pending b) → parse_data conn b ≡ stop b
  unfolding parse_data
  parse_data-short h = ground arith

  parse_missing-whole :
      (ids : List ℕ)
      → field 9 1 (pending b) ≡ length ids
      → read_ids (length ids) (drop 10 (pending b)) ≡ ids
      → length ids ≤ 64
      → 10 + length ids * 8 ≤ available b
      → parse_missing_notify b ≡ emit (missing_notified ids) (consume (10 + length ids * 8) b)
  unfolding parse_missing_notify
  parse_missing-whole ids hn hids small fits = ground arith

  parse_missing-short :
      field 9 1 (pending b) ≤ 64
      → available b < 10 + field 9 1 (pending b) * 8
      → parse_missing_notify b ≡ stop b
  unfolding parse_missing_notify
  parse_missing-short small h = ground arith

-- The bytes that a message takes.
abbrev pub size : Message → ℕ
size (payload_of id p) = 11 + length p
size (resend_of id wanted) = 17
size (missing ids) = 10 + length ids * 8

pub size-ge : (m : Message) → IsMessage m → 11 ≤ size m
size-ge (payload_of id p) h = omega arith
size-ge (resend_of id wanted) h = omega arith
size-ge (missing ids) h = omega arith

pub length-encode :
    (m : Message) (rest : List ℕ) → IsMessage m → length (encode m ++ rest) ≡ size m + length rest
unfolding encode
length-encode (payload_of id p) rest h = (data_packet_fields id p rest h.0 h.1).4
length-encode (resend_of id wanted) rest h = (resend_request_packet_fields id wanted rest h.1).2
length-encode (missing ids) rest h = (missing_notify_packet_fields ids rest h.1 h.2).3

module _ (conn : ℕ) (b : ReadBuffer) where
  -- A message that is there whole is reported and taken off.
  pub parse_one-whole :
      (m : Message) (rest : List ℕ)
      → IsMessage m
      → pending b ≡ encode m ++ rest
      → parse_one conn b ≡ emit (event conn m) (consume (size m) b)
  unfolding encode event parse_one parse_resend_request
  parse_one-whole (payload_of id p) rest h e =
      let f = rw (← e) at (data_packet_fields id p rest h.0 h.1) in
      rw (f.0, parse_one)
        (parse_data-whole conn b id p f.1 f.2 f.3 h.1 (omega (arith, length-pending b)))
  parse_one-whole (resend_of id wanted) rest h e =
      let f = rw (← e) at (resend_request_packet_fields id wanted rest h.1) in
      rw (f.0, parse_one) (ground (arith, f.1, f.2, length-pending b))
  parse_one-whole (missing ids) rest h e =
      let f = rw (← e) at (missing_notify_packet_fields ids rest h.1 h.2) in
      rw (f.0, parse_one)
        (parse_missing-whole conn b ids f.1 f.2 h.1 (omega (arith, length-pending b)))

  -- A message that has not arrived whole is left where it is.
  pub parse_one-short :
      (m : Message) (more rest : List ℕ)
      → IsMessage m
      → pending b ++ more ≡ encode m ++ rest
      → 11 ≤ available b
      → available b < size m
      → parse_one conn b ≡ stop b
  unfolding encode parse_one parse_resend_request
  parse_one-short (payload_of id p) more rest h e enough short =
      let f = rw (← e) at (data_packet_fields id p rest h.0 h.1) in
      let t = sym (field-append 0 1 (pending b) more (omega (arith, length-pending b))) ∙ f.0 in
      let n = sym (field-append 9 2 (pending b) more (omega (arith, length-pending b))) ∙ f.2 in
      rw (t, parse_one) (parse_data-short conn b (omega arith))
  parse_one-short (resend_of id wanted) more rest h e enough short =
      let f = rw (← e) at (resend_request_packet_fields id wanted rest h.1) in
      let t = sym (field-append 0 1 (pending b) more (omega (arith, length-pending b))) ∙ f.0 in
      rw (t, parse_one) (ground arith)
  parse_one-short (missing ids) more rest h e enough short =
      let f = rw (← e) at (missing_notify_packet_fields ids rest h.1 h.2) in
      let t = sym (field-append 0 1 (pending b) more (omega (arith, length-pending b))) ∙ f.0 in
      let n = sym (field-append 9 1 (pending b) more (omega (arith, length-pending b))) ∙ f.1 in
      rw (t, parse_one) (parse_missing-short conn b (omega arith) (omega arith))

-- ===== src/IoThread/Reject.antt =====
-- What `readFromConnection` makes of a stream that no sender of the program produces.
use tcpudp.Base.{
  ℕ, ◌≤◌, ◌<◌, ◌≡◌, ◌∙◌, refl, sym, ap, ◌⊎◌, inl, inr, true, false, List, [], ◌∷◌, ◌++◌, arith, All,
  append_assoc, append-nil, length, length-append, drop-append_le, map, flatten,
}
use tcpudp.Bytes.{field, field-append}
use tcpudp.VcPacket.{packet_type, unknown, resend_response}
use tcpudp.IoThread.{
  ReadBuffer, empty_buffer, available, pending, IsValid, stop, parse_data, parse_missing_notify,
  parse_one, parse, Received, read_from_connection,
}
use tcpudp.IoThread.Parse.{length-pending, parse_ends}
use tcpudp.IoThread.Session.{received, Survives, session, read-parse}

-- A data packet that announces more than the largest payload.
abbrev pub IsOversized : List ℕ → Type 0
IsOversized p = (11 ≤ length p) × (field 0 1 p ≡ 0) × (2000 < field 9 2 p)

IsOversized-append : (xs ys : List ℕ) → IsOversized xs → IsOversized (xs ++ ys)
IsOversized-append xs ys h = (
  omega (arith, length-append xs ys),
  field-append 0 1 xs ys (omega arith) ∙ h.1,
  omega (arith, field-append 9 2 xs ys (omega arith)),
)

parse-oversized : (conn : ℕ) (b : ReadBuffer) → IsOversized (pending b) → parse conn b ≡ ([], b)
unfolding parse_one parse_data
parse-oversized conn b h =
    parse_ends conn b b (omega (arith, length-pending b)) (rw (h.1, parse_one) (ground arith))

-- Once a data packet that announces more than 2000 bytes is the next in a connection's buffer, no
-- callback is ever made again for that connection, and every byte that arrives is kept: the buffer
-- is neither cleared nor is the connection closed. Conditions: the connection survives the wake-ups,
-- and the read offset is not past the end of the buffer.
pub oversized_blocks :
    (conn : ℕ) (wakes : List (List Received)) (b : ReadBuffer)
    → IsValid b
    → IsOversized (pending b)
    → All Survives wakes
    → ((session conn b wakes).0 ≡ [])
      × (pending (session conn b wakes).1 ≡ pending b ++ flatten (map received wakes))
unfolding session
oversized_blocks conn [] b v h s = (refl, sym (append-nil (pending b)))
oversized_blocks conn (rs ∷ wakes) b v h s =
    let xs = received rs in
    let b1 : ReadBuffer = record b { bytes = b.bytes ++ xs } in
    let p : pending b1 ≡ pending b ++ xs = drop-append_le b.read_offset b.bytes xs v in
    let h1 : IsOversized (pending b1) = rw p (IsOversized-append (pending b) xs h) in
    let r = read-parse conn b rs s.0 in
    let q = parse-oversized conn b1 h1 in
    let ih = oversized_blocks conn wakes b1 (omega (arith, length-append b.bytes xs)) h1 s.1 in
    rw (r.0, r.1, q)
      (
        ih.0,
        ih.1
            ∙ (ap (λ ys. ys ++ flatten (map received wakes)) p
                ∙ append_assoc (pending b) xs (flatten (map received wakes))),
      )

-- A packet type that the channel does not know, or a notification of more than 64 ids.
abbrev pub IsMalformed : List ℕ → Type 0
IsMalformed p =
    (packet_type (field 0 1 p) ≡ unknown)
    ⊎ (packet_type (field 0 1 p) ≡ resend_response)
    ⊎ ((field 0 1 p ≡ 3) × (64 < field 9 1 p))

parse_one-malformed :
    (conn : ℕ) (b : ReadBuffer)
    → 11 ≤ available b
    → IsMalformed (pending b)
    → parse_one conn b ≡ stop empty_buffer
unfolding parse_one parse_missing_notify
parse_one-malformed conn b h (inl e) = rw (e, parse_one)
parse_one-malformed conn b h (inr (inl e)) = rw (e, parse_one)
parse_one-malformed conn b h (inr (inr e)) = rw (e.0, parse_one) (ground arith)

-- An unknown packet type, or a notification that announces more than 64 ids, makes no callback and
-- empties the buffer, later packets in it included; the connection stays open. Conditions: eleven
-- bytes at least are unread after the wake-up, the connection survives it, and the read offset is
-- not past the end of the buffer.
malformed_clears :
    (conn : ℕ) (rs : List Received) (b : ReadBuffer)
    → IsValid b
    → Survives rs
    → 11 ≤ length (pending b ++ received rs)
    → IsMalformed (pending b ++ received rs)
    → let out = read_from_connection conn true b rs in
      (out.events ≡ []) × (out.buffer ≡ empty_buffer) × (out.disconnected ≡ false)
malformed_clears conn rs b v s h m =
    let xs = received rs in
    let b1 : ReadBuffer = record b { bytes = b.bytes ++ xs } in
    let p : pending b1 ≡ pending b ++ xs = drop-append_le b.read_offset b.bytes xs v in
    let r = read-parse conn b rs s in
    let q =
      parse_ends conn b1 empty_buffer (omega (arith, length-pending b1, ap length p))
        (parse_one-malformed conn b1 (omega (arith, length-pending b1, ap length p)) (rw p m)) in
    (r.0 ∙ ap (λ out. out.0) q, r.1 ∙ ap (λ out. out.1) q, r.2)

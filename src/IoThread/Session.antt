-- ===== src/IoThread/Session.antt =====
-- `readFromConnection` over a whole session: TCP hands the stream over in arbitrary pieces, over
-- any number of wake-ups.
use mathlib.Core.List.{map-append}
use tcpudp.Base.{
  ℕ, suc, ◌+◌, ◌-◌, ◌≡◌, ◌∙◌, refl, sym, ap, true, false, List, [], ◌∷◌, ◌++◌, arith, inl, inr, All,
  append_assoc, append-nil, length, length-append, drop-append_le, map, flatten, ltb, lt→ltb,
  le→ltb, Bool-cases,
}
use tcpudp.VcPacket.Message.{Message, encode, encode_all, IsMessage}
use tcpudp.IoThread.{
  ReadBuffer, empty_buffer, available, pending, IsValid, Event, parse, Received, bytes_read,
  would_block, timeout, interrupted, closed, failed, drained, drain, read_from_connection,
}
use tcpudp.IoThread.Parse.{parse_total, length-pending}
use tcpudp.IoThread.Stream.{event, size, size-ge, length-encode}
use tcpudp.IoThread.Delivery.{
  whole, unfinished, whole-left_over, whole-add, unfinished-add, whole-unfinished, append-eq-nil,
  parse-Parsed,
}

-- The bytes that one wake-up hands over, and that the connection survives it.
unfoldable pub received : List Received → List ℕ
received [] = []
received (bytes_read xs ∷ rs) = xs ++ received rs
received (_ ∷ rs) = []

abbrev pub Survives : List Received → Type 0
Survives [] = Unit {0}
Survives (bytes_read xs ∷ rs) = Survives rs
Survives (closed ∷ rs) = ⊥
Survives (failed ∷ rs) = ⊥
Survives (_ ∷ rs) = Unit {0}

drain-received :
    (rs : List Received) (b : ReadBuffer)
    → Survives rs
    → drain b rs ≡ drained (record b { bytes = b.bytes ++ received rs })
unfolding drain received
drain-received [] b h = rw append-nil
drain-received (bytes_read xs ∷ rs) b h = rw (
  drain-received rs (record b { bytes = b.bytes ++ xs }) h,
  append_assoc b.bytes xs (received rs),
)
drain-received (would_block ∷ rs) b h = rw append-nil
drain-received (timeout ∷ rs) b h = rw append-nil
drain-received (interrupted ∷ rs) b h = rw append-nil
drain-received (closed ∷ rs) b h = absurd h
drain-received (failed ∷ rs) b h = absurd h

-- The calls of `readFromConnection` for one connection, one for each wake-up.
unfoldable pub session : ℕ → ReadBuffer → List (List Received) → List Event × ReadBuffer
session conn b [] = ([], b)
session conn b (rs ∷ wakes) =
    let out = read_from_connection conn true b rs in
    let (es, b') = session conn out.buffer wakes in (out.events ++ es, b')

whole_none : (ms : List Message) → All IsMessage ms → whole 0 ms ≡ []
unfolding whole
whole_none [] h = refl
whole_none (m ∷ ms) h = rw (lt→ltb 0 (size m) (omega (arith, size-ge m h.0)))

unfinished-IsMessage :
    (n : ℕ) (ms : List Message) → All IsMessage ms → All IsMessage (unfinished n ms)
unfolding unfinished
unfinished-IsMessage n [] h = tt
unfinished-IsMessage n (m ∷ ms) h = elim (Bool-cases (ltb n (size m))) [
  | inl short ↦ rw short h
  | inr full ↦ rw full (unfinished-IsMessage (n - size m) ms h.1)
]

pub read-parse :
    (conn : ℕ) (b : ReadBuffer) (rs : List Received)
    → Survives rs
    → let b1 : ReadBuffer = record b { bytes = b.bytes ++ received rs } in
      let out = read_from_connection conn true b rs in
      (out.events ≡ (parse conn b1).0)
      × (out.buffer ≡ (parse conn b1).1)
      × (out.disconnected ≡ false)
unfolding read_from_connection
read-parse conn b rs h = rw (drain-received rs b h, read_from_connection) (refl, refl, refl)

session_from :
    (conn : ℕ) (wakes : List (List Received)) (b : ReadBuffer) (more : List ℕ) (ms : List Message)
    → IsValid b
    → All IsMessage ms
    → All Survives wakes
    → whole (available b) ms ≡ []
    → pending b ++ (flatten (map received wakes) ++ more) ≡ encode_all ms
    → (session conn b wakes).0
      ≡ map (event conn) (whole (available b + length (flatten (map received wakes))) ms)
unfolding session
session_from conn [] b more ms v h s idle e =
    let k : available b + 0 ≡ available b = omega arith in rw (k, idle)
session_from conn (rs ∷ wakes) b more ms v h s idle e =
    let xs = received rs in
    let later = flatten (map received wakes) in
    let b1 : ReadBuffer = record b { bytes = b.bytes ++ xs } in
    let v1 : IsValid b1 = omega (arith, length-append b.bytes xs) in
    let p : pending b1 ≡ pending b ++ xs = drop-append_le b.read_offset b.bytes xs v in
    let e1 : pending b1 ++ (later ++ more) ≡ encode_all ms =
      rw (p, append_assoc (pending b) xs (later ++ more))
        (ap (◌++◌ (pending b)) (sym (append_assoc xs later more)) ∙ e) in
    let d = parse-Parsed conn ms b1 (later ++ more) v1 h e1 in
    let r = read-parse conn b rs s.0 in
    let ih =
      session_from conn wakes (parse conn b1).1 more (unfinished (available b1) ms)
        (parse_total conn b1 (suc (available b1)) v1 (omega arith)).1 (unfinished-IsMessage _ ms h)
        s.1
        (ap (λ i. whole i (unfinished (available b1) ms)) d.rest
          ∙ whole-left_over (available b1) ms)
        d.kept in
    let k : available b + length (xs ++ later) ≡ available b1 + length later =
      omega (arith, length-append b.bytes xs, length-append xs later) in
    rw (r.0, r.1, d.told, ih, d.rest, k, whole-add (available b1) (length later) ms)
      (sym (map-append (event conn) (whole (available b1) ms) _))

-- What is left in the buffer is the front of the messages that have not arrived whole.
session-pending :
    (conn : ℕ) (wakes : List (List Received)) (b : ReadBuffer) (more : List ℕ) (ms : List Message)
    → IsValid b
    → All IsMessage ms
    → All Survives wakes
    → whole (available b) ms ≡ []
    → pending b ++ (flatten (map received wakes) ++ more) ≡ encode_all ms
    → pending (session conn b wakes).1 ++ more
      ≡ encode_all (unfinished (available b + length (flatten (map received wakes))) ms)
unfolding session
session-pending conn [] b more ms v h s idle e =
    let k : available b + 0 ≡ available b = omega arith in
    rw (k, whole-unfinished (available b) ms idle) e
session-pending conn (rs ∷ wakes) b more ms v h s idle e =
    let xs = received rs in
    let later = flatten (map received wakes) in
    let b1 : ReadBuffer = record b { bytes = b.bytes ++ xs } in
    let v1 : IsValid b1 = omega (arith, length-append b.bytes xs) in
    let p : pending b1 ≡ pending b ++ xs = drop-append_le b.read_offset b.bytes xs v in
    let e1 : pending b1 ++ (later ++ more) ≡ encode_all ms =
      rw (p, append_assoc (pending b) xs (later ++ more))
        (ap (◌++◌ (pending b)) (sym (append_assoc xs later more)) ∙ e) in
    let d = parse-Parsed conn ms b1 (later ++ more) v1 h e1 in
    let r = read-parse conn b rs s.0 in
    let ih =
      session-pending conn wakes (parse conn b1).1 more (unfinished (available b1) ms)
        (parse_total conn b1 (suc (available b1)) v1 (omega arith)).1 (unfinished-IsMessage _ ms h)
        s.1
        (ap (λ i. whole i (unfinished (available b1) ms)) d.rest
          ∙ whole-left_over (available b1) ms)
        d.kept in
    let k : available b + length (xs ++ later) ≡ available b1 + length later =
      omega (arith, length-append b.bytes xs, length-append xs later) in
    ap (λ (b' : ReadBuffer). pending (session conn b' wakes).1 ++ more) r.1
    ∙ ih
    ∙ ap (λ i. encode_all (unfinished (i + length later) (unfinished (available b1) ms))) d.rest
    ∙ sym (ap encode_all (unfinished-add (available b1) (length later) ms))
    ∙ ap (λ i. encode_all (unfinished i ms)) (sym k)

-- Whatever the pieces in which a connection's bytes arrive, and over however many wake-ups, the
-- callbacks have been told, in order and once each, exactly the messages of the stream that have
-- arrived whole. Conditions: the connection survives the wake-ups, and the bytes received so far
-- are the front of a stream of well-formed messages.
pub session_delivers :
    (conn : ℕ) (wakes : List (List Received)) (more : List ℕ) (ms : List Message)
    → All IsMessage ms
    → All Survives wakes
    → flatten (map received wakes) ++ more ≡ encode_all ms
    → (session conn empty_buffer wakes).0
      ≡ map (event conn) (whole (length (flatten (map received wakes))) ms)
session_delivers conn wakes more ms h s e =
    session_from conn wakes empty_buffer more ms (omega arith) h s (whole_none ms h) e
    ∙ ap (λ n. map (event conn) (whole n ms)) (omega arith)

whole-All : (ms : List Message) → All IsMessage ms → whole (length (encode_all ms)) ms ≡ ms
unfolding whole encode_all
whole-All [] h = refl
whole-All (m ∷ ms) h =
    let n = length-encode m (encode_all ms) h.0 in
    let k : length (encode m ++ encode_all ms) - size m ≡ length (encode_all ms) = omega arith in
    rw (le→ltb (length (encode m ++ encode_all ms)) (size m) (omega arith), k)
      (ap (◌∷◌ m) (whole-All ms h.1))

encode_none : encode_all [] ≡ []
unfolding encode_all
encode_none = refl

unfinished-All :
    (ms : List Message) → All IsMessage ms → unfinished (length (encode_all ms)) ms ≡ []
unfolding unfinished encode_all
unfinished-All [] h = refl
unfinished-All (m ∷ ms) h =
    let n = length-encode m (encode_all ms) h.0 in
    let k : length (encode m ++ encode_all ms) - size m ≡ length (encode_all ms) = omega arith in
    rw (le→ltb (length (encode m ++ encode_all ms)) (size m) (omega arith), k)
      (unfinished-All ms h.1)

-- Once the whole stream has arrived, cut into reads and wake-ups in any way, every message has been
-- delivered, in order and once, and no byte is left to read in the buffer. Conditions: the messages fit their fields, the connection survives
-- the wake-ups, and what it receives is the encoding of the messages, from an empty buffer on.
pub session_complete :
    (conn : ℕ) (wakes : List (List Received)) (ms : List Message)
    → All IsMessage ms
    → All Survives wakes
    → flatten (map received wakes) ≡ encode_all ms
    → ((session conn empty_buffer wakes).0 ≡ map (event conn) ms)
      × (available (session conn empty_buffer wakes).1 ≡ 0)
session_complete conn wakes ms h s e =
    let all = append-nil (flatten (map received wakes)) ∙ e in
    let out = (session conn empty_buffer wakes).1 in
    let left : pending out ++ [] ≡ [] =
      session-pending conn wakes empty_buffer [] ms (omega arith) h s (whole_none ms h) all
      ∙ ap (λ n. encode_all (unfinished n ms)) (omega (arith, ap length e))
      ∙ (ap encode_all (unfinished-All ms h) ∙ encode_none) in
    (
      session_delivers conn wakes [] ms h s all
          ∙ ap (map (event conn)) (ap (λ xs. whole (length xs) ms) e ∙ whole-All ms h),
      sym (length-pending out) ∙ append-eq-nil (pending out) [] left,
    )

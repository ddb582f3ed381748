-- ===== src/IoThread/Parse.antt =====
-- `ReadBuffer::consume` and the rounds of the parse loop: the unread bytes that they leave, and
-- that the loop ends by its own tests.
use tcpudp.Base.{
  ℕ, zero, suc, ◌+◌, ◌-◌, ◌*◌, ◌≤◌, ◌<◌, ◌≡◌, refl, ap, inl, inr, List, [], ◌∷◌, arith, Bool-cases,
  length, length-drop, drop, drop-drop, ltb, lt→ltb, le→ltb,
}
use tcpudp.Bytes.{field}
use tcpudp.VcPacket.{
  data_type, resend_request, resend_response, missing_notify, unknown, packet_type, VcPacketType,
}
use tcpudp.IoThread.{
  ReadBuffer, available, pending, IsValid, consume, Event, Round, stop, emit, parse_data,
  parse_resend_request, parse_missing_notify, parse_one, after_round, parse_loop, parse,
}

pub length-pending : (b : ReadBuffer) → length (pending b) ≡ available b
length-pending b = length-drop b.read_offset b.bytes

-- Compaction is invisible to the parser.
pub pending-consume : (n : ℕ) (b : ReadBuffer) → pending (consume n b) ≡ drop n (pending b)
unfolding consume
pending-consume n b = ground (arith, drop-drop b.read_offset n b.bytes)

pub consume-IsValid : (n : ℕ) (b : ReadBuffer) → IsValid b → n ≤ available b → IsValid (consume n b)
unfolding consume
consume-IsValid n b v h = ground arith

pub available-consume : (n : ℕ) (b : ReadBuffer) → available (consume n b) ≡ available b - n
available-consume n b = omega (
  arith,
  length-pending b,
  length-pending (consume n b),
  ap length (pending-consume n b),
  length-drop n (pending b),
)

-- What holds of a round: its buffer is valid, and going on takes ten bytes at least.
abbrev pub Good : ReadBuffer → Round → Type 0
Good b (stop b') = IsValid b'
Good b (emit e b') = IsValid b' × (available b' + 10 ≤ available b)

parse_data-Good : (conn : ℕ) (b : ReadBuffer) → IsValid b → Good b (parse_data conn b)
unfolding parse_data
parse_data-Good conn b v =
    let size = 11 + field 9 2 (pending b) in
    ground (arith, consume-IsValid size b v, available-consume size b)

parse_resend_request-Good : (b : ReadBuffer) → IsValid b → Good b (parse_resend_request b)
unfolding parse_resend_request
parse_resend_request-Good b v = ground (arith, consume-IsValid 17 b v, available-consume 17 b)

parse_missing_notify-Good : (b : ReadBuffer) → IsValid b → Good b (parse_missing_notify b)
unfolding parse_missing_notify
parse_missing_notify-Good b v =
    let size = 9 + 1 + field 9 1 (pending b) * 8 in
    ground (arith, consume-IsValid size b v, available-consume size b)

pub parse_one-Good : (conn : ℕ) (b : ReadBuffer) → IsValid b → Good b (parse_one conn b)
unfolding parse_one
parse_one-Good conn b v = go (packet_type (field 0 1 (pending b))) refl
  where
    go : (t : VcPacketType) → packet_type (field 0 1 (pending b)) ≡ t → Good b (parse_one conn b)
    go data_type e = rw (e, parse_one) (parse_data-Good conn b v)
    go resend_request e = rw (e, parse_one) (parse_resend_request-Good b v)
    go missing_notify e = rw (e, parse_one) (parse_missing_notify-Good b v)
    go resend_response e = rw (e, parse_one) (omega arith)
    go unknown e = rw (e, parse_one) (omega arith)

after_round-IsValid :
    (b : ReadBuffer) (r : Round) (go_on : ReadBuffer → List Event × ReadBuffer)
    → Good b r
    → ((b' : ReadBuffer) → IsValid b' → IsValid (go_on b').1)
    → IsValid (after_round r go_on).1
after_round-IsValid b (stop b') go_on g h = g
after_round-IsValid b (emit e b') go_on g h = h b' g.0

pub parse_loop-IsValid :
    (fuel conn : ℕ) (b : ReadBuffer) → IsValid b → IsValid (parse_loop fuel conn b).1
unfolding parse_loop
parse_loop-IsValid zero conn b v = v
parse_loop-IsValid (suc fuel) conn b v = elim (Bool-cases (ltb (available b) 11)) [
  | inl few ↦ rw (few, parse_loop) v
  | inr enough ↦
      rw (enough, parse_loop)
        (after_round-IsValid b (parse_one conn b) _ (parse_one-Good conn b v)
          (parse_loop-IsValid fuel conn))
]

after_round-eq :
    (b : ReadBuffer) (r : Round) (f g : ReadBuffer → List Event × ReadBuffer)
    → Good b r
    → ((b' : ReadBuffer) → IsValid b' → available b' + 10 ≤ available b → f b' ≡ g b')
    → after_round r f ≡ after_round r g
after_round-eq b (stop b') f g v h = refl
after_round-eq b (emit e b') f g v h = ap (λ out. (e ∷ out.0, out.1)) (h b' v.0 v.1)

-- Any two amounts of fuel above the unread bytes give the same result.
pub parse_loop-fuel :
    (m n conn : ℕ) (b : ReadBuffer)
    → IsValid b
    → available b < m
    → available b < n
    → parse_loop m conn b ≡ parse_loop n conn b
unfolding parse_loop
parse_loop-fuel zero n conn b v hm hn = absurd (omega arith)
parse_loop-fuel (suc m) zero conn b v hm hn = absurd (omega arith)
parse_loop-fuel (suc m) (suc n) conn b v hm hn = elim (Bool-cases (ltb (available b) 11)) [
  | inl few ↦ rw (few, parse_loop)
  | inr enough ↦
      rw (enough, parse_loop)
        (after_round-eq b (parse_one conn b) _ _ (parse_one-Good conn b v)
          (λ b' v' h. parse_loop-fuel m n conn b' v' (omega arith) (omega arith)))
]

-- The parse loop ends by its own tests: it is what any fuel above the unread bytes computes, and it
-- leaves a buffer whose offset is not past the end. Condition: the offset was not past it before.
pub parse_total :
    (conn : ℕ) (b : ReadBuffer) (fuel : ℕ)
    → IsValid b
    → available b < fuel
    → (parse_loop fuel conn b ≡ parse conn b) × IsValid (parse conn b).1
unfolding parse
parse_total conn b fuel v h = (
  parse_loop-fuel fuel (suc (available b)) conn b v h (omega arith),
  parse_loop-IsValid (suc (available b)) conn b v,
)

-- One round of the loop, seen from outside.
pub parse_few : (conn : ℕ) (b : ReadBuffer) → available b < 11 → parse conn b ≡ ([], b)
unfolding parse parse_loop
parse_few conn b h = rw (lt→ltb (available b) 11 h, parse_loop)

pub parse_ends :
    (conn : ℕ) (b b' : ReadBuffer)
    → 11 ≤ available b
    → parse_one conn b ≡ stop b'
    → parse conn b ≡ ([], b')
unfolding parse parse_loop
parse_ends conn b b' h e = rw (le→ltb (available b) 11 h, parse_loop, e)

pub parse_emit :
    (conn : ℕ) (b b' : ReadBuffer) (e : Event)
    → IsValid b
    → 11 ≤ available b
    → parse_one conn b ≡ emit e b'
    → parse conn b ≡ (let (es, b'') = parse conn b' in (e ∷ es, b''))
unfolding parse
parse_emit conn b b' e v h p =
    let g : Good b (emit e b') = rw p at (parse_one-Good conn b v) in
    rw (le→ltb (available b) 11 h, parse_loop, p)
      (ap (λ out. (e ∷ out.0, out.1))
        (parse_loop-fuel (available b) (suc (available b')) conn b' g.0 (omega arith)
          (omega arith)))

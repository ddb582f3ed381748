-- ===== src/IoThread/Delivery.antt =====
-- `readFromConnection` over a whole session: TCP hands the stream over in arbitrary pieces, over
-- any number of wake-ups, and the callbacks are told the messages that were sent.
use tcpudp.Base.{
  ℕ, ◌+◌, ◌-◌, ◌≤◌, ◌<◌, ◌≡◌, ◌∙◌, refl, sym, ap, List, [], ◌∷◌, ◌++◌, arith, All, append-nil,
  append-split, length, length-append, drop, map, inl, inr, ltb, le→ltb, ltb→lt, ltb→le, Bool-cases,
  if◌then◌else◌,
}
use tcpudp.VcPacket.Message.{Message, encode, encode_all, IsMessage}
use tcpudp.IoThread.{ReadBuffer, available, pending, IsValid, consume, parse}
use tcpudp.IoThread.Parse.{
  length-pending, pending-consume, consume-IsValid, parse_few, parse_ends, parse_emit,
  available-consume,
}
use tcpudp.IoThread.Stream.{event, size, size-ge, length-encode, parse_one-whole, parse_one-short}

-- The messages that the first `n` bytes of their stream hold whole, and the others.
unfoldable pub whole : ℕ → List Message → List Message
whole n [] = []
whole n (m ∷ ms) = let rest = whole (n - size m) ms in if ltb n (size m) then [] else m ∷ rest

unfoldable pub unfinished : ℕ → List Message → List Message
unfinished n [] = []
unfinished n (m ∷ ms) =
    let rest = unfinished (n - size m) ms in if ltb n (size m) then m ∷ ms else rest

-- The bytes of the first `n` that belong to no whole message.
unfoldable pub left_over : ℕ → List Message → ℕ
left_over n [] = n
left_over n (m ∷ ms) = let rest = left_over (n - size m) ms in if ltb n (size m) then n else rest

pub whole-left_over : (n : ℕ) (ms : List Message) → whole (left_over n ms) (unfinished n ms) ≡ []
unfolding whole unfinished left_over
whole-left_over n [] = refl
whole-left_over n (m ∷ ms) = ground (arith, whole-left_over (n - size m) ms)

-- What `k` more bytes complete.
pub whole-add :
    (n k : ℕ) (ms : List Message)
    → whole (n + k) ms ≡ whole n ms ++ whole (left_over n ms + k) (unfinished n ms)
unfolding whole unfinished left_over
whole-add n k [] = refl
whole-add n k (m ∷ ms) = elim (Bool-cases (ltb n (size m))) [
  | inl short ↦ rw short
  | inr full ↦
      let le = ltb→le _ _ full in
      let e : n + k - size m ≡ n - size m + k = omega arith in
      rw (full, le→ltb (n + k) (size m) (omega arith), e) (ap (◌∷◌ m) (whole-add (n - size m) k ms))
]

-- The messages that `k` more bytes leave unfinished.
pub unfinished-add :
    (n k : ℕ) (ms : List Message)
    → unfinished (n + k) ms ≡ unfinished (left_over n ms + k) (unfinished n ms)
unfolding unfinished left_over
unfinished-add n k [] = refl
unfinished-add n k (m ∷ ms) = elim (Bool-cases (ltb n (size m))) [
  | inl short ↦ rw short
  | inr full ↦
      let le = ltb→le _ _ full in
      let e : n + k - size m ≡ n - size m + k = omega arith in
      rw (full, le→ltb (n + k) (size m) (omega arith), e) (unfinished-add (n - size m) k ms)
]

-- When no message is whole, none is taken off.
pub whole-unfinished : (n : ℕ) (ms : List Message) → whole n ms ≡ [] → unfinished n ms ≡ ms
unfolding whole unfinished
whole-unfinished n [] h = refl
whole-unfinished n (m ∷ ms) h = ground arith

pub append-eq-nil : (xs ys : List ℕ) → xs ++ ys ≡ [] → length xs ≡ 0
append-eq-nil xs ys e = omega (arith, ap length e, length-append xs ys)

encode-split :
    (m : Message) (ms : List Message) (xs more : List ℕ)
    → IsMessage m
    → xs ++ more ≡ encode_all (m ∷ ms)
    → size m ≤ length xs
    → (xs ≡ encode m ++ drop (size m) xs) × (drop (size m) xs ++ more ≡ encode_all ms)
unfolding encode_all
encode-split m ms xs more h e le =
    let n : length (encode m) ≡ size m =
      ap length (sym (append-nil (encode m))) ∙ (length-encode m [] h ∙ omega arith) in
    rw n at (append-split xs more (encode m) (encode_all ms) e (omega arith))

module _ (conn : ℕ) where
  -- What one run of the parse loop makes of the front of a stream.
  pub record Parsed (more : List ℕ) (ms : List Message) (b : ReadBuffer) : Type 0 where
    pub told : (parse conn b).0 ≡ map (event conn) (whole (available b) ms)
    pub rest : available (parse conn b).1 ≡ left_over (available b) ms
    pub kept : pending (parse conn b).1 ++ more ≡ encode_all (unfinished (available b) ms)

  parse-short :
      (m : Message) (ms : List Message) (b : ReadBuffer) (more : List ℕ)
      → IsMessage m
      → pending b ++ more ≡ encode_all (m ∷ ms)
      → available b < size m
      → parse conn b ≡ ([], b)
  unfolding encode_all
  parse-short m ms b more h e short = elim (Bool-cases (ltb (available b) 11)) [
    | inl few ↦ parse_few conn b (ltb→lt _ _ few)
    | inr enough ↦
        let le = ltb→le _ _ enough in
        parse_ends conn b b le (parse_one-short conn b m more (encode_all ms) h e le short)
  ]

  pub parse-Parsed :
      (ms : List Message) (b : ReadBuffer) (more : List ℕ)
      → IsValid b
      → All IsMessage ms
      → pending b ++ more ≡ encode_all ms
      → Parsed more ms b
  unfolding whole unfinished left_over
  parse-Parsed [] b more v h e =
      let n = parse_few conn b (
        omega (arith, length-pending b, append-eq-nil (pending b) more (unfold encode_all in e))) in
      record { told = rw n; rest = rw n; kept = rw n e }
  parse-Parsed (m ∷ ms) b more v h e = elim (Bool-cases (ltb (available b) (size m))) [
    | inl short ↦
        let n = parse-short m ms b more h.0 e (ltb→lt _ _ short) in
        record { told = rw (n, short); rest = rw (n, short); kept = rw (n, short) e }
    | inr full ↦
        let le = ltb→le _ _ full in
        let cut = encode-split m ms (pending b) more h.0 e (omega (arith, length-pending b)) in
        let b' = consume (size m) b in
        let n =
          parse_emit conn b b' (event conn m) v (omega (arith, size-ge m h.0))
            (parse_one-whole conn b m _ h.0 cut.0) in
        let p = pending-consume (size m) b in
        let ih =
          parse-Parsed ms b' more (consume-IsValid (size m) b v le) h.1
            (ap (λ xs. xs ++ more) p ∙ cut.1) in
        let k = available-consume (size m) b in
        record {
          told =
              rw (n, full)
                (ap (◌∷◌ (event conn m)) (ih.told ∙ ap (λ i. map (event conn) (whole i ms)) k));
          rest = rw (n, full) (ih.rest ∙ ap (λ i. left_over i ms) k);
          kept = rw (n, full) (ih.kept ∙ ap (λ i. encode_all (unfinished i ms)) k);
        }
  ]

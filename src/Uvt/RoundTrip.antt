-- ===== src/Uvt/RoundTrip.antt =====
-- What one end puts into the stream, the other end takes out, as long as it fits the fields.
use tcpudp.Base.{
  ℕ, zero, suc, ◌+◌, ◌*◌, ◌/◌, ◌%◌, ◌^◌, ◌<◌, ◌≡◌, ◌≢◌, refl, arith, false, List, [], ◌∷◌, ◌++◌,
  length, length-append, length-take, take, take-append, drop-append, ltb, ◌==◌, ==_refl, le→ltb,
  lt→ltb,
}
use tcpudp.Uvt.{
  xor_checksum, htons_bytes, append_udp_data, left_over, checksum_failed, extract_udp_data,
}

-- A datagram that was appended to an empty buffer is extracted whole, whatever follows it, and what
-- follows is left over. Condition: it is shorter than 2^16 bytes.
pub extract-append :
    (payload : List ℕ) (id : ℕ) (rest : List ℕ)
    → length payload < 2 ^ 16
    → extract_udp_data (append_udp_data payload id [] ++ rest) ≡ left_over rest payload
unfolding extract_udp_data append_udp_data
extract-append payload id rest h =
    let n = length payload in
    let size : n % 2 ^ 16 / 256 * 256 + n % 256 ≡ n = omega arith in
    let total : length (payload ++ rest) ≡ n + length rest = length-append payload rest in
    let fits : ltb (length (payload ++ rest)) n ≡ false = le→ltb _ _ (omega arith) in
    rw
      (
        size,
        fits,
        take-append n payload rest refl,
        drop-append n payload rest refl,
        ==_refl (xor_checksum payload),
      )
      refl

-- A datagram of which the last byte or more is missing stays in the buffer, and nothing is extracted:
-- any proper beginning of its frame is left over as it is. Condition: it is shorter than 2^16 bytes.
extract-partial :
    (payload : List ℕ) (id k : ℕ)
    → length payload < 2 ^ 16
    → k < 4 + length payload
    → extract_udp_data (take k (append_udp_data payload id []))
      ≡ left_over (take k (append_udp_data payload id [])) []
unfolding extract_udp_data append_udp_data
extract-partial payload id zero h lt = refl
extract-partial payload id (suc zero) h lt = refl
extract-partial payload id (suc (suc zero)) h lt = refl
extract-partial payload id (suc (suc (suc zero))) h lt = refl
extract-partial payload id (suc (suc (suc (suc k)))) h lt =
    let n = length payload in
    let size : n % 2 ^ 16 / 256 * 256 + n % 256 ≡ n = omega arith in
    let short : length (take k payload) < n = let t = length-take k payload in omega arith in
    rw (size, lt→ltb _ _ short) refl

-- A changed checksum is noticed: a whole frame whose checksum byte differs from the checksum of its
-- payload throws. Condition: the payload is shorter than 2^16 bytes.
pub extract-corrupt :
    (payload : List ℕ) (id checksum : ℕ) (rest : List ℕ)
    → length payload < 2 ^ 16
    → checksum ≢ xor_checksum payload
    → extract_udp_data ((htons_bytes (length payload) ++ (id ∷ checksum ∷ payload)) ++ rest)
      ≡ checksum_failed
unfolding extract_udp_data
extract-corrupt payload id checksum rest h ne =
    let n = length payload in
    let size : n % 2 ^ 16 / 256 * 256 + n % 256 ≡ n = omega arith in
    let total : length (payload ++ rest) ≡ n + length rest = length-append payload rest in
    let fits : ltb (length (payload ++ rest)) n ≡ false = le→ltb _ _ (omega arith) in
    let differs : (xor_checksum payload == checksum) ≡ false = ground arith in
    rw (size, fits, take-append n payload rest refl, differs) refl

-- ===== src/Uvt/Bind.antt =====
-- The bind messages: what the client writes, the server reads, padding or not.
use tcpudp.Base.{
  ℕ, ◌+◌, ◌-◌, ◌^◌, ◌<◌, ◌≡◌, ◌∙◌, refl, sym, ap, arith, false, List, [], ◌∷◌, ◌++◌, append_assoc,
  some, length, length-append, drop, drop-append, drop-drop, ltb, if_false, le→ltb, lt→ltb,
}
use tcpudp.Base.Int.{ℤ, pos, negsuc}
use tcpudp.Bytes.{le_bytes, field, read, le_value, length-le_bytes, read-append}
use tcpudp.Uvt.{
  int8_byte, byte_int8, MsgBind, msg_bind_size, append_msg_bind, extract_msg_bind,
  append_msg_bind_response, extract_msg_bind_response,
}

-- An `int8_t`.
abbrev pub IsInt8 : ℤ → Type 0
IsInt8 (pos n) = n < 128
IsInt8 (negsuc n) = n < 128

int8-round : (i : ℤ) → IsInt8 i → byte_int8 (int8_byte i) ≡ i
int8-round (pos n) h = rw (lt→ltb n 128 h) refl
int8-round (negsuc n) h =
    let high : ltb (255 - n) 128 ≡ false = le→ltb _ _ (omega arith) in
    let back : 255 - (255 - n) ≡ n = omega arith in rw (high, back) refl

read-one : (b : ℕ) (rest : List ℕ) → read 1 (b ∷ rest) ≡ b
unfolding read le_value
read-one b rest = omega arith

module _ (padding : List ℕ) (bind : MsgBind) (rest : List ℕ) (client : bind.client_id < 2 ^ 32)
    (connection : bind.connection_id < 2 ^ 32) (slot : IsInt8 bind.slot_index)
    (padded : length padding ≡ 3) where
  abbrev ending : List ℕ
  ending = le_bytes 4 bind.connection_id ++ rest

  bind_bytes :
      append_msg_bind padding bind [] ++ rest
      ≡ le_bytes 4 bind.client_id ++ (int8_byte bind.slot_index ∷ (padding ++ ending))
  unfolding append_msg_bind
  bind_bytes = simp append_assoc

  length_bytes :
      length (le_bytes 4 bind.client_id ++ (int8_byte bind.slot_index ∷ (padding ++ ending)))
      ≡ 12 + length rest
  length_bytes =
      let a =
        length-append (le_bytes 4 bind.client_id)
          (int8_byte bind.slot_index ∷ (padding ++ ending)) in
      let b = length-append padding ending in
      let c = length-append (le_bytes 4 bind.connection_id) rest in
      let d = length-le_bytes 4 bind.client_id in
      let e = length-le_bytes 4 bind.connection_id in omega arith

  after_client :
      drop 4 (le_bytes 4 bind.client_id ++ (int8_byte bind.slot_index ∷ (padding ++ ending)))
      ≡ int8_byte bind.slot_index ∷ (padding ++ ending)
  after_client = drop-append 4 (le_bytes 4 bind.client_id) _ (length-le_bytes 4 bind.client_id)

  after_padding :
      drop 8 (le_bytes 4 bind.client_id ++ (int8_byte bind.slot_index ∷ (padding ++ ending)))
      ≡ ending
  after_padding =
      sym (
        drop-drop 4 4
          (le_bytes 4 bind.client_id ++ (int8_byte bind.slot_index ∷ (padding ++ ending))))
      ∙ (ap (drop 4) after_client ∙ drop-append 3 padding ending padded)

  -- A bind message is read back as it was written, whatever the padding holds and whatever follows.
  -- Conditions: the ids have 32 bits, the slot index 8 bits with a sign, and the padding 3 bytes.
  pub bind_extract-append : extract_msg_bind (append_msg_bind padding bind [] ++ rest) ≡ some bind
  unfolding extract_msg_bind
  bind_extract-append =
      let whole : ltb (length (append_msg_bind padding bind [] ++ rest)) msg_bind_size ≡ false =
        le→ltb _ _ (let a = ap length bind_bytes in let b = length_bytes in omega arith) in
      let slot_byte =
        ap (read 1) after_client ∙ read-one (int8_byte bind.slot_index) (padding ++ ending) in
      let last = ap (read 4) after_padding ∙ read-append 4 bind.connection_id rest (omega arith) in
      let first =
        read-append 4 bind.client_id (int8_byte bind.slot_index ∷ (padding ++ ending))
          (omega arith) in
      if_false _ _ whole
      ∙ (ap (λ bytes. some (parsed bytes)) bind_bytes
          ∙ (ap (λ c. some (parts c (byte_int8 (field 4 1 memory)) (field 8 4 memory))) first
              ∙ (ap (λ b. some (parts bind.client_id (byte_int8 b) (field 8 4 memory))) slot_byte
                  ∙ (ap (λ i. some (parts bind.client_id i (field 8 4 memory)))
                        (int8-round bind.slot_index slot)
                      ∙ ap (λ c. some (parts bind.client_id bind.slot_index c)) last))))
    where
      memory : List ℕ
      memory = le_bytes 4 bind.client_id ++ (int8_byte bind.slot_index ∷ (padding ++ ending))

      parts : ℕ → ℤ → ℕ → MsgBind
      parts c i n = record { client_id = c; slot_index = i; connection_id = n }

      parsed : List ℕ → MsgBind
      parsed bytes = parts (field 0 4 bytes) (byte_int8 (field 4 1 bytes)) (field 8 4 bytes)

-- A response is read back as it was written. Condition: the id has 32 bits.
response_extract-append :
    (connection_id : ℕ) (rest : List ℕ)
    → connection_id < 2 ^ 32
    → extract_msg_bind_response (append_msg_bind_response connection_id [] ++ rest)
      ≡ some connection_id
unfolding extract_msg_bind_response append_msg_bind_response
response_extract-append connection_id rest h =
    let n = length-append (le_bytes 4 connection_id) rest in
    let four = length-le_bytes 4 connection_id in
    let whole : ltb (length (le_bytes 4 connection_id ++ rest)) 4 ≡ false =
      le→ltb _ _ (omega arith) in
    if_false _ _ whole ∙ ap some (read-append 4 connection_id rest (omega arith))

-- ===== src/Uvt/Tests.antt =====
-- A framed datagram and a bind message, and the theorems on them.
use tcpudp.Base.{ℕ, ◌≡◌, ◌≢◌, refl, arith, List, [], ◌∷◌, ◌++◌, some}
use tcpudp.Base.Int.{negsuc}
use tcpudp.Uvt.{
  append_udp_data, extract_udp_data, left_over, xor_checksum, MsgBind, append_msg_bind,
  extract_msg_bind,
}
use tcpudp.Uvt.RoundTrip.{extract-append}
use tcpudp.Uvt.Bind.{bind_extract-append}

abbrev payload : List ℕ
payload = 10 ∷ 20 ∷ 30 ∷ []

frame : append_udp_data payload 7 [] ≡ 0 ∷ 3 ∷ 7 ∷ 0 ∷ payload
unfolding append_udp_data xor_checksum
frame = refl

extract-append_example :
    extract_udp_data (append_udp_data payload 7 [] ++ (1 ∷ 2 ∷ [])) ≡ left_over (1 ∷ 2 ∷ []) payload
extract-append_example = extract-append payload 7 (1 ∷ 2 ∷ []) (omega arith)

wrong : 9 ≢ xor_checksum payload
unfolding xor_checksum
wrong = omega arith

abbrev reconnect : MsgBind
reconnect = record { client_id = 4000000000; slot_index = negsuc 0; connection_id = 77 }

bind_extract-append_example :
    extract_msg_bind (append_msg_bind (1 ∷ 2 ∷ 3 ∷ []) reconnect [] ++ (5 ∷ [])) ≡ some reconnect
bind_extract-append_example =
    bind_extract-append (1 ∷ 2 ∷ 3 ∷ []) reconnect (5 ∷ []) (omega arith) (omega arith)
      (omega arith) refl

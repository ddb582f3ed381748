-- ===== src/ReadThread/Tests.antt =====
-- Runs of the model of src/common/TcpVCReadThread.{h,cpp}, and its theorem at a concrete input.
use tcpudp.Base.{ℕ, suc, ◌+◌, ◌<◌, ◌≡◌, refl, arith, List, [], ◌∷◌, ◌++◌, map, length, true, false}
use tcpudp.Bytes.{read, le_bytes, le_value}
use tcpudp.VcPacket.{data_packet}
use tcpudp.VcPacket.Message.{Message, payload_of, resend_of, missing, encode, encode_all}
use tcpudp.ReadThread.{ReadThread, process_loop, read_round, has_enough_data}
use tcpudp.ReadThread.Notices.{called, notice_blocks}

-- A packet type that is unknown ends the thread, and the callback is called.
abbrev fresh_reader : ReadThread
fresh_reader = record { buffer_vector = []; running = true; disconnected = 0 }

abbrev bad_bytes : List ℕ
bad_bytes = 9 ∷ 0 ∷ 0 ∷ 0 ∷ 0 ∷ 0 ∷ 0 ∷ 0 ∷ 0 ∷ 0 ∷ 0 ∷ []

unknown_type :
    read_round bad_bytes fresh_reader
    ≡ ([], record { buffer_vector = bad_bytes; running = false; disconnected = 1 })
unfolding read_round process_loop has_enough_data read le_value
unknown_type = refl

abbrev packets : List Message
packets = payload_of 4 (1 ∷ 2 ∷ []) ∷ resend_of 5 7 ∷ []

few_bytes : 18 + length (data_packet 5 []) < 522
unfolding data_packet le_bytes
few_bytes = omega arith

notice_blocks_example :
    let buffer = encode_all packets ++ (encode (missing (6 ∷ [])) ++ data_packet 5 []) in
    process_loop (suc (length buffer)) buffer ≡ record {
      calls = map called packets;
      buffer = encode (missing (6 ∷ [])) ++ data_packet 5 [];
      threw = false;
    }
notice_blocks_example =
    notice_blocks packets (6 ∷ []) (data_packet 5 [])
      ((omega arith, omega arith), ((omega arith, omega arith), tt))
      (omega arith, omega arith, (omega arith, tt)) few_bytes

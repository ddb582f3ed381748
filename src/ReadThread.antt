-- ===== src/ReadThread.antt =====
-- src/common/TcpVCReadThread.{h,cpp}: the older reader of a connection, which has a buffer and a thread
-- of its own. A callback is a call in the result.
pub mod Notices
mod Tests
use tcpudp.Base.{
  ℕ, zero, suc, ◌+◌, ◌*◌, Bool, true, false, List, [], ◌∷◌, ◌++◌, Option, none, some, ltb, leb,
  if◌then◌else◌, length, take, drop,
}
use tcpudp.Bytes.{field}
use tcpudp.VcPacket.{
  VcPacketType, data_type, resend_request, missing_notify, packet_type, vc_header_size,
  vc_min_data_packet_size, vc_min_resend_request_size, vc_min_missing_notify_size,
  vc_max_data_payload_size,
}
use tcpudp.VcPacket.Message.{read_ids}

-- The calls of `dataCallback`, `resendRequestCallback` and `missingNotifyCallback`.
pub data Callback : Type 0 where
  data_arrived : ℕ → List ℕ → Callback
  resend_wanted : ℕ → Callback
  ids_missing : List ℕ → Callback

-- What `hasEnoughData` returns, or that it throws.
pub data Enough : Type 0 where
  enough too_few thrown : Enough

abbrev enough_if : Bool → Enough
enough_if true = enough
enough_if false = too_few

unfoldable pub has_enough_data_for_data : List ℕ → Enough
has_enough_data_for_data buffer =
    if ltb (length buffer) vc_min_data_packet_size
    then too_few
    else if ltb vc_max_data_payload_size (field 9 2 buffer)
    then thrown
    else enough_if (leb (vc_min_data_packet_size + field 9 2 buffer) (length buffer))

unfoldable pub has_enough_data_for_missing_notify : List ℕ → Enough
has_enough_data_for_missing_notify buffer =
    if ltb (length buffer) vc_min_missing_notify_size
    then too_few
    else enough_if (leb (vc_header_size + 1 + field 9 1 buffer * 8) (length buffer))

unfoldable pub has_enough_data : List ℕ → Enough
has_enough_data buffer =
    if ltb (length buffer) vc_min_data_packet_size
    then too_few
    else elim (packet_type (field 0 1 buffer)) [
      | data_type ↦ has_enough_data_for_data buffer
      | resend_request ↦ enough_if (leb vc_min_resend_request_size (length buffer))
      | missing_notify ↦ has_enough_data_for_missing_notify buffer
      | _ ↦ thrown
    ]

-- The call and the number of bytes that are processed; `none` is an exception.
unfoldable pub process_data_buffer : List ℕ → Option (Callback × ℕ)
process_data_buffer buffer =
    let data_length = field 9 2 buffer in
    if ltb vc_max_data_payload_size data_length
    then none
    else some (
      data_arrived (field 1 8 buffer) (take data_length (drop vc_min_data_packet_size buffer)),
      vc_min_data_packet_size + data_length,
    )

unfoldable pub process_buffer : List ℕ → Option (Callback × ℕ)
process_buffer buffer = elim (packet_type (field 0 1 buffer)) [
  | data_type ↦ process_data_buffer buffer
  | resend_request ↦ some (resend_wanted (field 9 8 buffer), vc_min_resend_request_size)
  | missing_notify ↦
      let count = field 9 1 buffer in
      some (
        ids_missing (read_ids count (drop (vc_header_size + 1) buffer)),
        vc_header_size + 1 + count * 8,
      )
  | _ ↦ none
]

-- The calls, what is left in the buffer, and whether an exception ended the loop.
pub record Processed : Type 0 where
  pub calls : List Callback
  pub buffer : List ℕ
  pub threw : Bool

abbrev pub after_call : Callback → Processed → Processed
after_call x r = record r { calls = x ∷ r.calls }

-- Erasing the processed bytes; none are never processed.
abbrev pub after_packet : Option (Callback × ℕ) → List ℕ → (List ℕ → Processed) → Processed
after_packet none buffer next = record { calls = []; buffer = buffer; threw = true }
after_packet (some (x, n)) buffer next = after_call x (next (drop n buffer))

abbrev pub if_enough : Enough → List ℕ → (List ℕ → Processed) → Processed
if_enough enough buffer next = after_packet (process_buffer buffer) buffer next
if_enough too_few buffer next = record { calls = []; buffer = buffer; threw = false }
if_enough thrown buffer next = record { calls = []; buffer = buffer; threw = true }

-- `while (hasEnoughData(...))`: a round takes ten bytes at least.
unfoldable pub process_loop : ℕ → List ℕ → Processed
process_loop zero buffer = record { calls = []; buffer = buffer; threw = false }
process_loop (suc fuel) buffer =
    let next = process_loop fuel in if_enough (has_enough_data buffer) buffer next

pub record ReadThread : Type 0 where
  pub buffer_vector : List ℕ
  pub running : Bool
  -- how often `disconnectCallback` was called
  pub disconnected : ℕ

-- Both handlers of `run`, and the branch of a closed connection.
abbrev stopped : ReadThread → ReadThread
stopped t = record t { running = false; disconnected = t.disconnected + 1 }

abbrev pub after_loop : Processed → ReadThread → List Callback × ReadThread
after_loop r t =
    let t' : ReadThread = record t { buffer_vector = r.buffer } in
    if r.threw then (r.calls, stopped t') else (r.calls, t')

-- A round of `run`, by what `receive` put into the buffer: nothing when the connection is closed.
unfoldable pub read_round : List ℕ → ReadThread → List Callback × ReadThread
read_round [] t = ([], stopped t)
read_round (b ∷ bs) t =
    let buffer = t.buffer_vector ++ b ∷ bs in
    after_loop (process_loop (suc (length buffer)) buffer) t

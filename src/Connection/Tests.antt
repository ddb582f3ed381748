-- ===== src/Connection/Tests.antt =====
-- Runs of the model of src/common/TcpConnection.{h,cpp}, and its theorems at concrete inputs.
use tcpudp.Base.{
  ℕ, ◌+◌, ◌*◌, ◌≡◌, refl, List, [], ◌∷◌, none, some, true, false, if◌then◌else◌, ◌==◌,
}
use tcpudp.Base.Int.{ℤ, pos, negsuc}
use tcpudp.Connection.{
  TcpConnection, destroy, TcpInfo, linux, new_connection, disconnect, send_loop, send, receive,
  shut_down, closed, sample_runtime_info, refresh_runtime_info_if_stale,
}
use tcpudp.Connection.Closing.{
  Call, disconnects, receives, sends, life, closings, call, life_closes_once,
}
use tcpudp.Connection.Seqlock.{Seqlock, returned, start, Reach, torn, read_torn}

abbrev conn : TcpConnection
conn = new_connection 7

-- 3 bytes, then an error
abbrev short_writes : ℕ → ℤ
short_writes k = if k == 0 then pos 3 else negsuc 0

abbrev calls : List Call
calls = receives (pos 5) ∷ sends short_writes 9 ∷ disconnects ∷ receives (pos 4) ∷ []

calls-life : life calls conn ≡ shut_down 7 ∷ closed 7 ∷ []
unfolding life call send send_loop receive disconnect destroy
calls-life = refl

life_closes_once_example : closings (life calls (new_connection 7)) ≡ 1
life_closes_once_example = life_closes_once calls 7

-- The words of the n-th info are 10 n and 10 n + 1.
abbrev tens : ℕ → ℕ
tens n = 10 * n

abbrev units : ℕ → ℕ
units n = 10 * n + 1

abbrev first_state : Seqlock ℕ
first_state = start tens units

read_torn_example : Reach tens units first_state (torn tens units first_state)
read_torn_example = read_torn tens units first_state refl

torn-words : (torn tens units first_state).reader ≡ returned 1 10 1
torn-words = refl

abbrev kernel_info : TcpInfo
kernel_info = record {
  tcpi_snd_cwnd = 10;
  tcpi_snd_mss = 1448;
  tcpi_rtt = 20_000;
  tcpi_rto = 200_000;
  tcpi_unacked = 3;
  tcpi_retransmits = 1;
  tcpi_backoff = 2;
}

sampled-linux :
    let info = sample_runtime_info (linux (some kernel_info)) conn in
    (info.congestion_window_bytes ≡ 14_480)
    × (info.bytes_in_flight ≡ 4_344)
    × (info.is_in_exponential_backoff ≡ true)
unfolding sample_runtime_info
sampled-linux = (refl, refl, refl)

refreshed_after : (refresh_runtime_info_if_stale 249 250 (linux none) conn).1 ≡ false
unfolding refresh_runtime_info_if_stale
refreshed_after = refl

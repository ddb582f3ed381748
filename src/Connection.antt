-- ===== src/Connection.antt =====
-- src/common/TcpConnection.{h,cpp}: one TCP connection of a channel, as the threads of both ends use
-- it. What the system calls return and the clock are arguments; the mutex of `disconnect` makes it one
-- step.
pub mod Closing
pub mod Sending
pub mod Seqlock
mod Tests
use tcpudp.Base.{
  ℕ, zero, suc, ◌+◌, ◌-◌, ◌*◌, ◌%◌, ◌^◌, Bool, true, false, List, [], ◌∷◌, ◌++◌, Option, none, some,
  ltb, if◌then◌else◌, min,
}
use tcpudp.Base.Int.{ℤ, pos, negsuc}

-- `uint32_t`
abbrev pub u32_mod : ℕ
u32_mod = 2 ^ 32

pub record RuntimeInfo : Type 0 where
  pub supported : Bool
  pub valid : Bool
  pub is_in_exponential_backoff : Bool
  pub retransmission_indicator_is_bytes : Bool
  pub rto_us : ℕ
  pub smoothed_rtt_us : ℕ
  pub congestion_window_bytes : ℕ
  pub bytes_in_flight : ℕ
  pub retransmission_indicator : ℕ
  pub timeout_episodes : ℕ

abbrev pub no_info : RuntimeInfo
no_info = record {
  supported = false;
  valid = false;
  is_in_exponential_backoff = false;
  retransmission_indicator_is_bytes = false;
  rto_us = 0;
  smoothed_rtt_us = 0;
  congestion_window_bytes = 0;
  bytes_in_flight = 0;
  retransmission_indicator = 0;
  timeout_episodes = 0;
}

-- The fields of the kernel's `tcp_info` that the program reads.
pub record TcpInfo : Type 0 where
  pub tcpi_snd_cwnd : ℕ
  pub tcpi_snd_mss : ℕ
  pub tcpi_rtt : ℕ
  pub tcpi_rto : ℕ
  pub tcpi_unacked : ℕ
  pub tcpi_retransmits : ℕ
  pub tcpi_backoff : ℕ

-- Those of `tcp_connection_info` on macOS.
pub record TcpConnectionInfo : Type 0 where
  pub tcpi_snd_cwnd : ℕ
  pub tcpi_srtt : ℕ
  pub tcpi_rto : ℕ
  pub tcpi_snd_sbbytes : ℕ

-- The platform with what `getsockopt` returned there, `none` for an error.
pub data KernelInfo : Type 0 where
  windows : KernelInfo
  apple : Option TcpConnectionInfo → KernelInfo
  linux : Option TcpInfo → KernelInfo

pub record TcpConnection : Type 0 where
  pub connected : Bool
  -- `none` is -1
  pub socket_fd : Option ℕ
  pub has_disconnect_callback : Bool
  pub diag_send_in_flight : Bool
  pub diag_in_flight_message_id : ℕ
  pub diag_in_flight_start_ms : ℕ
  pub diag_last_send_completed_message_id : ℕ
  pub diag_last_send_end_ms : ℕ
  pub last_refresh_time : ℕ
  pub last_runtime_info : RuntimeInfo

abbrev pub new_connection : ℕ → TcpConnection
new_connection fd = record {
  connected = true;
  socket_fd = some fd;
  has_disconnect_callback = false;
  diag_send_in_flight = false;
  diag_in_flight_message_id = 0;
  diag_in_flight_start_ms = 0;
  diag_last_send_completed_message_id = 0;
  diag_last_send_end_ms = 0;
  last_refresh_time = 0;
  last_runtime_info = no_info;
}

unfoldable pub diag_mark_send_start : ℕ → ℕ → TcpConnection → TcpConnection
diag_mark_send_start id now c = record c {
  diag_in_flight_message_id = id;
  diag_in_flight_start_ms = now;
  diag_send_in_flight = true;
}

unfoldable pub diag_mark_send_end : ℕ → ℕ → TcpConnection → TcpConnection
diag_mark_send_end id now c = record c {
  diag_last_send_completed_message_id = id;
  diag_last_send_end_ms = now;
  diag_send_in_flight = false;
}

-- What a method does besides changing the object.
pub data Effect : Type 0 where
  shut_down : ℕ → Effect
  closed : ℕ → Effect
  called_back : Effect

abbrev pub shut_and_close : Option ℕ → List Effect
shut_and_close none = []
shut_and_close (some fd) = shut_down fd ∷ closed fd ∷ []

abbrev pub call_back : Bool → List Effect
call_back false = []
call_back true = called_back ∷ []

unfoldable pub disconnect : TcpConnection → TcpConnection × List Effect
disconnect c =
    if c.connected
    then (
      record c { connected = false; socket_fd = none },
      shut_and_close c.socket_fd ++ call_back c.has_disconnect_callback,
    )
    else (c, [])

-- The destructor.
abbrev close_left : Option ℕ → List Effect
close_left none = []
close_left (some fd) = closed fd ∷ []

unfoldable pub destroy : TcpConnection → List Effect
destroy c = close_left c.socket_fd

abbrev has_fd : Option ℕ → Bool
has_fd none = false
has_fd (some fd) = true

-- `connected.load() && socketFd != -1`
abbrev pub usable : TcpConnection → Bool
usable c = if c.connected then has_fd c.socket_fd else false

-- The object, the effects, and the number of bytes: sent, or returned.
abbrev pub Called : Type 0
Called = TcpConnection × List Effect × ℕ

abbrev pub fail : TcpConnection → ℕ → Called
fail c n = let (c', es) = disconnect c in (c', es, n)

-- By what `recv` returned; `static_cast<size_t>` of a negative number other than -1 wraps.
unfoldable pub received : ℤ → TcpConnection → Called
received (pos n) c = (c, [], n)
received (negsuc zero) c = fail c 0
received (negsuc (suc n)) c = (c, [], 2 ^ 64 - (n + 2))

unfoldable pub receive : ℤ → TcpConnection → Called
unfolding received
receive result c = elim (usable c) [ true ↦ received result c | false ↦ (c, [], 0) ]

-- `bytesSent <= 0` is 0.
abbrev pub positive_part : ℤ → ℕ
positive_part (pos n) = n
positive_part (negsuc n) = 0

-- The `while` of `send`: `results k` is what the call of `send(2)` in round `k` returns.
unfoldable pub send_loop : ℕ → (ℕ → ℤ) → ℕ → ℕ → ℕ → TcpConnection → Called
send_loop zero results k total size c = (c, [], total)
send_loop (suc fuel) results k total size c =
    let bytes_sent = positive_part (results k) in
    let rest = send_loop fuel results (k + 1) (total + bytes_sent) size c in
    if ltb total size then if ltb 0 bytes_sent then rest else fail c total else (c, [], total)

unfoldable pub send : (ℕ → ℤ) → ℕ → TcpConnection → Called
send results size c = elim (usable c) [
  | true ↦ send_loop size results 0 0 size c
  | false ↦ (c, [], 0)
]

abbrev sample_apple : Option TcpConnectionInfo → RuntimeInfo
sample_apple none = no_info
sample_apple (some t) = record no_info {
  supported = true;
  valid = true;
  congestion_window_bytes = t.tcpi_snd_cwnd;
  smoothed_rtt_us = (t.tcpi_srtt * 1000) % u32_mod;
  rto_us = (t.tcpi_rto * 1000) % u32_mod;
  bytes_in_flight = t.tcpi_snd_sbbytes;
}

abbrev sample_linux : Option TcpInfo → RuntimeInfo
sample_linux none = no_info
sample_linux (some t) = record no_info {
  supported = true;
  valid = true;
  congestion_window_bytes = (t.tcpi_snd_cwnd * t.tcpi_snd_mss) % u32_mod;
  smoothed_rtt_us = t.tcpi_rtt;
  rto_us = (t.tcpi_rto * 1000) % u32_mod;
  bytes_in_flight = (t.tcpi_unacked * t.tcpi_snd_mss) % u32_mod;
  timeout_episodes = t.tcpi_retransmits;
  is_in_exponential_backoff = ltb 1 t.tcpi_backoff;
}

abbrev sampled : KernelInfo → RuntimeInfo
sampled windows = no_info
sampled (apple t) = sample_apple t
sampled (linux t) = sample_linux t

unfoldable pub sample_runtime_info : KernelInfo → TcpConnection → RuntimeInfo
sample_runtime_info kernel c = if c.connected then sampled kernel else no_info

-- Whether the info was stale is returned.
unfoldable pub refresh_runtime_info_if_stale :
    ℕ → ℕ → KernelInfo → TcpConnection → TcpConnection × Bool
refresh_runtime_info_if_stale now interval kernel c =
    if ltb (now - c.last_refresh_time) interval then (c, false) else (
      record c { last_refresh_time = now; last_runtime_info = sample_runtime_info kernel c },
      true,
    )

-- ===== src/SendThread/Rate.antt =====
-- src/common/TcpVCSendThread.cpp: refreshConnRuntimeInfo and rateConnection.
use tcpudp.Base.{
  ℕ, zero, suc, ◌+◌, ◌-◌, ◌*◌, ◌/◌, ◌%◌, ◌^◌, ◌<◌, ◌≡◌, arith, List, [], ◌∷◌, Option, none, some,
  get_elem?, set, ltb, if◌then◌else◌,
}
use tcpudp.Base.Int.{ℤ, pos, negsuc}
use tcpudp.Connection.{TcpConnection, RuntimeInfo, u32_mod, refresh_runtime_info_if_stale}
use tcpudp.SendThread.State.{SendThread, Link, ConnSendStats, World, change_connection, link_alive}

abbrev pub tcp_runtime_refresh_ms : ℕ
tcp_runtime_refresh_ms = 250

abbrev refreshed_at : Option ℕ → ℕ
refreshed_at none = 0
refreshed_at (some t) = t

unfoldable pub refresh_conn_runtime_info : World → ℕ → SendThread → SendThread
refresh_conn_runtime_info w i s =
    let since = w.now - refreshed_at (get_elem? s.last_runtime_refresh i) in
    let s' : SendThread = record s { last_runtime_refresh = set s.last_runtime_refresh i w.now } in
    let refresh = λ (c : TcpConnection).
      (refresh_runtime_info_if_stale w.now tcp_runtime_refresh_ms (w.kernel i) c).0 in
    if link_alive (get_elem? s.connections i)
    then if ltb since tcp_runtime_refresh_ms then s else change_connection i refresh s'
    else s

-- `score` as the bit pattern of an `int`: the subtraction of an unsigned term wraps.
unfoldable pub score_pattern : RuntimeInfo → ℕ → ℕ
score_pattern info fail_count =
    (10_000
      + info.congestion_window_bytes / 200
      + 4 * u32_mod
      - info.smoothed_rtt_us / 200
      - info.bytes_in_flight / 200
      - (info.timeout_episodes * 200) % u32_mod
      - (fail_count % u32_mod * 200) % u32_mod)
    % u32_mod

-- `score > 0 ? score : 0`; a pattern with the sign bit is negative.
unfoldable pub score : RuntimeInfo → ℕ → ℕ
score info fail_count =
    let pattern = score_pattern info fail_count in if ltb pattern (2 ^ 31) then pattern else 0

-- `connIndex < stats.size() && stats[connIndex]`
abbrev pub fail_count_of : Option (Option ConnSendStats) → ℕ
fail_count_of none = 0
fail_count_of (some none) = 0
fail_count_of (some (some stats)) = stats.reenqueue_count

abbrev rate_connected : TcpConnection → ℕ → ℤ
rate_connected c fail_count =
    if c.connected
    then if c.last_runtime_info.is_in_exponential_backoff
      then negsuc 0
      else pos (score c.last_runtime_info fail_count)
    else negsuc 0

abbrev rate_link : Option TcpConnection → ℕ → ℤ
rate_link none fail_count = negsuc 0
rate_link (some c) fail_count = rate_connected c fail_count

abbrev rate_slot : Option Link → ℕ → ℤ
rate_slot none fail_count = negsuc 0
rate_slot (some link) fail_count = rate_link link.connection fail_count

-- The refresh changes nothing where the early returns are.
unfoldable pub rate_connection : World → ℕ → SendThread → ℤ × SendThread
rate_connection w i s =
    let s' = refresh_conn_runtime_info w i s in
    (rate_slot (get_elem? s'.connections i) (fail_count_of (get_elem? s.conn_send_stats i)), s')

-- The loop that fills `scores`.
unfoldable pub rate_all : World → ℕ → ℕ → SendThread → List ℤ × SendThread
rate_all w i zero s = ([], s)
rate_all w i (suc n) s =
    let (x, s') = rate_connection w i s in let (xs, s'') = rate_all w (i + 1) n s' in (x ∷ xs, s'')

-- A score is the number that the formula gives over the integers, and 0 if that is negative: nothing
-- wraps. Conditions: the 32-bit fields of the info are in their range, and the time-outs and the
-- failed sends are below five million each.
score_exact :
    (info : RuntimeInfo) (fail_count : ℕ)
    → info.congestion_window_bytes < 2 ^ 32
    → info.smoothed_rtt_us < 2 ^ 32
    → info.bytes_in_flight < 2 ^ 32
    → info.timeout_episodes < 5_000_000
    → fail_count < 5_000_000
    → score info fail_count
      ≡ 10_000
        + info.congestion_window_bytes / 200
        - (info.smoothed_rtt_us / 200
            + info.bytes_in_flight / 200
            + info.timeout_episodes * 200
            + fail_count * 200)
unfolding score score_pattern
score_exact info fail_count h1 h2 h3 h4 h5 =
    let e : (info.timeout_episodes * 200) % u32_mod ≡ info.timeout_episodes * 200 = omega arith in
    let f : (fail_count % u32_mod * 200) % u32_mod ≡ fail_count * 200 = omega arith in ground arith

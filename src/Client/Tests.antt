-- ===== src/Client/Tests.antt =====
-- Runs of the model of src/client/Client.{h,cpp}, and its theorems at concrete inputs.
use tcpudp.Base.{
  ℕ, ◌+◌, ◌≤◌, ◌≡◌, refl, arith, ◌∷◌, [], List, none, some, true, false, count, length, get_elem?,
  if◌then◌else◌, ◌==◌,
}
use tcpudp.Connection.{new_connection}
use tcpudp.VcSlots.{VcSlots, open_slots, get_dead_slots}
use tcpudp.VcSlots.Dead.{up_at}
use tcpudp.Client.{
  Client, Opening, teardown_vc, stop_watchdog, close_fds, prepare_vc, open_sockets, keep_socket,
  waste_id, start_watchdog, close_fd,
}
use tcpudp.Client.Prepare.{Prepared, prepare_all_or_none}
use tcpudp.Client.Reconnect.{
  Retry, reconnect_vc, delays_from, delay_at, reconnect_loop, next_delay, cleared,
  reconnect_backs_off,
}
use tcpudp.Client.Splice.{Pending, slot_begin, slot_finish, watchdog_round}
use tcpudp.Client.Stale.{stale_never_spliced}
use tcpudp.Client.Revive.{well, watchdog_revives}
use tcpudp.Client.UdpSocket.{start, bind_failure_closes_twice}

-- A client that has not been started.
abbrev idle_client : Client
idle_client = record {
  running = true;
  tcp_sockets = [];
  tcp_connection_ids = [];
  next_connection_id = 1;
  udp_socket = none;
  remote_udp_addr = 0;
  vc = none;
  watchdog_running = false;
  watchdog_joinable = false;
  reconnect_epoch = 0;
  closed_fds = [];
  binds = [];
  forwarded = [];
}

-- A socket that is connected, or not.
abbrev opening : ℕ → Opening
opening fd = record { created = some fd; connected = true; sent = true }

abbrev refused : ℕ → Opening
refused fd = record { created = some fd; connected = false; sent = true }

-- The second connection is refused: both sockets are closed.
prepare_fails : (prepare_vc 7 (opening 3 ∷ refused 4 ∷ []) idle_client).0.closed_fds ≡ 4 ∷ 3 ∷ []
unfolding prepare_vc open_sockets teardown_vc stop_watchdog close_fds keep_socket waste_id
prepare_fails = refl

prepare_all_or_none_example :
    Prepared
      (teardown_vc idle_client)
      (opening 3 ∷ refused 4 ∷ [])
      (prepare_vc 7 (opening 3 ∷ refused 4 ∷ []) idle_client)
prepare_all_or_none_example = prepare_all_or_none 7 (opening 3 ∷ refused 4 ∷ []) idle_client

-- The server refuses the first two attempts.
abbrev retry : ℕ → Retry
retry k = record {
  at_head = true;
  at_wait = true;
  after = true;
  openings = if k == 2 then opening 5 ∷ [] else refused 4 ∷ [];
}

third_attempt : (reconnect_vc 7 5 1000 retry idle_client).delays ≡ 3000 ∷ 1000 ∷ 2000 ∷ []
unfolding reconnect_vc reconnect_loop prepare_vc open_sockets teardown_vc stop_watchdog close_fds
    keep_socket waste_id start_watchdog cleared next_delay
third_attempt = refl

-- The schedule of five attempts with the default delay: 16 seconds are not in it.
five_delays : delays_from 1000 0 5 ≡ 3000 ∷ 1000 ∷ 2000 ∷ 4000 ∷ 8000 ∷ []
unfolding delays_from delay_at
five_delays = refl

reconnect_backs_off_example :
    let r = reconnect_vc 7 5 1000 retry idle_client in
    (r.delays ≡ delays_from 1000 0 (length r.delays))
    × (length r.delays ≤ 5)
    × (r.success ≡ true → (fds : List ℕ) × (r.client.vc ≡ some (open_slots fds true)))
reconnect_backs_off_example =
    reconnect_backs_off 7 5 1000 retry idle_client (omega arith, omega arith)

-- A client whose channel has the sockets 3 and 4, of which the first has failed.
abbrev half_dead : VcSlots
half_dead = record {
  opened = true;
  connections = none ∷ some (new_connection 4) ∷ [];
  has_disconnect_callback = true;
  stopped = false;
}

abbrev client : Client
client = record idle_client {
  tcp_sockets = 3 ∷ 4 ∷ [];
  tcp_connection_ids = 1 ∷ 2 ∷ [];
  next_connection_id = 3;
  vc = some half_dead;
}

abbrev begun : Client
begun = (slot_begin 7 (well 9) 0 client).0

abbrev new_socket : Pending
new_socket = record { slot = 0; fd = 9; epoch_at_start = 0; new_conn_id = 3 }

begins : slot_begin 7 (well 9) 0 client ≡ (begun, some new_socket)
unfolding slot_begin waste_id
begins = refl

stale_never_spliced_example :
    let c2 = (reconnect_vc 7 5 1000 retry begun).client in
    slot_finish new_socket c2 ≡ (close_fd 9 c2, false)
stale_never_spliced_example =
    stale_never_spliced 7 0 (well 9) client begun new_socket begins (omega arith) 5 1000 retry

watchdog_revives_example :
    let c' = watchdog_round 7 (λ slot. well (9 + slot)) client in
    (v' : VcSlots) × (c'.vc ≡ some v')
    × (get_dead_slots v' ≡ [])
    × ((i : ℕ)
        → up_at (get_elem? half_dead.connections i) ≡ true
        → get_elem? v'.connections i ≡ get_elem? half_dead.connections i)
    × (c'.closed_fds ≡ client.closed_fds)
watchdog_revives_example = watchdog_revives 7 (λ slot. 9 + slot) client half_dead refl refl

abbrev prepared : Client
prepared = (prepare_vc 7 (opening 3 ∷ []) idle_client).0

prepares : prepare_vc 7 (opening 3 ∷ []) (record idle_client { running = true }) ≡ (prepared, true)
unfolding prepare_vc open_sockets teardown_vc stop_watchdog close_fds keep_socket start_watchdog
prepares = refl

bind_failure_closes_twice_example :
    let c2 =
      start 7
        (opening 3 ∷ [])
        (record { created = some 8; bound = false; receives = [] })
        idle_client in
    (c2.vc ≡ none)
    × (c2.tcp_sockets ≡ [])
    × (c2.udp_socket ≡ none)
    × (count 8 prepared.closed_fds + 2 ≤ count 8 c2.closed_fds)
bind_failure_closes_twice_example =
    bind_failure_closes_twice 7 8 (opening 3 ∷ []) [] idle_client prepared prepares

-- ===== src/Client/UdpSocket.antt =====
-- src/client/Client.cpp, PrepareUdpSocket and Start.
use tcpudp.Base.{
  ℕ, ◌+◌, ◌≤◌, ◌≡◌, refl, ap, ◌∙◌, arith, Bool, true, false, List, [], ◌∷◌, ◌++◌, Option, none,
  some, if◌then◌else◌, count, count-append,
}
use tcpudp.VcSlots.{VcSlots}
use tcpudp.Client.{
  Client, Opening, close_fd, close_fds, release, teardown_vc, stop_watchdog, prepare_vc,
}

-- What a call of `RecvUdpData` returns.
pub data UdpReceive : Type 0 where
  receive_error socket_closed : UdpReceive
  datagram : ℕ → List ℕ → UdpReceive

abbrev pub vc_open : Option VcSlots → Bool
vc_open none = false
vc_open (some v) = v.opened

-- The loop of `PrepareUdpSocket`, until `running` is cleared or the socket is closed.
unfoldable pub udp_loop : List UdpReceive → Client → Client
udp_loop [] c = c
udp_loop (receive_error ∷ rs) c = udp_loop rs c
udp_loop (socket_closed ∷ rs) c = c
udp_loop (datagram source bytes ∷ rs) c =
    let forwarded = if vc_open c.vc then c.forwarded ++ bytes ∷ [] else c.forwarded in
    udp_loop rs (record c { remote_udp_addr = source; forwarded = forwarded })

pub record UdpOpening : Type 0 where
  pub created : Option ℕ
  pub bound : Bool
  pub receives : List UdpReceive

abbrev bind_udp : UdpOpening → Option ℕ → Client → Client × Bool
bind_udp u none c = (c, false)
bind_udp u (some fd) c = if u.bound then (udp_loop u.receives c, true) else (close_fd fd c, false)

unfoldable pub prepare_udp_socket : UdpOpening → Client → Client × Bool
prepare_udp_socket u c = bind_udp u u.created (record c { udp_socket = u.created })

abbrev close_udp : Option ℕ → Client → Client
close_udp none c = c
close_udp (some fd) c = close_fd fd (record c { udp_socket = none })

abbrev pub after_udp : Client × Bool → Client
after_udp (c, true) = c
after_udp (c, false) = let c' = teardown_vc c in close_udp c'.udp_socket c'

abbrev pub after_vc : UdpOpening → Client × Bool → Client
after_vc u (c, true) = after_udp (prepare_udp_socket u c)
after_vc u (c, false) = teardown_vc c

unfoldable pub start : ℕ → List Opening → UdpOpening → Client → Client
start id openings u c = after_vc u (prepare_vc id openings (record c { running = true }))

teardown-clears :
    (v : Option VcSlots) (c : Client)
    → c.vc ≡ v
    → ((release v c).vc ≡ none)
      × ((release v c).tcp_sockets ≡ [])
      × ((release v c).udp_socket ≡ c.udp_socket)
      × ((fds : List ℕ) × ((release v c).closed_fds ≡ c.closed_fds ++ fds))
unfolding close_fds
teardown-clears none c e = (e, refl, refl, (_, refl))
teardown-clears (some v) c e = (refl, refl, refl, (_, refl))

close_udp-some :
    (fd : ℕ) (o : Option ℕ) (c : Client)
    → o ≡ some fd
    → close_udp o c ≡ close_fd fd (record c { udp_socket = none })
close_udp-some fd o c e = ap (λ o'. close_udp o' c) e

-- When the channel is ready and the UDP socket is created but cannot be bound, `Start` leaves no channel, no TCP
-- sockets and no UDP socket, and has closed the descriptor of the UDP socket at least twice.
pub bind_failure_closes_twice :
    (id fd : ℕ) (openings : List Opening) (rs : List UdpReceive) (c c1 : Client)
    → prepare_vc id openings (record c { running = true }) ≡ (c1, true)
    → let c2 = start id openings (record { created = some fd; bound = false; receives = rs }) c in
      (c2.vc ≡ none)
      × (c2.tcp_sockets ≡ [])
      × (c2.udp_socket ≡ none)
      × (count fd c1.closed_fds + 2 ≤ count fd c2.closed_fds)
unfolding start prepare_udp_socket teardown_vc stop_watchdog
bind_failure_closes_twice id fd openings rs c c1 e =
    let u : UdpOpening = record { created = some fd; bound = false; receives = rs } in
    let opened = stop_watchdog (close_fd fd (record c1 { udp_socket = some fd })) in
    let torn = release opened.vc opened in
    let (v, s, udp, (fds, f)) = teardown-clears opened.vc opened refl in
    let whole : start id openings u c ≡ close_fd fd (record torn { udp_socket = none }) =
      ap (after_vc u) e ∙ close_udp-some fd torn.udp_socket torn udp in
    let first = count-append fd c1.closed_fds (fd ∷ []) in
    let second = count-append fd (c1.closed_fds ++ fd ∷ []) fds in
    let third = count-append fd torn.closed_fds (fd ∷ []) in
    let same : count fd (fd ∷ []) ≡ 1 = ground arith in
    (
      ap (λ (c' : Client). c'.vc) whole ∙ v,
      ap (λ (c' : Client). c'.tcp_sockets) whole ∙ s,
      ap (λ (c' : Client). c'.udp_socket) whole,
      omega (
        arith,
        ap (λ (c' : Client). count fd c'.closed_fds) whole,
        ap (count fd) f,
        first,
        second,
        third,
        same,
      ),
    )

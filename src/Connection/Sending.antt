-- ===== src/Connection/Sending.antt =====
-- `TcpConnection::send` of src/common/TcpConnection.cpp: the loop over partial writes.
use tcpudp.Base.{ℕ, zero, suc, ◌+◌, ◌≤◌, ◌≡◌, refl, arith, true, [], ltb, inl, inr, Bool-cases, ◌⊎◌}
use tcpudp.Base.Int.{ℤ}
use tcpudp.Connection.{TcpConnection, Called, positive_part, disconnect, send_loop, send, usable}

-- Fuel for the bytes that are left is enough: more changes nothing.
send_loop-fuel :
    (fuel more : ℕ) (results : ℕ → ℤ) (k total size : ℕ) (c : TcpConnection)
    → size ≤ total + fuel
    → send_loop (fuel + more) results k total size c ≡ send_loop fuel results k total size c
unfolding send_loop
send_loop-fuel zero zero results k total size c h = refl
send_loop-fuel zero (suc more) results k total size c h =
    let e : 0 + suc more ≡ suc more = omega arith in rw e (ground arith)
send_loop-fuel (suc fuel) more results k total size c h =
    let e : suc fuel + more ≡ suc (fuel + more) = omega arith in
    rw e (
      ground (
        arith,
        send_loop-fuel fuel more results (k + 1) (total + positive_part (results k)) size c,
      ))

-- The loop ends with all bytes handed over and the object as it was, or with the object
-- disconnected and bytes missing.
abbrev pub Sent : ℕ → TcpConnection → Called → Type 0
Sent size c r =
    ((size ≤ r.2) × (r.0 ≡ c) × (r.1 ≡ []))
    ⊎ ((suc r.2 ≤ size) × (r.0 ≡ (disconnect c).0) × (r.1 ≡ (disconnect c).1))

send_loop-Sent :
    (fuel : ℕ) (results : ℕ → ℤ) (k total size : ℕ) (c : TcpConnection)
    → size ≤ total + fuel
    → Sent size c (send_loop fuel results k total size c)
unfolding send_loop
send_loop-Sent zero results k total size c h = inl (omega arith, refl, refl)
send_loop-Sent (suc fuel) results k total size c h = elim (Bool-cases (ltb total size)) [
  | inl more ↦ elim (Bool-cases (ltb 0 (positive_part (results k)))) [
    | inl some_sent ↦
        rw (more, some_sent, send_loop)
          (send_loop-Sent fuel results (k + 1) (total + positive_part (results k)) size c
            (ground arith))
    | inr none_sent ↦ rw (more, none_sent, send_loop) (inr (ground arith, refl, refl))
  ]
  | inr done ↦ rw (done, send_loop) (inl (ground arith, refl, refl))
]

-- `send` on a usable connection ends whatever the system calls return: all bytes
-- were handed to the socket and nothing else happened, or some are missing and the connection is
-- disconnected. More rounds than there are bytes are never needed.
send_total :
    (results : ℕ → ℤ) (size more : ℕ) (c : TcpConnection)
    → usable c ≡ true
    → Sent size c (send results size c)
      × (send_loop (size + more) results 0 0 size c ≡ send results size c)
unfolding send
send_total results size more c h = (
  rw (h, send) (send_loop-Sent size results 0 0 size c (omega arith)),
  rw (h, send) (send_loop-fuel size more results 0 0 size c (omega arith)),
)

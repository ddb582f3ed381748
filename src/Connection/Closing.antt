-- ===== src/Connection/Closing.antt =====
-- The descriptor of a src/common/TcpConnection.cpp over the life of the object.
use tcpudp.Base.{ℕ, zero, suc, ◌+◌, ◌≡◌, ◌∙◌, arith, List, [], ◌∷◌, ◌++◌, Option, none, some}
use tcpudp.Base.Int.{ℤ, pos, negsuc}
use tcpudp.Connection.{
  TcpConnection, KernelInfo, Effect, shut_down, closed, called_back, disconnect, destroy,
  positive_part, received, receive, send_loop, send, refresh_runtime_info_if_stale, new_connection,
}

-- The calls of the threads on one object, in the order in which they take effect.
pub data Call : Type 0 where
  disconnects : Call
  receives : ℤ → Call
  sends : (ℕ → ℤ) → ℕ → Call
  refreshes : ℕ → ℕ → KernelInfo → Call

unfoldable pub call : Call → TcpConnection → TcpConnection × List Effect
call disconnects c = disconnect c
call (receives result) c = let (c', es, n) = receive result c in (c', es)
call (sends results size) c = let (c', es, n) = send results size c in (c', es)
call (refreshes now interval kernel) c =
    ((refresh_runtime_info_if_stale now interval kernel c).0, [])

-- The calls, then the destructor.
unfoldable pub life : List Call → TcpConnection → List Effect
life [] c = destroy c
life (x ∷ xs) c = let (c', es) = call x c in es ++ life xs c'

-- How often a descriptor is closed.
unfoldable pub closings : List Effect → ℕ
closings [] = 0
closings (shut_down fd ∷ es) = closings es
closings (closed fd ∷ es) = suc (closings es)
closings (called_back ∷ es) = closings es

closings-append : (xs ys : List Effect) → closings (xs ++ ys) ≡ closings xs + closings ys
unfolding closings
closings-append [] ys = omega arith
closings-append (shut_down fd ∷ xs) ys = closings-append xs ys
closings-append (closed fd ∷ xs) ys = omega (arith, closings-append xs ys)
closings-append (called_back ∷ xs) ys = closings-append xs ys

abbrev open_fds : Option ℕ → ℕ
open_fds none = 0
open_fds (some fd) = 1

-- A connection whose descriptor is open, or closed once.
abbrev Balanced : TcpConnection → TcpConnection × List Effect → Type 0
Balanced c r = closings r.1 + open_fds r.0.socket_fd ≡ open_fds c.socket_fd

disconnect-Balanced : (c : TcpConnection) → Balanced c (disconnect c)
unfolding disconnect closings
disconnect-Balanced c = ground arith

send_loop-Balanced :
    (fuel : ℕ) (results : ℕ → ℤ) (k total size : ℕ) (c : TcpConnection)
    → let r = send_loop fuel results k total size c in Balanced c (r.0, r.1)
unfolding send_loop closings
send_loop-Balanced zero results k total size c = omega arith
send_loop-Balanced (suc fuel) results k total size c = ground (
  arith,
  disconnect-Balanced c,
  send_loop-Balanced fuel results (k + 1) (total + positive_part (results k)) size c,
)

received-Balanced :
    (result : ℤ) (c : TcpConnection) → let r = received result c in Balanced c (r.0, r.1)
unfolding received closings
received-Balanced (pos n) c = omega arith
received-Balanced (negsuc zero) c = disconnect-Balanced c
received-Balanced (negsuc (suc n)) c = omega arith

call-Balanced : (x : Call) (c : TcpConnection) → Balanced c (call x c)
unfolding call send receive refresh_runtime_info_if_stale closings
call-Balanced disconnects c = disconnect-Balanced c
call-Balanced (receives result) c = ground (arith, received-Balanced result c)
call-Balanced (sends results size) c = ground (arith, send_loop-Balanced size results 0 0 size c)
call-Balanced (refreshes now interval kernel) c = ground arith

life-closings :
    (calls : List Call) (c : TcpConnection) → closings (life calls c) ≡ open_fds c.socket_fd
unfolding life destroy closings
life-closings [] c = ground arith
life-closings (x ∷ xs) c =
    closings-append (call x c).1 (life xs (call x c).0)
    ∙ omega (arith, call-Balanced x c, life-closings xs (call x c).0)

-- Whatever is called on a new connection, in any order and however often, its descriptor has been
-- closed exactly once when the object is destroyed.
pub life_closes_once : (calls : List Call) (fd : ℕ) → closings (life calls (new_connection fd)) ≡ 1
life_closes_once calls fd = life-closings calls (new_connection fd)

-- ===== src/Socket.antt =====
-- src/common/Socket.cpp: how the results of the system calls become those that the threads test. What
-- the system returns is an argument.
use tcpudp.Base.{ℕ}

-- `errno`, or what stands for it on Windows.
pub data Errno : Type 0 where
  eagain ewouldblock eintr other_error : Errno

pub data SendCall : Type 0 where
  transferred : ℕ → SendCall
  failed : Errno → SendCall

-- `SOCKET_ERROR_WOULD_BLOCK`, `SOCKET_ERROR_INTERRUPTED` and `SOCKET_ERROR_CLOSED` are negative and
-- differ, so that a result is one of these or a number of bytes.
pub data SendResult : Type 0 where
  wrote : ℕ → SendResult
  would_block interrupted connection_closed : SendResult

abbrev send_error : Errno → SendResult
send_error eagain = would_block
send_error ewouldblock = would_block
send_error eintr = interrupted
send_error other_error = connection_closed

abbrev pub send_tcp_direct : SendCall → SendResult
send_tcp_direct (transferred n) = wrote n
send_tcp_direct (failed e) = send_error e

-- ===== src/Echo/Handlers.antt =====
-- tcpHandle and udpHandle of server.c. What the calls give for one request comes with the request.
use code_strudy.Prelude.{ℕ, suc, Bool, ◌&&◌, List, [], ◌∷◌, ◌++◌, ltb, if◌then◌else◌, take}
use code_strudy.CString.{Bytes}

-- A waiting connection: does `accept` give it, does `read` not fail, and what the client has sent.
pub record Connection : Type 0 where
  pub accepted : Bool
  pub readable : Bool
  pub sent : Bytes

-- A waiting datagram: does `recvfrom` not fail, does `sendto` send all, and the bytes.
pub record Datagram : Type 0 where
  pub received : Bool
  pub echoed : Bool
  pub sent : Bytes

pub data Request : Type 0 where
  connection : Connection → Request
  datagram : Datagram → Request

pub data Reply : Type 0 where
  tcp_reply : Bytes → Reply
  udp_reply : Bytes → Reply

-- The descriptors that the process has open, and what has been sent so far.
pub record Process : Type 0 where
  pub open_fds : ℕ
  pub replies : List Reply

pub data Outcome : Type 0 where
  running : Process → Outcome
  exited : List Reply → Outcome

abbrev pub buf_size : ℕ
buf_size = 512

-- One `read` takes what the buffer holds, at most.
abbrev pub tcp_echo : Connection → Reply
tcp_echo c = tcp_reply (take buf_size c.sent)

abbrev pub udp_echo : Datagram → Reply
udp_echo d = udp_reply (take buf_size d.sent)

-- `limit` is the number of descriptors that a process may have. The one that `accept` gives is not
-- closed; the result of `write` is not looked at.
unfoldable pub tcp_handle : ℕ → Connection → Process → Outcome
tcp_handle limit c p =
    if c.accepted && ltb p.open_fds limit
    then if c.readable
      then running (record { open_fds = suc p.open_fds; replies = p.replies ++ tcp_echo c ∷ [] })
      else exited p.replies
    else exited p.replies

unfoldable pub udp_handle : Datagram → Process → Outcome
udp_handle d p =
    if d.received
    then if d.echoed
      then running (record p { replies = p.replies ++ udp_echo d ∷ [] })
      else exited p.replies
    else exited p.replies

-- fd == tcpFd ? tcpHandle(fd) : udpHandle(fd)
unfoldable pub handle : ℕ → Request → Process → Outcome
unfolding tcp_handle udp_handle
handle limit (connection c) p = tcp_handle limit c p
handle limit (datagram d) p = udp_handle d p

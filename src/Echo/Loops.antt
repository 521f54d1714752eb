-- ===== src/Echo/Loops.antt =====
-- selectServer and epollServer of server.c. A loop runs over what
-- its call returns, one time after the other.
use code_strudy.Prelude.{ℕ, suc, Bool, ◌&&◌, List, [], ◌∷◌, ◌==◌, if◌then◌else◌}
use code_strudy.Echo.Handlers.{
  Connection, Datagram, Request, Process, Outcome, running, exited, tcp_handle, udp_handle, handle,
}

-- What one call returns: -1 with EINTR, -1 otherwise, or some events.
pub data Wait (E : Type 0) : Type 0 where
  interrupted : Wait E
  failed : Wait E
  ready : E → Wait E

-- What `select` returns: the number of ready descriptors, FD_ISSET of tcpFd and of udpFd, and what
-- waits at the two.
pub record Selected : Type 0 where
  pub count : ℕ
  pub tcp_set : Bool
  pub udp_set : Bool
  pub tcp_waits : Connection
  pub udp_waits : Datagram

unfoldable pub select_round : ℕ → Selected → Process → Outcome
unfolding tcp_handle udp_handle
select_round limit s p =
    if s.count == 0
    then running p
    else if s.tcp_set
    then tcp_handle limit s.tcp_waits p
    else if s.udp_set
    then udp_handle s.udp_waits p
    else exited p.replies

unfoldable pub select_server : ℕ → List (Wait Selected) → Process → Outcome
unfolding select_round
select_server limit [] p = running p
select_server limit (interrupted ∷ ws) p = select_server limit ws p
select_server limit (failed ∷ ws) p = exited p.replies
select_server limit (ready s ∷ ws) p = elim (select_round limit s p) [
  | running q ↦ select_server limit ws q
  | exited replies ↦ exited replies
]

-- An entry of evList: is EPOLLIN set, and what waits at data.fd.
pub record EpollEvent : Type 0 where
  pub input : Bool
  pub request : Request

-- for (int i = 0; i < ready; i++)
unfoldable pub epoll_events : ℕ → List EpollEvent → Process → Outcome
unfolding handle
epoll_events limit [] p = running p
epoll_events limit (e ∷ es) p = elim (if e.input then handle limit e.request p else running p) [
  | running q ↦ epoll_events limit es q
  | exited replies ↦ exited replies
]

unfoldable pub epoll_loop : ℕ → List (Wait (List EpollEvent)) → Process → Outcome
unfolding epoll_events
epoll_loop limit [] p = running p
epoll_loop limit (interrupted ∷ ws) p = epoll_loop limit ws p
epoll_loop limit (failed ∷ ws) p = exited p.replies
epoll_loop limit (ready es ∷ ws) p = elim (epoll_events limit es p) [
  | running q ↦ epoll_loop limit ws q
  | exited replies ↦ exited replies
]

-- The results of epoll_create and of the two calls of epoll_ctl; eFd is one more descriptor.
unfoldable pub epoll_server :
    Bool → Bool → Bool → ℕ → List (Wait (List EpollEvent)) → Process → Outcome
unfolding epoll_loop
epoll_server created tcp_added udp_added limit ws p =
    if created
    then if tcp_added && udp_added
      then epoll_loop limit ws (record p { open_fds = suc p.open_fds })
      else exited p.replies
    else exited p.replies

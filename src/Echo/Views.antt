-- ===== src/Echo/Views.antt =====
-- What waits at the sockets at a time, and what epoll_wait returns then.
use code_strudy.Echo.Loops.{ready, EpollEvent, Wait}
use code_strudy.Echo.Handlers.{
  datagram, connection, udp_echo, tcp_echo, Reply, Process, Datagram, Connection,
}
use code_strudy.Prelude.{ℕ, ◌+◌, ◌≡◌, true, Option, none, some, List, [], ◌∷◌, ◌++◌}

-- What waits when a call returns: at most one request at each of the two sockets.
pub record Round : Type 0 where
  pub tcp : Option Connection
  pub udp : Option Datagram

-- Calls on the request do not fail, but for want of descriptors.
pub record IsSound (r : Round) : Type 0 where
  pub tcp_sound : (c : Connection) → r.tcp ≡ some c → (c.accepted ≡ true) × (c.readable ≡ true)
  pub udp_sound : (d : Datagram) → r.udp ≡ some d → (d.received ≡ true) × (d.echoed ≡ true)

unfoldable pub tcp_events : Option Connection → List EpollEvent
tcp_events none = []
tcp_events (some c) = record { input = true; request = connection c } ∷ []

unfoldable pub udp_events : Option Datagram → List EpollEvent
udp_events none = []
udp_events (some d) = record { input = true; request = datagram d } ∷ []

-- What epoll_wait returns then: the sockets that are ready, none of them at a timeout.
unfoldable pub epoll_view : Round → Wait (List EpollEvent)
unfolding tcp_events udp_events
epoll_view r = ready (tcp_events r.tcp ++ udp_events r.udp)

unfoldable pub tcp_part : Option Connection → List Reply
tcp_part none = []
tcp_part (some c) = tcp_echo c ∷ []

unfoldable pub udp_part : Option Datagram → List Reply
udp_part none = []
udp_part (some d) = udp_echo d ∷ []

-- The answers to a run of rounds.
unfoldable pub answers : List Round → List Reply
unfolding tcp_part udp_part
answers [] = []
answers (r ∷ rs) = tcp_part r.tcp ++ (udp_part r.udp ++ answers rs)

unfoldable pub tcp_one : Option Connection → ℕ
tcp_one none = 0
tcp_one (some c) = 1

-- The number of connections in a run of rounds.
unfoldable pub connections : List Round → ℕ
unfolding tcp_one
connections [] = 0
connections (r ∷ rs) = tcp_one r.tcp + connections rs

unfoldable pub after_round : Round → Process → Process
unfolding tcp_one tcp_part udp_part
after_round r p = record {
  open_fds = p.open_fds + tcp_one r.tcp;
  replies = p.replies ++ (tcp_part r.tcp ++ udp_part r.udp);
}

-- ===== src/Echo/Rounds.antt =====
-- The loop over epoll, and the descriptors that it leaves open.
use code_strudy.Echo.Loops.{epoll_loop, epoll_events}
use code_strudy.Echo.Handlers.{
  exited, udp_echo, tcp_echo, running, Reply, Process, Datagram, Connection,
}
use code_strudy.Prelude.{
  ℕ, ◌+◌, ◌≤◌, ◌<◌, ◌≡◌, refl, inl, inr, Option, none, some, List, [], ◌∷◌, ◌++◌, map, append-nil,
  append_assoc, arith, ltb, Bool-cases, Option-cases, All,
}
use code_strudy.Echo.Views.{
  Round, IsSound, tcp_events, udp_events, epoll_view, answers, tcp_one, connections, after_round,
}

epoll_events-views :
    (limit : ℕ) (r : Round) (c : Option Connection) (d : Option Datagram) (p : Process)
    → r.tcp ≡ c
    → r.udp ≡ d
    → IsSound r
    → p.open_fds + tcp_one c ≤ limit
    → epoll_events limit (tcp_events c ++ udp_events d) p
      ≡ running (after_round (record { tcp = c; udp = d }) p)
unfolding epoll_events tcp_events udp_events after_round tcp_one
epoll_events-views limit r none none p ec ed s le = ground (arith, append-nil p.replies)
epoll_events-views limit r none (some d) p ec ed s le = ground (arith, s.udp_sound d ed)
epoll_events-views limit r (some c) none p ec ed s le = ground (arith, s.tcp_sound c ec)
epoll_events-views limit r (some c) (some d) p ec ed s le = ground (
  arith,
  s.tcp_sound c ec,
  s.udp_sound d ed,
  append_assoc p.replies (tcp_echo c ∷ []) (udp_echo d ∷ []),
)

-- The process of the loop over epoll after the rounds; its connections are all still open.
pub epoll_end : List Round → Process → Process
epoll_end rs p = record {
  open_fds = p.open_fds + connections rs;
  replies = p.replies ++ answers rs;
}

epoll_events-full :
    (limit : ℕ) (r : Round) (c : Connection) (p : Process)
    → r.tcp ≡ some c
    → limit ≤ p.open_fds
    → epoll_events limit (tcp_events r.tcp ++ udp_events r.udp) p ≡ exited p.replies
unfolding epoll_events tcp_events
epoll_events-full limit r c p e le = ground arith

-- Over rounds of sound requests, with more connections among them than the process has free
-- descriptors, the loop over epoll ends by an error exit.
pub epoll_loop_leaks :
    (limit : ℕ) (rs : List Round) (p : Process)
    → All IsSound rs
    → p.open_fds ≤ limit
    → limit < p.open_fds + connections rs
    → (replies : List Reply) × (epoll_loop limit (map epoll_view rs) p ≡ exited replies)
unfolding epoll_loop epoll_view connections
epoll_loop_leaks limit [] p s le lt = absurd (omega arith)
epoll_loop_leaks limit (r ∷ rs) p s le lt =
    elim (Bool-cases (ltb limit (p.open_fds + tcp_one r.tcp))) [
      | inl full ↦ elim (Option-cases r.tcp) [
        | inl no_tcp ↦ ground (arith, full)
        | inr (c, waits) ↦
            let over : limit ≤ p.open_fds = unfold tcp_one in ground (arith, full, waits) in
            (p.replies, rw (epoll_events-full limit r c p waits over, epoll_loop))
      ]
      | inr room ↦
          let fits : p.open_fds + tcp_one r.tcp ≤ limit = ground (arith, room) in
          let one = epoll_events-views limit r r.tcp r.udp p refl refl s.0 fits in
          let (replies, ends) =
            epoll_loop_leaks limit rs (after_round r p) s.1 (unfold after_round in omega arith)
              (unfold after_round in omega arith) in
          (replies, rw (one, epoll_loop) ends)
    ]

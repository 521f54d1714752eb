-- ===== src/Echo/Starvation.antt =====
-- The loop over select serves TCP first.
use code_strudy.Echo.Handlers.{tcp_echo, running, Process}
use code_strudy.Echo.Loops.{select_round, ready, select_server, Selected}
use code_strudy.Prelude.{
  ℕ, suc, ◌+◌, ◌≤◌, ◌≡◌, ◌∙◌, ◌≢◌, true, List, [], ◌∷◌, ◌++◌, map, append-nil, append_assoc, arith,
  length, All,
}

-- A connection waits at each return of select; whether a datagram waits does not matter.
pub record IsBusy (s : Selected) : Type 0 where
  pub some_ready : s.count ≢ 0
  pub tcp_ready : s.tcp_set ≡ true
  pub sound : (s.tcp_waits.accepted ≡ true) × (s.tcp_waits.readable ≡ true)

-- When a sound connection waits at each return of select, and there are descriptors enough, the
-- loop answers the connections and no datagram, whether one waits or not.
pub select_server_starves :
    (limit : ℕ) (ss : List Selected) (p : Process)
    → All IsBusy ss
    → p.open_fds + length ss ≤ limit
    → select_server limit (map ready ss) p
      ≡ running (record {
        open_fds = p.open_fds + length ss;
        replies = p.replies ++ map (λ s. tcp_echo s.tcp_waits) ss;
      })
unfolding select_server
select_server_starves limit [] p b le = ground (arith, append-nil p.replies)
select_server_starves limit (s ∷ ss) p b le =
    let q : Process = record {
      open_fds = suc p.open_fds;
      replies = p.replies ++ tcp_echo s.tcp_waits ∷ [];
    } in
    let one : select_round limit s p ≡ running q =
      unfold select_round in ground (arith, b.0.some_ready, b.0.tcp_ready, b.0.sound) in
    rw (one, select_server)
      (select_server_starves limit ss q b.1 (omega arith)
        ∙ ground (
          arith,
          append_assoc p.replies (tcp_echo s.tcp_waits ∷ []) (map (λ t. tcp_echo t.tcp_waits) ss),
        ))

-- ===== src/Transfer/PosixTests.antt =====
-- Requests and the server of practice/52.2, and the theorems at them.
use code_strudy.Prelude.{◌≡◌, refl, true, false, List, [], ◌∷◌}
use code_strudy.Runs.{run}
use code_strudy.Transfer.Mqueue.{
  forks, init, Move, starts, client_sends, receives, child_exits, handler_runs, step,
}

-- Two requests are taken, and the second fork fails; a third one waits, and no server starts again.
abbrev busy : List Move
busy =
    starts true
    ∷ client_sends 4
    ∷ client_sends 5
    ∷ client_sends 6
    ∷ receives
    ∷ forks true
    ∷ child_exits
    ∷ handler_runs
    ∷ receives
    ∷ forks false
    ∷ starts true
    ∷ []

busy_ends : run (step 10) busy init ≡ record {
  running = false;
  queue = true;
  sent = 4 ∷ 5 ∷ 6 ∷ [];
  waiting = 6 ∷ [];
  received = [];
  handed = 4 ∷ [];
  dropped = 5 ∷ [];
  children = 0;
  zombies = 0;
  pending = false;
}
unfolding run step init
busy_ends = refl

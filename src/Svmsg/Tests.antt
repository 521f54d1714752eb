-- ===== src/Svmsg/Tests.antt =====
-- Schedules of the server of routines/46.7.svmsg, and the theorems at them.
use code_strudy.Prelude.{◌≡◌, refl, true, false, List, [], ◌∷◌}
use code_strudy.Runs.{run}
use code_strudy.Svmsg.Server.{
  hand_on, forks, spinning, ended, init, Move, client_sends, receives, child_exits, other_signal,
  handler_starts, handler_waits, leave, receive_one, reap_one, is_receiving, is_handling, step,
}
use code_strudy.Svmsg.Serving.{IsServing, run-IsServing}

-- Two children exit before the handler starts: one signal, and one zombie that stays.
abbrev two_exits : List Move
two_exits =
    client_sends 4
    ∷ client_sends 5
    ∷ client_sends 6
    ∷ receives
    ∷ forks true
    ∷ receives
    ∷ forks true
    ∷ child_exits
    ∷ child_exits
    ∷ handler_starts
    ∷ handler_waits
    ∷ handler_starts
    ∷ receives
    ∷ forks false
    ∷ []

two_exits_end : run step two_exits init ≡ record {
  doing = ended;
  queue = false;
  sent = 4 ∷ 5 ∷ 6 ∷ [];
  waiting = [];
  received = [];
  handed = 4 ∷ 5 ∷ [];
  lost = 6 ∷ [];
  children = 0;
  zombies = 1;
  pending = false;
  others = 0;
}
unfolding run step init leave hand_on receive_one reap_one is_receiving is_handling
two_exits_end = refl

-- A child is stopped, and exits between the start of the handler and its call of waitpid.
abbrev stopped_child : List Move
stopped_child =
    client_sends 4
    ∷ receives
    ∷ forks true
    ∷ other_signal
    ∷ handler_starts
    ∷ child_exits
    ∷ handler_waits
    ∷ handler_starts
    ∷ handler_waits
    ∷ []

handler_spins : (run step stopped_child init).doing ≡ spinning
unfolding run step init leave hand_on receive_one reap_one is_receiving is_handling
handler_spins = refl

run-IsServing_example : IsServing (run step two_exits init)
run-IsServing_example = run-IsServing two_exits

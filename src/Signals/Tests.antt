-- ===== src/Signals/Tests.antt =====
-- A platform like Linux, and signals that are sent during the sleep.
use code_strudy.Prelude.{
  ◌≡◌, refl, true, false, not, ◌&&◌, ◌||◌, List, [], ◌∷◌, ◌++◌, arith, leb, ◌==◌,
}
use code_strudy.Runs.{run}
use code_strudy.Signals.Receiver.{
  sig_handler, killed, counts, members, ended, print_sigset, masked, put, bump, deliver, discard,
  sent, send, caught, init, goes_on, goes, delivered, step, Platform, Move,
}
use code_strudy.Signals.Counted.{run-IsCounted, IsCounted}

abbrev linux : Platform
linux = record {
  nsig = 65;
  sigint = 2;
  sigcont = 18;
  stops = λ sig. leb 19 sig && leb sig 22;
  queued = λ sig. leb 34 sig;
  changeable = λ sig. not ((sig == 9) || (sig == 19));
  ends = λ sig. not (leb 18 sig && leb sig 22);
}

abbrev sends : List Move
sends = goes ∷ sent 10 ∷ sent 10 ∷ sent 34 ∷ sent 34 ∷ sent 2 ∷ goes ∷ goes ∷ []

abbrev caught_all : List Move
caught_all = sends ++ delivered 10 ∷ delivered 34 ∷ delivered 34 ∷ delivered 2 ∷ goes ∷ []

-- The queued signal is counted twice, the other one once.
counts_caught : (run (step linux) caught_all (init true)).report ≡ (10, 1) ∷ (34, 2) ∷ []
unfolding run step goes_on send discard deliver caught bump put init print_sigset members counts
    sig_handler masked ended
counts_caught = refl

-- The last signal keeps its default action, and ends the process.
last_ends : (run (step linux) (sent 64 ∷ delivered 64 ∷ []) (init false)).phase ≡ killed
unfolding run step goes_on send discard deliver caught bump put init masked ended
last_ends = refl

-- SIGCONT discards a SIGTSTP that waits.
discards : (run (step linux) (goes ∷ sent 20 ∷ sent 18 ∷ []) (init true)).pending 20 ≡ 0
unfolding run step goes_on send discard bump put init ended
discards = refl

run-IsCounted_example : IsCounted linux 10 (run (step linux) caught_all (init true))
run-IsCounted_example =
    run-IsCounted linux true caught_all 10 (unfold caught in refl) (λ e. omega arith)

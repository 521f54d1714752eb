-- ===== src/Children/Tests.antt =====
-- Runs of the parent, and its theorems at them.
use code_strudy.Prelude.{◌≡◌, refl, ◌⊎◌, true, some, List, [], ◌∷◌, decr}
use code_strudy.Children.System.{
  forks, State, init, some_live, parent_step, child_step, Move, parent_moves, child_exits, step,
  run,
}
use code_strudy.Children.Progress.{never_asleep}

-- Two children that exit before the first signal is handled, whose loop reaps both.
abbrev two_at_once : List Move
two_at_once =
    parent_moves true
    ∷ parent_moves true
    ∷ child_exits
    ∷ child_exits
    ∷ parent_moves true
    ∷ parent_moves true
    ∷ parent_moves true
    ∷ parent_moves true
    ∷ parent_moves true
    ∷ parent_moves true
    ∷ parent_moves true
    ∷ parent_moves true
    ∷ []

one_signal : (run two_at_once (init 2)).signum ≡ 1
unfolding run init step parent_step child_step some_live decr
one_signal = refl

-- One child is forked and the parent sleeps.
abbrev asleep : List Move
asleep = parent_moves true ∷ parent_moves true ∷ parent_moves true ∷ []

never_asleep_example :
    (t : State) × ((step (parent_moves true) (run asleep (init 1)) ≡ some t)
      ⊎ (step child_exits (run asleep (init 1)) ≡ some t))
unfolding run init step parent_step child_step some_live
never_asleep_example = never_asleep 1 asleep true (λ e. cc) (λ e. cc)

abbrev after_fork : State
after_fork = record (init 1) { parent = forks 0; running = 1 }

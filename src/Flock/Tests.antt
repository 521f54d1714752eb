-- ===== src/Flock/Tests.antt =====
-- Runs of the two processes, and their theorems at them.
use code_strudy.Prelude.{◌≡◌, refl, ◌≢◌, ◌⊎◌, some, List, [], ◌∷◌}
use code_strudy.Flock.System.{
  State, init, ChildAt, ParentAt, Move, child_moves, parent_moves, step, run, child_step,
  parent_step,
}
use code_strudy.Flock.Deadlock.{Doomed, moves_or_stays}

-- Each process has its first lock.
abbrev crossed : List Move
crossed = child_moves ∷ parent_moves ∷ []

-- The child runs to its end first.
abbrev in_turn : List Move
in_turn = child_moves ∷ child_moves ∷ child_moves ∷ parent_moves ∷ parent_moves ∷ parent_moves ∷ []

in_turn_ends : (run in_turn init).at_parent ≡ ParentAt.ended
unfolding run init step child_step parent_step
in_turn_ends = refl

moves_or_stays_example :
    (Doomed (run crossed init).at_child (run crossed init).at_parent
      × (((run in_turn (run crossed init)).at_child ≢ ChildAt.ended)
          × ((run in_turn (run crossed init)).at_parent ≢ ParentAt.ended)))
    ⊎ ((m : Move) × (t : State) × (step m (run crossed init) ≡ some t))
unfolding run init step child_step parent_step
moves_or_stays_example = moves_or_stays crossed in_turn (λ e. cc)

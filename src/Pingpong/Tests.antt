-- ===== src/Pingpong/Tests.antt =====
-- Runs of the two processes, and their theorems at them.
use code_strudy.Prelude.{◌≤◌, ◌≡◌, refl, ◌⊎◌, some, List, [], ◌∷◌}
use code_strudy.Runs.{done, moves}
use code_strudy.Pingpong.System.{
  ParentAt, State, Move, parent_moves, child_moves, init, step, run, parent_step, child_step,
  child_gone, parent_gone,
}
use code_strudy.Pingpong.Exchange.{AllBack, exchange_ends}

-- The first letter goes there and comes back.
abbrev first_letter : List Move
first_letter = parent_moves ∷ child_moves ∷ child_moves ∷ parent_moves ∷ []

one_shown : (run first_letter init).shown ≡ b'A' ∷ []
unfolding run init step parent_step child_step child_gone parent_gone
one_shown = refl

abbrev written : State
written = record init { at_parent = ParentAt.reads; to_child = b'a' ∷ [] }

exchange_ends_example :
    (1 ≤ 20) × (AllBack written ⊎ ((m : Move) × (u : State) × (step m written ≡ some u)))
unfolding init step parent_step child_gone
exchange_ends_example =
    exchange_ends (parent_moves ∷ []) written
      (moves parent_moves [] init written written refl (done written))

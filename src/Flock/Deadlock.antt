-- ===== src/Flock/Deadlock.antt =====
-- Which runs end: the child must have both locks before the parent has one.
use code_strudy.Prelude.{
  ◌≡◌, refl, ◌≢◌, ◌⊎◌, inl, inr, none, some, List, [], ◌∷◌, arith, Option-cases,
}
use code_strudy.Flock.System.{
  nobody, child, parent, ChildAt, ParentAt, State, init, child_step, parent_step, Move, child_moves,
  parent_moves, step, run,
}

-- Who holds the locks where the processes stand; other places are not reached together.
abbrev pub At : ChildAt → ParentAt → State → Type 0
At ChildAt.locks_first ParentAt.locks_second s = (s.temp1 ≡ nobody) × (s.temp2 ≡ nobody)
At ChildAt.locks_first ParentAt.locks_first s = (s.temp1 ≡ nobody) × (s.temp2 ≡ parent)
At ChildAt.locks_first ParentAt.waits s = (s.temp1 ≡ parent) × (s.temp2 ≡ parent)
At ChildAt.locks_second ParentAt.locks_second s = (s.temp1 ≡ child) × (s.temp2 ≡ nobody)
At ChildAt.locks_second ParentAt.locks_first s = (s.temp1 ≡ child) × (s.temp2 ≡ parent)
At ChildAt.exits ParentAt.locks_second s = (s.temp1 ≡ child) × (s.temp2 ≡ child)
At ChildAt.ended ParentAt.locks_second s = (s.temp1 ≡ nobody) × (s.temp2 ≡ nobody)
At ChildAt.ended ParentAt.locks_first s = (s.temp1 ≡ nobody) × (s.temp2 ≡ parent)
At ChildAt.ended ParentAt.waits s = (s.temp1 ≡ parent) × (s.temp2 ≡ parent)
At ChildAt.ended ParentAt.ended s = (s.temp1 ≡ nobody) × (s.temp2 ≡ nobody)
At _ _ s = ⊥

child-At :
    (c : ChildAt) (p : ParentAt) (s t : State)
    → s.at_parent ≡ p
    → At c p s
    → child_step c s ≡ some t
    → At t.at_child t.at_parent t
unfolding child_step
child-At ChildAt.locks_first ParentAt.locks_second s t e h st = ground arith
child-At c p s t e h st = ground arith

parent-At :
    (c : ChildAt) (p : ParentAt) (s t : State)
    → s.at_child ≡ c
    → At c p s
    → parent_step p s ≡ some t
    → At t.at_child t.at_parent t
unfolding parent_step
parent-At ChildAt.locks_first ParentAt.locks_second s t e h st = ground arith
parent-At c p s t e h st = ground arith

step-At :
    (m : Move) (s t : State)
    → At s.at_child s.at_parent s
    → step m s ≡ some t
    → At t.at_child t.at_parent t
unfolding step
step-At child_moves s t h st = child-At s.at_child s.at_parent s t refl h st
step-At parent_moves s t h st = parent-At s.at_child s.at_parent s t refl h st

run-At :
    (ms : List Move) (s : State)
    → At s.at_child s.at_parent s
    → At (run ms s).at_child (run ms s).at_parent (run ms s)
unfolding run
run-At [] s h = h
run-At (m ∷ ms) s h = elim (Option-cases (step m s)) [
  | inl blocked ↦ rw (blocked, run) (run-At ms s h)
  | inr (t, moved) ↦ rw (moved, run) (run-At ms t (step-At m s t h moved))
]

init-At : At init.at_child init.at_parent init
unfolding init
init-At = (refl, refl)

-- The child has not both locks, and the parent has one.
abbrev pub Doomed : ChildAt → ParentAt → Type 0
Doomed ChildAt.locks_first ParentAt.locks_first = Unit
Doomed ChildAt.locks_first ParentAt.waits = Unit
Doomed ChildAt.locks_second ParentAt.locks_first = Unit
Doomed _ _ = ⊥

step-Doomed :
    (m : Move) (c : ChildAt) (p : ParentAt) (s t : State)
    → s.at_child ≡ c
    → s.at_parent ≡ p
    → At c p s
    → Doomed c p
    → step m s ≡ some t
    → Doomed t.at_child t.at_parent
unfolding step child_step parent_step
step-Doomed child_moves ChildAt.locks_first ParentAt.locks_first s t ec ep h d st = ground arith
step-Doomed m c p s t ec ep h d st = ground arith

run-Doomed :
    (ms : List Move) (s : State)
    → At s.at_child s.at_parent s
    → Doomed s.at_child s.at_parent
    → Doomed (run ms s).at_child (run ms s).at_parent
unfolding run
run-Doomed [] s h d = d
run-Doomed (m ∷ ms) s h d = elim (Option-cases (step m s)) [
  | inl blocked ↦ rw (blocked, run) (run-Doomed ms s h d)
  | inr (t, moved) ↦
      rw (moved, run)
        (run-Doomed ms t (step-At m s t h moved)
          (step-Doomed m s.at_child s.at_parent s t refl refl h d moved))
]

Doomed-going :
    (c : ChildAt) (p : ParentAt) → Doomed c p → (c ≢ ChildAt.ended) × (p ≢ ParentAt.ended)
Doomed-going ChildAt.locks_first ParentAt.locks_first d = ((λ e. cc), λ e. cc)
Doomed-going c p d = ground arith

-- Once, in any run, the child has not both locks and the parent has one at least, neither process
-- ends, whatever the schedule.
Doomed-forever :
    (ms later : List Move)
    → Doomed (run ms init).at_child (run ms init).at_parent
    → ((run later (run ms init)).at_child ≢ ChildAt.ended)
      × ((run later (run ms init)).at_parent ≢ ParentAt.ended)
Doomed-forever ms later d =
    Doomed-going _ _ (run-Doomed later (run ms init) (run-At ms init init-At) d)

stuck-Doomed :
    (c : ChildAt) (p : ParentAt) (s : State)
    → s.at_child ≡ c
    → At c p s
    → p ≢ ParentAt.ended
    → child_step c s ≡ none
    → parent_step p s ≡ none
    → Doomed c p
unfolding child_step parent_step
stuck-Doomed ChildAt.locks_first ParentAt.locks_second s e h ne b b' = ground arith
stuck-Doomed c p s e h ne b b' = ground arith

-- Under every schedule, as long as the parent has not ended, a process can take a step; or the
-- child has not both locks, the parent has one at least, and after any further run neither process
-- has ended.
pub moves_or_stays :
    (ms later : List Move)
    → (run ms init).at_parent ≢ ParentAt.ended
    → (Doomed (run ms init).at_child (run ms init).at_parent
        × (((run later (run ms init)).at_child ≢ ChildAt.ended)
            × ((run later (run ms init)).at_parent ≢ ParentAt.ended)))
      ⊎ ((m : Move) × (t : State) × (step m (run ms init) ≡ some t))
unfolding step
moves_or_stays ms later going =
    let s = run ms init in
    elim (Option-cases (child_step s.at_child s)) [
      | inr (t, moved) ↦ inr (child_moves, t, moved)
      | inl b ↦ elim (Option-cases (parent_step s.at_parent s)) [
        | inr (t, moved) ↦ inr (parent_moves, t, moved)
        | inl b' ↦
            let d = stuck-Doomed _ _ s refl (run-At ms init init-At) going b b' in
            inl (d, Doomed-forever ms later d)
      ]
    ]

-- ===== src/Children/Progress.antt =====
-- The parent always leaves its loop: no wake-up is lost.
use code_strudy.Prelude.{
  ℕ, zero, suc, ◌+◌, ◌*◌, ◌≤◌, ◌<◌, ◌≡◌, refl, ◌≢◌, ◌⊎◌, inl, inr, Bool, none, some, List, arith,
  Option-cases, length,
}
use code_strudy.Runs.{Steps, steps_bounded}
use code_strudy.Children.System.{
  ParentAt, forks, tests, suspended, reaps, sleeps, finished, fork_failed, State, init, some_live,
  parent_step, child_step, Move, parent_moves, child_exits, step, run,
}
use code_strudy.Children.Reaping.{flag, IsValid, reaping-IsValid}

-- How far the parent is from the end of its loop.
rank : ParentAt → ℕ
rank (forks k) = 3 + 8 * k
rank reaps = 4
rank sleeps = 3
rank tests = 2
rank suspended = 1
rank _ = 0

pub measure : State → ℕ
unfolding rank
measure s = rank s.parent + 7 * s.running + s.zombies + 5 * flag s.pending

parent_lowers :
    (forked : Bool) (p : ParentAt) (s t : State)
    → s.parent ≡ p
    → parent_step forked p s ≡ some t
    → measure t < measure s
unfolding parent_step measure
parent_lowers forked (forks zero) s t e st = ground arith
parent_lowers forked (forks (suc k)) s t e st = ground arith
parent_lowers forked p s t e st = ground arith

child_lowers : (s t : State) → child_step s ≡ some t → measure t < measure s
unfolding child_step measure
child_lowers s t st = ground arith

pub step_lowers : (m : Move) (s t : State) → step m s ≡ some t → measure t < measure s
unfolding step
step_lowers (parent_moves forked) s t st = parent_lowers forked s.parent s t refl st
step_lowers child_exits s t st = child_lowers s t st

can_move :
    (children : ℕ) (forked : Bool) (p : ParentAt) (s : State)
    → s.parent ≡ p
    → IsValid children s
    → p ≢ finished
    → p ≢ fork_failed
    → parent_step forked p s ≡ none
    → child_step s ≢ none
unfolding parent_step child_step some_live
can_move children forked (forks zero) s e v nf nff b = ground arith
can_move children forked p s e v nf nff b = ground arith

-- However the parent and its n children are scheduled, they take at most 8 n + 3 steps.
pub steps_end :
    (children : ℕ) (ms : List Move) (t : State)
    → Steps step ms (init children) t
    → length ms ≤ 8 * children + 3
unfolding init measure
steps_end children ms t r = omega (
  arith,
  steps_bounded {0, 0, 0} step (λ s. Unit) measure (λ m s u _ st. (tt, step_lowers m s u st)) ms
      (init children) t tt r,
)

-- Under every schedule, unless the parent has left its loop or a fork has failed, the parent can
-- take a step or a child can exit: the parent never sleeps with nothing to wake it.
pub never_asleep :
    (children : ℕ) (ms : List Move) (forked : Bool)
    → (run ms (init children)).parent ≢ finished
    → (run ms (init children)).parent ≢ fork_failed
    → (t : State) × ((step (parent_moves forked) (run ms (init children)) ≡ some t)
        ⊎ (step child_exits (run ms (init children)) ≡ some t))
unfolding step
never_asleep children ms forked going forks_ok =
    let s = run ms (init children) in
    let v = reaping-IsValid children ms in
    elim (Option-cases (parent_step forked s.parent s)) [
      | inr (t, moved) ↦ (t, inl moved)
      | inl blocked ↦ elim (Option-cases (child_step s)) [
        | inr (t, moved) ↦ (t, inr moved)
        | inl b ↦ absurd (can_move children forked s.parent s refl v going forks_ok blocked b)
      ]
    ]

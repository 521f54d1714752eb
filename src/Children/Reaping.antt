-- ===== src/Children/Reaping.antt =====
-- No signal is lost, and no child is left behind.
use code_strudy.Prelude.{
  ℕ, zero, suc, ◌+◌, ◌≤◌, ◌≡◌, refl, ◌⊎◌, inl, inr, Bool, true, false, some, List, [], ◌∷◌, arith,
  Option-cases, pos, decr,
}
use code_strudy.Children.System.{
  ParentAt, forks, tests, suspended, reaps, sleeps, finished, fork_failed, State, init, some_live,
  parent_step, child_step, Move, parent_moves, child_exits, step, run,
}

-- Children that are still to be forked.
abbrev pub to_fork : ParentAt → ℕ
to_fork (forks k) = k
to_fork _ = 0

-- The parent is between the delivery of a signal and the count of it.
abbrev pub handling : ParentAt → ℕ
handling reaps = 1
handling sleeps = 1
handling _ = 0

abbrev pub flag : Bool → ℕ
flag true = 1
flag false = 0

-- A zombie is known: the signal is pending, or the handler's loop is running.
abbrev pub Noticed : ParentAt → State → Type 0
Noticed reaps s = Unit
Noticed (forks k) s = (s.zombies ≡ 0) ⊎ (s.pending ≡ true)
Noticed tests s = (s.zombies ≡ 0) ⊎ (s.pending ≡ true)
Noticed suspended s =
    (some_live s.num_live_children ≡ true) × ((s.zombies ≡ 0) ⊎ (s.pending ≡ true))
Noticed sleeps s = (s.zombies ≡ 0) ⊎ (s.pending ≡ true)
Noticed finished s = some_live s.num_live_children ≡ false
Noticed fork_failed s = Unit

-- The counter is the number of children that are not reaped; each signal answers to the exit of
-- another child.
pub record IsValid (children : ℕ) (s : State) : Type 0 where
  pub counted :
      (s.parent ≡ fork_failed)
      ⊎ (s.num_live_children ≡ pos (to_fork s.parent + s.running + s.zombies))
  pub noticed : Noticed s.parent s
  pub signals :
      s.signum + handling s.parent + flag s.pending + to_fork s.parent + s.running ≤ children

init-IsValid : (children : ℕ) → IsValid children (init children)
unfolding init
init-IsValid children = record {
  counted = inr (ground arith);
  noticed = inl refl;
  signals = omega arith;
}

parent-IsValid :
    (children : ℕ) (forked : Bool) (p : ParentAt) (s t : State)
    → s.parent ≡ p
    → IsValid children s
    → parent_step forked p s ≡ some t
    → IsValid children t
unfolding parent_step some_live decr
parent-IsValid children forked (forks zero) s t e v st = ground arith
parent-IsValid children forked (forks (suc k)) s t e v st = ground arith
parent-IsValid children forked p s t e v st = ground arith

child-IsValid :
    (children : ℕ) (p : ParentAt) (s t : State)
    → s.parent ≡ p
    → IsValid children s
    → child_step s ≡ some t
    → IsValid children t
unfolding child_step
child-IsValid children (forks zero) s t e v st = ground arith
child-IsValid children p s t e v st = ground arith

pub step-IsValid :
    (children : ℕ) (m : Move) (s t : State)
    → IsValid children s
    → step m s ≡ some t
    → IsValid children t
unfolding step
step-IsValid children (parent_moves forked) s t v st =
    parent-IsValid children forked s.parent s t refl v st
step-IsValid children child_exits s t v st = child-IsValid children s.parent s t refl v st

pub run-IsValid :
    (children : ℕ) (ms : List Move) (s : State) → IsValid children s → IsValid children (run ms s)
unfolding run
run-IsValid children [] s v = v
run-IsValid children (m ∷ ms) s v = elim (Option-cases (step m s)) [
  | inl blocked ↦ rw (blocked, run) (run-IsValid children ms s v)
  | inr (t, moved) ↦
      rw (moved, run) (run-IsValid children ms t (step-IsValid children m s t v moved))
]

-- Whatever the schedule and the outcomes of fork: unless a fork has failed, numLiveChildren is the
-- number of children that are to be forked or not reaped; while the parent forks, tests, sleeps or
-- is suspended, no child is a zombie unless SIGCHLD is pending; and no more signals are counted
-- than there are children.
pub reaping-IsValid : (children : ℕ) (ms : List Move) → IsValid children (run ms (init children))
reaping-IsValid children ms = run-IsValid children ms (init children) (init-IsValid children)

-- What the parent has when it leaves its loop.
pub record IsReaped (children : ℕ) (s : State) : Type 0 where
  pub none_live : s.num_live_children ≡ pos 0
  pub none_running : s.running ≡ 0
  pub no_zombies : s.zombies ≡ 0
  pub signals : s.signum ≤ children

at_end-IsReaped :
    (children : ℕ) (p : ParentAt) (s : State)
    → s.parent ≡ p
    → p ≡ finished
    → IsValid children s
    → IsReaped children s
unfolding some_live
at_end-IsReaped children finished s e f v = ground arith
at_end-IsReaped children p s e f v = ground arith

-- When the parent has left its loop, under whatever schedule, numLiveChildren is 0, no child runs
-- or is a zombie, and at most as many signals as children were counted.
pub finished-IsReaped :
    (children : ℕ) (ms : List Move)
    → (run ms (init children)).parent ≡ finished
    → IsReaped children (run ms (init children))
finished-IsReaped children ms e =
    at_end-IsReaped children _ (run ms (init children)) refl e (reaping-IsValid children ms)

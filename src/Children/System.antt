-- ===== src/Children/System.antt =====
-- `main` and sigchldHandler of practice/26.5/multi_SIGCHLD.c as steps of the parent, with children
-- that exit whenever they like. SIGCHLD is blocked but for the time in `sigsuspend`, and in the
-- handler; a signal that is pending is not queued twice. `waitpid` with WNOHANG returns a child that
-- has exited, if there is one, and otherwise 0 or ECHILD, which both end the handler's loop.
use code_strudy.Prelude.{
  ℕ, zero, suc, Bool, true, false, Option, none, some, List, [], ◌∷◌, if◌then◌else◌, ℤ, pos, negsuc,
  decr,
}

-- The parent: at the `fork` of the loop, with so many to go; at the loop's test of numLiveChildren;
-- in `sigsuspend`; at the handler's `waitpid`; at its `sleep`; behind the loop; ended by a failed
-- `fork`.
pub data ParentAt : Type 0 where
  forks : ℕ → ParentAt
  tests suspended reaps sleeps finished fork_failed : ParentAt

pub record State : Type 0 where
  pub parent : ParentAt
  pub num_live_children : ℤ
  pub signum : ℕ
  pub running : ℕ
  pub zombies : ℕ
  pub pending : Bool

-- numLiveChildren = argc - 1; SIGCHLD is blocked before the first fork.
unfoldable pub init : ℕ → State
init children = record {
  parent = forks children;
  num_live_children = pos children;
  signum = 0;
  running = 0;
  zombies = 0;
  pending = false;
}

-- numLiveChildren > 0
unfoldable pub some_live : ℤ → Bool
some_live (pos zero) = false
some_live (pos (suc n)) = true
some_live (negsuc n) = false

-- `forked` is false if `fork` returns -1.
unfoldable pub parent_step : Bool → ParentAt → State → Option State
parent_step forked (forks zero) s = some (record s { parent = tests })
parent_step forked (forks (suc k)) s =
    if forked
    then some (record s { parent = forks k; running = suc s.running })
    else some (record s { parent = fork_failed })
parent_step forked tests s =
    some (record s { parent = if some_live s.num_live_children then suspended else finished })
parent_step forked suspended s =
    if s.pending then some (record s { parent = reaps; pending = false }) else none
parent_step forked reaps s = elim s.zombies [
  | zero ↦ some (record s { parent = sleeps })
  | suc z ↦ some (record s { zombies = z; num_live_children = decr s.num_live_children })
]
parent_step forked sleeps s = some (record s { parent = tests; signum = suc s.signum })
parent_step forked finished s = none
parent_step forked fork_failed s = none

-- A child exits: it is a zombie until it is waited for, and SIGCHLD becomes pending.
unfoldable pub child_step : State → Option State
child_step s = elim s.running [
  | zero ↦ none
  | suc n ↦ some (record s { running = n; zombies = suc s.zombies; pending = true })
]

pub data Move : Type 0 where
  parent_moves : Bool → Move
  child_exits : Move

unfoldable pub step : Move → State → Option State
step (parent_moves forked) s = parent_step forked s.parent s
step child_exits s = child_step s

unfoldable pub run : List Move → State → State
run [] s = s
run (m ∷ ms) s = elim (step m s) [ none ↦ run ms s | some t ↦ run ms t ]

-- ===== src/Remote/Serving.antt =====
-- `main` and sigchildHandler of server.c, as steps of the parent and of its children. The handler
-- may run between any two steps; SIGCHLD is one pending bit.
use code_strudy.Prelude.{
  ℕ, zero, suc, ◌+◌, ◌-◌, ◌≡◌, refl, ◌⊎◌, inl, inr, Bool, true, false, ◌&&◌, Option, none, some,
  List, arith, if◌then◌else◌,
}
use code_strudy.Runs.{run, run_keeps}

-- `fds` are the descriptors that the parent has open; a child runs, is a zombie or is reaped.
pub record State : Type 0 where
  pub listening : Bool
  pub fds : ℕ
  pub running : ℕ
  pub zombies : ℕ
  pub reaped : ℕ
  pub pending : Bool

unfoldable pub init : ℕ → State
init fds = record {
  listening = true;
  fds = fds;
  running = 0;
  zombies = 0;
  reaped = 0;
  pending = false;
}

-- Does `accept` give a connection; does `fork` succeed.
pub data Move : Type 0 where
  accepts : Bool → Bool → Move
  child_exits handler_runs : Move

-- The parent closes the descriptor that `accept` gave; ERROUT ends it.
unfoldable pub accept_step : Bool → Bool → State → Option State
accept_step accepted forked s =
    if s.listening
    then if accepted
      then if forked
        then some (record s { fds = suc s.fds - 1; running = suc s.running })
        else some (record s { fds = suc s.fds; listening = false })
      else some (record s { listening = false })
    else none

-- while (waitpid(-1, NULL, WNOHANG) > 0)
unfoldable pub reap : State → State
reap s = record s { zombies = 0; reaped = s.reaped + s.zombies; pending = false }

unfoldable pub step : Move → State → Option State
unfolding accept_step reap
step (accepts accepted forked) s = accept_step accepted forked s
step child_exits s = elim s.running [
  | zero ↦ none
  | suc n ↦ some (record s { running = n; zombies = suc s.zombies; pending = true })
]
step handler_runs s = if s.pending && s.listening then some (reap s) else none

-- While the server listens, no connection is left open; a child that has ended is reaped, or SIGCHLD
-- is pending for it.
pub record IsTidy (fds : ℕ) (s : State) : Type 0 where
  pub none_open : (s.listening ≡ false) ⊎ (s.fds ≡ fds)
  pub awaited : (s.zombies ≡ 0) ⊎ (s.pending ≡ true)

step-IsTidy : (fds : ℕ) (m : Move) (s t : State) → IsTidy fds s → step m s ≡ some t → IsTidy fds t
unfolding step accept_step reap
step-IsTidy fds (accepts a f) s t v e = ground arith
step-IsTidy fds child_exits s t v e = ground arith
step-IsTidy fds handler_runs s t v e = ground arith

-- Under every schedule of connections, failures, children and signals, while the server listens it
-- has the descriptors open that it had at the start, and a child that has ended is reaped or
-- SIGCHLD is pending.
pub run-IsTidy : (fds : ℕ) (ms : List Move) → IsTidy fds (run step ms (init fds))
run-IsTidy fds ms =
    run_keeps step (IsTidy fds) (step-IsTidy fds) ms (init fds)
      (unfold init in record { none_open = inr refl; awaited = inl refl })

-- ===== src/Once/Defs.antt =====
-- one_time_init, called by any number of threads in any order; a call is a thread of its own, so main's
-- two calls are the second behind the first.
use code_strudy.Prelude.{ℕ, suc, Bool, true, false, Option, none, some, ◌==◌, if◌then◌else◌}

-- Where a call is: before pthread_mutex_lock, at the test, at init, at the assignment, at an unlock with
-- the result that follows, or behind its return. The result is 0 for true and -1 for false.
pub data CallAt : Type 0 where
  locks tests inits sets : CallAt
  unlocks returned : Bool → CallAt

-- once, the owner of the mutex, how often init was called, and where each call is.
pub record State : Type 0 where
  pub once : Bool
  pub owner : Option ℕ
  pub inits_done : ℕ
  pub at_call : ℕ → CallAt

unfoldable pub init : State
init = record { once = false; owner = none; inits_done = 0; at_call = λ i. locks }

unfoldable pub put_at : ℕ → CallAt → (ℕ → CallAt) → ℕ → CallAt
put_at i c f j = if j == i then c else f j

-- A step of call i that is at c.
unfoldable pub call_step : ℕ → CallAt → State → Option State
call_step i locks s = elim s.owner [
  | none ↦ some (record s { owner = some i; at_call = put_at i tests s.at_call })
  | some j ↦ none
]
call_step i tests s =
    some (record s { at_call = put_at i (if s.once then unlocks false else inits) s.at_call })
call_step i inits s =
    some (record s { inits_done = suc s.inits_done; at_call = put_at i sets s.at_call })
call_step i sets s = some (record s { once = true; at_call = put_at i (unlocks true) s.at_call })
call_step i (unlocks r) s =
    some (record s { owner = none; at_call = put_at i (returned r) s.at_call })
call_step i (returned r) s = none

unfoldable pub step : ℕ → State → Option State
unfolding call_step
step i s = call_step i (s.at_call i) s

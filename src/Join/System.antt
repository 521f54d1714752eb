-- ===== src/Join/System.antt =====
-- threadFunc and the loop of `main` in routines/30.4.thread_multijoin/thread_multijoin.c, as steps of
-- the main thread and of the others, which are counted by where they stand. The mutex is a default
-- one: to lock it twice waits. The calls succeed.
use code_strudy.Prelude.{ℕ, zero, suc, Option, none, some, List, [], ◌∷◌, ◌==◌, if◌then◌else◌}

-- The main thread: at the test of numLive; at pthread_mutex_lock; at the test of numNoJoined; in
-- pthread_cond_wait; there again, to get the mutex back; behind the loop.
pub data MainAt : Type 0 where
  tests_live locks tests_joinable waits relocks leaves : MainAt

-- Who has the mutex: a thread has it before and behind its two assignments.
pub data Owner : Type 0 where
  nobody main_thread before_update after_update : Owner

pub record State : Type 0 where
  pub main : MainAt
  pub mutex : Owner
  pub num_live : ℕ
  pub num_no_joined : ℕ
  pub sleeping : ℕ
  pub locking : ℕ
  pub signalling : ℕ

-- All threads are created.
unfoldable pub init : ℕ → State
init threads = record {
  main = tests_live;
  mutex = nobody;
  num_live = threads;
  num_no_joined = 0;
  sleeping = threads;
  locking = 0;
  signalling = 0;
}

unfoldable pub take_mutex : MainAt → State → Option State
take_mutex next s = elim s.mutex [
  | nobody ↦ some (record s { main = next; mutex = main_thread })
  | _ ↦ none
]

-- The inner loop leaves the mutex locked.
unfoldable pub main_step : MainAt → State → Option State
unfolding take_mutex
main_step tests_live s = some (record s { main = if s.num_live == 0 then leaves else locks })
main_step locks s = take_mutex tests_joinable s
main_step tests_joinable s =
    if s.num_no_joined == 0
    then some (record s { main = waits; mutex = nobody })
    else some (record s { main = tests_live })
main_step waits s = none
main_step relocks s = take_mutex tests_joinable s
main_step leaves s = none

-- pthread_cond_signal wakes the main thread, if it waits.
unfoldable pub woken : MainAt → MainAt
woken waits = relocks
woken m = m

pub data Move : Type 0 where
  main_moves thread_wakes thread_locks thread_updates thread_unlocks thread_signals : Move
  spurious_wakeup : Move

unfoldable pub step : Move → State → Option State
unfolding main_step woken
step main_moves s = main_step s.main s
step thread_wakes s = elim s.sleeping [
  | zero ↦ none
  | suc n ↦ some (record s { sleeping = n; locking = suc s.locking })
]
step thread_locks s = elim s.locking [
  | zero ↦ none
  | suc n ↦ elim s.mutex [
    | nobody ↦ some (record s { locking = n; mutex = before_update })
    | _ ↦ none
  ]
]
step thread_updates s = elim s.mutex [
  | before_update ↦ some (record s { mutex = after_update; num_no_joined = suc s.num_no_joined })
  | _ ↦ none
]
step thread_unlocks s = elim s.mutex [
  | after_update ↦ some (record s { mutex = nobody; signalling = suc s.signalling })
  | _ ↦ none
]
step thread_signals s = elim s.signalling [
  | zero ↦ none
  | suc n ↦ some (record s { main = woken s.main; signalling = n })
]
step spurious_wakeup s = elim s.main [ waits ↦ some (record s { main = relocks }) | _ ↦ none ]

-- A move that cannot be made lets time pass.
unfoldable pub run : List Move → State → State
unfolding step
run [] s = s
run (m ∷ ms) s = elim (step m s) [ none ↦ run ms s | some t ↦ run ms t ]

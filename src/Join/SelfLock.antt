-- ===== src/Join/SelfLock.antt =====
-- With a thread to join, the main thread comes to lock its own mutex twice.
use code_strudy.Prelude.{
  ℕ, ◌+◌, ◌<◌, ◌≡◌, refl, ◌≢◌, ◌⊎◌, inl, inr, none, some, List, [], ◌∷◌, arith, Option-cases,
}
use code_strudy.Join.System.{
  thread_signals, thread_unlocks, thread_updates, thread_locks, woken, thread_wakes,
  spurious_wakeup, run, MainAt, tests_live, locks, tests_joinable, waits, relocks, leaves, Owner,
  main_thread, before_update, after_update, State, init, main_step, Move, main_moves, step,
}

abbrev pub updating : Owner → ℕ
updating before_update = 1
updating _ = 0

abbrev pub to_signal : Owner → ℕ
to_signal after_update = 1
to_signal _ = 0

-- The owner of the mutex, and who will wake the main thread, where it stands.
abbrev pub At : MainAt → State → Type 0
At tests_live s = Unit
At locks s = Unit
At tests_joinable s = s.mutex ≡ main_thread
At waits s =
    (s.mutex ≢ main_thread) × ((s.num_no_joined ≡ 0) ⊎ (0 < s.signalling + to_signal s.mutex))
At relocks s = s.mutex ≢ main_thread
At leaves s = ⊥

pub record IsValid (threads : ℕ) (s : State) : Type 0 where
  pub live : s.num_live ≡ threads
  pub total : s.sleeping + s.locking + updating s.mutex + s.num_no_joined ≡ threads
  pub at : At s.main s

init-IsValid : (threads : ℕ) → IsValid threads (init threads)
unfolding init
init-IsValid threads = record { live = refl; total = omega arith; at = tt }

main-IsValid :
    (threads : ℕ) (m : MainAt) (s t : State)
    → 0 < threads
    → s.main ≡ m
    → IsValid threads s
    → main_step m s ≡ some t
    → IsValid threads t
unfolding main_step
main-IsValid threads tests_live s t h e v st = ground arith
main-IsValid threads m s t h e v st = ground arith

thread-IsValid :
    (threads : ℕ) (m : Move) (a : MainAt) (s t : State)
    → 0 < threads
    → s.main ≡ a
    → m ≢ main_moves
    → IsValid threads s
    → step m s ≡ some t
    → IsValid threads t
unfolding step
thread-IsValid threads main_moves a s t h e ne v st = absurd (ne refl)
thread-IsValid threads m tests_live s t h e ne v st = ground arith
thread-IsValid threads m a s t h e ne v st = ground arith

step-IsValid :
    (threads : ℕ) (m : Move) (s t : State)
    → 0 < threads
    → IsValid threads s
    → step m s ≡ some t
    → IsValid threads t
step-IsValid threads main_moves s t h v st =
    main-IsValid threads s.main s t h refl v (unfold step in st)
step-IsValid threads thread_wakes s t h v st =
    thread-IsValid threads thread_wakes s.main s t h refl (λ e. cc) v st
step-IsValid threads thread_locks s t h v st =
    thread-IsValid threads thread_locks s.main s t h refl (λ e. cc) v st
step-IsValid threads thread_updates s t h v st =
    thread-IsValid threads thread_updates s.main s t h refl (λ e. cc) v st
step-IsValid threads thread_unlocks s t h v st =
    thread-IsValid threads thread_unlocks s.main s t h refl (λ e. cc) v st
step-IsValid threads thread_signals s t h v st =
    thread-IsValid threads thread_signals s.main s t h refl (λ e. cc) v st
step-IsValid threads spurious_wakeup s t h v st =
    thread-IsValid threads spurious_wakeup s.main s t h refl (λ e. cc) v st

run-IsValid :
    (threads : ℕ) (ms : List Move) (s : State)
    → 0 < threads
    → IsValid threads s
    → IsValid threads (run ms s)
unfolding run
run-IsValid threads [] s h v = v
run-IsValid threads (m ∷ ms) s h v = elim (Option-cases (step m s)) [
  | inl blocked ↦ rw (blocked, run) (run-IsValid threads ms s h v)
  | inr (t, moved) ↦
      rw (moved, run) (run-IsValid threads ms t h (step-IsValid threads m s t h v moved))
]

abbrev pub SelfLocked : State → Type 0
SelfLocked s = (s.main ≡ locks) × (s.mutex ≡ main_thread)

stuck-SelfLocked :
    (threads : ℕ) (a : MainAt) (s : State)
    → 0 < threads
    → s.main ≡ a
    → IsValid threads s
    → step main_moves s ≡ none
    → step thread_wakes s ≡ none
    → step thread_locks s ≡ none
    → step thread_updates s ≡ none
    → step thread_unlocks s ≡ none
    → step thread_signals s ≡ none
    → SelfLocked s
unfolding step main_step
stuck-SelfLocked threads tests_live s h e v b1 b2 b3 b4 b5 b6 = ground arith
stuck-SelfLocked threads a s h e v b1 b2 b3 b4 b5 b6 = ground arith

step-SelfLocked : (m : Move) (s t : State) → SelfLocked s → step m s ≡ some t → SelfLocked t
unfolding step main_step woken
step-SelfLocked main_moves s t h st = ground arith
step-SelfLocked m s t h st = ground arith

-- With a thread to join, the main thread does not leave its loop under any schedule.
never_leaves : (threads : ℕ) (ms : List Move) → 0 < threads → (run ms (init threads)).main ≢ leaves
never_leaves threads ms h =
    let v = run-IsValid threads ms (init threads) h (init-IsValid threads) in
    let at = v.at in λ e. ground arith

-- A move that can be made, other than a wait that returns by itself.
pub data CanMove (s : State) : Type 0 where
  moves_on : (m : Move) (t : State) → m ≢ spurious_wakeup → step m s ≡ some t → CanMove s

-- To look for such a move, one after the other.
or_moves :
    (s : State) (m : Move) (goal : Type 0)
    → m ≢ spurious_wakeup
    → (step m s ≡ none → goal ⊎ CanMove s)
    → goal ⊎ CanMove s
or_moves s m goal ne next = elim (Option-cases (step m s)) [
  | inl stuck ↦ next stuck
  | inr (t, taken) ↦ inr (moves_on m t ne taken)
]

-- With a thread to join, and under every schedule, the main thread has not left its loop, and
-- either it is locking the mutex that it has itself, or a move other than a wait that returns by
-- itself can be made.
pub moves_or_SelfLocked :
    (threads : ℕ) (ms : List Move)
    → 0 < threads
    → ((run ms (init threads)).main ≢ leaves)
      × (SelfLocked (run ms (init threads)) ⊎ CanMove (run ms (init threads)))
moves_or_SelfLocked threads ms h =
    let s = run ms (init threads) in
    let goal = SelfLocked s in
    let v = run-IsValid threads ms (init threads) h (init-IsValid threads) in
    (
      never_leaves threads ms h,
      or_moves s main_moves goal (λ e. cc)
          λ b1.
            or_moves s thread_wakes goal (λ e. cc)
              λ b2.
                or_moves s thread_locks goal (λ e. cc)
                  λ b3.
                    or_moves s thread_updates goal (λ e. cc)
                      λ b4.
                        or_moves s thread_unlocks goal (λ e. cc)
                          λ b5.
                            or_moves s thread_signals goal (λ e. cc)
                              λ b6. inl (stuck-SelfLocked threads _ s h refl v b1 b2 b3 b4 b5 b6),
    )

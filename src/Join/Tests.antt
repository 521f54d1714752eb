-- ===== src/Join/Tests.antt =====
-- A run with one thread, and the theorems at it.
use code_strudy.Prelude.{◌≡◌, refl, ◌≢◌, ◌⊎◌, none, List, [], ◌∷◌, arith}
use code_strudy.Join.System.{
  init, Move, main_moves, thread_wakes, thread_locks, thread_updates, thread_unlocks,
  thread_signals, spurious_wakeup, step, run, leaves, main_step, woken, take_mutex,
}
use code_strudy.Join.SelfLock.{SelfLocked, CanMove, moves_or_SelfLocked}

-- The main thread waits, the thread ends and signals, and the main thread goes round its loop.
abbrev round_trip : List Move
round_trip =
    main_moves ∷ main_moves ∷ main_moves ∷ thread_wakes ∷ thread_locks ∷ thread_updates
    ∷ thread_unlocks ∷ thread_signals ∷ main_moves ∷ main_moves ∷ main_moves ∷ []

moves_or_SelfLocked_example :
    ((run round_trip (init 1)).main ≢ leaves)
    × (SelfLocked (run round_trip (init 1)) ⊎ CanMove (run round_trip (init 1)))
moves_or_SelfLocked_example = moves_or_SelfLocked 1 round_trip (omega arith)

-- No thread can take a step at its end.
round_trip_stuck : (m : Move) → m ≢ spurious_wakeup → step m (run round_trip (init 1)) ≡ none
unfolding run init step main_step woken take_mutex
round_trip_stuck main_moves ne = refl
round_trip_stuck thread_wakes ne = refl
round_trip_stuck thread_locks ne = refl
round_trip_stuck thread_updates ne = refl
round_trip_stuck thread_unlocks ne = refl
round_trip_stuck thread_signals ne = refl
round_trip_stuck spurious_wakeup ne = absurd (ne refl)

-- ===== src/Delay/Defs.antt =====
-- delay3s and main. The CPU times that `times` returns are taken from the caller, in clock ticks.
use code_strudy.Prelude.{
  ℕ, ◌+◌, ◌/◌, ◌%◌, ◌^◌, Bool, not, ◌&&◌, Option, none, some, List, [], ◌∷◌, ◌++◌, ltb, ◌==◌,
  if◌then◌else◌,
}

-- What a turn of the loop meets: the sum of the two times, an error of `times`, or SIGALRM, whose
-- default action ends the process.
pub data Event : Type 0 where
  used : ℕ → Event
  times_fails alarm_rings : Event

-- oldTimes, count, the times at which a line was printed, and how often sched_yield was called.
pub record State : Type 0 where
  pub old_times : ℕ
  pub count : ℕ
  pub printed : List ℕ
  pub yields : ℕ

-- `waits` is a loop that goes on; `fault` a division by zero.
pub data Outcome : Type 0 where
  waits finished : State → Outcome
  failed killed fault : Outcome

abbrev pub rounds : ℕ
rounds = 12

-- timebase: a quarter of the ticks in a second; sysconf returns -1 where it knows none.
unfoldable pub timebase : Option ℕ → ℕ
timebase none = 0
timebase (some clk_tck) = clk_tck / 4

-- A sum of times, of type long, differs from the int oldTimes that holds the low 32 bits of one.
unfoldable pub differs : ℕ → ℕ → Bool
differs sum old = not ((sum == old) && ltb old (2 ^ 31))

-- The body of if ((sum % timebase) == 0), without its `break`.
unfoldable pub count_up : ℕ → State → State
count_up sum s =
    let count = s.count + 1 in
    record s {
      old_times = sum % 2 ^ 32;
      count = count;
      printed = s.printed ++ sum ∷ [];
      yields = if not (count == rounds) && (count % 4 == 0) then s.yields + 1 else s.yields;
    }

-- A turn of the loop at one sum of times.
unfoldable pub delay_turn : ℕ → ℕ → State → State
unfolding differs count_up
delay_turn base sum s =
    if differs sum s.old_times
    then (if sum % base == 0 then count_up sum s else record s { old_times = sum % 2 ^ 32 })
    else s

-- while (1), at as many events as are given. A change of the times divides by `base`.
unfoldable pub delay_loop : ℕ → List Event → State → Outcome
delay_loop base [] s = waits s
delay_loop base (times_fails ∷ more) s = failed
delay_loop base (alarm_rings ∷ more) s = killed
delay_loop base (used sum ∷ more) s =
    let t = delay_turn base sum s in
    let rest = delay_loop base more t in
    if differs sum s.old_times && (base == 0)
    then fault
    else if differs sum s.old_times && (sum % base == 0) && (t.count == rounds)
    then finished t
    else rest

unfoldable pub fresh : State
fresh = record { old_times = 0; count = 0; printed = []; yields = 0 }

unfoldable pub delay3s : Option ℕ → List Event → Outcome
unfolding delay_loop delay_turn fresh timebase
delay3s clk_tck events = delay_loop (timebase clk_tck) events fresh

-- How main ends: the errors of sched_setscheduler and fork, or the two processes' delays.
pub data Ran : Type 0 where
  not_scheduled not_forked : Ran
  both : Outcome → Outcome → Ran

-- The child and the father each call delay3s; a delay that finishes is followed by exit.
unfoldable pub main : Bool → Bool → Option ℕ → List Event → List Event → Ran
unfolding delay3s
main scheduled forked clk_tck child father =
    if scheduled
    then if forked then both (delay3s clk_tck child) (delay3s clk_tck father) else not_forked
    else not_scheduled

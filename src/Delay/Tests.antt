-- ===== src/Delay/Tests.antt =====
-- Delays of four and of eight ticks in a second, and the theorems at them.
use code_strudy.Prelude.{◌≡◌, refl, inl, inr, some, List, [], ◌∷◌, arith}
use code_strudy.Delay.Defs.{Event, used, alarm_rings, finished, killed, fault, timebase, delay3s}
use code_strudy.Delay.Exact.{Ticks, last_time, twelve_quarters, delay3s_ends}

-- Two ticks are a quarter of a second; the loop misses the fourth tick, and the alarm rings.
abbrev misses : List Event
misses = used 0 ∷ used 2 ∷ used 3 ∷ used 5 ∷ used 6 ∷ alarm_rings ∷ []

misses_killed : delay3s (some 8) misses ≡ killed
unfolding delay3s
misses_killed = refl

-- Three ticks in a second make timebase zero.
slow_clock : delay3s (some 3) misses ≡ fault
unfolding delay3s
slow_clock = refl

abbrev every_tick : List Event
every_tick =
    used 1
    ∷ used 2
    ∷ used 2
    ∷ used 3
    ∷ used 4
    ∷ used 5
    ∷ used 6
    ∷ used 7
    ∷ used 8
    ∷ used 9
    ∷ used 10
    ∷ used 11
    ∷ used 12
    ∷ []

delay3s_ends_example : delay3s (some 4) every_tick ≡ finished (twelve_quarters (timebase (some 4)))
unfolding Ticks last_time timebase
delay3s_ends_example =
    delay3s_ends 4 every_tick (omega arith) (omega arith)
      (
        inr refl,
        (
          inr refl,
          (
            inl refl,
            (
              inr refl,
              (
                inr refl,
                (
                  inr refl,
                  (
                    inr refl,
                    (inr refl, (inr refl, (inr refl, (inr refl, (inr refl, (inr refl, tt)))))),
                  ),
                ),
              ),
            ),
          ),
        ),
      )
      (omega arith)

-- ===== src/Delay/Exact.antt =====
-- The delay of practice/35.3 where no tick is missed: it ends, at twelve times timebase ticks.
use code_strudy.Prelude.{
  ℕ, zero, suc, ◌+◌, ◌*◌, ◌/◌, ◌%◌, ◌^◌, ◌≤◌, ◌<◌, ◌≡◌, refl, sym, ap, subst, ◌∙◌, ◌≢◌, ◌⊎◌, inl,
  inr, true, false, some, List, [], ◌∷◌, ◌++◌, arith, ◌==◌, Bool-cases,
}
use native.Mathlib.Nat.{mul-le-mul_right, mul-mod_left}
use code_strudy.Delay.Defs.{
  Event, used, times_fails, alarm_rings, State, finished, rounds, timebase, count_up, delay_turn,
  delay_loop, fresh, delay3s,
}
use code_strudy.Delay.Late.{delay_turn-cases, next_multiple, count_up-yields}

-- Every time is the one before it or the next, `times` does not fail, and no alarm rings.
unfoldable pub Ticks : ℕ → List Event → Type 0
Ticks old [] = Unit
Ticks old (used t ∷ more) = ((t ≡ old) ⊎ (t ≡ old + 1)) × Ticks t more
Ticks old (e ∷ more) = ⊥

unfoldable pub last_time : ℕ → List Event → ℕ
last_time old [] = old
last_time old (used t ∷ more) = last_time t more
last_time old (e ∷ more) = old

unfoldable pub multiples : ℕ → ℕ → List ℕ
multiples base zero = []
multiples base (suc n) = multiples base n ++ (suc n * base) ∷ []

-- The state at `old` ticks, with `n` multiples of timebase counted.
pub record IsExact (base : ℕ) (s : State) : Type 0 where
  pub lines : s.printed ≡ multiples base s.count
  pub counted : s.count * base ≤ s.old_times
  pub not_more : s.old_times < (s.count + 1) * base
  pub going : s.count < rounds
  pub yielded : s.yields ≡ s.count / 4

unfoldable pub twelve_quarters : ℕ → State
twelve_quarters base = record {
  old_times = rounds * base;
  count = rounds;
  printed = multiples base rounds;
  yields = 2;
}

next_exact : (n base t : ℕ) → t % base ≡ 0 → n * base < t → t ≤ (n + 1) * base → t ≡ (n + 1) * base
next_exact n base t whole less most = omega (arith, next_multiple n base t whole less)

below_next : (n base t : ℕ) → t % base ≢ 0 → t ≤ (n + 1) * base → t < (n + 1) * base
below_next n base t part most =
    let ne : t ≢ (n + 1) * base =
      λ e. part (subst (λ z. z % base ≡ 0) (sym e) (mul-mod_left (n + 1) base)) in
    omega (arith, ne)

-- One more tick, where the twelfth multiple is not reached by it.
multiples_next : (base n : ℕ) → multiples base (n + 1) ≡ multiples base n ++ ((n + 1) * base) ∷ []
unfolding multiples
multiples_next base n =
    let e : suc n ≡ n + 1 = omega arith in
    subst (λ m. multiples base m ≡ multiples base n ++ (m * base) ∷ []) e refl

delay_turn-IsExact :
    (base t : ℕ) (s : State)
    → 0 < base
    → IsExact base s
    → (t ≡ s.old_times) ⊎ (t ≡ s.old_times + 1)
    → t < 2 ^ 31
    → ((t % base ≡ 0) → s.count + 1 < rounds)
    → IsExact base (delay_turn base t s)
delay_turn-IsExact base t s some_tick v tick small more =
    elim (delay_turn-cases base t s (ground arith) small) [
      | inl (same, eq, st) ↦ subst (IsExact base) (sym st) v
      | inr (less, ne, inl (part, st)) ↦ subst (IsExact base) (sym st) (record {
        lines = v.lines;
        counted = omega (arith, v.counted);
        not_more = below_next s.count base t part (omega (arith, v.not_more));
        going = v.going;
        yielded = v.yielded;
      })
      | inr (less, ne, inr (whole, st)) ↦
          let e =
            next_exact s.count base t whole (omega (arith, v.counted))
              (omega (arith, v.not_more)) in
          subst (IsExact base) (sym st) (record {
            lines =
                (ap (λ z. s.printed ++ z ∷ []) e
                  ∙ ap (λ z. z ++ ((s.count + 1) * base) ∷ []) v.lines
                  ∙ sym (multiples_next base s.count));
            counted = omega (arith, e);
            not_more = omega (arith, e, some_tick);
            going = more whole;
            yielded = count_up-yields t s v.yielded (more whole);
          })
    ]

below_end : (base n : ℕ) → n < rounds → (n + 1) * base ≤ rounds * base
below_end base n h = mul-le-mul_right base (omega arith)

last_turn :
    (base t : ℕ) (s u : State)
    → IsExact base s
    → u ≡ record {
      old_times = t;
      count = s.count + 1;
      printed = s.printed ++ t ∷ [];
      yields = (count_up t s).yields;
    }
    → t ≡ (s.count + 1) * base
    → s.count + 1 ≡ rounds
    → u ≡ twelve_quarters base
unfolding twelve_quarters count_up
last_turn base t s u v e at last =
    let time : t ≡ rounds * base = at ∙ ap (λ n. n * base) last in
    let lines : s.printed ++ t ∷ [] ≡ multiples base rounds =
      ap (λ z. s.printed ++ z ∷ []) at
      ∙ ap (λ z. z ++ ((s.count + 1) * base) ∷ []) v.lines
      ∙ sym (multiples_next base s.count)
      ∙ ap (multiples base) last in
    let yields : (count_up t s).yields ≡ 2 = ground (arith, v.yielded, last) in e ∙ cc

delay_loop_ends :
    (base : ℕ) (events : List Event) (s : State)
    → 0 < base
    → rounds * base < 2 ^ 31
    → IsExact base s
    → Ticks s.old_times events
    → rounds * base ≤ last_time s.old_times events
    → delay_loop base events s ≡ finished (twelve_quarters base)
unfolding delay_loop Ticks last_time
delay_loop_ends base [] s some_tick small v ticks reach =
    absurd (ground (arith, reach, v.not_more, below_end base s.count v.going))
delay_loop_ends base (times_fails ∷ more) s some_tick small v ticks reach = absurd ticks
delay_loop_ends base (alarm_rings ∷ more) s some_tick small v ticks reach = absurd ticks
delay_loop_ends base (used t ∷ more) s some_tick small v (tick, ticks) reach =
    let fits : t < 2 ^ 31 = omega (arith, v.not_more, below_end base s.count v.going) in
    let ok : (base == 0) ≡ false = ground (arith, some_tick) in
    elim (delay_turn-cases base t s (ground arith) fits) [
      | inl (same, eq, st) ↦
          rw (eq, st)
            (delay_loop_ends base more s some_tick small v (subst (λ n. Ticks n more) same ticks)
              (subst (λ n. rounds * base ≤ last_time n more) same reach))
      | inr (less, ne, inl (part, st)) ↦
          let no : (t % base == 0) ≡ false = ground (arith, part) in
          let old = sym (ap State.old_times st) in
          rw (ne, ok, no)
            (delay_loop_ends base more (delay_turn base t s) some_tick small
              (delay_turn-IsExact base t s some_tick v tick fits (λ whole. absurd (part whole)))
              (subst (λ n. Ticks n more) old ticks)
              (subst (λ n. rounds * base ≤ last_time n more) old reach))
      | inr (less, ne, inr (whole, st)) ↦
          let yes : (t % base == 0) ≡ true = ground (arith, whole) in
          let old = sym (ap State.old_times st) in
          let count : (delay_turn base t s).count ≡ s.count + 1 = ap State.count st in
          let at =
            next_exact s.count base t whole (omega (arith, v.counted))
              (omega (arith, v.not_more)) in
          elim (Bool-cases ((delay_turn base t s).count == rounds)) [
            | inl twelve ↦
                rw (ne, ok, yes, twelve)
                  (ap finished (
                    last_turn base t s (delay_turn base t s) v st at
                      (ground (arith, twelve, count))))
            | inr fewer ↦
                rw (ne, ok, yes, fewer)
                  (delay_loop_ends base more (delay_turn base t s) some_tick small
                    (delay_turn-IsExact base t s some_tick v tick fits
                      (λ w. ground (arith, fewer, count, v.going)))
                    (subst (λ n. Ticks n more) old ticks)
                    (subst (λ n. rounds * base ≤ last_time n more) old reach))
          ]
    ]

-- Let timebase be a quarter of the ticks of a second, rounded down: where a second has at least
-- four ticks, twelve times timebase is below 2 ^ 31, and the loop of practice/35.3 sees every tick
-- up to twelve times timebase at least, without an error or an alarm, the delay ends: at exactly
-- twelve times timebase ticks of CPU time, which are three seconds where the ticks of a second are
-- a multiple of four, with a line at each multiple of timebase and two calls of sched_yield.
pub delay3s_ends :
    (clk_tck : ℕ) (events : List Event)
    → 4 ≤ clk_tck
    → rounds * timebase (some clk_tck) < 2 ^ 31
    → Ticks 0 events
    → rounds * timebase (some clk_tck) ≤ last_time 0 events
    → delay3s (some clk_tck) events ≡ finished (twelve_quarters (timebase (some clk_tck)))
unfolding delay3s timebase fresh multiples
delay3s_ends clk_tck events fast small ticks reach =
    delay_loop_ends (clk_tck / 4) events fresh (omega arith) small
      (record {
        lines = refl;
        counted = omega arith;
        not_more = omega arith;
        going = omega arith;
        yielded = omega arith;
      })
      ticks reach

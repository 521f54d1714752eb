-- ===== src/Delay/Late.antt =====
-- The delay of practice/35.3 where the CPU time never goes back: it is never too short.
use code_strudy.Prelude.{
  ℕ, ◌+◌, ◌*◌, ◌/◌, ◌%◌, ◌^◌, ◌≤◌, ◌<◌, ◌≡◌, refl, sym, ap, subst, ◌≢◌, ◌⊎◌, inl, inr, true, false,
  Option, List, [], ◌∷◌, ◌++◌, arith, ◌==◌, Bool-cases, length, length-append,
}
use native.Mathlib.Nat.{div-add-mod', lt_of_mul-lt-mul_right, mul-le-mul_right, mod-eq_of_lt}
use code_strudy.Delay.Defs.{
  timebase, fresh, delay3s, Event, used, times_fails, alarm_rings, State, Outcome, waits, finished,
  failed, killed, fault, rounds, differs, count_up, delay_turn, delay_loop,
}

-- The times do not go back behind `old`, and fit an int.
unfoldable pub Rises : ℕ → List Event → Type 0
Rises old [] = Unit
Rises old (used sum ∷ more) = (old ≤ sum) × ((sum < 2 ^ 31) × Rises sum more)
Rises old (times_fails ∷ more) = Unit
Rises old (alarm_rings ∷ more) = Unit

-- The k-th time of a list is at least k times `base` ticks, from `k` on.
unfoldable pub AtLeast : ℕ → ℕ → List ℕ → Type 0
AtLeast base k [] = Unit
AtLeast base k (t ∷ ts) = (k * base ≤ t) × AtLeast base (k + 1) ts

AtLeast-last :
    (base k t : ℕ) (ts : List ℕ)
    → AtLeast base k ts
    → (k + length ts) * base ≤ t
    → AtLeast base k (ts ++ t ∷ [])
unfolding AtLeast
AtLeast-last base k t [] h last = (subst (λ n. n * base ≤ t) (omega arith) last, tt)
AtLeast-last base k t (u ∷ ts) h last =
    (h.0, AtLeast-last base (k + 1) t ts h.1 (subst (λ n. n * base ≤ t) (omega arith) last))

suc_le : {k q : ℕ} → k < q → k + 1 ≤ q
suc_le h = omega arith

pub next_multiple : (k base t : ℕ) → t % base ≡ 0 → k * base < t → (k + 1) * base ≤ t
next_multiple k base t whole less =
    let e = div-add-mod' t base in
    let more : k < t / base = lt_of_mul-lt-mul_right base (omega (arith, e)) in
    omega (arith, e, mul-le-mul_right base (suc_le more))

-- A turn at a time that fits an int and is not behind the last one.
pub delay_turn-cases :
    (base t : ℕ) (s : State)
    → s.old_times ≤ t
    → t < 2 ^ 31
    → (t ≡ s.old_times) × (differs t s.old_times ≡ false) × (delay_turn base t s ≡ s)
      ⊎ (s.old_times < t)
        × (differs t s.old_times ≡ true)
        × ((t % base ≢ 0) × (delay_turn base t s ≡ record s { old_times = t })
            ⊎ (t % base ≡ 0)
              × (delay_turn base t s ≡ record s {
                old_times = t;
                count = s.count + 1;
                printed = s.printed ++ t ∷ [];
                yields = (count_up t s).yields;
              }))
unfolding differs delay_turn count_up
delay_turn-cases base t s rises small =
    let w : t % 2 ^ 32 ≡ t = mod-eq_of_lt (omega arith) in ground (arith, w)

-- What the loop keeps: it has counted a quarter for each line, and no quarter too many.
pub record IsLate (base : ℕ) (s : State) : Type 0 where
  pub counted : length s.printed ≡ s.count
  pub late : AtLeast base 1 s.printed
  pub old_late : s.count * base ≤ s.old_times
  pub going : s.count < rounds
  pub yielded : s.yields ≡ s.count / 4

-- How a delay may end: three quarters of the twelve lines are followed by a call of sched_yield.
unfoldable pub EndsLate : ℕ → Outcome → Type 0
EndsLate base (waits s) = IsLate base s
EndsLate base (finished s) =
    (length s.printed ≡ rounds)
    × (AtLeast base 1 s.printed × ((rounds * base ≤ s.old_times) × (s.yields ≡ 2)))
EndsLate base failed = Unit
EndsLate base killed = Unit
EndsLate base fault = base ≡ 0

pub count_up-yields :
    (t : ℕ) (s : State)
    → s.yields ≡ s.count / 4
    → s.count + 1 < rounds
    → (count_up t s).yields ≡ (s.count + 1) / 4
unfolding count_up
count_up-yields t s y more = ground arith

delay_turn-IsLate :
    (base t : ℕ) (s : State)
    → IsLate base s
    → s.old_times ≤ t
    → t < 2 ^ 31
    → ((t % base ≡ 0) → s.count + 1 < rounds)
    → IsLate base (delay_turn base t s)
delay_turn-IsLate base t s v rises small more = elim (delay_turn-cases base t s rises small) [
  | inl (same, eq, st) ↦ subst (IsLate base) (sym st) v
  | inr (less, ne, inl (part, st)) ↦ subst (IsLate base) (sym st) (record {
    counted = v.counted;
    late = v.late;
    old_late = omega (arith, v.old_late);
    going = v.going;
    yielded = v.yielded;
  })
  | inr (less, ne, inr (whole, st)) ↦ subst (IsLate base) (sym st) (record {
    counted = omega (arith, v.counted, length-append s.printed (t ∷ []));
    late = AtLeast-last base 1 t s.printed v.late (
        subst (λ n. n * base ≤ t) (omega (arith, v.counted))
          (next_multiple s.count base t whole (omega (arith, v.old_late))));
    old_late = next_multiple s.count base t whole (omega (arith, v.old_late));
    going = more whole;
    yielded = count_up-yields t s v.yielded (more whole);
  })
]

last_line :
    (base t : ℕ) (s u : State)
    → IsLate base s
    → u ≡ record {
      old_times = t;
      count = s.count + 1;
      printed = s.printed ++ t ∷ [];
      yields = (count_up t s).yields;
    }
    → s.old_times < t
    → t % base ≡ 0
    → s.count + 1 ≡ rounds
    → EndsLate base (finished u)
unfolding EndsLate count_up
last_line base t s u v e less whole last =
    let quarter = next_multiple s.count base t whole (omega (arith, v.old_late)) in
    rw e (
      omega (arith, v.counted, last, length-append s.printed (t ∷ [])),
      (
        AtLeast-last base 1 t s.printed v.late
            (subst (λ n. n * base ≤ t) (omega (arith, v.counted)) quarter),
        (subst (λ n. n * base ≤ t) last quarter, ground (arith, v.yielded)),
      ),
    )

delay_loop-EndsLate :
    (base : ℕ) (events : List Event) (s : State)
    → IsLate base s
    → Rises s.old_times events
    → EndsLate base (delay_loop base events s)
unfolding delay_loop EndsLate Rises
delay_loop-EndsLate base [] s v r = v
delay_loop-EndsLate base (times_fails ∷ more) s v r = tt
delay_loop-EndsLate base (alarm_rings ∷ more) s v r = tt
delay_loop-EndsLate base (used t ∷ more) s v (rises, (small, r)) =
    elim (delay_turn-cases base t s rises small) [
      | inl (same, eq, st) ↦
          rw (eq, st) (delay_loop-EndsLate base more s v (subst (λ n. Rises n more) same r))
      | inr (less, ne, inl (part, st)) ↦ elim (Bool-cases (base == 0)) [
        | inl zero_base ↦ rw (ne, zero_base) (ground arith)
        | inr ok ↦
            let no : (t % base == 0) ≡ false = ground (arith, part) in
            rw (ne, ok, no)
              (delay_loop-EndsLate base more (delay_turn base t s)
                (delay_turn-IsLate base t s v rises small (λ whole. absurd (part whole)))
                (subst (λ n. Rises n more) (sym (ap State.old_times st)) r))
      ]
      | inr (less, ne, inr (whole, st)) ↦ elim (Bool-cases (base == 0)) [
        | inl zero_base ↦ rw (ne, zero_base) (ground arith)
        | inr ok ↦
            let yes : (t % base == 0) ≡ true = ground (arith, whole) in
            let count : (delay_turn base t s).count ≡ s.count + 1 = ap State.count st in
            elim (Bool-cases ((delay_turn base t s).count == rounds)) [
              | inl twelve ↦
                  rw (ne, ok, yes, twelve)
                    (last_line base t s (delay_turn base t s) v st less whole
                      (ground (arith, twelve, count)))
              | inr fewer ↦
                  rw (ne, ok, yes, fewer)
                    (delay_loop-EndsLate base more (delay_turn base t s)
                      (delay_turn-IsLate base t s v rises small
                        (λ w. ground (arith, fewer, count, v.going)))
                      (subst (λ n. Rises n more) (sym (ap State.old_times st)) r))
            ]
      ]
    ]

-- Where the times that `times` returns never go back and fit an int, a delay of practice/35.3 is
-- never too short: its k-th line is printed at k times timebase ticks at least, also where the
-- loop still runs; when it has finished it has printed 12 lines, twelve times timebase is over, and it
-- has called sched_yield twice; a division by zero needs less than four ticks in a second.
pub delay3s-EndsLate :
    (clk_tck : Option ℕ) (events : List Event)
    → Rises 0 events
    → EndsLate (timebase clk_tck) (delay3s clk_tck events)
unfolding delay3s fresh AtLeast
delay3s-EndsLate clk_tck events r =
    delay_loop-EndsLate (timebase clk_tck) events fresh
      (record {
        counted = refl;
        late = tt;
        old_late = omega arith;
        going = omega arith;
        yielded = omega arith;
      })
      r

-- ===== src/Runs.antt =====
-- Runs of a machine that takes a step at each move.
use code_strudy.Prelude.{
  ℕ, ◌+◌, ◌≤◌, ◌<◌, ◌≡◌, refl, inl, inr, Option, none, some, List, [], ◌∷◌, ◌++◌, arith,
  Option-cases, length,
}

-- A run whose moves all take a step, from one state to another.
pub data Steps {ℓ κ} {M : Type ℓ} {S : Type κ} (step : M → S → Option S)
    : List M → S → S → Type (ℓ ⊔ κ) where
  done : (s : S) → Steps step [] s s
  moves :
      (m : M) (ms : List M) (s t u : S)
      → step m s ≡ some t
      → Steps step ms t u
      → Steps step (m ∷ ms) s u

-- Where each step keeps an invariant and lowers a measure, the measure bounds the length of a run.
pub steps_bounded {ℓ κ ι} :
    {M : Type ℓ} {S : Type κ} (step : M → S → Option S) (P : S → Type ι) (measure : S → ℕ)
    → ((m : M) (s t : S) → P s → step m s ≡ some t → P t × (measure t < measure s))
    → (ms : List M) (s t : S) → P s
    → Steps step ms s t
    → length ms + measure t ≤ measure s
steps_bounded step P measure lowers _ _ _ p (done s) = omega arith
steps_bounded step P measure lowers _ _ _ p (moves m ms s t u st rest) =
    let (q, less) = lowers m s t p st in
    omega (arith, less, steps_bounded step P measure lowers ms t u q rest)

-- An invariant of the steps is one of a run.
pub steps_keep {ℓ κ ι} :
    {M : Type ℓ} {S : Type κ} (step : M → S → Option S) (P : S → Type ι)
    → ((m : M) (s t : S) → P s → step m s ≡ some t → P t)
    → (ms : List M) (s t : S) → P s
    → Steps step ms s t
    → P t
steps_keep step P keeps _ _ _ p (done s) = p
steps_keep step P keeps _ _ _ p (moves m ms s t u st rest) =
    steps_keep step P keeps ms t u (keeps m s t p st) rest

-- A schedule: a move that cannot be made lets time pass.
unfoldable pub run {ℓ κ} : {M : Type ℓ} {S : Type κ} → (M → S → Option S) → List M → S → S
run step [] s = s
run step (m ∷ ms) s = elim (step m s) [ none ↦ run step ms s | some t ↦ run step ms t ]

-- An invariant of the steps is one of every schedule.
pub run_keeps {ℓ κ ι} :
    {M : Type ℓ} {S : Type κ} (step : M → S → Option S) (P : S → Type ι)
    → ((m : M) (s t : S) → P s → step m s ≡ some t → P t)
    → (ms : List M) (s : S) → P s
    → P (run step ms s)
unfolding run
run_keeps step P keeps [] s p = p
run_keeps step P keeps (m ∷ ms) s p = elim (Option-cases (step m s)) [
  | inl no_step ↦ rw (no_step, run) (run_keeps step P keeps ms s p)
  | inr (t, taken) ↦ rw (taken, run) (run_keeps step P keeps ms t (keeps m s t p taken))
]

pub run-append {ℓ κ} :
    {M : Type ℓ} {S : Type κ} (step : M → S → Option S) (ms ns : List M) (s : S)
    → run step (ms ++ ns) s ≡ run step ns (run step ms s)
unfolding run
run-append step [] ns s = refl
run-append step (m ∷ ms) ns s = elim (Option-cases (step m s)) [
  | inl no_step ↦ rw (no_step, run) (run-append step ms ns s)
  | inr (t, taken) ↦ rw (taken, run) (run-append step ms ns t)
]

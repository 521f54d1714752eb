-- ===== src/Pingpong/Exchange.antt =====
-- The parent gets each letter back as a capital, in order, and both processes end.
use code_strudy.Prelude.{
  ℕ, zero, suc, ◌+◌, ◌-◌, ◌*◌, ◌≤◌, ◌<◌, ◌≡◌, refl, ap, ◌∙◌, ◌≢◌, ◌⊎◌, inl, inr, none, some, List,
  [], ◌∷◌, ◌++◌, arith, Option-cases, length, take,
}
use code_strudy.CString.{Bytes}
use code_strudy.Pingpong.System.{
  ParentAt, ChildAt, State, parent_step, child_step, Move, parent_moves, child_moves, step, run,
  init,
}
use code_strudy.Runs.{steps_keep, Steps, steps_bounded}

abbrev capitals : Bytes
capitals = b'A' ∷ b'B' ∷ b'C' ∷ b'D' ∷ b'E' ∷ []

-- `k` letters are back.
pub record Back (k : ℕ) (s : State) : Type 0 where
  pub letter : s.chr ≡ b'a' + k
  pub so_far : s.shown ≡ take k capitals

-- Where the processes stand, and what is in the pipes.
abbrev pub At : ℕ → ParentAt → ChildAt → State → Type 0
At k ParentAt.writes ChildAt.reads s = (k < 5) × (s.to_child ≡ []) × (s.to_parent ≡ [])
At k ParentAt.reads ChildAt.reads s =
    (k < 5)
    × (((s.to_child ≡ (b'a' + k) ∷ []) × (s.to_parent ≡ []))
        ⊎ ((k < 4) × (s.to_child ≡ []) × (s.to_parent ≡ (b'A' + k) ∷ [])))
At k ParentAt.reads (ChildAt.writes c) s =
    (k < 5) × (c ≡ b'a' + k) × (s.to_child ≡ []) × (s.to_parent ≡ [])
At k ParentAt.reads ChildAt.ended s = (k ≡ 4) × (s.to_child ≡ []) × (s.to_parent ≡ (b'A' + k) ∷ [])
At k ParentAt.finished ChildAt.ended s = k ≡ 5
At k _ _ s = ⊥

pub record IsValid (k : ℕ) (s : State) : Type 0 where
  pub back : Back k s
  pub at : At k s.at_parent s.at_child s

take-next : (k : ℕ) → k < 5 → take k capitals ++ (b'A' + k) ∷ [] ≡ take (suc k) capitals
take-next zero h = refl
take-next (suc zero) h = refl
take-next (suc (suc zero)) h = refl
take-next (suc (suc (suc zero))) h = refl
take-next (suc (suc (suc (suc zero)))) h = refl
take-next (suc (suc (suc (suc (suc k))))) h = absurd (omega arith)

parent-IsValid :
    (k : ℕ) (p : ParentAt) (c : ChildAt) (s t : State)
    → s.at_child ≡ c
    → Back k s
    → At k p c s
    → parent_step p s ≡ some t
    → (j : ℕ) × IsValid j t
unfolding parent_step
parent-IsValid k ParentAt.writes ChildAt.reads s t e b h st = (k, ground arith)
parent-IsValid k ParentAt.reads ChildAt.reads s t e b h st = (suc k, ground (arith, take-next k))
parent-IsValid k ParentAt.reads (ChildAt.writes c) s t e b h st = (k, ground arith)
parent-IsValid k ParentAt.reads ChildAt.ended s t e b h st = (suc k, ground (arith, take-next k))
parent-IsValid k p c s t e b h st = (k, ground arith)

child-IsValid :
    (k : ℕ) (p : ParentAt) (c : ChildAt) (s t : State)
    → s.at_parent ≡ p
    → Back k s
    → At k p c s
    → child_step c s ≡ some t
    → IsValid k t
unfolding child_step
child-IsValid k ParentAt.reads ChildAt.reads s t e b h st = ground arith
child-IsValid k ParentAt.reads (ChildAt.writes c) s t e b h st = ground arith
child-IsValid k p c s t e b h st = ground arith

step-IsValid :
    (k : ℕ) (m : Move) (s t : State) → IsValid k s → step m s ≡ some t → (j : ℕ) × IsValid j t
unfolding step
step-IsValid k parent_moves s t v st =
    parent-IsValid k s.at_parent s.at_child s t refl v.back v.at st
step-IsValid k child_moves s t v st =
    (k, child-IsValid k s.at_parent s.at_child s t refl v.back v.at st)

run-IsValid : (ms : List Move) (k : ℕ) (s : State) → IsValid k s → (j : ℕ) × IsValid j (run ms s)
unfolding run
run-IsValid [] k s v = (k, v)
run-IsValid (m ∷ ms) k s v = elim (Option-cases (step m s)) [
  | inl blocked ↦ rw (blocked, run) (run-IsValid ms k s v)
  | inr (t, moved) ↦
      let (j, w) = step-IsValid k m s t v moved in rw (moved, run) (run-IsValid ms j t w)
]

init-IsValid : IsValid 0 init
unfolding init
init-IsValid = record {
  back = record { letter = refl; so_far = refl };
  at = (omega arith, refl, refl);
}

-- Nobody is killed, and the parent has shown some capitals, in order.
abbrev pub Shows : ParentAt → ChildAt → Bytes → Type 0
Shows p c shown =
    (p ≢ ParentAt.killed) × (c ≢ ChildAt.killed) × (k : ℕ) × (k ≤ 5) × (shown ≡ take k capitals)

At-Shows :
    (k : ℕ) (p : ParentAt) (c : ChildAt) (s : State) → Back k s → At k p c s → Shows p c s.shown
At-Shows k ParentAt.writes ChildAt.reads s b h = ((λ e. cc), (λ e. cc), k, omega arith, b.so_far)
At-Shows k ParentAt.reads ChildAt.reads s b h = ((λ e. cc), (λ e. cc), k, omega arith, b.so_far)
At-Shows k ParentAt.reads (ChildAt.writes c) s b h =
    ((λ e. cc), (λ e. cc), k, omega arith, b.so_far)
At-Shows k ParentAt.reads ChildAt.ended s b h = ((λ e. cc), (λ e. cc), k, omega arith, b.so_far)
At-Shows k ParentAt.finished ChildAt.ended s b h = ((λ e. cc), (λ e. cc), k, omega arith, b.so_far)
At-Shows k p c s b h = ground arith

-- Under every schedule of the two processes none is killed by a pipe whose reader is gone, and the
-- parent has shown the first letters of ABCDE, in order.
pub run-Shows :
    (ms : List Move) → Shows (run ms init).at_parent (run ms init).at_child (run ms init).shown
run-Shows ms =
    let (k, v) = run-IsValid ms 0 init init-IsValid in At-Shows k _ _ (run ms init) v.back v.at

-- Four steps for each letter that is not back; how many of them are done.
abbrev done_steps : ParentAt → ChildAt → Bytes → ℕ
done_steps ParentAt.reads (ChildAt.writes c) _ = 2
done_steps ParentAt.reads _ [] = 1
done_steps ParentAt.reads _ _ = 3
done_steps _ _ _ = 0

abbrev measure : State → ℕ
measure s = 4 * (b'a' + 5 - s.chr) - done_steps s.at_parent s.at_child s.to_parent

parent-lowers :
    (k : ℕ) (p : ParentAt) (c : ChildAt) (s t : State)
    → s.at_parent ≡ p
    → s.at_child ≡ c
    → Back k s
    → At k p c s
    → parent_step p s ≡ some t
    → measure t < measure s
unfolding parent_step
parent-lowers k ParentAt.writes ChildAt.reads s t ep ec b h st = ground arith
parent-lowers k p c s t ep ec b h st = ground arith

child-lowers :
    (k : ℕ) (p : ParentAt) (c : ChildAt) (s t : State)
    → s.at_parent ≡ p
    → s.at_child ≡ c
    → Back k s
    → At k p c s
    → child_step c s ≡ some t
    → measure t < measure s
unfolding child_step
child-lowers k ParentAt.reads ChildAt.reads s t ep ec b h st = ground arith
child-lowers k p c s t ep ec b h st = ground arith

step-lowers :
    (m : Move) (s t : State)
    → (k : ℕ) × IsValid k s
    → step m s ≡ some t
    → ((j : ℕ) × IsValid j t) × (measure t < measure s)
unfolding step
step-lowers parent_moves s t (k, v) st =
    (step-IsValid k parent_moves s t v st, parent-lowers k _ _ s t refl refl v.back v.at st)
step-lowers child_moves s t (k, v) st =
    (step-IsValid k child_moves s t v st, child-lowers k _ _ s t refl refl v.back v.at st)

-- The parent has every letter, and the child has ended.
abbrev pub AllBack : State → Type 0
AllBack s = (s.at_parent ≡ ParentAt.finished) × (s.at_child ≡ ChildAt.ended) × (s.shown ≡ capitals)

stuck-AllBack :
    (k : ℕ) (p : ParentAt) (c : ChildAt) (s : State)
    → s.at_parent ≡ p
    → s.at_child ≡ c
    → Back k s
    → At k p c s
    → parent_step p s ≡ none
    → child_step c s ≡ none
    → AllBack s
unfolding parent_step child_step
stuck-AllBack k ParentAt.finished ChildAt.ended s ep ec v h b b' =
    (ep, ec, v.so_far ∙ ap (λ j. take j capitals) h)
stuck-AllBack k ParentAt.writes ChildAt.reads s ep ec v h b b' = ground arith
stuck-AllBack k p c s ep ec v h b b' = ground arith

goes_on :
    (s : State)
    → (k : ℕ) × IsValid k s
    → AllBack s ⊎ ((m : Move) × (t : State) × (step m s ≡ some t))
unfolding step
goes_on s (k, v) = elim (Option-cases (parent_step s.at_parent s)) [
  | inr (t, moved) ↦ inr (parent_moves, t, moved)
  | inl b ↦ elim (Option-cases (child_step s.at_child s)) [
    | inr (t, moved) ↦ inr (child_moves, t, moved)
    | inl b' ↦ inl (stuck-AllBack k _ _ s refl refl v.back v.at b b')
  ]
]

-- A run of the two processes has at most 20 steps, and at its end either the parent has finished
-- with ABCDE shown and the child has ended, or a process can take a step.
pub exchange_ends :
    (ms : List Move) (t : State)
    → Steps step ms init t
    → (length ms ≤ 20) × (AllBack t ⊎ ((m : Move) × (u : State) × (step m t ≡ some u)))
exchange_ends ms t r =
    let valid =
      steps_keep step (λ s. (k : ℕ) × IsValid k s) (λ m s u v st. step-IsValid v.0 m s u v.1 st) ms
        init t (0, init-IsValid) r in
    let bound =
      steps_bounded {0, 0, 0} step (λ s. (k : ℕ) × IsValid k s) measure step-lowers ms init t
        (0, init-IsValid) r in
    (unfold init in omega (arith, bound), goes_on t valid)

-- ===== src/Once/AtMostOnce.antt =====
-- Whatever the order of the calls, init is called at most once, and before any call has returned.
use code_strudy.Runs.{run_keeps}
use code_strudy.Prelude.{
  ℕ, ◌≡◌, refl, sym, ap, subst, ◌∙◌, ◌≢◌, ◌⊎◌, inl, inr, Bool, true, false, some, List, arith, ◌==◌,
  Bool-cases,
}
use code_strudy.Runs.{run, run_keeps}
use code_strudy.Once.Defs.{
  step, init, put_at, CallAt, locks, tests, inits, sets, unlocks, returned, State, call_step,
}

-- A call between its lock and its unlock.
critical : CallAt → Bool
critical locks = false
critical (returned r) = false
critical c = true

-- A call behind its test, with the result that init is there.
unfoldable pub done : CallAt → Bool
done (unlocks r) = true
done (returned r) = true
done c = false

-- What every call keeps, with the state: it owns the mutex while it is critical; it is done only
-- once init was called; at init it was not called, at the assignment it was.
CallKeeps : State → ℕ → CallAt → Type 0
CallKeeps s j c =
    ((critical c ≡ true) → s.owner ≡ some j)
    × ((done c ≡ true) → s.once ≡ true)
    × ((c ≡ inits) → (s.once ≡ false) × (s.inits_done ≡ 0))
    × ((c ≡ sets) → (s.once ≡ false) × (s.inits_done ≡ 1))

pub record IsOnce (s : State) : Type 0 where
  calls : (j : ℕ) → CallKeeps s j (s.at_call j)
  pub after : (s.once ≡ true) → s.inits_done ≡ 1
  pub before :
      (s.once ≡ false) → (s.inits_done ≡ 0) ⊎ ((k : ℕ) × (s.at_call k ≡ sets) × (s.inits_done ≡ 1))

other-CallKeeps :
    (i j : ℕ) (c : CallAt) (s t : State)
    → s.at_call i ≡ c
    → j ≢ i
    → CallKeeps s i (s.at_call i)
    → CallKeeps s j (s.at_call j)
    → call_step i c s ≡ some t
    → CallKeeps t j (s.at_call j)
unfolding CallKeeps call_step critical done
other-CallKeeps i j locks s t at ne vi vj e = ground arith
other-CallKeeps i j tests s t at ne vi vj e = ground arith
other-CallKeeps i j inits s t at ne vi vj e = ground arith
other-CallKeeps i j sets s t at ne vi vj e = ground arith
other-CallKeeps i j (unlocks r) s t at ne vi vj e = ground arith
other-CallKeeps i j (returned r) s t at ne vi vj e = ground arith

-- Where no call is at the assignment, init has not been called before `once` is set.
not_called :
    (i : ℕ) (s : State)
    → IsOnce s
    → s.owner ≡ some i
    → s.at_call i ≢ sets
    → s.once ≡ false
    → s.inits_done ≡ 0
unfolding CallKeeps critical
not_called i s v own ne unset = elim (v.before unset) [
  | inl zero_calls ↦ zero_calls
  | inr (k, at, one_call) ↦
      let held : s.owner ≡ some k = (v.calls k).0 (rw at refl) in
      let same : k ≡ i = ground (arith, held, own) in
      absurd (ne (subst (λ j. s.at_call j ≡ sets) same at))
]

self-CallKeeps :
    (i : ℕ) (c : CallAt) (s t : State)
    → s.at_call i ≡ c
    → IsOnce s
    → call_step i c s ≡ some t
    → CallKeeps t i (t.at_call i)
unfolding CallKeeps call_step critical done put_at
self-CallKeeps i locks s t at v e = let k = v.calls i in ground arith
self-CallKeeps i tests s t at v e =
    let k = v.calls i in
    let n : s.once ≡ false → s.inits_done ≡ 0 =
      λ unset. not_called i s v (k.0 (rw at refl)) (λ z. ground (arith, at)) unset in
    ground arith
self-CallKeeps i inits s t at v e = let k = v.calls i in ground arith
self-CallKeeps i sets s t at v e = let k = v.calls i in ground arith
self-CallKeeps i (unlocks r) s t at v e = let k = v.calls i in ground arith
self-CallKeeps i (returned r) s t at v e = ground arith

others_stay :
    (i j : ℕ) (c : CallAt) (s t : State)
    → j ≢ i
    → call_step i c s ≡ some t
    → t.at_call j ≡ s.at_call j
unfolding call_step put_at
others_stay i j locks s t ne e = ground arith
others_stay i j tests s t ne e = ground arith
others_stay i j inits s t ne e = ground arith
others_stay i j sets s t ne e = ground arith
others_stay i j (unlocks r) s t ne e = ground arith
others_stay i j (returned r) s t ne e = ground arith

call-after :
    (i : ℕ) (c : CallAt) (s t : State)
    → s.at_call i ≡ c
    → IsOnce s
    → call_step i c s ≡ some t
    → t.once ≡ true
    → t.inits_done ≡ 1
unfolding call_step CallKeeps
call-after i locks s t at v e = let a = v.after in ground arith
call-after i tests s t at v e = let a = v.after in ground arith
call-after i inits s t at v e = let k = v.calls i in ground arith
call-after i sets s t at v e = let k = v.calls i in ground arith
call-after i (unlocks r) s t at v e = let a = v.after in ground arith
call-after i (returned r) s t at v e = ground arith

-- A step that neither calls init nor sets `once`.
still_before :
    (i : ℕ) (c : CallAt) (s t : State)
    → s.at_call i ≡ c
    → IsOnce s
    → call_step i c s ≡ some t
    → c ≢ sets
    → t.inits_done ≡ s.inits_done
    → s.once ≡ false
    → (t.inits_done ≡ 0) ⊎ ((k : ℕ) × (t.at_call k ≡ sets) × (t.inits_done ≡ 1))
still_before i c s t at v e ne same unset = elim (v.before unset) [
  | inl zero_calls ↦ inl (same ∙ zero_calls)
  | inr (k, there, one_call) ↦
      let other : k ≢ i = λ z. ne (sym at ∙ ap s.at_call (sym z) ∙ there) in
      inr (k, others_stay i k c s t other e ∙ there, same ∙ one_call)
]

call-before :
    (i : ℕ) (c : CallAt) (s t : State)
    → s.at_call i ≡ c
    → IsOnce s
    → call_step i c s ≡ some t
    → t.once ≡ false
    → (t.inits_done ≡ 0) ⊎ ((k : ℕ) × (t.at_call k ≡ sets) × (t.inits_done ≡ 1))
unfolding call_step CallKeeps put_at
call-before i locks s t at v e u =
    still_before i locks s t at v e (λ z. ground arith) (ground arith) (ground arith)
call-before i tests s t at v e u =
    still_before i tests s t at v e (λ z. ground arith) (ground arith) (ground arith)
call-before i inits s t at v e u = let k = v.calls i in inr (i, ground arith, ground arith)
call-before i sets s t at v e u = absurd (ground arith)
call-before i (unlocks r) s t at v e u =
    still_before i (unlocks r) s t at v e (λ z. ground arith) (ground arith) (ground arith)
call-before i (returned r) s t at v e u = absurd (ground arith)

step-IsOnce : (i : ℕ) (s t : State) → IsOnce s → step i s ≡ some t → IsOnce t
unfolding step
step-IsOnce i s t v e = record {
  calls = λ j. elim (Bool-cases (j == i)) [
    | inl same ↦
        subst (λ k. CallKeeps t k (t.at_call k)) (sym (ground (arith, same)))
          (self-CallKeeps i (s.at_call i) s t refl v e)
    | inr other ↦
        let ne : j ≢ i = ground (arith, other) in
        subst (CallKeeps t j) (sym (others_stay i j (s.at_call i) s t ne e))
          (other-CallKeeps i j (s.at_call i) s t refl ne (v.calls i) (v.calls j) e)
  ];
  after = call-after i (s.at_call i) s t refl v e;
  before = call-before i (s.at_call i) s t refl v e;
}

-- For any number of calls of one_time_init and every order of their steps, init has been called once
-- where `once` is set, and otherwise not, or once by a call that is about to set it.
pub run-IsOnce : (moves : List ℕ) → IsOnce (run step moves init)
unfolding init CallKeeps critical done
run-IsOnce moves =
    run_keeps step IsOnce step-IsOnce moves init
      (record { calls = λ j. ground arith; after = λ e. ground arith; before = λ e. inl refl })

-- For any number of calls of one_time_init and every order of their steps, where a call is behind
-- its test for good, with init called by it or without, init has been called, exactly once.
pub done-once :
    (moves : List ℕ) (j : ℕ)
    → done ((run step moves init).at_call j) ≡ true
    → (run step moves init).inits_done ≡ 1
unfolding CallKeeps
done-once moves j h = let v = run-IsOnce moves in v.after ((v.calls j).1 h)

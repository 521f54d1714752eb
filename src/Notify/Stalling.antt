-- ===== src/Notify/Stalling.antt =====
-- The server takes one message for each notification, and a burst of messages notifies once.
use code_strudy.Prelude.{
  ℕ, zero, suc, ◌+◌, ◌≤◌, ◌<◌, ◌≡◌, refl, sym, ap, subst, ◌∙◌, inl, inr, Bool, true, false, some,
  List, [], ◌∷◌, ◌++◌, arith, Option-cases, replicate,
}
use code_strudy.Notify.System.{
  State, init, client_sends, notify_setup, thread_receives, Move, sends, sets_up, receives, step,
  run,
}

abbrev pub flag : Bool → ℕ
flag true = 1
flag false = 0

-- A registration stands, or one thread is yet to register; each thread has a
-- message.
pub record IsValid (s : State) : Type 0 where
  pub alive : s.failed ≡ false
  pub one_setup : s.before_setup + flag s.registered ≡ 1
  pub enough : s.before_setup + s.before_receive ≤ s.waiting

init-IsValid : IsValid init
unfolding init
init-IsValid = record { alive = refl; one_setup = refl; enough = omega arith }

step-IsValid : (m : Move) (s t : State) → IsValid s → step m s ≡ some t → IsValid t
unfolding step client_sends notify_setup thread_receives
step-IsValid sends s t v e = ground arith
step-IsValid sets_up s t v e = ground arith
step-IsValid receives s t v e = ground arith

run-IsValid : (ms : List Move) (s : State) → IsValid s → IsValid (run ms s)
unfolding run
run-IsValid [] s v = v
run-IsValid (m ∷ ms) s v = elim (Option-cases (step m s)) [
  | inl blocked ↦ rw (blocked, run) (run-IsValid ms s v)
  | inr (t, moved) ↦ rw (moved, run) (run-IsValid ms t (step-IsValid m s t v moved))
]

-- Under every schedule of clients and threads no registration fails, either a registration stands
-- or exactly one thread is yet to register, and the messages are enough for the threads that are
-- yet to receive one.
pub notify-IsValid : (ms : List Move) → IsValid (run ms init)
notify-IsValid ms = run-IsValid ms init init-IsValid

-- Messages wait, and no thread is left to take them.
pub record IsStalled (served : ℕ) (s : State) : Type 0 where
  pub none_set_up : s.before_setup ≡ 0
  pub none_receive : s.before_receive ≡ 0
  pub some_wait : 0 < s.waiting
  pub as_served : s.served ≡ served

step-IsStalled :
    (k : ℕ) (m : Move) (s t : State) → IsStalled k s → step m s ≡ some t → IsStalled k t
unfolding step client_sends notify_setup thread_receives
step-IsStalled k sends s t v e = ground arith
step-IsStalled k sets_up s t v e = ground arith
step-IsStalled k receives s t v e = ground arith

run-IsStalled : (k : ℕ) (ms : List Move) (s : State) → IsStalled k s → IsStalled k (run ms s)
unfolding run
run-IsStalled k [] s v = v
run-IsStalled k (m ∷ ms) s v = elim (Option-cases (step m s)) [
  | inl blocked ↦ rw (blocked, run) (run-IsStalled k ms s v)
  | inr (t, moved) ↦ rw (moved, run) (run-IsStalled k ms t (step-IsStalled k m s t v moved))
]

-- The state behind the first message and `n` more.
abbrev burst : ℕ → State
burst n = record {
  waiting = suc n;
  registered = false;
  before_setup = 1;
  before_receive = 0;
  served = 0;
  failed = false;
}

run-moved :
    (m : Move) (ms : List Move) (s t : State) → step m s ≡ some t → run (m ∷ ms) s ≡ run ms t
unfolding run
run-moved m ms s t e = rw (e, run)

sends-burst :
    (n k : ℕ) (ms : List Move) → run (replicate n sends ++ ms) (burst k) ≡ run ms (burst (n + k))
sends-burst zero k ms = ap (λ j. run ms (burst j)) (omega arith)
sends-burst (suc n) k ms =
    let one : step sends (burst k) ≡ some (burst (suc k)) =
      unfold step client_sends in ground arith in
    run-moved sends (replicate n sends ++ ms) (burst k) (burst (suc k)) one
    ∙ sends-burst n (suc k) ms
    ∙ ap (λ j. run ms (burst j)) (omega arith)

first_send : step sends init ≡ some (burst 0)
unfolding step client_sends init
first_send = refl

-- The state when the thread of the burst has taken its message.
abbrev drained : ℕ → State
drained n = record (burst n) { waiting = n; registered = true; before_setup = 0; served = 1 }

drains : (n : ℕ) (ms : List Move) → run (sets_up ∷ receives ∷ ms) (burst n) ≡ run ms (drained n)
unfolding run step notify_setup thread_receives
drains n ms = ground arith

-- When n + 1 messages, n above 0, come before the first notification's thread registers anew, and
-- the thread then takes its message, then whatever happens afterwards, only one message is ever
-- served, messages wait, and no thread is left to take them.
pub burst_stalls :
    (n : ℕ) (ms : List Move)
    → 0 < n
    → IsStalled 1 (run (sends ∷ replicate n sends ++ (sets_up ∷ receives ∷ ms)) init)
unfolding run
burst_stalls n ms pos_n =
    let stalled : IsStalled 1 (drained n) = record {
      none_set_up = refl;
      none_receive = refl;
      some_wait = pos_n;
      as_served = refl;
    } in
    let same : run (replicate n sends ++ (sets_up ∷ receives ∷ ms)) (burst 0) ≡ run ms (drained n) =
      sends-burst n 0 (sets_up ∷ receives ∷ ms) ∙ drains (n + 0) ms ∙ ground arith in
    rw (first_send, run) (subst (IsStalled 1) (sym same) (run-IsStalled 1 ms (drained n) stalled))

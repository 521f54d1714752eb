-- ===== src/Svmsg/Serving.antt =====
-- The server of routines/46.7.svmsg keeps the order of its requests, and its handler ends.
use code_strudy.Transfer.Queueing.{queue_last}
use code_strudy.Prelude.{
  ℕ, zero, suc, ◌+◌, ◌≤◌, ◌≡◌, refl, subst, ◌≢◌, ◌⊎◌, inl, inr, Bool, true, false, some, List, [],
  ◌∷◌, ◌++◌, append-nil, append_assoc, arith, if◌then◌else◌, Bool-cases, length,
}
use code_strudy.Runs.{run, run_keeps}
use code_strudy.Svmsg.Server.{
  at_receive, hand_on, forks, Doing, receiving, handling, spinning, ended, State, init, Move,
  client_sends, receives, interrupted, receive_fails, killed, child_exits, other_signal,
  handler_starts, handler_waits, leave, receive_one, reap_one, is_receiving, is_handling, step,
}

-- Zombies that the pending signal and the started handler stand for.
pub signals_due : State → ℕ
signals_due s = (if s.pending then 1 else 0) + (if is_handling s.doing then 1 else 0)

pub record IsServing (s : State) : Type 0 where
  pub in_order : s.handed ++ (s.lost ++ (s.received ++ s.waiting)) ≡ s.sent
  pub one_received : length s.received ≤ 1
  pub none_lost :
      (s.lost ≡ [])
      ⊎ ((s.doing ≡ ended) × (s.received ≡ []) × ((s.queue ≡ false) ⊎ (length s.lost ≡ 1)))
  pub has_queue : (s.queue ≡ true) ⊎ ((s.doing ≡ ended) × (s.waiting ≡ []) × (s.received ≡ []))
  pub due : (s.others ≡ 0) → signals_due s ≤ s.zombies
  pub no_spin : (s.others ≡ 0) → s.doing ≢ spinning

receive-IsServing :
    (s t : State) → s.doing ≡ receiving → IsServing s → receive_one s ≡ some t → IsServing t
unfolding receive_one signals_due is_handling
receive-IsServing s t doing v e = ground arith

leave-IsServing : (s : State) → s.doing ≡ receiving → IsServing s → IsServing (leave s)
unfolding leave signals_due is_handling
leave-IsServing s doing v = ground (arith, append-nil (s.received ++ s.waiting))

hand-IsServing :
    (forked : Bool) (q : List ℕ) (s t : State)
    → s.received ≡ q
    → s.doing ≡ receiving
    → IsServing s
    → hand_on forked s ≡ some t
    → IsServing t
unfolding hand_on
hand-IsServing forked [] s t k doing v e = ground arith
hand-IsServing true (r ∷ q) s t k doing v e =
    unfold signals_due in ground (arith, append_assoc s.handed (r ∷ []) (q ++ s.waiting))
hand-IsServing false (r ∷ q) s t k doing v e =
    subst IsServing (ground (arith, k)) (leave-IsServing s doing v)

receiving_lem : (d : Doing) → is_receiving d ≡ true → d ≡ receiving
unfolding is_receiving
receiving_lem receiving h = refl
receiving_lem handling h = ground arith
receiving_lem spinning h = ground arith
receiving_lem ended h = ground arith

handling_lem : (d : Doing) → is_handling d ≡ true → d ≡ handling
unfolding is_handling
handling_lem receiving h = ground arith
handling_lem handling h = refl
handling_lem spinning h = ground arith
handling_lem ended h = ground arith

reap-IsServing :
    (z : ℕ) (s t : State)
    → s.zombies ≡ z
    → s.doing ≡ handling
    → IsServing s
    → reap_one s ≡ t
    → IsServing t
unfolding reap_one signals_due is_handling
reap-IsServing zero s t some_z doing v e = ground arith
reap-IsServing (suc z) s t some_z doing v e = ground arith

step-IsServing : (m : Move) (s t : State) → IsServing s → step m s ≡ some t → IsServing t
unfolding step is_receiving is_handling signals_due
step-IsServing (client_sends r) s t v e = ground (
  arith,
  queue_last s.handed s.lost (s.received ++ s.waiting) (r ∷ []),
  append_assoc s.received s.waiting (r ∷ []),
)
step-IsServing receives s t v e = elim (Bool-cases (is_receiving s.doing)) [
  | inl is_so ↦ receive-IsServing s t (receiving_lem s.doing is_so) v (ground (arith, is_so))
  | inr is_not ↦ ground (arith, is_not)
]
step-IsServing (forks forked) s t v e = elim (Bool-cases (is_receiving s.doing)) [
  | inl is_so ↦
      hand-IsServing forked s.received s t refl (receiving_lem s.doing is_so) v
        (ground (arith, is_so))
  | inr is_not ↦ ground (arith, is_not)
]
step-IsServing interrupted s t v e = unfold at_receive in ground arith
step-IsServing receive_fails s t v e = elim (Bool-cases (is_receiving s.doing)) [
  | inl is_so ↦
      let same : leave s ≡ t = unfold at_receive in ground (arith, is_so) in
      subst IsServing same (leave-IsServing s (receiving_lem s.doing is_so) v)
  | inr is_not ↦ unfold at_receive in ground (arith, is_not)
]
step-IsServing killed s t v e =
    ground (arith, append-nil s.lost, append_assoc s.lost s.received s.waiting)
step-IsServing child_exits s t v e = ground arith
step-IsServing other_signal s t v e = ground arith
step-IsServing handler_starts s t v e = ground arith
step-IsServing handler_waits s t v e = elim (Bool-cases (is_handling s.doing)) [
  | inl is_so ↦
      reap-IsServing s.zombies s t refl (handling_lem s.doing is_so) v (ground (arith, is_so))
  | inr is_not ↦ ground (arith, is_not)
]

-- Under every schedule of the server of routines/46.7.svmsg: the requests that children have got,
-- then the lost ones, then the one that main has received and not yet handed on, then those that
-- wait, are the requests that were sent, in their order; a request is lost only where the server
-- has ended, and either its queue is removed or it is one, which the server was killed with; if
-- SIGCHLD comes from exits of children only, a zombie is there for each signal that is pending or
-- just handled, and the loop of the handler ends.
pub run-IsServing : (ms : List Move) → IsServing (run step ms init)
unfolding init signals_due is_handling
run-IsServing ms = run_keeps step IsServing step-IsServing ms init (record {
  in_order = refl;
  one_received = omega arith;
  none_lost = inl refl;
  has_queue = inl refl;
  due = λ z. omega arith;
  no_spin = λ z. ground arith;
})

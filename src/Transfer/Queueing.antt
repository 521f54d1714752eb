-- ===== src/Transfer/Queueing.antt =====
-- The requests of the POSIX server in their order, and its end for good.
use code_strudy.Prelude.{
  ℕ, ◌≤◌, ◌≡◌, refl, sym, ap, ◌∙◌, ◌⊎◌, true, false, some, List, [], ◌++◌, append_assoc, arith,
  length,
}
use code_strudy.Runs.{run, run_keeps}
use code_strudy.Transfer.Mqueue.{
  forks, start_server, State, Move, step, starts, client_sends, receives, interrupted,
  receive_fails, killed, child_exits, handler_runs,
}

pub record IsOrdered (maxmsg : ℕ) (s : State) : Type 0 where
  pub in_order : s.handed ++ (s.dropped ++ (s.received ++ s.waiting)) ≡ s.sent
  pub bounded : length s.waiting ≤ maxmsg
  pub one_received : length s.received ≤ 1
  pub dropped_last :
      (s.dropped ≡ []) ⊎ ((s.running ≡ false) × (length s.dropped ≡ 1) × (s.received ≡ []))
  pub has_queue :
      (s.queue ≡ true)
      ⊎ ((s.running ≡ false) × (s.sent ≡ []) × (s.dropped ≡ []) × (s.received ≡ []))
  pub reaped : (s.zombies ≡ 0) ⊎ (s.pending ≡ true)

pub queue_last : (h d w x : List ℕ) → h ++ (d ++ (w ++ x)) ≡ (h ++ (d ++ w)) ++ x
queue_last h d w x = ap (λ z. h ++ z) (sym (append_assoc d w x)) ∙ sym (append_assoc h (d ++ w) x)

IsDown : State → State → Type 0
IsDown s t =
    (t.queue ≡ true) × (t.running ≡ false) × (t.handed ≡ s.handed) × (t.dropped ≡ s.dropped)

step-IsDown :
    (maxmsg : ℕ) (s : State) (m : Move) (t u : State)
    → IsDown s t
    → step maxmsg m t ≡ some u
    → IsDown s u
unfolding step start_server IsDown
step-IsDown maxmsg s (starts ready) t u d e = ground arith
step-IsDown maxmsg s (client_sends r) t u d e = ground arith
step-IsDown maxmsg s receives t u d e = ground arith
step-IsDown maxmsg s (forks forked) t u d e = ground arith
step-IsDown maxmsg s interrupted t u d e = ground arith
step-IsDown maxmsg s receive_fails t u d e = ground arith
step-IsDown maxmsg s killed t u d e = ground arith
step-IsDown maxmsg s child_exits t u d e = ground arith
step-IsDown maxmsg s handler_runs t u d e = ground arith

-- Where the server of practice/52.2 has ended and its queue is there, no run of moves starts one
-- again, and no request is taken any more: those handed out and dropped stay as they are.
pub stays_down :
    (maxmsg : ℕ) (ms : List Move) (s : State)
    → s.queue ≡ true
    → s.running ≡ false
    → (run (step maxmsg) ms s).running ≡ false
      × (run (step maxmsg) ms s).handed ≡ s.handed
      × (run (step maxmsg) ms s).dropped ≡ s.dropped
unfolding IsDown
stays_down maxmsg ms s there down =
    let (_, a, b, c) =
      run_keeps (step maxmsg) (IsDown s) (step-IsDown maxmsg s) ms s (there, down, refl, refl) in
    (a, b, c)

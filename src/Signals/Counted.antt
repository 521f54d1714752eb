-- ===== src/Signals/Counted.antt =====
-- How often a signal is counted, and the end of the receiving process.
use code_strudy.Prelude.{
  ℕ, ◌+◌, ◌≤◌, ◌≡◌, refl, ◌≢◌, ◌⊎◌, inl, inr, Bool, true, false, some, List, arith,
}
use code_strudy.Runs.{run, run_keeps}
use code_strudy.Signals.Receiver.{
  discard, Phase, masks, sleeps, shows, spins, done, killed, Platform, caught, bump, put, State,
  init, sig_handler, Move, goes, sent, delivered, goes_on, send, deliver, step,
}

-- The signals that another can discard while they wait.
abbrev pub IsDiscarded : Platform → ℕ → Type 0
IsDiscarded p x = (p.stops x ≡ true) ⊎ (x ≡ p.sigcont)

-- A caught signal `x` other than SIGINT: at most as often counted as sent; and if no other signal
-- discards it, exactly where it is queued, and once at least; those that wait to be delivered
-- included.
pub record IsCounted (p : Platform) (x : ℕ) (s : State) : Type 0 where
  pub at_most : s.sig_cnt x + s.pending x ≤ s.sends x
  pub all_queued : (p.queued x ≡ false) ⊎ IsDiscarded p x ⊎ (s.sig_cnt x + s.pending x ≡ s.sends x)
  pub none_lost : IsDiscarded p x ⊎ (s.sends x ≡ 0) ⊎ (s.sig_cnt x + s.pending x ≢ 0)
  pub one_pending : (p.queued x ≡ true) ⊎ (s.pending x ≤ 1)

goes-IsCounted :
    (p : Platform) (x : ℕ) (f : Phase) (s t : State)
    → IsCounted p x s
    → goes_on p f s ≡ some t
    → IsCounted p x t
unfolding goes_on
goes-IsCounted p x masks s t v e = ground arith
goes-IsCounted p x sleeps s t v e = ground arith
goes-IsCounted p x shows s t v e = ground arith
goes-IsCounted p x spins s t v e = ground arith
goes-IsCounted p x done s t v e = ground arith
goes-IsCounted p x killed s t v e = ground arith

send-IsCounted :
    (p : Platform) (x sig : ℕ) (s t : State)
    → caught p x ≡ true
    → IsCounted p x s
    → send p sig s ≡ some t
    → IsCounted p x t
unfolding send caught bump put discard
send-IsCounted p x sig s t c v e = ground arith

deliver-IsCounted :
    (p : Platform) (x sig : ℕ) (s t : State)
    → caught p x ≡ true
    → x ≢ p.sigint
    → IsCounted p x s
    → deliver p sig s ≡ some t
    → IsCounted p x t
unfolding deliver bump put sig_handler
deliver-IsCounted p x sig s t c ne v e = ground arith

step-IsCounted :
    (p : Platform) (x : ℕ) (m : Move) (s t : State)
    → caught p x ≡ true
    → x ≢ p.sigint
    → IsCounted p x s
    → step p m s ≡ some t
    → IsCounted p x t
unfolding step
step-IsCounted p x goes s t c ne v e = goes-IsCounted p x s.phase s t v e
step-IsCounted p x (sent sig) s t c ne v e = send-IsCounted p x sig s t c v e
step-IsCounted p x (delivered sig) s t c ne v e = deliver-IsCounted p x sig s t c ne v e

-- Under every schedule, a caught signal other than SIGINT has been counted, together with those of
-- it that wait, at most as often as it was sent, and waits once at most if it is not queued; and
-- if it is neither a stop signal nor SIGCONT, which discard each other, once at least if it was
-- sent at all, and exactly as often if it is queued.
pub run-IsCounted :
    (p : Platform) (given : Bool) (ms : List Move) (x : ℕ)
    → caught p x ≡ true
    → x ≢ p.sigint
    → IsCounted p x (run (step p) ms (init given))
run-IsCounted p given ms x c ne =
    run_keeps (step p) (IsCounted p x) (λ m s t v e. step-IsCounted p x m s t c ne v e) ms
      (init given)
      (unfold init in
        record {
          at_most = omega arith;
          all_queued = inr (inr refl);
          none_lost = inr (inl refl);
          one_pending = inr (omega arith);
        })

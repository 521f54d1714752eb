-- ===== src/Signals/Ending.antt =====
-- The end of the receiving process, and what it shows of the signals that came while it slept.
use code_strudy.Prelude.{
  ℕ, ◌≡◌, refl, ◌≢◌, ◌⊎◌, inl, inr, Bool, true, false, none, some, List, arith,
}
use code_strudy.Runs.{run, run_keeps}
use code_strudy.Signals.Receiver.{
  Phase, masks, sleeps, shows, spins, done, killed, Platform, caught, bump, put, State, init,
  sig_handler, Move, goes, sent, delivered, goes_on, send, discard, deliver, step, ended, masked,
}

-- No signal discards SIGINT.
pub record IsKept (p : Platform) : Type 0 where
  pub not_stop : p.stops p.sigint ≡ false
  pub not_cont : p.sigint ≢ p.sigcont

-- SIGINT, once sent, waits or was handled.
record Interrupts (p : Platform) (s : State) : Type 0 where
  noted : (s.sends p.sigint ≡ 0) ⊎ ((s.pending p.sigint ≢ 0) ⊎ (s.got_signal ≡ true))

goes-Interrupts :
    (p : Platform) (f : Phase) (s t : State)
    → Interrupts p s
    → goes_on p f s ≡ some t
    → Interrupts p t
unfolding goes_on
goes-Interrupts p masks s t v e = ground arith
goes-Interrupts p sleeps s t v e = ground arith
goes-Interrupts p shows s t v e = ground arith
goes-Interrupts p spins s t v e = ground arith
goes-Interrupts p done s t v e = ground arith
goes-Interrupts p killed s t v e = ground arith

send-Interrupts :
    (p : Platform) (sig : ℕ) (s t : State)
    → caught p p.sigint ≡ true
    → IsKept p
    → Interrupts p s
    → send p sig s ≡ some t
    → Interrupts p t
unfolding send caught bump put ended discard
send-Interrupts p sig s t c k v e = ground (arith, k.not_stop, k.not_cont)

deliver-Interrupts :
    (p : Platform) (sig : ℕ) (s t : State)
    → caught p p.sigint ≡ true
    → Interrupts p s
    → deliver p sig s ≡ some t
    → Interrupts p t
unfolding deliver bump put sig_handler
deliver-Interrupts p sig s t c v e = ground arith

step-Interrupts :
    (p : Platform) (m : Move) (s t : State)
    → caught p p.sigint ≡ true
    → IsKept p
    → Interrupts p s
    → step p m s ≡ some t
    → Interrupts p t
unfolding step
step-Interrupts p goes s t c k v e = goes-Interrupts p s.phase s t v e
step-Interrupts p (sent sig) s t c k v e = send-Interrupts p sig s t c k v e
step-Interrupts p (delivered sig) s t c k v e = deliver-Interrupts p sig s t c v e

-- What the receiving process can do next, without another signal.
pub data CanGo (p : Platform) (s : State) : Type 0 where
  by_itself : step p goes s ≢ none → CanGo p s
  by_delivery : step p (delivered p.sigint) s ≢ none → CanGo p s

goes-CanGo :
    (p : Platform) (f : Phase) (s : State)
    → s.phase ≡ f
    → ended f ≡ false
    → (s.pending p.sigint ≢ 0) ⊎ (s.got_signal ≡ true)
    → caught p p.sigint ≡ true
    → CanGo p s
unfolding step goes_on deliver masked ended
goes-CanGo p masks s h going noted c = by_itself (λ e. ground (arith, h))
goes-CanGo p sleeps s h going noted c = by_itself (λ e. ground (arith, h))
goes-CanGo p shows s h going noted c = by_itself (λ e. ground (arith, h))
goes-CanGo p spins s h going (inl waits) c = by_delivery (λ e. ground (arith, h, waits, c))
goes-CanGo p spins s h going (inr got) c = by_itself (λ e. ground (arith, h, got))
goes-CanGo p done s h going noted c = absurd (ground arith)
goes-CanGo p killed s h going noted c = absurd (ground arith)

-- Where SIGINT can be caught and no signal discards it: under every schedule, once SIGINT was sent, the receiver has ended,
-- or can take a step or be delivered SIGINT without any further signal.
pub interrupted-CanGo :
    (p : Platform) (given : Bool) (ms : List Move)
    → caught p p.sigint ≡ true
    → IsKept p
    → let s = run (step p) ms (init given) in
      s.sends p.sigint ≢ 0 → ended s.phase ≡ false → CanGo p s
interrupted-CanGo p given ms c k interrupted going =
    let s = run (step p) ms (init given) in
    let kept =
      run_keeps (step p) (Interrupts p) (λ m s t v e. step-Interrupts p m s t c k v e) ms
        (init given) (unfold init in record { noted = inl refl }) in
    goes-CanGo p s.phase s refl going (ground (arith, kept.noted, interrupted)) c

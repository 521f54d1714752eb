-- ===== src/Signals/Receiver.antt =====
-- `main`, sig_handler and printSigset of sig_receive.c, behind the loop that installs the handler.
use code_strudy.Prelude.{
  ℕ, zero, suc, ◌+◌, ◌-◌, ◌%◌, ◌^◌, Bool, true, false, not, ◌&&◌, ◌||◌, Option, none, some, List,
  [], ◌∷◌, ltb, leb, ◌==◌, if◌then◌else◌, length,
}

-- What the system says of the signals: NSIG, the numbers of SIGINT and SIGCONT, which are queued,
-- which a process can catch and block, which stop a process, and which end a process that does not
-- catch them.
pub record Platform : Type 0 where
  pub nsig : ℕ
  pub sigint : ℕ
  pub sigcont : ℕ
  pub stops : ℕ → Bool
  pub queued : ℕ → Bool
  pub changeable : ℕ → Bool
  pub ends : ℕ → Bool

-- Those the loop `for (n = 1; n < NSIG - 1; n++)` reaches, and whose sigaction does not fail.
unfoldable pub caught : Platform → ℕ → Bool
caught p sig = leb 1 sig && ltb sig (p.nsig - 1) && p.changeable sig

unfoldable pub bump : (ℕ → ℕ) → ℕ → ℕ → ℕ
bump f k j = if j == k then suc (f j) else f j

unfoldable pub put : (ℕ → ℕ) → ℕ → ℕ → ℕ → ℕ
put f k v j = if j == k then v else f j

pub data Phase : Type 0 where
  masks sleeps shows spins : Phase
  done killed : Phase

-- `pending` has the signals that wait to be delivered; `sends` those that were sent so far.
pub record State : Type 0 where
  pub phase : Phase
  pub pending : ℕ → ℕ
  pub got_signal : Bool
  pub sig_cnt : ℕ → ℕ
  pub sends : ℕ → ℕ
  pub shown : List ℕ
  pub report : List (ℕ × ℕ)

-- `given` is argc > 1.
unfoldable pub init : Bool → State
init given = record {
  phase = if given then masks else spins;
  pending = λ j. 0;
  got_signal = false;
  sig_cnt = λ j. 0;
  sends = λ j. 0;
  shown = [];
  report = [];
}

-- The signals of a set, from `sig` on.
unfoldable pub members : ℕ → ℕ → (ℕ → ℕ) → List ℕ
members zero sig f = []
members (suc n) sig f = let rest = members n (suc sig) f in if f sig == 0 then rest else sig ∷ rest

-- The signals that printSigset prints, and whether it adds the line of an empty set: `i` is what
-- its counter, an int of 32 bits, happens to hold.
unfoldable pub print_sigset : Platform → ℕ → (ℕ → ℕ) → List ℕ × Bool
unfolding members
print_sigset p i f = let sigs = members (p.nsig - 1) 1 f in (sigs, (i + length sigs) % 2 ^ 32 == 0)

-- for (n = 0; n < NSIG; n++)
unfoldable pub counts : ℕ → ℕ → (ℕ → ℕ) → List (ℕ × ℕ)
counts zero sig f = []
counts (suc n) sig f =
    let rest = counts n (suc sig) f in if f sig == 0 then rest else (sig, f sig) ∷ rest

unfoldable pub sig_handler : Platform → ℕ → State → State
unfolding bump
sig_handler p sig s =
    if sig == p.sigint
    then record s { got_signal = true }
    else record s { sig_cnt = bump s.sig_cnt sig }

unfoldable pub masked : Phase → Bool
masked sleeps = true
masked shows = true
masked p = false

unfoldable pub ended : Phase → Bool
ended done = true
ended killed = true
ended p = false

pub data Move : Type 0 where
  goes : Move
  sent delivered : ℕ → Move

-- While gotSignal is 0, the process turns in its loop.
unfoldable pub goes_on : Platform → Phase → State → Option State
unfolding print_sigset counts
goes_on p masks s = some (record s { phase = sleeps })
goes_on p sleeps s = some (record s { phase = shows; shown = (print_sigset p 0 s.pending).0 })
goes_on p shows s = some (record s { phase = spins })
goes_on p spins s =
    if s.got_signal
    then some (record s { phase = done; report = counts p.nsig 0 s.sig_cnt })
    else none
goes_on p done s = none
goes_on p killed s = none

-- SIGCONT discards the stop signals that are pending, and a stop signal discards SIGCONT.
unfoldable pub discard : Platform → ℕ → (ℕ → ℕ) → ℕ → ℕ
discard p sig f j =
    if ((sig == p.sigcont) && p.stops j) || (p.stops sig && (j == p.sigcont)) then 0 else f j

-- A signal that is not queued is pending once at most.
unfoldable pub send : Platform → ℕ → State → Option State
unfolding bump put ended discard
send p sig s =
    let kept = discard p sig s.pending in
    if ended s.phase || not (leb 1 sig && ltb sig p.nsig)
    then none
    else if p.changeable sig
    then some (record s {
      sends = bump s.sends sig;
      pending = put kept sig (if p.queued sig then suc (kept sig) else 1);
    })
    else if p.ends sig
    then some (record s { sends = bump s.sends sig; phase = killed })
    else some (record s { sends = bump s.sends sig; pending = kept })

unfoldable pub deliver : Platform → ℕ → State → Option State
unfolding put masked ended sig_handler caught
deliver p sig s =
    let taken = record s { pending = put s.pending sig (s.pending sig - 1) } in
    if ended s.phase || masked s.phase || (s.pending sig == 0)
    then none
    else if caught p sig
    then some (sig_handler p sig taken)
    else if p.ends sig
    then some (record taken { phase = killed })
    else some taken

unfoldable pub step : Platform → Move → State → Option State
unfolding goes_on send deliver
step p goes s = goes_on p s.phase s
step p (sent sig) s = send p sig s
step p (delivered sig) s = deliver p sig s

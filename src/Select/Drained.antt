-- ===== src/Select/Drained.antt =====
-- The bytes that are written, and the end of the loop.
use code_strudy.Prelude.{
  ℕ, zero, suc, ◌+◌, ◌%◌, ◌≤◌, ◌<◌, ◌≡◌, refl, ap, subst, ◌∙◌, ◌≢◌, inl, inr, true, ◌||◌, some,
  List, [], ◌∷◌, ◌++◌, map, arith, leb, ◌==◌, if◌then◌else◌, length, get_elem?, set, length-set,
  All, All-map, All-set, All-get, get_elem?-lt,
}
use native.Mathlib.Nat.{mod-lt}
use code_strudy.Select.Defs.{
  main_loop, interrupted, timed_out, fails, turn, looks, write_all, start, select_loop, Call,
  fd_setsize, write_one, write_byte, runs, fd_isset, all_fit, State, Pipe,
}
use code_strudy.Select.Reading.{turn_looks, Watched, total, IsReady, Distinct}

fd_isset-append :
    (fd : ℕ) (xs : List ℕ) (x : ℕ) → fd_isset fd (xs ++ x ∷ []) ≡ (fd_isset fd xs || (fd == x))
unfolding fd_isset
fd_isset-append fd [] x = ground arith
fd_isset-append fd (y ∷ xs) x = ground (arith, fd_isset-append fd xs x)

all_fit-append :
    (xs : List ℕ) (x : ℕ) → all_fit xs ≡ true → x < fd_setsize → all_fit (xs ++ x ∷ []) ≡ true
unfolding all_fit
all_fit-append [] x h lt = ground arith
all_fit-append (y ∷ xs) x h lt =
    let rest : all_fit xs ≡ true → all_fit (xs ++ x ∷ []) ≡ true = λ e. all_fit-append xs x e lt in
    ground arith

Distinct-write :
    (ps : List Pipe) (i : ℕ) (p : Pipe)
    → get_elem? ps i ≡ some p
    → Distinct ps
    → Distinct (set ps i (write_byte p))
unfolding write_byte
Distinct-write [] i p e d = tt
Distinct-write (q ∷ ps) zero p e d =
    let same : q ≡ p = ground arith in
    (subst {A = Pipe} (λ r. All (λ q. q.fd ≢ r.fd) ps) same d.0, d.1)
Distinct-write (q ∷ ps) (suc i) p e d =
    let other = All-get (λ r. r.fd ≢ q.fd) ps i p d.0 e in
    (All-set (λ r. r.fd ≢ q.fd) ps i (write_byte p) d.0 other, Distinct-write ps i p e d.1)

total-write :
    (ps : List Pipe) (i : ℕ) (p : Pipe)
    → get_elem? ps i ≡ some p
    → total (set ps i (write_byte p)) ≡ suc (total ps)
unfolding write_byte total
total-write [] i p e = ground arith
total-write (q ∷ ps) zero p e = ground arith
total-write (q ∷ ps) (suc i) p e = omega (arith, total-write ps i p e)

unfoldable pub Fits : Pipe → Type 0
Fits p = p.fd < fd_setsize

total-get : (ps : List Pipe) (i : ℕ) (p : Pipe) → get_elem? ps i ≡ some p → p.waiting ≤ total ps
unfolding total
total-get [] i p e = ground arith
total-get (q ∷ ps) zero p e = ground arith
total-get (q ∷ ps) (suc i) p e = omega (arith, total-get ps i p e)

-- What every write keeps.
record IsWritten (n : ℕ) (s : State) : Type 0 where
  ready : IsReady s
  fit : All Fits s.pipes
  sum : total s.pipes ≡ n
  some_pipe : 0 < length s.pipes

write_one-IsWritten :
    (room picked n : ℕ) (s : State)
    → IsWritten n s
    → n < room
    → (t : State) × (write_one room picked s ≡ runs t) × IsWritten (suc n) t
unfolding write_one Watched
write_one-IsWritten room picked n s v fits =
    let i = picked % length s.pipes in
    let (p, found) = get_elem?-lt s.pipes i (mod-lt picked v.some_pipe) in
    let t : State = record {
      pipes = set s.pipes i (write_byte p);
      readyfd = s.readyfd ++ p.fd ∷ [];
      nfds = if leb s.nfds p.fd then p.fd + 1 else s.nfds;
    } in
    let watches : (q : Pipe) → Watched s.readyfd s.nfds q → Watched t.readyfd t.nfds q =
      λ q h. ground (arith, h, fd_isset-append q.fd s.readyfd p.fd) in
    (
      t,
      ground (arith, found, total-get s.pipes i p found, v.sum),
      record {
        ready = record {
          distinct = Distinct-write s.pipes i p found v.ready.distinct;
          watched =
              All-set (Watched t.readyfd t.nfds) s.pipes i (write_byte p)
                (All-map (Watched s.readyfd s.nfds) (Watched t.readyfd t.nfds) s.pipes watches
                  v.ready.watched)
                (inr (unfold write_byte in ground (arith, fd_isset-append p.fd s.readyfd p.fd)));
          fits =
              all_fit-append s.readyfd p.fd v.ready.fits
                (unfold Fits in All-get Fits s.pipes i p v.fit found);
        };
        fit =
            All-set Fits s.pipes i (write_byte p) v.fit
              (unfold Fits write_byte in All-get Fits s.pipes i p v.fit found);
        sum = total-write s.pipes i p found ∙ ap suc v.sum;
        some_pipe = omega (arith, length-set s.pipes i (write_byte p), v.some_pipe);
      },
    )

-- Pipes as they are made.
fresh-Watched :
    (fds watched : List ℕ) (nfds : ℕ)
    → All (Watched watched nfds) (map (λ fd. record { fd = fd; waiting = 0 }) fds)
unfolding Watched
fresh-Watched [] watched nfds = tt
fresh-Watched (fd ∷ fds) watched nfds = (inl refl, fresh-Watched fds watched nfds)

total-fresh : (fds : List ℕ) → total (map (λ fd. record { fd = fd; waiting = 0 }) fds) ≡ 0
unfolding total
total-fresh [] = refl
total-fresh (fd ∷ fds) = omega (arith, total-fresh fds)

start-IsWritten :
    (fds : List ℕ) (nfds : ℕ)
    → 0 < length (start fds nfds).pipes
    → Distinct (start fds nfds).pipes
    → All Fits (start fds nfds).pipes
    → IsWritten 0 (start fds nfds)
unfolding start
start-IsWritten fds nfds more d fits = record {
  ready = record {
    distinct = d;
    watched = fresh-Watched fds [] nfds;
    fits = unfold all_fit in refl;
  };
  fit = fits;
  sum = total-fresh fds;
  some_pipe = more;
}

write_all-IsWritten :
    (room : ℕ) (picks : List ℕ) (n : ℕ) (s : State)
    → IsWritten n s
    → n + length picks ≤ room
    → (t : State) × (write_all room picks s ≡ runs t) × IsWritten (n + length picks) t
unfolding write_all
write_all-IsWritten room [] n s v fits = (s, refl, subst (λ k. IsWritten k s) (omega arith) v)
write_all-IsWritten room (picked ∷ picks) n s v fits =
    let (t, written, v') = write_one-IsWritten room picked n s v (omega arith) in
    let (u, rest, v'') = write_all-IsWritten room picks (suc n) t v' (omega arith) in
    (u, ground (arith, written, rest), subst (λ k. IsWritten k u) (omega arith) v'')

unfoldable pub looking : List Call → ℕ
looking [] = 0
looking (looks ∷ calls) = suc (looking calls)
looking (call ∷ calls) = looking calls

loop_ends :
    (calls : List Call) (s : State)
    → IsReady s
    → All (λ c. c ≢ fails) calls
    → total s.pipes < looking calls
    → (t : State) × (select_loop calls s ≡ timed_out t) × (total t.pipes ≡ 0)
unfolding select_loop turn looking
loop_ends [] s v h enough = absurd (ground arith)
loop_ends (interrupted ∷ calls) s v h enough =
    let (t, e, none_waits) = loop_ends calls s v h.1 enough in
    (t, ground (arith, v.fits, e), none_waits)
loop_ends (fails ∷ calls) s v h enough = absurd (h.0 refl)
loop_ends (looks ∷ calls) s v h enough = elim (turn_looks s v) [
  | inl (times_out, none_waits) ↦ (s, ground (arith, times_out), none_waits)
  | inr (u, taken, ready, less) ↦
      let (t, e, none_waits) = loop_ends calls u ready h.1 (omega arith) in
      (t, ground (arith, taken, e), none_waits)
]

-- With a pipe at least, no two with the same read end, each end below FD_SETSIZE, no more writes
-- than a pipe has room for bytes, and when no select fails: whichever pipes are picked, whatever
-- nfds held before, and however many calls are interrupted, more other calls of select than bytes
-- were written are enough for the loop to end by its timeout, with no byte left in any pipe; no
-- write and no read blocks.
pub main_loop-drains :
    (room : ℕ) (fds : List ℕ) (nfds : ℕ) (picks : List ℕ) (calls : List Call)
    → length picks ≤ room
    → 0 < length (start fds nfds).pipes
    → Distinct (start fds nfds).pipes
    → All Fits (start fds nfds).pipes
    → All (λ c. c ≢ fails) calls
    → length picks < looking calls
    → (t : State) × (main_loop room fds nfds picks calls ≡ timed_out t) × (total t.pipes ≡ 0)
unfolding main_loop
main_loop-drains room fds nfds picks calls holds more d fits sound enough =
    let (s, written, v) =
      write_all-IsWritten room picks 0 (start fds nfds) (start-IsWritten fds nfds more d fits)
        (subst (λ n. n ≤ room) (omega arith) holds) in
    let (t, e, none_waits) = loop_ends calls s v.ready sound (omega (arith, v.sum)) in
    (t, ground (arith, written, e), none_waits)

-- ===== src/Select/Reading.antt =====
-- The pass of one select and the reads behind it.
use code_strudy.Prelude.{
  ℕ, ◌+◌, ◌-◌, ◌≤◌, ◌<◌, ◌≡◌, refl, ◌≢◌, ◌⊎◌, inl, inr, true, false, not, ◌&&◌, some, List, [], ◌∷◌,
  arith, ltb, ◌==◌, ==_iff, Bool-cases, length, set, All,
}
use code_strudy.Select.Defs.{
  runs, timed_out, looks, all_fit, turn, State, readable, read_ready, fd_isset, Pipe,
}

-- No two pipes have the same read end.
abbrev pub Distinct : List Pipe → Type 0
Distinct [] = Unit
Distinct (p ∷ ps) = All (λ q. q.fd ≢ p.fd) ps × Distinct ps

unfoldable pub total : List Pipe → ℕ
total [] = 0
total (p ∷ ps) = p.waiting + total ps

-- A byte is taken from each pipe that has one.
unfoldable pub read_each : List Pipe → List Pipe
read_each [] = []
read_each (p ∷ ps) = record p { waiting = p.waiting - 1 } ∷ read_each ps

-- A pipe with a byte in it is watched.
unfoldable pub Watched : List ℕ → ℕ → Pipe → Type 0
Watched watched nfds p = (p.waiting ≡ 0) ⊎ ((fd_isset p.fd watched && ltb p.fd nfds) ≡ true)

Agrees : List ℕ → Pipe → Type 0
Agrees set p = fd_isset p.fd set ≡ not (p.waiting == 0)

readable-absent :
    (watched : List ℕ) (nfds fd : ℕ) (ps : List Pipe)
    → All (λ q. q.fd ≢ fd) ps
    → fd_isset fd (readable watched nfds ps) ≡ false
unfolding readable fd_isset
readable-absent watched nfds fd [] h = refl
readable-absent watched nfds fd (p ∷ ps) h =
    ground (arith, h.0, readable-absent watched nfds fd ps h.1)

Agrees-more :
    (fd : ℕ) (set : List ℕ) (ps : List Pipe)
    → All (λ q. q.fd ≢ fd) ps
    → All (Agrees set) ps
    → All (Agrees (fd ∷ set)) ps
unfolding Agrees fd_isset
Agrees-more fd set [] ne h = tt
Agrees-more fd set (p ∷ ps) ne h = (ground (arith, ne.0, h.0), Agrees-more fd set ps ne.1 h.1)

readable-Agrees :
    (watched : List ℕ) (nfds : ℕ) (ps : List Pipe)
    → Distinct ps
    → All (Watched watched nfds) ps
    → All (Agrees (readable watched nfds ps)) ps
unfolding readable Agrees fd_isset Watched
readable-Agrees watched nfds [] d h = tt
readable-Agrees watched nfds (p ∷ ps) d h =
    let rest = readable-Agrees watched nfds ps d.1 h.1 in
    let absent = readable-absent watched nfds p.fd ps d.0 in
    elim h.0 [
      | inl empty ↦ ground (arith, empty, absent, rest)
      | inr seen ↦
          ground
            (arith, seen, absent, rest, Agrees-more p.fd (readable watched nfds ps) ps d.0 rest)
    ]

read_ready_lem :
    (set : List ℕ) (ps : List Pipe) → All (Agrees set) ps → read_ready set ps ≡ some (read_each ps)
unfolding read_ready read_each Agrees
read_ready_lem set [] h = refl
read_ready_lem set (p ∷ ps) h = ground (arith, h.0, read_ready_lem set ps h.1)

length-readable :
    (watched : List ℕ) (nfds : ℕ) (ps : List Pipe)
    → All (Watched watched nfds) ps
    → (length (readable watched nfds ps) == 0) ≡ (total ps == 0)
unfolding readable total Watched
length-readable watched nfds [] h = refl
length-readable watched nfds (p ∷ ps) h = ground (arith, h.0, length-readable watched nfds ps h.1)

total-read_each_le : (ps : List Pipe) → total (read_each ps) ≤ total ps
unfolding total read_each
total-read_each_le [] = omega arith
total-read_each_le (p ∷ ps) = omega (arith, total-read_each_le ps)

total-read_each : (ps : List Pipe) → total ps ≢ 0 → total (read_each ps) < total ps
unfolding total read_each
total-read_each [] ne = absurd (ne refl)
total-read_each (p ∷ ps) ne = elim (Bool-cases (total ps == 0)) [
  | inl empty ↦ omega (arith, (==_iff (total ps) 0).0 empty, total-read_each_le ps)
  | inr more ↦ omega (arith, total-read_each ps (ground (arith, more)))
]

absent-read_each :
    (fd : ℕ) (ps : List Pipe) → All (λ q. q.fd ≢ fd) ps → All (λ q. q.fd ≢ fd) (read_each ps)
unfolding read_each
absent-read_each fd [] h = tt
absent-read_each fd (p ∷ ps) h = (h.0, absent-read_each fd ps h.1)

Distinct-read_each : (ps : List Pipe) → Distinct ps → Distinct (read_each ps)
unfolding read_each
Distinct-read_each [] d = tt
Distinct-read_each (p ∷ ps) d = (absent-read_each p.fd ps d.0, Distinct-read_each ps d.1)

Watched-read_each :
    (watched : List ℕ) (nfds : ℕ) (ps : List Pipe)
    → All (Watched watched nfds) ps
    → All (Watched watched nfds) (read_each ps)
unfolding read_each Watched
Watched-read_each watched nfds [] h = tt
Watched-read_each watched nfds (p ∷ ps) h =
    (ground (arith, h.0), Watched-read_each watched nfds ps h.1)

-- What every turn keeps.
pub record IsReady (s : State) : Type 0 where
  pub distinct : Distinct s.pipes
  pub watched : All (Watched s.readyfd s.nfds) s.pipes
  pub fits : all_fit s.readyfd ≡ true

-- A turn that is not interrupted.
pub turn_looks :
    (s : State)
    → IsReady s
    → ((turn looks s ≡ timed_out s) × (total s.pipes ≡ 0))
      ⊎ ((t : State) × (turn looks s ≡ runs t) × IsReady t × (total t.pipes < total s.pipes))
unfolding turn
turn_looks s v =
    let set = readable s.readyfd s.nfds s.pipes in
    let same = length-readable s.readyfd s.nfds s.pipes v.watched in
    elim (Bool-cases (total s.pipes == 0)) [
      | inl none_waits ↦
          inl (ground (arith, v.fits, same, none_waits), (==_iff (total s.pipes) 0).0 none_waits)
      | inr waits ↦
          let reads =
            read_ready_lem set s.pipes
              (readable-Agrees s.readyfd s.nfds s.pipes v.distinct v.watched) in
          inr (
            record s { pipes = read_each s.pipes },
            ground (arith, v.fits, same, waits, reads),
            record {
              distinct = Distinct-read_each s.pipes v.distinct;
              watched = Watched-read_each s.readyfd s.nfds s.pipes v.watched;
              fits = v.fits;
            },
            total-read_each s.pipes (ground (arith, waits)),
          )
    ]

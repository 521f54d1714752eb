-- ===== src/Copier/Invariant.antt =====
-- No interleaving loses, repeats or reorders a byte.
use code_strudy.Prelude.{
  ℕ, suc, ◌+◌, ◌-◌, ◌^◌, ◌<◌, ◌≡◌, refl, ap, subst, ◌≢◌, ◌⊎◌, inl, inr, some, List, [], ◌∷◌, ◌++◌,
  append-nil, append_assoc, arith, Option-cases, length, take, length-append, All, take-append-drop,
}
use code_strudy.CString.{Bytes}
use code_strudy.Copier.System.{
  after_test, interrupted, writer_moves, in_full, cut_at, stored, main_moves, step, run, init, Move,
  MainAt, WriterAt, State, read_len, main_step, writer_step,
}

-- The buffer holds bytes that are not written yet.
pub record InFlight (file : Bytes) (s : State) : Type 0 where
  pub some_bytes : s.gbuf ≢ []
  pub split : s.dest ++ (s.gbuf ++ s.source) ≡ file

abbrev pub Copied : Bytes → State → Type 0
Copied file s = s.dest ++ s.source ≡ file

pub record AtEnd (file : Bytes) (s : State) : Type 0 where
  pub nothing : s.gbuf ≡ []
  pub all_read : s.source ≡ []
  pub all_written : s.dest ≡ file

-- What holds where the two threads stand, and the semaphores' values there; other places are not
-- reached together.
abbrev pub At : Bytes → MainAt → WriterAt → State → Type 0
At file MainAt.waits WriterAt.waits s =
    ((s.sem_write ≡ 1) × (s.sem_read ≡ 0) × Copied file s)
    ⊎ ((s.sem_write ≡ 0) × (s.sem_read ≡ 1) × InFlight file s)
At file MainAt.waits WriterAt.tests s = (s.sem_write ≡ 0) × (s.sem_read ≡ 0) × InFlight file s
At file MainAt.waits WriterAt.writes s = (s.sem_write ≡ 0) × (s.sem_read ≡ 0) × InFlight file s
At file MainAt.waits WriterAt.posts s = (s.sem_write ≡ 0) × (s.sem_read ≡ 0) × Copied file s
At file MainAt.reads WriterAt.waits s = (s.sem_write ≡ 0) × (s.sem_read ≡ 0) × Copied file s
At file MainAt.posts WriterAt.waits s = (s.sem_write ≡ 0) × (s.sem_read ≡ 0) × InFlight file s
At file MainAt.posts_end WriterAt.waits s = (s.sem_write ≡ 0) × (s.sem_read ≡ 0) × AtEnd file s
At file MainAt.joins WriterAt.waits s = (s.sem_write ≡ 0) × (s.sem_read ≡ 1) × AtEnd file s
At file MainAt.joins WriterAt.tests s = (s.sem_write ≡ 0) × (s.sem_read ≡ 0) × AtEnd file s
At file MainAt.joins WriterAt.ended s = (s.sem_write ≡ 0) × (s.sem_read ≡ 0) × AtEnd file s
At file MainAt.finished WriterAt.ended s = (s.sem_write ≡ 0) × (s.sem_read ≡ 0) × AtEnd file s
At file _ _ s = ⊥

-- The writing thread has added the length of the buffer before it writes it.
abbrev pub Counted : WriterAt → State → Type 0
Counted WriterAt.writes s = s.num ≡ length s.dest + length s.gbuf
Counted _ s = s.num ≡ length s.dest

-- The length of the file is an int.
pub record IsValid (file : Bytes) (s : State) : Type 0 where
  pub small : length file < 2 ^ 31
  pub at : At file s.main s.writer s
  pub counted : Counted s.writer s

-- Only at the end of the file does `read` return 0.
take_read-nil : (extra : ℕ) (xs : Bytes) → take (read_len extra) xs ≡ [] → xs ≡ []
take_read-nil extra [] e = refl
take_read-nil extra (x ∷ xs) e =
    let some_len : read_len extra ≡ suc (read_len extra - 1) = omega arith in
    let e' : take (suc (read_len extra - 1)) (x ∷ xs) ≡ [] = rw some_len at e in cc

main-At :
    (file : Bytes) (extra : ℕ) (m : MainAt) (w : WriterAt) (s t : State)
    → s.writer ≡ w
    → At file m w s
    → main_step extra m s ≡ some t
    → At file t.main t.writer t
unfolding main_step
main-At file extra MainAt.waits WriterAt.waits s t e h st = ground arith
main-At file extra MainAt.waits WriterAt.tests s t e h st = ground arith
main-At file extra MainAt.waits WriterAt.writes s t e h st = ground arith
main-At file extra MainAt.waits WriterAt.posts s t e h st = ground arith
main-At file extra MainAt.waits WriterAt.ended s t e h st = absurd h
main-At file extra MainAt.reads WriterAt.waits s t e h st = ground (
  arith,
  take-append-drop (read_len extra) s.source,
  take_read-nil extra s.source,
  append-nil s.dest,
)
main-At file extra MainAt.posts WriterAt.waits s t e h st = ground arith
main-At file extra MainAt.posts_end WriterAt.waits s t e h st = ground arith
main-At file extra MainAt.joins WriterAt.ended s t e h st = ground arith
main-At file extra _ _ s t e h st = ground arith

main-Counted :
    (extra : ℕ) (m : MainAt) (w : WriterAt) (file : Bytes) (s t : State)
    → s.writer ≡ w
    → At file m w s
    → Counted w s
    → main_step extra m s ≡ some t
    → Counted t.writer t
unfolding main_step
main-Counted extra MainAt.waits w file s t e h c st = ground arith
main-Counted extra MainAt.reads WriterAt.writes file s t e h c st = absurd h
main-Counted extra MainAt.reads w file s t e h c st = ground arith
main-Counted extra m w file s t e h c st = ground arith

writer-At :
    (file : Bytes) (m : MainAt) (w : WriterAt) (s t : State)
    → length file < 2 ^ 31
    → s.main ≡ m
    → At file m w s
    → Counted w s
    → writer_step in_full w s ≡ some t
    → At file t.main t.writer t × Counted t.writer t
unfolding writer_step stored after_test
writer-At file MainAt.waits WriterAt.waits s t small e h c st = ground arith
writer-At file MainAt.waits WriterAt.tests s t small e h c st =
    let n : length s.dest + (length s.gbuf + length s.source) ≡ length file = omega (
      arith,
      ap length h.2.split,
      length-append s.dest (s.gbuf ++ s.source),
      length-append s.gbuf s.source,
    ) in
    ground (arith, n)
writer-At file m w s t small e h c st =
    ground
      (arith, append_assoc s.dest s.gbuf s.source, length-append s.dest s.gbuf, append-nil s.dest)

-- The call of write stores its whole buffer.
abbrev pub IsWhole : Move → Type 0
IsWhole (writer_moves (cut_at n)) = ⊥
IsWhole _ = Unit

pub step-IsValid :
    (file : Bytes) (m : Move) (s t : State)
    → IsWhole m
    → IsValid file s
    → step m s ≡ some t
    → IsValid file t
unfolding step
step-IsValid file (main_moves extra) s t f v st = record {
  small = v.small;
  at = main-At file extra s.main s.writer s t refl v.at st;
  counted = main-Counted extra s.main s.writer file s t refl v.at v.counted st;
}
step-IsValid file (writer_moves (cut_at n)) s t f v st = absurd f
step-IsValid file (writer_moves in_full) s t f v st =
    let (at, counted) = writer-At file s.main s.writer s t v.small refl v.at v.counted st in
    record { small = v.small; at = at; counted = counted }
step-IsValid file interrupted s t f v st = let same : s ≡ t = cc in subst (IsValid file) same v

pub run-IsValid :
    (file : Bytes) (ms : List Move) (s : State)
    → All IsWhole ms
    → IsValid file s
    → IsValid file (run ms s)
unfolding run
run-IsValid file [] s f v = v
run-IsValid file (m ∷ ms) s f v = elim (Option-cases (step m s)) [
  | inl blocked ↦ rw (blocked, run) (run-IsValid file ms s f.1 v)
  | inr (t, moved) ↦
      rw (moved, run) (run-IsValid file ms t f.1 (step-IsValid file m s t f.0 v moved))
]

pub init-IsValid : (old file : Bytes) → length file < 2 ^ 31 → IsValid file (init old file)
unfolding init
init-IsValid old file small = record { small = small; at = inl (refl, refl, refl); counted = refl }

-- ===== src/Copier/Progress.antt =====
-- The copier is never stuck, and ends with the whole file copied.
use code_strudy.Prelude.{
  ℕ, ◌+◌, ◌*◌, ◌^◌, ◌≤◌, ◌<◌, ◌≡◌, refl, ap, ◌∙◌, ◌≢◌, inl, inr, none, some, List, [], ◌∷◌, ◌++◌,
  arith, ◌==◌, ==_iff, Bool-cases, Option-cases, length, take, drop, length-append, All,
  take-append-drop,
}
use code_strudy.CString.{Bytes}
use code_strudy.Copier.System.{
  MainAt, WriterAt, State, init, read_len, main_step, writer_step, Move, main_moves, writer_moves,
  in_full, cut_at, target, stored, after_test, Write, interrupted, step, run,
}
use code_strudy.Copier.Invariant.{
  run-IsValid, At, Counted, IsValid, IsWhole, step-IsValid, init-IsValid,
}

-- How far the threads are from the end of the round of the buffer.
rank : MainAt → WriterAt → ℕ → ℕ
rank MainAt.waits WriterAt.waits sem_read = 8 + 4 * sem_read
rank MainAt.waits WriterAt.tests sem_read = 11
rank MainAt.waits WriterAt.writes sem_read = 10
rank MainAt.waits WriterAt.posts sem_read = 9
rank MainAt.waits WriterAt.ended sem_read = 0
rank MainAt.waits WriterAt.overflown sem_read = 0
rank MainAt.reads w sem_read = 7
rank MainAt.posts w sem_read = 13
rank MainAt.posts_end w sem_read = 5
rank MainAt.joins WriterAt.waits sem_read = 4
rank MainAt.joins WriterAt.tests sem_read = 3
rank MainAt.joins _ sem_read = 2
rank MainAt.finished w sem_read = 0

pub measure : State → ℕ
unfolding rank
measure s = 8 * length s.source + rank s.main s.writer s.sem_read

length-drop-lt :
    (extra : ℕ) (xs : Bytes)
    → length (drop (read_len extra) xs) + length (take (read_len extra) xs) ≡ length xs
length-drop-lt extra xs = omega (
  arith,
  ap length (take-append-drop (read_len extra) xs),
  length-append (take (read_len extra) xs) (drop (read_len extra) xs),
)

main_lowers :
    (file : Bytes) (extra : ℕ) (m : MainAt) (w : WriterAt) (s t : State)
    → s.writer ≡ w
    → At file m w s
    → main_step extra m s ≡ some t
    → measure t < 8 * length s.source + rank m w s.sem_read
unfolding main_step measure
main_lowers file extra MainAt.waits WriterAt.waits s t e h st = ground arith
main_lowers file extra MainAt.reads WriterAt.waits s t e h st =
    ground (arith, length-drop-lt extra s.source)
main_lowers file extra m w s t e h st = ground arith

writer_lowers :
    (file : Bytes) (m : MainAt) (w : WriterAt) (s t : State)
    → s.main ≡ m
    → At file m w s
    → writer_step in_full w s ≡ some t
    → measure t < 8 * length s.source + rank m w s.sem_read
unfolding writer_step after_test stored measure
writer_lowers file MainAt.waits WriterAt.waits s t e h st = ground arith
writer_lowers file m w s t e h st = ground arith

can_move :
    (file : Bytes) (extra : ℕ) (m : MainAt) (w : WriterAt) (s : State)
    → s.writer ≡ w
    → At file m w s
    → m ≢ MainAt.finished
    → main_step extra m s ≡ none
    → writer_step in_full w s ≢ none
unfolding main_step writer_step
can_move file extra MainAt.waits WriterAt.waits s e h ne b = ground arith
can_move file extra m w s e h ne b = ground arith

-- A schedule that gives each thread a turn in every round; the numbers bound the short reads.
pub rounds : List ℕ → List Move
rounds [] = []
rounds (extra ∷ more) = main_moves extra ∷ writer_moves in_full ∷ rounds more

rounds-IsWhole : (extras : List ℕ) → All IsWhole (rounds extras)
unfolding rounds
rounds-IsWhole [] = tt
rounds-IsWhole (extra ∷ extras) = (tt, (tt, rounds-IsWhole extras))

step_lowers :
    (file : Bytes) (m : Move) (s t : State)
    → IsWhole m
    → IsValid file s
    → m ≢ interrupted
    → step m s ≡ some t
    → measure t < measure s
unfolding step measure
step_lowers file (main_moves extra) s t f v ne st =
    main_lowers file extra s.main s.writer s t refl v.at st
step_lowers file (writer_moves (cut_at n)) s t f v ne st = absurd f
step_lowers file (writer_moves in_full) s t f v ne st =
    writer_lowers file s.main s.writer s t refl v.at st
step_lowers file interrupted s t f v ne st = absurd (ne refl)

-- A thread that is moved, if it can.
after : Move → State → State
after m s = elim (step m s) [ none ↦ s | some t ↦ t ]

after-IsValid :
    (file : Bytes) (m : Move) (s : State) → IsWhole m → IsValid file s → IsValid file (after m s)
unfolding after
after-IsValid file m s f v = elim (Option-cases (step m s)) [
  | inl blocked ↦ rw (blocked, after) v
  | inr (t, moved) ↦ rw (moved, after) (step-IsValid file m s t f v moved)
]

run-cons : (m : Move) (ms : List Move) (s : State) → run (m ∷ ms) s ≡ run ms (after m s)
unfolding run after
run-cons m ms s = ground arith

after-le :
    (file : Bytes) (m : Move) (s : State)
    → IsWhole m
    → IsValid file s
    → m ≢ interrupted
    → measure (after m s) ≤ measure s
unfolding after
after-le file m s f v ne = elim (Option-cases (step m s)) [
  | inl blocked ↦ rw (blocked, after) (omega arith)
  | inr (t, moved) ↦ rw (moved, after) (omega (arith, step_lowers file m s t f v ne moved))
]

measure-zero :
    (file : Bytes) (m : MainAt) (w : WriterAt) (s : State)
    → At file m w s
    → 8 * length s.source + rank m w s.sem_read ≡ 0
    → m ≡ MainAt.finished
unfolding rank
measure-zero file MainAt.waits WriterAt.waits s h e = ground arith
measure-zero file m w s h e = ground arith

measure-finished :
    (file : Bytes) (m : MainAt) (w : WriterAt) (s : State)
    → At file m w s
    → m ≡ MainAt.finished
    → 8 * length s.source + rank m w s.sem_read ≡ 0
unfolding rank
measure-finished file MainAt.waits WriterAt.waits s h e = ground arith
measure-finished file m w s h e = ground arith

finished-measure :
    (file : Bytes) (s : State) → IsValid file s → s.main ≡ MainAt.finished → measure s ≡ 0
unfolding measure
finished-measure file s v e = measure-finished file s.main s.writer s v.at e

after-none : (m : Move) (s : State) → step m s ≡ none → after m s ≡ s
unfolding after
after-none m s e = rw (e, after)

after-some : (m : Move) (s t : State) → step m s ≡ some t → after m s ≡ t
unfolding after
after-some m s t e = rw (e, after)

round_lowers :
    (file : Bytes) (extra : ℕ) (s : State)
    → IsValid file s
    → s.main ≢ MainAt.finished
    → measure (after (writer_moves in_full) (after (main_moves extra) s)) < measure s
round_lowers file extra s v going = elim (Option-cases (step (main_moves extra) s)) [
  | inr (t, moved) ↦
      let w = step-IsValid file (main_moves extra) s t tt v moved in
      rw (after-some (main_moves extra) s t moved) (
        omega (
          arith,
          step_lowers file (main_moves extra) s t tt v (λ e. cc) moved,
          after-le file (writer_moves in_full) t tt w (λ e. cc),
        ))
  | inl blocked ↦ elim (Option-cases (step (writer_moves in_full) s)) [
    | inl b ↦
        absurd (unfold step in can_move file extra s.main s.writer s refl v.at going blocked b)
    | inr (t, moved) ↦
        rw (after-none (main_moves extra) s blocked, after-some (writer_moves in_full) s t moved)
          (step_lowers file (writer_moves in_full) s t tt v (λ e. cc) moved)
  ]
]

rounds_finish :
    (file : Bytes) (extras : List ℕ) (s : State)
    → IsValid file s
    → measure s ≤ length extras
    → (run (rounds extras) s).main ≡ MainAt.finished
unfolding rounds
rounds_finish file [] s v le =
    unfold run in measure-zero file s.main s.writer s v.at (unfold measure in omega arith)
rounds_finish file (extra ∷ extras) s v le =
    let v1 = after-IsValid file (main_moves extra) s tt v in
    let v2 = after-IsValid file (writer_moves in_full) (after (main_moves extra) s) tt v1 in
    let lower = round_lowers file extra s v in
    let same = after-le file (main_moves extra) s tt v (λ e. cc) in
    let same2 = after-le file (writer_moves in_full) (after (main_moves extra) s) tt v1 (λ e. cc) in
    let small : measure (after (writer_moves in_full) (after (main_moves extra) s))
        ≤ length extras =
      elim (Bool-cases (measure s == 0)) [
        | inl z ↦ let at_end = (==_iff (measure s) 0).0 z in omega (arith, same, same2)
        | inr nz ↦
            let going : s.main ≢ MainAt.finished =
              λ e. let at_end = finished-measure file s v e in ground (arith, nz) in
            let less = lower going in omega (arith, less, le)
      ] in
    rw
      (
        run-cons (main_moves extra) (writer_moves in_full ∷ rounds extras) s,
        run-cons (writer_moves in_full) (rounds extras) (after (main_moves extra) s),
      )
      (rounds_finish file extras _ v2 small)

-- What the copier has done when both threads have ended.
pub record IsDone (old file : Bytes) (s : State) : Type 0 where
  pub finished : s.main ≡ MainAt.finished
  pub copied : target s ≡ file ++ drop (length file) old
  pub counted : s.num ≡ length file

finished-IsDone :
    (file : Bytes) (m : MainAt) (w : WriterAt) (s : State)
    → m ≡ MainAt.finished
    → At file m w s
    → Counted w s
    → (s.dest ≡ file) × (s.num ≡ length file)
finished-IsDone file MainAt.waits w s e h c = cc
finished-IsDone file m w s e h c = ground arith

main_keeps_old :
    (extra : ℕ) (m : MainAt) (s t : State) → main_step extra m s ≡ some t → t.old ≡ s.old
unfolding main_step
main_keeps_old extra m s t e = ground arith

writer_keeps_old :
    (x : Write) (w : WriterAt) (s t : State) → writer_step x w s ≡ some t → t.old ≡ s.old
unfolding writer_step
writer_keeps_old x w s t e = ground arith

target-copied :
    (old file : Bytes) (s : State)
    → s.dest ≡ file
    → s.old ≡ old
    → target s ≡ file ++ drop (length file) old
unfolding target
target-copied old file s e o = rw (e, o) refl

step_keeps_old : (m : Move) (s t : State) → step m s ≡ some t → t.old ≡ s.old
unfolding step
step_keeps_old (main_moves extra) s t e = main_keeps_old extra s.main s t e
step_keeps_old (writer_moves w) s t e = writer_keeps_old w s.writer s t e
step_keeps_old interrupted s t e = ground arith

run_keeps_old : (ms : List Move) (s : State) → (run ms s).old ≡ s.old
unfolding run
run_keeps_old [] s = refl
run_keeps_old (m ∷ ms) s = elim (Option-cases (step m s)) [
  | inl blocked ↦ rw (blocked, run) (run_keeps_old ms s)
  | inr (t, moved) ↦ rw (moved, run) (run_keeps_old ms t ∙ step_keeps_old m s t moved)
]

-- For a file of fewer than 2 ^ 31 bytes, and when every write is whole: a run of the copier that
-- gives each thread a turn in each of 8 n + 12 rounds, n the length of the file, ends with the
-- file at the front of the target, behind which the end of a longer old target stays, and with its
-- length as the number that is printed, however short the reads are.
pub copies_whole_file :
    (old file : Bytes) (extras : List ℕ)
    → length file < 2 ^ 31
    → 8 * length file + 12 ≤ length extras
    → IsDone old file (run (rounds extras) (init old file))
copies_whole_file old file extras fits enough =
    let v = init-IsValid old file fits in
    let small : measure (init old file) ≤ length extras = unfold measure init in omega arith in
    let finish = rounds_finish file extras (init old file) v small in
    let w = run-IsValid file (rounds extras) (init old file) (rounds-IsWhole extras) v in
    let (copied, counted) =
      finished-IsDone file _ _ (run (rounds extras) (init old file)) finish w.at w.counted in
    record {
      finished = finish;
      copied =
          target-copied old file _ copied
            (run_keeps_old (rounds extras) (init old file) ∙ (unfold init in refl));
      counted = counted;
    }

-- ===== src/Copier/Tests.antt =====
-- Runs of the copier, and its theorems at them.
use code_strudy.Prelude.{◌≡◌, refl, List, [], ◌∷◌, arith, replicate}
use code_strudy.CString.{Bytes}
use code_strudy.Copier.System.{
  step, init, Move, main_moves, writer_moves, in_full, cut_at, main_step, writer_step, stored,
  after_test, interrupted, run,
}
use code_strudy.Copier.Progress.{rounds, IsDone, copies_whole_file}

abbrev file : Bytes
file = b'a' ∷ b'b' ∷ b'c' ∷ []

-- The target was longer than the file.
abbrev old : Bytes
old = replicate 5 b'x'

-- A read of one byte, an interrupted wait, and a read of the rest.
abbrev moves : List Move
moves =
    main_moves 0
    ∷ main_moves 0
    ∷ interrupted
    ∷ main_moves 0
    ∷ writer_moves in_full
    ∷ writer_moves in_full
    ∷ writer_moves in_full
    ∷ writer_moves in_full
    ∷ main_moves 9
    ∷ main_moves 9
    ∷ []

dest_after_moves :
    ((run moves (init old file)).dest ≡ b'a' ∷ [])
    × ((run moves (init old file)).gbuf ≡ b'b' ∷ b'c' ∷ [])
unfolding run init step main_step writer_step stored after_test
dest_after_moves = (refl, refl)

-- A write that stores one byte less: the byte is lost.
short_write :
    ((run
        (main_moves 9
          ∷ main_moves 9
          ∷ main_moves 9
          ∷ writer_moves in_full
          ∷ writer_moves in_full
          ∷ writer_moves (cut_at 2)
          ∷ [])
        (init old file)).dest
      ≡ b'a' ∷ b'b' ∷ [])
unfolding run init step main_step writer_step stored after_test
short_write = refl

copies_whole_file_example : IsDone old file (run (rounds (replicate 36 1)) (init old file))
copies_whole_file_example = copies_whole_file old file (replicate 36 1) (omega arith) (omega arith)

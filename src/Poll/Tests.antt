-- ===== src/Poll/Tests.antt =====
-- A poll of three pipes, and the theorem at it.
use code_strudy.Prelude.{ℕ, ◌≡◌, refl, true, List, [], ◌∷◌, arith, length}
use code_strudy.Select.Defs.{write_byte}
use code_strudy.Poll.Defs.{shows, fault, poll_pipes, write_picks, write_pick, poll_from, new_pipe}
use code_strudy.Poll.Picked.{picked_from, poll_pipes_lem}

abbrev fds : List ℕ
fds = 3 ∷ 5 ∷ 7 ∷ []

abbrev picks : List ℕ
picks = 5 ∷ 3 ∷ 2 ∷ []

two_shown :
    poll_pipes 65536 fds picks true ≡ shows (record { ready = 2; readable = (0, 3) ∷ (2, 7) ∷ [] })
unfolding poll_pipes write_picks write_pick write_byte poll_from new_pipe
two_shown = refl

-- Without pipes the index is taken modulo zero.
no_pipes : poll_pipes 65536 [] picks true ≡ fault
unfolding poll_pipes write_picks write_pick write_byte poll_from new_pipe
no_pipes = refl

poll_pipes_lem_example :
    poll_pipes 65536 fds picks true
    ≡ shows (record {
      ready = length (picked_from 3 picks 0 fds);
      readable = picked_from 3 picks 0 fds;
    })
poll_pipes_lem_example = poll_pipes_lem 65536 fds picks (omega arith) (omega arith)

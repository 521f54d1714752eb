-- ===== src/Select/Tests.antt =====
-- Three pipes, four bytes, and the calls of select that take them.
use code_strudy.Prelude.{ℕ, ◌≡◌, refl, List, [], ◌∷◌, arith}
use code_strudy.Select.Defs.{
  runs, all_fit, fd_isset, read_ready, readable, turn, select_loop, write_byte, fault, write_one,
  timed_out, blocked, interrupted, write_all, looks, State, start, main_loop, Call,
}
use code_strudy.Select.Reading.{total}
use code_strudy.Select.Drained.{main_loop-drains, Fits, looking}

abbrev ends : List ℕ
ends = 3 ∷ 5 ∷ 7 ∷ []

abbrev picks : List ℕ
picks = 1 ∷ 8 ∷ 4 ∷ 1 ∷ []

abbrev calls : List Call
calls = looks ∷ interrupted ∷ looks ∷ looks ∷ looks ∷ looks ∷ looks ∷ []

-- Three bytes are in the second pipe, so the third call finds one pipe only, and the fourth none.
after_two :
    main_loop 65536 ends 0 picks (looks ∷ looks ∷ [])
    ≡ runs (record {
      pipes =
          record { fd = 3; waiting = 0 }
          ∷ record { fd = 5; waiting = 1 }
          ∷ record { fd = 7; waiting = 0 }
          ∷ [];
      readyfd = 5 ∷ 7 ∷ 5 ∷ 5 ∷ [];
      nfds = 8;
    })
unfolding main_loop start write_all write_one write_byte select_loop turn readable read_ready
    fd_isset all_fit
after_two = refl

-- A pipe that holds two bytes is full at the third.
full_pipe : main_loop 2 ends 0 (1 ∷ 1 ∷ 1 ∷ []) calls ≡ blocked
unfolding main_loop start write_all write_one write_byte
full_pipe = refl

no_pipe : main_loop 65536 [] 0 picks calls ≡ fault
unfolding main_loop start write_all write_one
no_pipe = refl

main_loop-drains_example :
    (t : State) × (main_loop 65536 ends 0 picks calls ≡ timed_out t) × (total t.pipes ≡ 0)
unfolding start Fits looking
main_loop-drains_example =
    main_loop-drains 65536 ends 0 picks calls (omega arith) (omega arith)
      (((λ e. omega arith), ((λ e. omega arith), tt)), (((λ e. omega arith), tt), (tt, tt)))
      (omega arith, (omega arith, (omega arith, tt)))
      ((λ e. cc), ((λ e. cc), ((λ e. cc), ((λ e. cc), ((λ e. cc), ((λ e. cc), ((λ e. cc), tt)))))))
      (omega arith)

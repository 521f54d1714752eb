-- ===== src/Poll/Defs.antt =====
-- main of poll_pipe.c behind its test of argc. A pipe is its read end, and how many bytes wait in it.
use code_strudy.Prelude.{
  ℕ, suc, ◌%◌, Bool, none, some, List, [], ◌∷◌, map, ltb, ◌==◌, if◌then◌else◌, length, get_elem?,
  set,
}
use code_strudy.Select.Defs.{Pipe, write_byte}

-- What a poll shows: its result, then the index and the descriptor of each readable pipe.
pub record Shown : Type 0 where
  pub ready : ℕ
  pub readable : List (ℕ × ℕ)

-- `failed` is an error of poll, `blocked` a write to a full pipe, `fault` a division by zero.
pub data Polled : Type 0 where
  shows : Shown → Polled
  failed blocked fault : Polled

-- The pipes, or how the writes end.
pub data AfterWrites : Type 0 where
  wrote : List Pipe → AfterWrites
  blocks faults : AfterWrites

-- One turn of the loop that writes: `picked` is what random gives, `room` how many bytes a pipe holds.
unfoldable pub write_pick : ℕ → ℕ → List Pipe → AfterWrites
unfolding write_byte
write_pick room picked pipes =
    let i = picked % length pipes in
    elim (get_elem? pipes i) [
      | none ↦ faults
      | some p ↦ if ltb p.waiting room then wrote (set pipes i (write_byte p)) else blocks
    ]

unfoldable pub write_picks : ℕ → List ℕ → List Pipe → AfterWrites
write_picks room [] pipes = wrote pipes
write_picks room (picked ∷ more) pipes = elim (write_pick room picked pipes) [
  | wrote next ↦ write_picks room more next
  | blocks ↦ blocks
  | faults ↦ faults
]

-- poll with POLLIN on each read end, and the loop that shows the readable ones, from index i on.
unfoldable pub poll_from : ℕ → List Pipe → List (ℕ × ℕ)
poll_from i [] = []
poll_from i (p ∷ ps) =
    let rest = poll_from (suc i) ps in if p.waiting == 0 then rest else (i, p.fd) ∷ rest

unfoldable pub new_pipe : ℕ → Pipe
new_pipe fd = record { fd = fd; waiting = 0 }

-- main: `fds` are the read ends of the new pipes, `polls` says that poll succeeds.
unfoldable pub poll_pipes : ℕ → List ℕ → List ℕ → Bool → Polled
poll_pipes room fds picks polls = elim (write_picks room picks (map new_pipe fds)) [
  | wrote pipes ↦
      let readable = poll_from 0 pipes in
      if polls then shows (record { ready = length readable; readable = readable }) else failed
  | blocks ↦ blocked
  | faults ↦ fault
]

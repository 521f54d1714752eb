-- ===== src/Select/Defs.antt =====
-- `main` behind its test of argc. A pipe is its read end, and how many bytes wait in it.
use code_strudy.Prelude.{
  ℕ, zero, suc, ◌+◌, ◌%◌, Bool, true, false, not, ◌&&◌, ◌||◌, Option, none, some, List, [], ◌∷◌,
  ◌++◌, map, ltb, leb, ◌==◌, if◌then◌else◌, length, get_elem?, set,
}

pub record Pipe : Type 0 where
  pub fd : ℕ
  pub waiting : ℕ

-- The pipes, the read ends that select watches, and nfds.
pub record State : Type 0 where
  pub pipes : List Pipe
  pub readyfd : List ℕ
  pub nfds : ℕ

-- `failed` is an exit by an error; `fault` is a division by zero, a descriptor beyond an fd_set, or
-- a read that blocks; `blocked` is a write to a pipe that is full, which waits for ever.
pub data Outcome : Type 0 where
  runs : State → Outcome
  timed_out : State → Outcome
  failed fault blocked : Outcome

abbrev pub fd_setsize : ℕ
fd_setsize = 1024

unfoldable pub write_byte : Pipe → Pipe
write_byte p = record p { waiting = suc p.waiting }

-- One turn of the loop that writes: `picked` is what random gives, and `room` is how many bytes a
-- pipe takes.
unfoldable pub write_one : ℕ → ℕ → State → Outcome
unfolding write_byte
write_one room picked s =
    let i = picked % length s.pipes in
    elim (get_elem? s.pipes i) [
      | none ↦ fault
      | some p ↦
          if ltb p.waiting room
          then runs (record {
            pipes = set s.pipes i (write_byte p);
            readyfd = s.readyfd ++ p.fd ∷ [];
            nfds = if leb s.nfds p.fd then p.fd + 1 else s.nfds;
          })
          else blocked
    ]

unfoldable pub write_all : ℕ → List ℕ → State → Outcome
unfolding write_one
write_all room [] s = runs s
write_all room (picked ∷ more) s = elim (write_one room picked s) [
  | runs t ↦ write_all room more t
  | timed_out t ↦ timed_out t
  | failed ↦ failed
  | fault ↦ fault
  | blocked ↦ blocked
]

unfoldable pub fd_isset : ℕ → List ℕ → Bool
fd_isset fd [] = false
fd_isset fd (x ∷ xs) = (fd == x) || fd_isset fd xs

-- FD_SET stays inside the fd_set.
unfoldable pub all_fit : List ℕ → Bool
all_fit [] = true
all_fit (x ∷ xs) = ltb x fd_setsize && all_fit xs

-- The set that select leaves: the descriptors of `watched` below nfds with a byte to read.
unfoldable pub readable : List ℕ → ℕ → List Pipe → List ℕ
unfolding fd_isset
readable watched nfds [] = []
readable watched nfds (p ∷ ps) =
    let rest = readable watched nfds ps in
    if fd_isset p.fd watched && ltb p.fd nfds && not (p.waiting == 0) then p.fd ∷ rest else rest

-- for (i = 0; i < numPipes; i++): `none` is a read of a pipe with no byte in it.
unfoldable pub read_ready : List ℕ → List Pipe → Option (List Pipe)
unfolding fd_isset
read_ready set [] = some []
read_ready set (p ∷ ps) = elim (read_ready set ps) [
  | none ↦ none
  | some qs ↦
      if fd_isset p.fd set
      then elim p.waiting [ zero ↦ none | suc n ↦ some (record p { waiting = n } ∷ qs) ]
      else some (p ∷ qs)
]

-- What a call of select does: it is interrupted, fails, or looks at the descriptors.
pub data Call : Type 0 where
  interrupted fails looks : Call

unfoldable pub turn : Call → State → Outcome
unfolding all_fit readable read_ready
turn call s =
    if all_fit s.readyfd
    then elim call [
      | interrupted ↦ runs s
      | fails ↦ failed
      | looks ↦
          let set = readable s.readyfd s.nfds s.pipes in
          if length set == 0 then timed_out s else elim (read_ready set s.pipes) [
            | none ↦ fault
            | some pipes ↦ runs (record s { pipes = pipes })
          ]
    ]
    else fault

-- while (1), at as many calls of select as are given.
unfoldable pub select_loop : List Call → State → Outcome
unfolding turn
select_loop [] s = runs s
select_loop (call ∷ more) s = elim (turn call s) [
  | runs t ↦ select_loop more t
  | timed_out t ↦ timed_out t
  | failed ↦ failed
  | fault ↦ fault
  | blocked ↦ blocked
]

-- The pipes as they were made; nfds is what the variable happens to hold.
unfoldable pub start : List ℕ → ℕ → State
start fds nfds = record {
  pipes = map (λ fd. record { fd = fd; waiting = 0 }) fds;
  readyfd = [];
  nfds = nfds;
}

unfoldable pub main_loop : ℕ → List ℕ → ℕ → List ℕ → List Call → Outcome
unfolding start write_all select_loop
main_loop room fds nfds picks calls = elim (write_all room picks (start fds nfds)) [
  | runs s ↦ select_loop calls s
  | timed_out t ↦ timed_out t
  | failed ↦ failed
  | fault ↦ fault
  | blocked ↦ blocked
]

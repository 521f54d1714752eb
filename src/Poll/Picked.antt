-- ===== src/Poll/Picked.antt =====
-- poll shows exactly the pipes that were picked.
use code_strudy.Prelude.{
  ℕ, zero, suc, ◌+◌, ◌%◌, ◌≤◌, ◌<◌, ◌≡◌, refl, ap, ◌∙◌, true, some, List, [], ◌∷◌, map, arith, ◌==◌,
  if◌then◌else◌, length, get_elem?, set,
}
use native.Mathlib.Nat.{mod-lt}
use code_strudy.Select.Defs.{Pipe, write_byte}
use code_strudy.Poll.Defs.{shows, poll_pipes, new_pipe, wrote, write_picks, write_pick, poll_from}

-- The pipes from index i on, of which the j-th holds f j bytes.
holding : (ℕ → ℕ) → ℕ → List ℕ → List Pipe
holding f i [] = []
holding f i (fd ∷ fds) = record { fd = fd; waiting = f i } ∷ holding f (suc i) fds

one_more : ℕ → (ℕ → ℕ) → ℕ → ℕ
one_more k f j = if j == k then suc (f j) else f j

holding-ext :
    (f g : ℕ → ℕ) (i : ℕ) (fds : List ℕ)
    → ((j : ℕ) → i ≤ j → f j ≡ g j)
    → holding f i fds ≡ holding g i fds
unfolding holding
holding-ext f g i [] h = refl
holding-ext f g i (fd ∷ fds) h =
    ground (arith, h i (omega arith), holding-ext f g (suc i) fds (λ j le. h j (omega arith)))

set-holding :
    (f : ℕ → ℕ) (i k : ℕ) (fds : List ℕ) (p : Pipe)
    → get_elem? (holding f i fds) k ≡ some p
    → set (holding f i fds) k (write_byte p) ≡ holding (one_more (i + k) f) i fds
unfolding holding write_byte one_more
set-holding f i k [] p h = ground arith
set-holding f i zero (fd ∷ fds) p h =
    ground (arith, holding-ext f (one_more (i + 0) f) (suc i) fds (λ j le. ground arith))
set-holding f i (suc k) (fd ∷ fds) p h = ground (
  arith,
  set-holding f (suc i) k fds p h,
  holding-ext (one_more (suc i + k) f) (one_more (i + suc k) f) (suc i) fds (λ j le. ground arith),
)

-- How often pipe i of n is picked.
pub count : ℕ → ℕ → List ℕ → ℕ
count n i [] = 0
count n i (picked ∷ picks) = if i == picked % n then suc (count n i picks) else count n i picks

-- The picked pipes of the list, from index i on.
pub picked_from : ℕ → List ℕ → ℕ → List ℕ → List (ℕ × ℕ)
picked_from n picks i [] = []
picked_from n picks i (fd ∷ fds) =
    let rest = picked_from n picks (suc i) fds in
    if count n i picks == 0 then rest else (i, fd) ∷ rest

poll_from-holding :
    (n i : ℕ) (picks fds : List ℕ)
    → poll_from i (holding (λ j. count n j picks) i fds) ≡ picked_from n picks i fds
unfolding poll_from holding picked_from
poll_from-holding n i picks [] = refl
poll_from-holding n i picks (fd ∷ fds) = ground (arith, poll_from-holding n (suc i) picks fds)

length-holding : (f : ℕ → ℕ) (i : ℕ) (fds : List ℕ) → length (holding f i fds) ≡ length fds
unfolding holding
length-holding f i [] = refl
length-holding f i (fd ∷ fds) = ap suc (length-holding f (suc i) fds)

get_elem?-holding :
    (f : ℕ → ℕ) (i k : ℕ) (fds : List ℕ)
    → k < length fds
    → (p : Pipe) × (get_elem? (holding f i fds) k ≡ some p) × (p.waiting ≡ f (i + k))
unfolding holding
get_elem?-holding f i k [] h = ground arith
get_elem?-holding f i zero (fd ∷ fds) h =
    (record { fd = fd; waiting = f i }, refl, ap f (omega arith))
get_elem?-holding f i (suc k) (fd ∷ fds) h =
    let (p, e, w) = get_elem?-holding f (suc i) k fds (omega arith) in
    (p, e, w ∙ ap f (omega arith))

write_pick-holding :
    (room picked : ℕ) (f : ℕ → ℕ) (fds : List ℕ)
    → 0 < length fds
    → ((j : ℕ) → f j < room)
    → write_pick room picked (holding f 0 fds)
      ≡ wrote (holding (one_more (picked % length fds) f) 0 fds)
unfolding write_pick
write_pick-holding room picked f fds some_pipe h =
    let k = picked % length fds in
    let (p, e, w) = get_elem?-holding f 0 k fds (mod-lt picked some_pipe) in
    ground (arith, length-holding f 0 fds, e, w, h k, set-holding f 0 k fds p e)

one_more_bound : (k : ℕ) (f : ℕ → ℕ) (room n j : ℕ) → f j + suc n ≤ room → one_more k f j + n ≤ room
unfolding one_more
one_more_bound k f room n j h = ground arith

one_more-count :
    (n picked : ℕ) (picks : List ℕ) (f : ℕ → ℕ) (j : ℕ)
    → one_more (picked % n) f j + count n j picks ≡ f j + count n j (picked ∷ picks)
unfolding one_more count
one_more-count n picked picks f j = ground arith

write_picks-holding :
    (room : ℕ) (picks : List ℕ) (f : ℕ → ℕ) (fds : List ℕ)
    → 0 < length fds
    → ((j : ℕ) → f j + length picks ≤ room)
    → write_picks room picks (holding f 0 fds)
      ≡ wrote (holding (λ j. f j + count (length fds) j picks) 0 fds)
unfolding write_picks count
write_picks-holding room [] f fds some_pipe h =
    ap wrote (holding-ext f (λ j. f j + 0) 0 fds (λ j le. omega arith))
write_picks-holding room (picked ∷ picks) f fds some_pipe h =
    let next = one_more (picked % length fds) f in
    rw (write_picks, write_pick-holding room picked f fds some_pipe (λ j. omega (arith, h j)))
      (write_picks-holding room picks next fds some_pipe
          (λ j. one_more_bound (picked % length fds) f room (length picks) j (h j))
        ∙ ap wrote (
            holding-ext (λ j. next j + count (length fds) j picks)
              (λ j. f j + count (length fds) j (picked ∷ picks)) 0 fds
              (λ j le. one_more-count (length fds) picked picks f j)))

new-holding : (i : ℕ) (fds : List ℕ) → map new_pipe fds ≡ holding (λ j. 0) i fds
unfolding holding new_pipe
new-holding i [] = refl
new-holding i (fd ∷ fds) = ap (λ z. record { fd = fd; waiting = 0 } ∷ z) (new-holding (suc i) fds)

-- With a pipe at least, no more writes than a pipe has room for bytes, and a poll that succeeds,
-- the program of routines/62.3.poll_pipe shows exactly the pipes whose index random picked, modulo
-- their number, each once and in their order, and as the result of poll how many they are.
pub poll_pipes_lem :
    (room : ℕ) (fds picks : List ℕ)
    → 0 < length fds
    → length picks ≤ room
    → poll_pipes room fds picks true
      ≡ shows (record {
        ready = length (picked_from (length fds) picks 0 fds);
        readable = picked_from (length fds) picks 0 fds;
      })
unfolding poll_pipes
poll_pipes_lem room fds picks some_pipe fits =
    let n = length fds in
    let writes =
      ap (write_picks room picks) (new-holding 0 fds)
      ∙ write_picks-holding room picks (λ j. 0) fds some_pipe (λ j. omega (arith, fits))
      ∙ ap wrote (
          holding-ext (λ j. 0 + count n j picks) (λ j. count n j picks) 0 fds
            (λ j le. omega arith)) in
    rw (poll_pipes, writes, poll_from-holding n 0 picks fds) refl

-- ===== src/Pingpong/System.antt =====
-- The loops of the parent and of the child in practice/44.1/main.c, as steps. A pipe is the list of
-- its bytes. `read` returns 0 at an empty pipe whose writer is gone, and then the loop goes on;
-- `write` to a pipe whose reader is gone kills the process.
use code_strudy.Prelude.{
  ℕ, ◌+◌, ◌-◌, ◌%◌, Bool, true, false, Option, none, some, List, [], ◌∷◌, ◌++◌, ◌==◌, if◌then◌else◌,
}
use code_strudy.CString.{Bytes}

pub data ParentAt : Type 0 where
  writes reads finished killed : ParentAt

-- `writes` holds the byte that was read.
pub data ChildAt : Type 0 where
  reads ended killed : ChildAt
  writes : ℕ → ChildAt

pub record State : Type 0 where
  pub at_parent : ParentAt
  pub at_child : ChildAt
  pub to_child : Bytes
  pub to_parent : Bytes
  pub chr : ℕ
  pub shown : Bytes

unfoldable pub init : State
init = record {
  at_parent = ParentAt.writes;
  at_child = ChildAt.reads;
  to_child = [];
  to_parent = [];
  chr = b'a';
  shown = [];
}

-- A `char` of one byte.
abbrev pub upper : ℕ → ℕ
upper c = (c + 256 - 32) % 256

unfoldable pub child_gone : ChildAt → Bool
child_gone ChildAt.ended = true
child_gone ChildAt.killed = true
child_gone _ = false

unfoldable pub parent_gone : ParentAt → Bool
parent_gone ParentAt.finished = true
parent_gone ParentAt.killed = true
parent_gone _ = false

unfoldable pub parent_step : ParentAt → State → Option State
unfolding child_gone
parent_step ParentAt.writes s =
    if child_gone s.at_child
    then some (record s { at_parent = ParentAt.killed })
    else some (record s { at_parent = ParentAt.reads; to_child = s.to_child ++ s.chr ∷ [] })
parent_step ParentAt.reads s = elim s.to_parent [
  | [] ↦ if child_gone s.at_child then some (record s { at_parent = ParentAt.writes }) else none
  | c ∷ more ↦ some (record s {
    at_parent = if s.chr + 1 == b'a' + 5 then ParentAt.finished else ParentAt.writes;
    to_parent = more;
    chr = s.chr + 1;
    shown = s.shown ++ c ∷ [];
  })
]
parent_step ParentAt.finished s = none
parent_step ParentAt.killed s = none

unfoldable pub child_step : ChildAt → State → Option State
unfolding parent_gone
child_step ChildAt.reads s = elim s.to_child [
  | [] ↦ if parent_gone s.at_parent then some s else none
  | c ∷ more ↦ some (record s { at_child = ChildAt.writes c; to_child = more })
]
child_step (ChildAt.writes c) s =
    if parent_gone s.at_parent
    then some (record s { at_child = ChildAt.killed })
    else some (record s {
      at_child = if c == b'e' then ChildAt.ended else ChildAt.reads;
      to_parent = s.to_parent ++ upper c ∷ [];
    })
child_step ChildAt.ended s = none
child_step ChildAt.killed s = none

pub data Move : Type 0 where
  parent_moves child_moves : Move

unfoldable pub step : Move → State → Option State
unfolding parent_step child_step
step parent_moves s = parent_step s.at_parent s
step child_moves s = child_step s.at_child s

unfoldable pub run : List Move → State → State
unfolding step
run [] s = s
run (m ∷ ms) s = elim (step m s) [ none ↦ run ms s | some t ↦ run ms t ]

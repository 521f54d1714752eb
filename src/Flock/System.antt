-- ===== src/Flock/System.antt =====
-- The parent and the child of practice/55.2/main.c behind `fork`. A call of `flock` waits while the
-- other process holds the lock; a process that ends gives up its locks. Calls of `open` succeed.
use code_strudy.Prelude.{Option, none, some, List, [], ◌∷◌}

pub data Holder : Type 0 where
  nobody child parent : Holder

-- The child: at its lock of temp1.txt; at its lock of temp2.txt; at `exit`; ended.
pub data ChildAt : Type 0 where
  locks_first locks_second exits ended : ChildAt

-- The parent: at its lock of temp2.txt; at its lock of temp1.txt; at `waitpid`; ended.
pub data ParentAt : Type 0 where
  locks_second locks_first waits ended : ParentAt

pub record State : Type 0 where
  pub at_child : ChildAt
  pub at_parent : ParentAt
  pub temp1 : Holder
  pub temp2 : Holder

unfoldable pub init : State
init = record {
  at_child = ChildAt.locks_first;
  at_parent = ParentAt.locks_second;
  temp1 = nobody;
  temp2 = nobody;
}

unfoldable pub child_step : ChildAt → State → Option State
child_step ChildAt.locks_first s = elim s.temp1 [
  | nobody ↦ some (record s { at_child = ChildAt.locks_second; temp1 = child })
  | _ ↦ none
]
child_step ChildAt.locks_second s = elim s.temp2 [
  | nobody ↦ some (record s { at_child = ChildAt.exits; temp2 = child })
  | _ ↦ none
]
child_step ChildAt.exits s =
    some (record s { at_child = ChildAt.ended; temp1 = nobody; temp2 = nobody })
child_step ChildAt.ended s = none

unfoldable pub parent_step : ParentAt → State → Option State
parent_step ParentAt.locks_second s = elim s.temp2 [
  | nobody ↦ some (record s { at_parent = ParentAt.locks_first; temp2 = parent })
  | _ ↦ none
]
parent_step ParentAt.locks_first s = elim s.temp1 [
  | nobody ↦ some (record s { at_parent = ParentAt.waits; temp1 = parent })
  | _ ↦ none
]
parent_step ParentAt.waits s = elim s.at_child [
  | ChildAt.ended ↦ some (record s { at_parent = ParentAt.ended; temp1 = nobody; temp2 = nobody })
  | _ ↦ none
]
parent_step ParentAt.ended s = none

pub data Move : Type 0 where
  child_moves parent_moves : Move

unfoldable pub step : Move → State → Option State
unfolding child_step parent_step
step child_moves s = child_step s.at_child s
step parent_moves s = parent_step s.at_parent s

-- A process that waits lets time pass.
unfoldable pub run : List Move → State → State
unfolding step
run [] s = s
run (m ∷ ms) s = elim (step m s) [ none ↦ run ms s | some t ↦ run ms t ]

-- ===== src/Copier/System.antt =====
-- The two loops of practice/53.1/main.c as one step of a chosen thread.
use code_strudy.Prelude.{
  ℕ, zero, suc, ◌+◌, ◌^◌, min, Bool, true, false, Option, none, some, List, [], ◌∷◌, ◌++◌, ltb,
  length, take, drop,
}
use code_strudy.CString.{Bytes}

-- The main thread: at `sem_wait(&semWrite)`; at `read`; at `sem_post(&semRead)` behind it; at the
-- post of the last, empty buffer; at `pthread_join`; behind it.
pub data MainAt : Type 0 where
  waits reads posts posts_end joins finished : MainAt

-- The writing thread: at `sem_wait(&semRead)`; at the test of `Gbuf.len`; at `write`; at
-- `sem_post(&semWrite)`; ended; behind an overflow of the int `num`, which has no defined result.
pub data WriterAt : Type 0 where
  waits tests writes posts ended overflown : WriterAt

-- What a call of write stores: its buffer, or less of it; an error stores none.
pub data Write : Type 0 where
  in_full : Write
  cut_at : ℕ → Write

unfoldable pub stored : Write → Bytes → Bytes
stored in_full b = b
stored (cut_at n) b = take n b

-- `dest` has the bytes that were written so far, `old` what the target held before.
pub record State : Type 0 where
  pub main : MainAt
  pub writer : WriterAt
  pub sem_write : ℕ
  pub sem_read : ℕ
  pub gbuf : Bytes
  pub source : Bytes
  pub dest : Bytes
  pub old : Bytes
  pub num : ℕ

abbrev pub gbuf_size : ℕ
gbuf_size = 1024

-- The target is opened without O_TRUNC: what it held stands behind what is written.
unfoldable pub target : State → Bytes
target s = s.dest ++ drop (length s.dest) s.old

-- sem_init(&semWrite, 0, 1), sem_init(&semRead, 0, 0), and the two open files.
unfoldable pub init : Bytes → Bytes → State
init old source = record {
  main = MainAt.waits;
  writer = WriterAt.waits;
  sem_write = 1;
  sem_read = 0;
  gbuf = [];
  source = source;
  dest = [];
  old = old;
  num = 0;
}

-- How many bytes `read` returns: one at least, unless the file is at its end.
abbrev pub read_len : ℕ → ℕ
read_len extra = min gbuf_size (suc extra)

-- One step of the main thread; `none` if it is blocked. `extra` bounds the length of a short read.
unfoldable pub main_step : ℕ → MainAt → State → Option State
main_step extra MainAt.waits s = elim s.sem_write [
  | zero ↦ none
  | suc n ↦ some (record s { main = MainAt.reads; sem_write = n })
]
main_step extra MainAt.reads s =
    let got = take (read_len extra) s.source in
    some (record s {
      main = elim got [ [] ↦ MainAt.posts_end | c ∷ r ↦ MainAt.posts ];
      gbuf = got;
      source = drop (read_len extra) s.source;
    })
main_step extra MainAt.posts s = some (record s { main = MainAt.waits; sem_read = suc s.sem_read })
main_step extra MainAt.posts_end s =
    some (record s { main = MainAt.joins; sem_read = suc s.sem_read })
main_step extra MainAt.joins s = elim s.writer [
  | WriterAt.ended ↦ some (record s { main = MainAt.finished })
  | _ ↦ none
]
main_step extra MainAt.finished s = none

-- The test of Gbuf.len behind the sum, which `fits` an int.
unfoldable pub after_test : Bool → Bytes → WriterAt
after_test false b = WriterAt.overflown
after_test true [] = WriterAt.ended
after_test true (c ∷ r) = WriterAt.writes

-- One step of the writing thread; the result of write is not looked at.
unfoldable pub writer_step : Write → WriterAt → State → Option State
unfolding stored after_test
writer_step w WriterAt.waits s = elim s.sem_read [
  | zero ↦ none
  | suc n ↦ some (record s { writer = WriterAt.tests; sem_read = n })
]
writer_step w WriterAt.tests s = some (record s {
  writer = after_test (ltb (s.num + length s.gbuf) (2 ^ 31)) s.gbuf;
  num = s.num + length s.gbuf;
})
writer_step w WriterAt.writes s =
    some (record s { writer = WriterAt.posts; dest = s.dest ++ stored w s.gbuf })
writer_step w WriterAt.posts s =
    some (record s { writer = WriterAt.waits; sem_write = suc s.sem_write })
writer_step w WriterAt.ended s = none
writer_step w WriterAt.overflown s = none

-- The scheduler's choice. A wait that EINTR interrupts is made again: nothing changes.
pub data Move : Type 0 where
  main_moves : ℕ → Move
  writer_moves : Write → Move
  interrupted : Move

unfoldable pub step : Move → State → Option State
unfolding main_step writer_step
step (main_moves extra) s = main_step extra s.main s
step (writer_moves w) s = writer_step w s.writer s
step interrupted s = some s

-- A chosen thread that is blocked lets time pass.
unfoldable pub run : List Move → State → State
unfolding step
run [] s = s
run (m ∷ ms) s = elim (step m s) [ none ↦ run ms s | some t ↦ run ms t ]

-- ===== src/Paths/Keys.antt =====
-- The buffers of myDirname and myBasename of practice/31.2/main.c: one for each function and thread,
-- behind a thread-specific key that the first call creates. pthread_key_create and pthread_setspecific
-- are taken to succeed: behind an error of theirs the program goes on, with another key or a buffer
-- that the key does not know.
use code_strudy.Prelude.{
  ℕ, suc, Bool, true, false, ◌&&◌, ◌||◌, Option, none, some, List, [], ◌∷◌, ◌==◌, if◌then◌else◌,
}
use code_strudy.CString.{Bytes}
use code_strudy.Paths.Defs.{fault, null, null, my_basename, Result, text, my_dirname, judge_path}

-- dirKey and baseKey.
pub data Key : Type 0 where
  dir_key base_key : Key

unfoldable pub same_key : Key → Key → Bool
same_key dir_key dir_key = true
same_key base_key base_key = true
same_key k l = false

-- `created` is what pthread_once keeps; `specific` the buffer of a key in a thread; `next` how many
-- buffers were allocated, and `memory` what stands in them.
pub record Store : Type 0 where
  pub created : Key → Bool
  pub specific : Key → ℕ → Option ℕ
  pub next : ℕ
  pub memory : ℕ → Bytes

unfoldable pub no_store : Store
no_store = record { created = λ k. false; specific = λ k t. none; next = 0; memory = λ p. [] }

-- A call in a thread: `allocates` says whether malloc succeeds; `stale` and `fd_zero` are those of the two functions.
pub record Call : Type 0 where
  pub key : Key
  pub thread : ℕ
  pub path : Option Bytes
  pub stale : Bool
  pub fd_zero : Bool
  pub allocates : Bool

-- The buffer of the call and the store behind its allocation; `none` where malloc fails: errPrintf
-- only prints, and memset follows the NULL.
unfoldable pub own_buffer : Call → Store → Option (ℕ × Store)
unfolding same_key
own_buffer c s = elim (s.specific c.key c.thread) [
  | some p ↦ some (p, s)
  | none ↦
      if c.allocates
      then some (
        s.next,
        record s {
          created = λ k. same_key k c.key || s.created k;
          specific =
              λ k t. if same_key k c.key && t == c.thread then some s.next else s.specific k t;
          next = suc s.next;
        },
      )
      else none
]

unfoldable pub result_of : Call → Result
unfolding my_dirname my_basename
result_of c = elim c.key [
  | dir_key ↦ my_dirname c.stale c.fd_zero c.path
  | base_key ↦ my_basename c.fd_zero c.path
]

-- Where the result is NULL, the path that judgePath copied stays in the buffer.
unfoldable pub left_behind : Call → Result → Bytes
unfolding judge_path
left_behind c (text t) = t
left_behind c r = elim (judge_path c.path) [ text t ↦ t | _ ↦ [] ]

-- The result is a pointer to the buffer, or NULL.
pub record Returned : Type 0 where
  pub pointer : Option ℕ
  pub store : Store

-- `none` is the end of the program by a fault.
unfoldable pub answer : Result → ℕ → Store → Option Returned
answer (text t) p s = some (record { pointer = some p; store = s })
answer null p s = some (record { pointer = none; store = s })
answer fault p s = none

unfoldable pub call : Call → Store → Option Returned
unfolding own_buffer result_of left_behind answer
call c s = elim (own_buffer c s) [
  | none ↦ none
  | some (p, u) ↦
      let r = result_of c in
      answer r p (record u { memory = λ q. if q == p then left_behind c r else u.memory q })
]

-- Calls one after the other; the program goes on behind a NULL.
unfoldable pub calls : List Call → Store → Option Store
unfolding call
calls [] s = some s
calls (c ∷ cs) s = elim (call c s) [ none ↦ none | some r ↦ calls cs r.store ]

-- ===== src/Exec/Defs.antt =====
-- execShScrip and myExeclp of practice/27.2/main.c. A write outside an array, also one that realloc
-- has made smaller, is a fault; the arrays hold pointers, so a string is one element.
use code_strudy.Prelude.{
  ℕ, ◌+◌, Bool, true, false, ◌&&◌, Option, none, some, List, [], ◌∷◌, ◌++◌, ltb, ◌==◌,
  if◌then◌else◌, length,
}
use code_strudy.CString.{Bytes, terminated, text}

-- What execve leaves in errno when it returns.
pub data Errno : Type 0 where
  eacces enoexec other : Errno

-- The calls of execve that were made, each with its path and its arguments, and how it ends: a call
-- took the process over, or the function returns with an error in errno.
pub record Call : Type 0 where
  pub path : Bytes
  pub args : List Bytes

pub data Exec : Type 0 where
  replaced : Call → Exec
  returned : Errno → Exec
  fault : Exec

abbrev pub shell_path : Bytes
shell_path = b'/' ∷ b'b' ∷ b'i' ∷ b'n' ∷ b'/' ∷ b's' ∷ b'h' ∷ []

-- argvSize, and how many pointers argv really has, behind the test of (argc + 1) >= argvSize.
unfoldable pub grown : ℕ → ℕ → ℕ → ℕ × ℕ
grown size capacity argc = if ltb size (argc + 2) then (size + 100, 1) else (size, capacity)

-- The loop over the arguments; the NULL behind the last one is stored too. realloc leaves room for
-- one pointer.
unfoldable pub store_args : ℕ → ℕ → List Bytes → List Bytes → Option (List Bytes)
unfolding grown
store_args size capacity argv [] =
    if ltb (length argv) (grown size capacity (length argv)).1 then some argv else none
store_args size capacity argv (a ∷ more) =
    let (size', capacity') = grown size capacity (length argv) in
    let rest = store_args size' capacity' (argv ++ a ∷ []) more in
    if ltb (length argv) capacity' then rest else none

-- calloc of 100 pointers, and the first argument, `none` for NULL.
unfoldable pub build_args : Option Bytes → List Bytes → Option (List Bytes)
unfolding store_args
build_args none args = some []
build_args (some arg) args = store_args 100 100 (arg ∷ []) args

-- calloc(i = 1, ...): envp has one pointer, and gets one for each string of environ and NULL.
unfoldable pub copy_env : List Bytes → Option (List Bytes)
copy_env environ = if ltb (length environ) 1 then some environ else none

unfoldable pub has_slash : Bytes → Bool
has_slash [] = false
has_slash (c ∷ s) = if c == b'/' then true else has_slash s

-- What follows the name and '=' in a string of the environment.
unfoldable pub value_of : Bytes → Bytes → Option Bytes
value_of [] [] = none
value_of [] (c ∷ s) = if c == b'=' then some s else none
value_of (n ∷ name) [] = none
value_of (n ∷ name) (c ∷ s) = let rest = value_of name s in if c == n then rest else none

-- getenv reads environ, and gives the first.
unfoldable pub getenv : Bytes → List Bytes → Option Bytes
unfolding value_of
getenv name [] = none
getenv name (s ∷ environ) =
    let rest = getenv name environ in elim (value_of name s) [ none ↦ rest | some v ↦ some v ]

-- (p == NULL || strlen(p)) ? strdup(".") : strdup(p)
unfoldable pub search_path : Option Bytes → Bytes
search_path none = b'.' ∷ []
search_path (some []) = []
search_path (some (c ∷ p)) = b'.' ∷ []

abbrev pub path_var : Bytes
path_var = b'P' ∷ b'A' ∷ b'T' ∷ b'H' ∷ []

-- The calls of strcat on memory of `size` bytes that malloc has not cleared.
unfoldable pub path_name : Bytes → ℕ → Bytes → Bytes → Option Bytes
path_name unset size prefix filename =
    let name = text unset ++ prefix ++ b'/' ∷ filename in
    if terminated unset && ltb (length name) size then some name else none

-- The prefix is "." where the path has none.
unfoldable pub prefix_of : Bytes → Bytes
prefix_of [] = b'.' ∷ []
prefix_of (c ∷ p) = c ∷ p

module _ (execve : Call → Option Errno) where
  -- A call of execve, and execShScrip behind ENOEXEC, whose own call may fail.
  unfoldable pub try_exec : Call → Exec
  try_exec c = elim (execve c) [
    | none ↦ replaced c
    | some enoexec ↦
        let script : Call = record { path = shell_path; args = shell_path ∷ c.args } in
        elim (execve script) [ none ↦ replaced script | some e ↦ returned enoexec ]
    | some e ↦ returned e
  ]

  -- The loop over the prefixes: both paths that search_path gives have no colon, so that the first
  -- pass is the last. `stale` is what the unset morePrefixes holds; with 0 saveError stays unset.
  unfoldable pub search : ℕ → Bytes → Errno → Bytes → Bytes → List Bytes → Exec
  unfolding path_name prefix_of try_exec
  search stale unset unset_error path filename argv =
      if stale == 0
      then returned unset_error
      else elim (path_name unset (length path + length filename + 2) (prefix_of path) filename) [
        | none ↦ fault
        | some name ↦ try_exec (record { path = name; args = argv })
      ]

  unfoldable pub my_execlp :
      ℕ → Bytes → Errno → List Bytes → Bytes → Option Bytes → List Bytes → Exec
  unfolding build_args copy_env has_slash search_path search try_exec getenv
  my_execlp stale unset unset_error environ filename arg args = elim (build_args arg args) [
    | none ↦ fault
    | some argv ↦ elim (copy_env environ) [
      | none ↦ fault
      | some envp ↦
          if has_slash filename
          then try_exec (record { path = filename; args = argv })
          else search stale unset unset_error (search_path (getenv path_var environ)) filename argv
    ]
  ]

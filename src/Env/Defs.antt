-- ===== src/Env/Defs.antt =====
-- myunsetenv and mysetenv of practice/6.3/env.c. `environ` is the list of its strings, each without
-- its NUL; getenv, putenv and malloc come as arguments.
use code_strudy.Prelude.{
  ℕ, zero, suc, Bool, true, false, Option, none, some, List, [], ◌∷◌, ◌++◌, ◌==◌, if◌then◌else◌,
  length,
}
use code_strudy.CString.{Bytes}

abbrev pub Environ : Type 0
Environ = List Bytes

abbrev pub equals : ℕ
equals = b'='

-- The return value 0 or -1, with the environment; `fault` is a read behind a string's NUL.
pub data Result : Type 0 where
  ok : Environ → Result
  failed : Environ → Result
  fault : Result

-- strchr(s, '=') != NULL
unfoldable pub has_equals : Bytes → Bool
has_equals [] = false
has_equals (c ∷ s) = if c == equals then true else has_equals s

-- strncmp(a, b, n) == 0
unfoldable pub same_start : ℕ → Bytes → Bytes → Bool
same_start zero a b = true
same_start (suc n) [] [] = true
same_start (suc n) [] (y ∷ b) = false
same_start (suc n) (x ∷ a) [] = false
same_start (suc n) (x ∷ a) (y ∷ b) = if x == y then same_start n a b else false

-- Is the byte at an index other than NUL?
unfoldable pub byte_set : Bytes → ℕ → Option Bool
byte_set [] zero = some false
byte_set [] (suc i) = none
byte_set (c ∷ s) zero = some true
byte_set (c ∷ s) (suc i) = byte_set s i

-- (strncmp(*ep, name, len) != 0) && (*ep)[len == '=']
unfoldable pub removes : Bytes → Bytes → Option Bool
removes name entry =
    if same_start (length name) entry name
    then some false
    else byte_set entry (if length name == equals then 1 else 0)

-- The loop of myunsetenv: an entry is removed by moving those behind it one place to the front.
unfoldable pub unset_loop : Bytes → Environ → Option Environ
unset_loop name [] = some []
unset_loop name (entry ∷ rest) =
    let kept = unset_loop name rest in
    elim (removes name entry) [
      | none ↦ none
      | some gone ↦ elim kept [
        | none ↦ none
        | some more ↦ some (if gone then more else entry ∷ more)
      ]
    ]

unfoldable pub my_unsetenv : Option Bytes → Environ → Result
unfolding unset_loop has_equals
my_unsetenv none environ = failed environ
my_unsetenv (some name) environ =
    if has_equals name
    then failed environ
    else elim (unset_loop name environ) [ none ↦ fault | some kept ↦ ok kept ]

-- The end of mysetenv, on the environment that myunsetenv left. putenv gives `none` if it fails.
unfoldable pub add_entry :
    (Bytes → Environ → Option Environ) → Bool → Bytes → Bytes → Environ → Result
add_entry putenv malloced name value environ =
    if malloced
    then elim (putenv (name ++ equals ∷ value) environ) [
      | none ↦ failed environ
      | some new ↦ ok new
    ]
    else failed environ

-- What mysetenv does when myunsetenv is back: its return value is not looked at.
unfoldable pub set_new : (Bytes → Environ → Option Environ) → Bool → Bytes → Bytes → Result → Result
unfolding add_entry
set_new putenv malloced name value (ok e) = add_entry putenv malloced name value e
set_new putenv malloced name value (failed e) = add_entry putenv malloced name value e
set_new putenv malloced name value fault = fault

-- `malloced` says that malloc succeeds.
unfoldable pub my_setenv :
    (Bytes → Environ → Option Bytes)
    → (Bytes → Environ → Option Environ)
    → Bool
    → Option Bytes
    → Option Bytes
    → Bool
    → Environ
    → Result
unfolding my_unsetenv set_new has_equals
my_setenv getenv putenv malloced none value overwrite environ = failed environ
my_setenv getenv putenv malloced (some name) none overwrite environ = failed environ
my_setenv getenv putenv malloced (some name) (some value) overwrite environ =
    let after_unset = set_new putenv malloced name value (my_unsetenv (some name) environ) in
    if has_equals name then failed environ else elim (getenv name environ) [
      | none ↦ after_unset
      | some old ↦ if overwrite then after_unset else ok environ
    ]

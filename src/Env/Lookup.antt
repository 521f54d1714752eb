-- ===== src/Env/Lookup.antt =====
-- What getenv finds behind mysetenv.
use code_strudy.Prelude.{
  ◌≡◌, ◌⊎◌, inl, inr, Bool, true, false, Option, some, ◌∷◌, ◌++◌, arith, Bool-cases, Option-cases,
}
use code_strudy.CString.{Bytes}
use code_strudy.Env.Defs.{
  Environ, equals, Result, ok, failed, fault, has_equals, my_unsetenv, add_entry, set_new,
  my_setenv,
}

add_entry-getenv :
    (getenv : Bytes → Environ → Option Bytes) (putenv : Bytes → Environ → Option Environ)
    (malloced : Bool) (name value : Bytes) (environ new : Environ)
    → ((e f : Environ) → putenv (name ++ equals ∷ value) e ≡ some f → getenv name f ≡ some value)
    → add_entry putenv malloced name value environ ≡ ok new
    → getenv name new ≡ some value
unfolding add_entry
add_entry-getenv getenv putenv true name value environ new law e =
    elim (Option-cases (putenv (name ++ equals ∷ value) environ)) [
      | inl fails ↦ ground (arith, fails)
      | inr (f, adds) ↦ let found = law environ f adds in ground (arith, adds, found)
    ]
add_entry-getenv getenv putenv false name value environ new law e = ground arith

set_new-getenv :
    (getenv : Bytes → Environ → Option Bytes) (putenv : Bytes → Environ → Option Environ)
    (malloced : Bool) (name value : Bytes) (r : Result) (new : Environ)
    → ((e f : Environ) → putenv (name ++ equals ∷ value) e ≡ some f → getenv name f ≡ some value)
    → set_new putenv malloced name value r ≡ ok new
    → getenv name new ≡ some value
unfolding set_new
set_new-getenv getenv putenv malloced name value (ok f) new law e =
    add_entry-getenv getenv putenv malloced name value f new law e
set_new-getenv getenv putenv malloced name value (failed f) new law e =
    add_entry-getenv getenv putenv malloced name value f new law e
set_new-getenv getenv putenv malloced name value fault new law e = ground arith

-- Given that putenv of the new entry makes getenv find the value: when mysetenv returns 0, getenv
-- finds the value, or overwrite is 0, the name had a value, and the environment is as it was.
pub my_setenv-getenv :
    (getenv : Bytes → Environ → Option Bytes) (putenv : Bytes → Environ → Option Environ)
    (malloced : Bool) (name value : Bytes) (overwrite : Bool) (environ new : Environ)
    → ((e f : Environ) → putenv (name ++ equals ∷ value) e ≡ some f → getenv name f ≡ some value)
    → my_setenv getenv putenv malloced (some name) (some value) overwrite environ ≡ ok new
    → (getenv name new ≡ some value)
      ⊎ ((old : Bytes) × (overwrite ≡ false) × (getenv name environ ≡ some old) × (new ≡ environ))
unfolding my_setenv
my_setenv-getenv getenv putenv malloced name value overwrite environ new law e =
    elim (Bool-cases (has_equals name)) [
      | inl bad ↦ ground (arith, bad)
      | inr plain ↦
          let set =
            set_new-getenv getenv putenv malloced name value (my_unsetenv (some name) environ) new
              law in
          elim (Option-cases (getenv name environ)) [
            | inl unset ↦ inl (set (ground (arith, plain, unset)))
            | inr (old, found) ↦ elim (Bool-cases overwrite) [
              | inl over ↦ inl (set (ground (arith, plain, found, over)))
              | inr keep ↦ inr (old, keep, found, ground (arith, plain, found, keep))
            ]
          ]
    ]

-- ===== src/Env/Tests.antt =====
-- Environments, and the theorems at them.
use code_strudy.Prelude.{◌≡◌, refl, Option, none, some, [], ◌∷◌, arith, ◌==◌, if◌then◌else◌}
use code_strudy.CString.{Bytes}
use code_strudy.Env.Defs.{
  Environ, equals, ok, has_equals, same_start, byte_set, removes, unset_loop, my_unsetenv,
}
use code_strudy.Env.Kept.{IsKept, my_unsetenv-IsKept}

-- The variables A and B.
abbrev two_variables : Environ
two_variables = (b'A' ∷ equals ∷ b'1' ∷ []) ∷ (b'B' ∷ equals ∷ b'2' ∷ []) ∷ []

-- To unset A removes B, and leaves A.
unset_a : my_unsetenv (some (b'A' ∷ [])) two_variables ≡ ok ((b'A' ∷ equals ∷ b'1' ∷ []) ∷ [])
unfolding my_unsetenv unset_loop removes same_start byte_set has_equals
unset_a = refl

my_unsetenv-IsKept_example :
    (kept : Environ) × (my_unsetenv (some (b'A' ∷ [])) two_variables ≡ ok kept)
    × IsKept (b'A' ∷ []) two_variables kept
unfolding has_equals
my_unsetenv-IsKept_example = my_unsetenv-IsKept (b'A' ∷ []) two_variables refl (λ e. omega arith)

-- The value in an entry of a variable whose name has one byte.
abbrev value_in : Bytes → Bytes → Option Bytes
value_in (c ∷ []) (d ∷ e ∷ value) = if c == d then some value else none
value_in name entry = none

abbrev get_first : Bytes → Environ → Option Bytes
get_first name [] = none
get_first name (entry ∷ rest) = value_in name entry

abbrev put_first : Bytes → Environ → Option Environ
put_first entry environ = some (entry ∷ environ)

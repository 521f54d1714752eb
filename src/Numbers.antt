-- ===== src/Numbers.antt =====
-- getnum, getLong and getInt of routines/1.seek_io/error_functions/get_num.c under
-- linux_programing_interface. `gnFail` ends the process, so a call either returns or fails with the
-- function's name and the message. `strtol` comes as an argument.
mod Tests
use code_strudy.Prelude.{
  ℕ, zero, suc, ◌-◌, ◌*◌, ◌/◌, ◌%◌, ◌^◌, ◌≤◌, min, ◌≡◌, refl, sym, ap, ◌∙◌, ◌↔◌, ◌⊎◌, inl, inr,
  Bool, true, false, not, ◌&&◌, Option, none, some, [], ◌∷◌, arith, ltb, ◌==◌, if◌then◌else◌, set,
  ℤ, pos, negsuc,
}
use code_strudy.CString.{Bytes}

-- What strtol(arg, &endptr, base) tells: its value, whether errno is set, whether *endptr is NUL.
pub record Strtol : Type 0 where
  pub value : ℤ
  pub failed : Bool
  pub at_end : Bool

pub data Message : Type 0 where
  empty_string strtol_failed non_numeric negative not_positive out_of_range : Message

pub data Function : Type 0 where
  in_get_long in_get_int : Function

pub data Answer : Type 0 where
  value : ℤ → Answer
  gn_fail : Function → Message → Answer

-- flags & 2^k
unfoldable pub has_flag : ℕ → ℕ → Bool
has_flag flags k = (flags / 2 ^ k) % 2 == 1

-- GN_NONNEG is 01, GN_GT_0 02, GN_ANY_BASE 0100, GN_BASE_8 0200, GN_BASE_16 0400, in octal.
unfoldable pub base_of : ℕ → ℕ
unfolding has_flag
base_of flags =
    if has_flag flags 6
    then 0
    else if has_flag flags 7
    then 8
    else if has_flag flags 8
    then 16
    else 10

unfoldable pub is_negative : ℤ → Bool
is_negative (pos n) = false
is_negative (negsuc n) = true

unfoldable pub is_positive : ℤ → Bool
is_positive (pos zero) = false
is_positive (pos (suc n)) = true
is_positive (negsuc n) = false

unfoldable pub getnum : (Bytes → ℕ → Strtol) → Function → Option Bytes → ℕ → Answer
getnum strtol fname none flags = gn_fail fname empty_string
getnum strtol fname (some []) flags = gn_fail fname empty_string
getnum strtol fname (some (c ∷ arg)) flags =
    let res = strtol (c ∷ arg) (base_of flags) in
    if res.failed
    then gn_fail fname strtol_failed
    else if not res.at_end
    then gn_fail fname non_numeric
    else if has_flag flags 0 && is_negative res.value
    then gn_fail fname negative
    else if has_flag flags 1 && not (is_positive res.value)
    then gn_fail fname not_positive
    else Answer.value res.value

unfoldable pub get_long : (Bytes → ℕ → Strtol) → Option Bytes → ℕ → Answer
get_long strtol arg flags = getnum strtol in_get_long arg flags

-- INT_MIN ≤ res ≤ INT_MAX
unfoldable pub fits_int : ℤ → Bool
fits_int (pos n) = ltb n (2 ^ 31)
fits_int (negsuc n) = ltb n (2 ^ 31)

-- The low 32 bits of a `long`, in two's complement, and the `int` that has them.
unfoldable pub low_bits : ℤ → ℕ
low_bits (pos n) = n % 2 ^ 32
low_bits (negsuc n) = 2 ^ 32 - 1 - n % 2 ^ 32

unfoldable pub of_bits : ℕ → ℤ
of_bits u = if ltb u (2 ^ 31) then pos u else negsuc (2 ^ 32 - 1 - u)

-- int res = a long
unfoldable pub to_int : ℤ → ℤ
unfolding low_bits of_bits
to_int v = of_bits (low_bits v)

-- `res` is an `int` already when its range is tested.
unfoldable pub get_int : (Bytes → ℕ → Strtol) → Option Bytes → ℕ → Answer
unfolding getnum fits_int to_int
get_int strtol arg flags = elim (getnum strtol in_get_int arg flags) [
  | gn_fail f m ↦ gn_fail f m
  | value v ↦
      let res = to_int v in if fits_int res then value res else gn_fail in_get_int out_of_range
]

-- What a call asks of its argument: a non-empty string that strtol reads to its end, without an
-- error, in the base that the flags ask for, as a value that has the sign that they ask for.
abbrev pub IsGiven : (Bytes → ℕ → Strtol) → Option Bytes → ℕ → ℤ → Type 0
IsGiven strtol none flags v = ⊥
IsGiven strtol (some []) flags v = ⊥
IsGiven strtol (some (c ∷ s)) flags v =
    ((strtol (c ∷ s) (base_of flags)).failed ≡ false)
    × ((strtol (c ∷ s) (base_of flags)).at_end ≡ true)
    × ((strtol (c ∷ s) (base_of flags)).value ≡ v)
    × (has_flag flags 0 ≡ true → is_negative v ≡ false)
    × (has_flag flags 1 ≡ true → is_positive v ≡ true)

Answer-cases :
    (a : Answer) → ((f : Function) × (m : Message) × (a ≡ gn_fail f m)) ⊎ ((v : ℤ) × (a ≡ value v))
Answer-cases (value v) = inr (v, refl)
Answer-cases (gn_fail f m) = inl (f, m, refl)

getnum_iff :
    (strtol : Bytes → ℕ → Strtol) (fname : Function) (arg : Option Bytes) (flags : ℕ) (v : ℤ)
    → (getnum strtol fname arg flags ≡ value v) ↔ IsGiven strtol arg flags v
unfolding getnum
getnum_iff strtol fname none flags v = (λ e. cc, λ g. absurd g)
getnum_iff strtol fname (some []) flags v = (λ e. cc, λ g. absurd g)
getnum_iff strtol fname (some (c ∷ s)) flags v = (λ e. ground arith, λ g. ground arith)

-- GetLong returns a value exactly when the argument is a non-empty string that strtol reads to its
-- end, without an error, in the base that the flags ask for, as that value, and the value has the
-- sign that they ask for.
pub get_long_iff :
    (strtol : Bytes → ℕ → Strtol) (arg : Option Bytes) (flags : ℕ) (v : ℤ)
    → (get_long strtol arg flags ≡ value v) ↔ IsGiven strtol arg flags v
unfolding get_long
get_long_iff strtol arg flags v = getnum_iff strtol in_get_long arg flags v

to_int-fits : (v : ℤ) → fits_int (to_int v) ≡ true
unfolding to_int low_bits of_bits fits_int
to_int-fits (pos n) = ground arith
to_int-fits (negsuc n) = ground arith

to_int-same : (v : ℤ) → (to_int v ≡ v) ↔ (fits_int v ≡ true)
unfolding to_int low_bits of_bits fits_int
to_int-same (pos n) = (λ e. ground arith, λ h. ground arith)
to_int-same (negsuc n) = (λ e. ground arith, λ h. ground arith)

get_int-of_getnum :
    (strtol : Bytes → ℕ → Strtol) (arg : Option Bytes) (flags : ℕ) (v : ℤ)
    → getnum strtol in_get_int arg flags ≡ value v
    → get_int strtol arg flags ≡ value (to_int v)
unfolding get_int
get_int-of_getnum strtol arg flags v e = ground (arith, e, to_int-fits v)

getnum-of_get_int :
    (strtol : Bytes → ℕ → Strtol) (arg : Option Bytes) (flags : ℕ) (v : ℤ)
    → get_int strtol arg flags ≡ value v
    → (w : ℤ) × (getnum strtol in_get_int arg flags ≡ value w) × (v ≡ to_int w)
unfolding get_int
getnum-of_get_int strtol arg flags v e = elim (Answer-cases (getnum strtol in_get_int arg flags)) [
  | inl (f, m, fails) ↦ ground arith
  | inr (w, returns) ↦ (w, returns, ground (arith, to_int-fits w, returns))
]

-- GetInt returns v exactly when the argument and the flags give some long, as for getLong, whose
-- truncation to 32 bits is v.
pub get_int_iff :
    (strtol : Bytes → ℕ → Strtol) (arg : Option Bytes) (flags : ℕ) (v : ℤ)
    → (get_int strtol arg flags ≡ value v) ↔ ((w : ℤ) × IsGiven strtol arg flags w × (v ≡ to_int w))
get_int_iff strtol arg flags v = (
  λ e.
      let (w, returns, same) = getnum-of_get_int strtol arg flags v e in
      (w, (getnum_iff strtol in_get_int arg flags w).0 returns, same),
  λ h.
      let (w, given, same) = h in
      get_int-of_getnum strtol arg flags w ((getnum_iff strtol in_get_int arg flags w).1 given)
      ∙ ap value (sym same),
)

-- When the argument and the flags give the long v, as for getLong, getInt does return a number: it
-- fits an int, so the range test never fails, and it is v exactly when an int holds v.
pub get_int_truncates :
    (strtol : Bytes → ℕ → Strtol) (arg : Option Bytes) (flags : ℕ) (v : ℤ)
    → IsGiven strtol arg flags v
    → (r : ℤ) × (get_int strtol arg flags ≡ value r)
      × (fits_int r ≡ true)
      × ((r ≡ v) ↔ (fits_int v ≡ true))
get_int_truncates strtol arg flags v given = (
  to_int v,
  get_int-of_getnum strtol arg flags v ((getnum_iff strtol in_get_int arg flags v).1 given),
  to_int-fits v,
  to_int-same v,
)

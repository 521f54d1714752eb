-- ===== src/Numbers/Tests.antt =====
-- The two functions with a strtol that knows one decimal digit, and the theorems at it.
use code_strudy.Prelude.{ℕ, ◌-◌, ◌≡◌, refl, ◌↔◌, true, false, some, [], ◌∷◌, ℤ, pos}
use code_strudy.CString.{Bytes}
use code_strudy.Numbers.{
  get_int_truncates, to_int, low_bits, of_bits, getnum, has_flag, is_negative, is_positive, Strtol,
  Answer, gn_fail, in_get_int, non_numeric, get_int, fits_int,
}

abbrev digit_strtol : Bytes → ℕ → Strtol
digit_strtol [] base = record { value = pos 0; failed = false; at_end = true }
digit_strtol (c ∷ s) base = record {
  value = pos (c - b'0');
  failed = false;
  at_end = elim s [ [] ↦ true | d ∷ r ↦ false ];
}

seven : get_int digit_strtol (some (b'7' ∷ [])) 3 ≡ Answer.value (pos 7)
unfolding get_int getnum has_flag is_negative is_positive fits_int to_int low_bits of_bits
seven = refl

rest_left : get_int digit_strtol (some (b'7' ∷ b'x' ∷ [])) 3 ≡ gn_fail in_get_int non_numeric
unfolding get_int getnum has_flag is_negative is_positive fits_int to_int low_bits of_bits
rest_left = refl

-- A strtol that reads any string as 2 ^ 32 + 5.
abbrev big_strtol : Bytes → ℕ → Strtol
big_strtol s base = record { value = pos 4294967301; failed = false; at_end = true }

truncated : get_int big_strtol (some (b'9' ∷ [])) 0 ≡ Answer.value (pos 5)
unfolding get_int getnum has_flag is_negative is_positive fits_int to_int low_bits of_bits
truncated = refl

get_int_truncates_example :
    (r : ℤ) × (get_int big_strtol (some (b'9' ∷ [])) 0 ≡ Answer.value r)
    × (fits_int r ≡ true)
    × ((r ≡ pos 4294967301) ↔ (fits_int (pos 4294967301) ≡ true))
unfolding has_flag is_negative is_positive
get_int_truncates_example =
    get_int_truncates big_strtol (some (b'9' ∷ [])) 0 (pos 4294967301)
      (refl, refl, refl, (λ e. refl), λ e. refl)

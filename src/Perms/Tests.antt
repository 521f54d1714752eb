-- ===== src/Perms/Tests.antt =====
-- Strings of modes, and the theorems at them.
use code_strudy.Prelude.{ℕ, ◌≡◌, refl, true, [], ◌∷◌, arith}
use code_strudy.Perms.{
  read_char, write_char, exec_char, bit, file_perm_str, shown_mode, shown_mode-special,
}

-- 04754: rwsr-xr--
abbrev mode : ℕ
mode = 2540

string_of_mode :
    file_perm_str mode true ≡ b'r' ∷ b'w' ∷ b's' ∷ b'r' ∷ b'-' ∷ b'x' ∷ b'r' ∷ b'-' ∷ b'-' ∷ []
unfolding file_perm_str read_char write_char exec_char bit
string_of_mode = refl

shown_mode-special_example : shown_mode (file_perm_str 2540 true) ≡ 2540
shown_mode-special_example = shown_mode-special 2540 (omega arith)

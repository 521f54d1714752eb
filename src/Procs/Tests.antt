-- ===== src/Procs/Tests.antt =====
-- One process, with an atol that reads one digit.
use code_strudy.Prelude.{
  ℕ, ◌-◌, ◌≡◌, refl, inl, inr, Bool, true, not, ◌&&◌, none, some, [], ◌∷◌, ◌++◌, map, arith, ◌==◌,
  Bool-cases,
}
use code_strudy.CString.{Bytes}
use code_strudy.Procs.Status.{pid_key, uid_key, starts}
use code_strudy.Procs.Scan.{finished, scan}
use code_strudy.Procs.Found.{Before, first_lines, before_uid, Fields, IsStatus}
use code_strudy.Procs.OfUser.{entry_of, of_user, scan-of_user}

abbrev one_digit : Bytes → ℕ
one_digit [] = 0
one_digit (c ∷ s) = c - b'0'

-- The first line is "sh", the identifier 42, the user 7.
abbrev shell : Fields
shell = record {
  name = b's' ∷ b'h' ∷ [];
  more = [];
  pid = b'4' ∷ b'2' ∷ [];
  between = b'P' ∷ [];
  digits = b'7' ∷ [];
  rest = [];
}

-- A test for `Before`.
clear : Bytes → Bytes → Bool
clear key [] = true
clear key (c ∷ pre) = not (c == 0) && not (starts key (c ∷ pre ++ key)) && clear key pre

clear-Before : (key pre : Bytes) → clear key pre ≡ true → Before key pre
unfolding clear
clear-Before key [] h = tt
clear-Before key (c ∷ pre) h = elim (Bool-cases (c == 0)) [
  | inl nul ↦ ground (arith, nul)
  | inr byte ↦ elim (Bool-cases (starts key (c ∷ pre ++ key))) [
    | inl begins ↦ ground (arith, byte, begins)
    | inr goes ↦ (ground (arith, byte), goes, clear-Before key pre (ground (arith, byte, goes)))
  ]
]

shell-IsStatus : IsStatus shell
unfolding starts clear
shell-IsStatus = record {
  pid_first = clear-Before pid_key (first_lines shell) refl;
  uid_first = clear-Before uid_key (before_uid shell) refl;
  name_line =
      (((λ e. omega arith), (λ e. omega arith)), (((λ e. omega arith), (λ e. omega arith)), tt));
  pid_line =
      (((λ e. omega arith), (λ e. omega arith)), (((λ e. omega arith), (λ e. omega arith)), tt));
  digits_field = (((λ e. omega arith), (λ e. omega arith)), tt);
}

scan-of_user_example :
    scan one_digit 7 [] (map entry_of (none ∷ some shell ∷ []))
    ≡ finished (of_user one_digit 7 (none ∷ some shell ∷ []))
scan-of_user_example =
    scan-of_user one_digit 7 [] (none ∷ some shell ∷ []) (tt, ((shell-IsStatus, omega arith), tt))

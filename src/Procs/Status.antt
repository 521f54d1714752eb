-- ===== src/Procs/Status.antt =====
-- What the loop of practice/12.1/main.c does with the text of one status file.
use code_strudy.Prelude.{
  ℕ, ◌+◌, ◌-◌, Bool, true, false, Option, none, some, [], ◌∷◌, ◌==◌, if◌then◌else◌, length, set,
}
use code_strudy.CString.{Bytes}

abbrev pub tab : ℕ
tab = 9

abbrev pub newline : ℕ
newline = 10

abbrev pub uid_key : Bytes
uid_key = b'U' ∷ b'i' ∷ b'd' ∷ b':' ∷ []

abbrev pub pid_key : Bytes
pid_key = b'P' ∷ b'i' ∷ b'd' ∷ b':' ∷ []

unfoldable pub starts : Bytes → Bytes → Bool
starts [] s = true
starts (k ∷ key) [] = false
starts (k ∷ key) (c ∷ s) = if k == c then starts key s else false

-- strstr: the rest of the array from the first occurrence on; `some none` is NULL, `none` a read
-- behind the array.
unfoldable pub strstr : Bytes → Bytes → Option (Option Bytes)
unfolding starts
strstr key [] = none
strstr key (c ∷ s) =
    if starts key (c ∷ s) then some (some (c ∷ s)) else if c == 0 then some none else strstr key s

-- while (*temp1++ != 0x9): it does not stop at a NUL.
unfoldable pub after_tab : Bytes → Option Bytes
after_tab [] = none
after_tab (c ∷ s) = if c == tab then some s else after_tab s

-- The string before the first `d`, by strchr or strstr of one character.
unfoldable pub up_to : ℕ → Bytes → Option (Option Bytes)
up_to d [] = none
up_to d (c ∷ s) =
    if c == d then some (some []) else if c == 0 then some none else elim (up_to d s) [
      | none ↦ none
      | some none ↦ some none
      | some (some word) ↦ some (some (c ∷ word))
    ]

-- What is printed for a status file: a name and a process identifier. A NULL or a place behind the
-- array that is used is a fault.
pub data Shown : Type 0 where
  fault nothing : Shown
  entry : Bytes → Bytes → Shown

-- *temp2 = 0, behind a word of `word` bytes at the rest `t` of the array.
abbrev pub cut : Bytes → Bytes → Bytes → Bytes
cut file t word = set file (length file - length t + length word) 0

unfoldable pub show_name : Bytes → Bytes → Shown
unfolding up_to
show_name pid file = elim (up_to newline file) [
  | none ↦ fault
  | some none ↦ fault
  | some (some name) ↦ entry name pid
]

-- The field "Pid:", and the first line.
unfoldable pub show_pid : Bytes → Shown
unfolding strstr after_tab up_to show_name
show_pid file = elim (strstr pid_key file) [
  | none ↦ fault
  | some none ↦ nothing
  | some (some s) ↦ elim (after_tab s) [
    | none ↦ fault
    | some t ↦ elim (up_to newline t) [
      | none ↦ fault
      | some none ↦ fault
      | some (some pid) ↦ show_name pid (cut file t pid)
    ]
  ]
]

-- The field "Uid:", which atol reads.
unfoldable pub show_status : (Bytes → ℕ) → ℕ → Bytes → Shown
unfolding strstr after_tab up_to show_pid
show_status atol uid file = elim (strstr uid_key file) [
  | none ↦ fault
  | some none ↦ fault
  | some (some s) ↦ elim (after_tab s) [
    | none ↦ fault
    | some t ↦ elim (up_to tab t) [
      | none ↦ fault
      | some none ↦ fault
      | some (some digits) ↦ if atol digits == uid then show_pid (cut file t digits) else nothing
    ]
  ]
]

-- ===== src/Perms.antt =====
-- filePermStr of practice/15.3/file_perms.c under linux_programing_interface (routines/15.5.t_umask
-- has the same file). The bits of a mode are those of <sys/stat.h>: S_IRUSR is 2 ^ 8, down to S_IXOTH,
-- 2 ^ 0; S_ISUID, S_ISGID and S_ISVTX are 2 ^ 11, 2 ^ 10 and 2 ^ 9.
mod Tests
use code_strudy.Prelude.{
  ℕ, ◌+◌, ◌-◌, ◌*◌, ◌/◌, ◌%◌, ◌^◌, ◌<◌, min, ◌≡◌, Bool, true, false, not, ◌&&◌, ◌||◌, [], ◌∷◌,
  arith, ◌==◌, if◌then◌else◌, set,
}
use code_strudy.CString.{Bytes}

-- perm & 2^k
unfoldable pub bit : ℕ → ℕ → Bool
bit perm k = (perm / 2 ^ k) % 2 == 1

unfoldable pub read_char : Bool → ℕ
read_char b = if b then b'r' else b'-'

unfoldable pub write_char : Bool → ℕ
write_char b = if b then b'w' else b'-'

-- The execute place, which also shows the special bit if FP_SPECIAL is set.
unfoldable pub exec_char : Bool → Bool → Bool → ℕ
exec_char exec special flag =
    if exec
    then (if special && flag then b's' else b'x')
    else if special && flag
    then b'S'
    else b'-'

-- `flag` is flags & FP_SPECIAL.
unfoldable pub file_perm_str : ℕ → Bool → Bytes
file_perm_str perm flag =
    read_char (bit perm 8)
    ∷ write_char (bit perm 7)
    ∷ exec_char (bit perm 6) (bit perm 11) flag
    ∷ read_char (bit perm 5)
    ∷ write_char (bit perm 4)
    ∷ exec_char (bit perm 3) (bit perm 10) flag
    ∷ read_char (bit perm 2)
    ∷ write_char (bit perm 1)
    ∷ exec_char (bit perm 0) (bit perm 9) flag
    ∷ []

-- What one character says of the mode.
read_value : ℕ → ℕ
read_value c = if c == b'r' then 1 else 0

write_value : ℕ → ℕ
write_value c = if c == b'w' then 1 else 0

exec_value : ℕ → ℕ
exec_value c = if c == b'x' || c == b's' then 1 else 0

special_value : ℕ → ℕ
special_value c = if c == b's' || c == b'S' then 1 else 0

-- The mode that a string of nine characters shows.
pub shown_mode : Bytes → ℕ
shown_mode (r ∷ w ∷ x ∷ r' ∷ w' ∷ x' ∷ r'' ∷ w'' ∷ x'' ∷ rest) =
    256 * read_value r
    + 128 * write_value w
    + 64 * exec_value x
    + 2048 * special_value x
    + (32 * read_value r' + 16 * write_value w' + 8 * exec_value x' + 1024 * special_value x')
    + (4 * read_value r'' + 2 * write_value w'' + exec_value x'' + 512 * special_value x'')
shown_mode s = 0

abbrev bit_value : ℕ → ℕ → ℕ
bit_value perm k = perm / 2 ^ k % 2

read-bit : (perm k : ℕ) → read_value (read_char (bit perm k)) ≡ bit_value perm k
unfolding bit read_char read_value
read-bit perm k = ground arith

write-bit : (perm k : ℕ) → write_value (write_char (bit perm k)) ≡ bit_value perm k
unfolding bit write_char write_value
write-bit perm k = ground arith

exec-bit :
    (perm k l : ℕ) (flag : Bool)
    → exec_value (exec_char (bit perm k) (bit perm l) flag) ≡ bit_value perm k
unfolding bit exec_char exec_value
exec-bit perm k l flag = ground arith

special-bit :
    (perm k l : ℕ) → special_value (exec_char (bit perm k) (bit perm l) true) ≡ bit_value perm l
unfolding bit exec_char special_value
special-bit perm k l = ground arith

special-bit_hidden : (perm k l : ℕ) → special_value (exec_char (bit perm k) (bit perm l) false) ≡ 0
unfolding bit exec_char special_value
special-bit_hidden perm k l = ground arith

-- With FP_SPECIAL the string of a mode below 2 ^ 12 shows its twelve bits.
pub shown_mode-special : (perm : ℕ) → perm < 2 ^ 12 → shown_mode (file_perm_str perm true) ≡ perm
unfolding shown_mode file_perm_str
shown_mode-special perm h =
    rw
      (
        read-bit perm 8,
        write-bit perm 7,
        exec-bit perm 6 11 true,
        special-bit perm 6 11,
        read-bit perm 5,
        write-bit perm 4,
        exec-bit perm 3 10 true,
        special-bit perm 3 10,
        read-bit perm 2,
        write-bit perm 1,
        exec-bit perm 0 9 true,
        special-bit perm 0 9,
      )
      (omega arith)

-- Without FP_SPECIAL the string shows the nine permission bits, and nothing of the special bits.
pub shown_mode-plain : (perm : ℕ) → shown_mode (file_perm_str perm false) ≡ perm % 2 ^ 9
unfolding shown_mode file_perm_str
shown_mode-plain perm =
    rw
      (
        read-bit perm 8,
        write-bit perm 7,
        exec-bit perm 6 11 false,
        special-bit_hidden perm 6 11,
        read-bit perm 5,
        write-bit perm 4,
        exec-bit perm 3 10 false,
        special-bit_hidden perm 3 10,
        read-bit perm 2,
        write-bit perm 1,
        exec-bit perm 0 9 false,
        special-bit_hidden perm 0 9,
      )
      (omega arith)

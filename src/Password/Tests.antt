-- ===== src/Password/Tests.antt =====
-- A user database of one user, and the theorems at it.
use code_strudy.Prelude.{
  ◌≡◌, refl, ◌↔◌, true, Option, none, some, [], ◌∷◌, ◌++◌, arith, if◌then◌else◌,
}
use code_strudy.CString.{Bytes, text, same_bytes}
use code_strudy.Password.Defs.{
  hashed, System, authenticated, fault, line, fgets, trim, name_max, compare_passwords, look_up,
  check_password, end,
}
use code_strudy.Password.Deciding.{Plain, Proves, check_password-decides}

abbrev name : Bytes
name = b'a' ∷ b'n' ∷ []

abbrev secret : Bytes
secret = b'x' ∷ b'y' ∷ []

-- The encryption puts the first character of the hash before the password.
encrypt : Bytes → Bytes → Option Bytes
encrypt password [] = none
encrypt password (salt ∷ hash) = some (salt ∷ password)

abbrev one_user : System
one_user = record {
  getpwnam =
      λ n. if same_bytes n name then some (record { pw_passwd = b'x' ∷ []; pw_uid = 7 }) else none;
  getspnam = λ n. hashed (b's' ∷ secret);
  crypt = encrypt;
}

right_password :
    (check_password one_user none true (name ++ b'\n' ∷ []) (some (secret ++ 0 ∷ []))).exit
    ≡ authenticated 7
unfolding check_password fgets line trim text same_bytes name_max look_up compare_passwords encrypt
right_password = refl

-- A line that starts with a NUL has the length 0, and the byte before it is read.
empty_name :
    (check_password one_user none true (0 ∷ b'\n' ∷ []) (some (secret ++ 0 ∷ []))).exit ≡ fault
unfolding check_password fgets line trim text same_bytes name_max look_up compare_passwords encrypt
    end
empty_name = refl

check_password-decides_example :
    ((check_password one_user none true (name ++ b'\n' ∷ []) (some (secret ++ 0 ∷ []))).exit
      ≡ authenticated 7)
    ↔ Proves one_user name (text (secret ++ 0 ∷ [])) 7
unfolding name_max Plain
check_password-decides_example =
    check_password-decides one_user none name [] (secret ++ 0 ∷ []) 7 (omega arith)
      (((λ e. omega arith), (λ e. omega arith)), (((λ e. omega arith), (λ e. omega arith)), tt))

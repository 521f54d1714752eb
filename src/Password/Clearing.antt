-- ===== src/Password/Clearing.antt =====
-- What the password program leaves of the password.
use code_strudy.Prelude.{
  ℕ, ◌≡◌, refl, subst, ◌≢◌, ◌⊎◌, inl, inr, Bool, true, false, Option, none, some, [], ◌∷◌, ◌++◌,
  arith, Option-cases, length, replicate, All,
}
use code_strudy.CString.{Bytes, text}
use code_strudy.Password.Defs.{
  Account, Shadow, hashed, no_access, no_shadow, System, Exit, crypt_error, incorrect,
  authenticated, Ended, fgets, trim, clear, name_max, compare_passwords, look_up, check_password,
  end,
}

clear_lem :
    (password rest : Bytes)
    → All (λ c. c ≢ 0) password
    → clear (password ++ 0 ∷ rest) ≡ replicate (length password) 0 ++ 0 ∷ rest
unfolding clear
clear_lem [] rest h = refl
clear_lem (c ∷ s) rest h = ground (arith, h.0, clear_lem s rest h.1)

-- The exits behind the call of crypt.
unfoldable pub encrypts : Exit → Bool
encrypts crypt_error = true
encrypts incorrect = true
encrypts (authenticated uid) = true
encrypts _ = false

-- Where crypt has been called the array is `left`, elsewhere it has not been read.
pub Leaves : Bytes → Ended → Type 0
Leaves left e =
    ((encrypts e.exit ≡ true) × (e.password ≡ some left))
    ⊎ ((encrypts e.exit ≡ false) × (e.password ≡ none))

compare_passwords-Leaves :
    (sys : System) (account : Account) (array : Bytes)
    → Leaves (clear array) (compare_passwords sys account (some array))
unfolding compare_passwords Leaves encrypts
compare_passwords-Leaves sys account array = ground arith

found-Leaves :
    (sys : System) (name array : Bytes) (account : Account) (shadow : Shadow)
    → sys.getpwnam name ≡ some account
    → sys.getspnam name ≡ shadow
    → Leaves (clear array) (look_up sys name (some array))
unfolding look_up Leaves encrypts end
found-Leaves sys name array account no_access found sh = rw (look_up, found, sh) (inr (refl, refl))
found-Leaves sys name array account no_shadow found sh =
    rw (look_up, found, sh) (compare_passwords-Leaves sys account array)
found-Leaves sys name array account (hashed h) found sh =
    rw (look_up, found, sh) (compare_passwords-Leaves sys (record account { pw_passwd = h }) array)

look_up-Leaves :
    (sys : System) (name array : Bytes) → Leaves (clear array) (look_up sys name (some array))
unfolding look_up Leaves encrypts end
look_up-Leaves sys name array = elim (Option-cases (sys.getpwnam name)) [
  | inl missing ↦ rw (look_up, missing) (inr (refl, refl))
  | inr (account, found) ↦ found-Leaves sys name array account (sys.getspnam name) found refl
]

-- Whatever the users, the input and the encryption: for a password without a NUL, at every exit of
-- the program behind the call of crypt the array that held it has only NULs in its place, and at
-- every other exit no password has been read.
pub check_password-Leaves :
    (sys : System) (login_name_max : Option ℕ) (allocated : Bool) (stream password rest : Bytes)
    → All (λ c. c ≢ 0) password
    → Leaves
        (replicate (length password) 0 ++ 0 ∷ rest)
        (check_password sys login_name_max allocated stream (some (password ++ 0 ∷ rest)))
unfolding check_password Leaves encrypts end
check_password-Leaves sys login_name_max false stream password rest h = inr (refl, refl)
check_password-Leaves sys login_name_max true stream password rest h =
    elim (Option-cases (fgets (name_max login_name_max) stream)) [
      | inl no_line ↦ rw no_line (inr (refl, refl))
      | inr (username, read) ↦ elim (Option-cases (trim (text username))) [
        | inl outside ↦ rw (read, outside) (inr (refl, refl))
        | inr (name, cut) ↦
            rw (read, cut)
              (subst (λ left. Leaves left (look_up sys name (some (password ++ 0 ∷ rest))))
                (clear_lem password rest h) (look_up-Leaves sys name (password ++ 0 ∷ rest)))
      ]
    ]

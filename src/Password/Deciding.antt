-- ===== src/Password/Deciding.antt =====
-- Whom the password program authenticates, and what it leaves of the password.
use code_strudy.Prelude.{
  ℕ, zero, suc, ◌-◌, ◌≤◌, ◌<◌, ◌≡◌, refl, sym, ap, subst, ◌∙◌, ◌≢◌, ◌↔◌, ◌⊎◌, inl, inr, true,
  Option, some, [], ◌∷◌, ◌++◌, arith, ltb, if◌then◌else◌, Bool-cases, Option-cases, length, take,
  All,
}
use code_strudy.CString.{same_bytes_iff, same_bytes, Bytes, text}
use code_strudy.Password.Defs.{
  end, Account, Shadow, hashed, no_access, no_shadow, System, authenticated, Ended, line, fgets,
  trim, name_max, compare_passwords, look_up, check_password,
}

-- A character of a name: neither NUL nor a newline.
unfoldable pub Plain : ℕ → Type 0
Plain c = (c ≢ 0) × (c ≢ b'\n')

line_lem :
    (n : ℕ) (name rest : Bytes)
    → All Plain name
    → line n (name ++ b'\n' ∷ rest)
      ≡ (if ltb (length name) n then name ++ b'\n' ∷ [] else take n name)
unfolding line Plain
line_lem zero name rest h = ground arith
line_lem (suc n) [] rest h = ground arith
line_lem (suc n) (c ∷ name) rest h = ground (arith, h.0, line_lem n name rest h.1)

text_lem : (s : Bytes) → All Plain s → text s ≡ s
unfolding text Plain
text_lem [] h = refl
text_lem (c ∷ s) h = ground (arith, h.0, text_lem s h.1)

trim-newline : (s : Bytes) → trim (s ++ b'\n' ∷ []) ≡ some s
unfolding trim
trim-newline [] = refl
trim-newline (c ∷ []) = refl
trim-newline (c ∷ d ∷ s) = rw (trim-newline (d ∷ s)) refl

trim_lem : (c : ℕ) (s : Bytes) → All Plain (c ∷ s) → trim (c ∷ s) ≡ some (c ∷ s)
unfolding trim Plain
trim_lem c [] h = ground (arith, h.0)
trim_lem c (d ∷ s) h = rw (trim_lem d s h.1) refl

text-newline : (s : Bytes) → All Plain s → text (s ++ b'\n' ∷ []) ≡ s ++ b'\n' ∷ []
unfolding text Plain
text-newline [] h = refl
text-newline (c ∷ s) h = ground (arith, h.0, text-newline s h.1)

take-All : (n : ℕ) (s : Bytes) → All Plain s → All Plain (take n s)
take-All zero s h = tt
take-All (suc n) [] h = tt
take-All (suc n) (c ∷ s) h = (h.0, take-All n s h.1)

take-short : (n : ℕ) (s : Bytes) → length s < n → take n s ≡ s
take-short zero s h = ground arith
take-short (suc n) [] h = refl
take-short (suc n) (c ∷ s) h = ap (λ z. c ∷ z) (take-short n s (omega arith))

trim-cut :
    (n : ℕ) (s : Bytes) → 0 < n → n ≤ length s → All Plain s → trim (take n s) ≡ some (take n s)
trim-cut zero s room le h = ground arith
trim-cut (suc n) [] room le h = ground arith
trim-cut (suc n) (c ∷ s) room le h = trim_lem c (take n s) (h.0, take-All n s h.1)

-- The name that is looked up, from what fgets left in the array.
username_lem :
    (n : ℕ) (name rest : Bytes)
    → 0 < n
    → All Plain name
    → trim (text (line n (name ++ b'\n' ∷ rest))) ≡ some (take n name)
username_lem n name rest some_room h = elim (Bool-cases (ltb (length name) n)) [
  | inl short ↦
      rw (line_lem n name rest h, short)
        (ap trim (text-newline name h)
          ∙ trim-newline name
          ∙ ap some (sym (take-short n name (ground (arith, short)))))
  | inr long ↦
      rw (line_lem n name rest h, long)
        (ap trim (text_lem (take n name) (take-All n name h))
          ∙ trim-cut n name some_room (ground (arith, long)) h)
]

-- The user `name` has the number `uid`, and the encryption of the password under the stored hash is
-- that hash: the shadow file's, or else the one of the user's record.
pub record Proves (sys : System) (name password : Bytes) (uid : ℕ) : Type 0 where
  pub account : Account
  pub hash : Bytes
  pub found : sys.getpwnam name ≡ some account
  pub number : account.pw_uid ≡ uid
  pub stored :
      (sys.getspnam name ≡ hashed hash)
      ⊎ ((sys.getspnam name ≡ no_shadow) × (account.pw_passwd ≡ hash))
  pub agrees : sys.crypt password hash ≡ some hash

compare_passwords-exit :
    (sys : System) (account : Account) (array : Bytes) (uid : ℕ)
    → (compare_passwords sys account (some array)).exit ≡ authenticated uid
    → (account.pw_uid ≡ uid) × (sys.crypt (text array) account.pw_passwd ≡ some account.pw_passwd)
unfolding compare_passwords
compare_passwords-exit sys account array uid e =
    elim (Option-cases (sys.crypt (text array) account.pw_passwd)) [
      | inl no_hash ↦ ground (arith, no_hash)
      | inr (h, made) ↦ elim (Bool-cases (same_bytes account.pw_passwd h)) [
        | inl same ↦ ground (arith, made, same, (same_bytes_iff account.pw_passwd h).0)
        | inr differ ↦ ground (arith, made, differ)
      ]
    ]

compare_passwords-authenticates :
    (sys : System) (account : Account) (array : Bytes)
    → sys.crypt (text array) account.pw_passwd ≡ some account.pw_passwd
    → (compare_passwords sys account (some array)).exit ≡ authenticated account.pw_uid
unfolding compare_passwords
compare_passwords-authenticates sys account array e =
    ground (arith, e, (same_bytes_iff account.pw_passwd account.pw_passwd).1 refl)

look_up-Proves :
    (sys : System) (name array : Bytes) (uid : ℕ) (shadow : Shadow)
    → sys.getspnam name ≡ shadow
    → (look_up sys name (some array)).exit ≡ authenticated uid
    → Proves sys name (text array) uid
unfolding look_up end
look_up-Proves sys name array uid no_access sh e = elim (Option-cases (sys.getpwnam name)) [
  | inl missing ↦ absurd (ground (arith, missing, sh))
  | inr (account, found) ↦ absurd (ground (arith, found, sh))
]
look_up-Proves sys name array uid no_shadow sh e = elim (Option-cases (sys.getpwnam name)) [
  | inl missing ↦ absurd (ground (arith, missing, sh))
  | inr (account, found) ↦
      let same : look_up sys name (some array) ≡ compare_passwords sys account (some array) =
        rw (look_up, found, sh) refl in
      let (number, agrees) =
        compare_passwords-exit sys account array uid (sym (ap Ended.exit same) ∙ e) in
      record {
        account = account;
        hash = account.pw_passwd;
        found = found;
        number = number;
        stored = inr (sh, refl);
        agrees = agrees;
      }
]
look_up-Proves sys name array uid (hashed h) sh e = elim (Option-cases (sys.getpwnam name)) [
  | inl missing ↦ absurd (ground (arith, missing, sh))
  | inr (account, found) ↦
      let same : look_up sys name (some array)
          ≡ compare_passwords sys (record account { pw_passwd = h }) (some array) =
        rw (look_up, found, sh) refl in
      let (number, agrees) =
        compare_passwords-exit sys (record account { pw_passwd = h }) array uid
          (sym (ap Ended.exit same) ∙ e) in
      record {
        account = account;
        hash = h;
        found = found;
        number = number;
        stored = inl sh;
        agrees = agrees;
      }
]

look_up-authenticates :
    (sys : System) (name array : Bytes) (uid : ℕ)
    → Proves sys name (text array) uid
    → (look_up sys name (some array)).exit ≡ authenticated uid
unfolding look_up
look_up-authenticates sys name array uid p = elim p.stored [
  | inl sh ↦
      rw (look_up, p.found, sh)
        (compare_passwords-authenticates sys (record p.account { pw_passwd = p.hash }) array
            p.agrees
          ∙ ap authenticated p.number)
  | inr (sh, own) ↦
      rw (look_up, p.found, sh)
        (compare_passwords-authenticates sys p.account array
            (subst (λ h. sys.crypt (text array) h ≡ some h) (sym own) p.agrees)
          ∙ ap authenticated p.number)
]

fgets-line :
    (size c : ℕ) (name rest : Bytes)
    → fgets size (name ++ c ∷ rest) ≡ some (line (size - 1) (name ++ c ∷ rest))
unfolding fgets
fgets-line size c [] rest = refl
fgets-line size c (d ∷ name) rest = refl

-- The name that the program looks up is what it read, cut to the room for it.
looks_up :
    (sys : System) (login_name_max : Option ℕ) (name rest array : Bytes)
    → 1 < name_max login_name_max
    → All Plain name
    → check_password sys login_name_max true (name ++ b'\n' ∷ rest) (some array)
      ≡ look_up sys (take (name_max login_name_max - 1) name) (some array)
unfolding check_password
looks_up sys login_name_max name rest array room h =
    let size = name_max login_name_max in
    rw
      (
        check_password,
        fgets-line size b'\n' name rest,
        username_lem (size - 1) name rest (omega arith) h,
      )
      refl

-- Where malloc succeeds and names of one character at least fit: for a line that is a name without
-- a NUL, and a password, the program authenticates a user number exactly where the name, cut to
-- the room for it, is that user's, and the encryption of the password under the hash that is
-- stored for the name, in the shadow file or else in the user's record, is that hash.
pub check_password-decides :
    (sys : System) (login_name_max : Option ℕ) (name rest array : Bytes) (uid : ℕ)
    → 1 < name_max login_name_max
    → All Plain name
    → ((check_password sys login_name_max true (name ++ b'\n' ∷ rest) (some array)).exit
        ≡ authenticated uid)
      ↔ Proves sys (take (name_max login_name_max - 1) name) (text array) uid
check_password-decides sys login_name_max name rest array uid room h =
    let cut = take (name_max login_name_max - 1) name in
    let same = ap Ended.exit (looks_up sys login_name_max name rest array room h) in
    (
      (λ e. look_up-Proves sys cut array uid (sys.getspnam cut) refl (sym same ∙ e)),
      (λ p. same ∙ look_up-authenticates sys cut array uid p),
    )

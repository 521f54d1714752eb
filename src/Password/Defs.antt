-- ===== src/Password/Defs.antt =====
-- main of check_password.c. getpwnam, getspnam and crypt are parameters; strings are without their NUL.
use code_strudy.Prelude.{ℕ, zero, suc, ◌-◌, Bool, Option, none, some, [], ◌∷◌, ◌==◌, if◌then◌else◌}
use code_strudy.CString.{Bytes, text, same_bytes}

-- What main uses of a passwd record.
pub record Account : Type 0 where
  pub pw_passwd : Bytes
  pub pw_uid : ℕ

-- What getspnam gives: the encrypted password, or NULL with errno EACCES, or NULL.
pub data Shadow : Type 0 where
  hashed : Bytes → Shadow
  no_access no_shadow : Shadow

-- The user database and the encryption.
pub record System : Type 0 where
  pub getpwnam : Bytes → Option Account
  pub getspnam : Bytes → Shadow
  pub crypt : Bytes → Bytes → Option Bytes

-- The exits of main, in its order; `fault` is a byte read before an array, or a NULL that is followed.
pub data Exit : Type 0 where
  no_memory input_error no_record no_permission crypt_error incorrect fault : Exit
  authenticated : ℕ → Exit

-- The exit, and the array of getpass then, where the password has been read.
pub record Ended : Type 0 where
  pub exit : Exit
  pub password : Option Bytes

-- At most n characters of the stream, up to a newline.
unfoldable pub line : ℕ → Bytes → Bytes
line zero stream = []
line (suc n) [] = []
line (suc n) (c ∷ stream) = if c == b'\n' then c ∷ [] else c ∷ line n stream

-- fgets(username, size, stdin): NULL at the end of the stream, with size at least 2.
unfoldable pub fgets : ℕ → Bytes → Option Bytes
fgets size [] = none
fgets size (c ∷ stream) = some (line (size - 1) (c ∷ stream))

-- if (username[len - 1] == '\n') username[len - 1] = 0; `none` is a read before the array.
unfoldable pub trim : Bytes → Option Bytes
trim [] = none
trim (c ∷ []) = if c == b'\n' then some [] else some (c ∷ [])
trim (c ∷ d ∷ s) = elim (trim (d ∷ s)) [ none ↦ none | some t ↦ some (c ∷ t) ]

-- for (p = password; *p != 0;) *p++ = 0;
unfoldable pub clear : Bytes → Bytes
clear [] = []
clear (c ∷ array) = if c == 0 then c ∷ array else 0 ∷ clear array

-- lnmax: 255 where sysconf gives -1.
unfoldable pub name_max : Option ℕ → ℕ
name_max none = 255
name_max (some n) = n

unfoldable pub end : Exit → Ended
end e = record { exit = e; password = none }

-- From getpass on: `array` is what it returns, with its NUL.
unfoldable pub compare_passwords : System → Account → Option Bytes → Ended
compare_passwords sys account none = end fault
compare_passwords sys account (some array) =
    let cleared = some (clear array) in
    elim (sys.crypt (text array) account.pw_passwd) [
      | none ↦ record { exit = crypt_error; password = cleared }
      | some encrypted ↦
          if same_bytes account.pw_passwd encrypted
          then record { exit = authenticated account.pw_uid; password = cleared }
          else record { exit = incorrect; password = cleared }
    ]

-- From getpwnam on.
unfoldable pub look_up : System → Bytes → Option Bytes → Ended
unfolding compare_passwords
look_up sys username password = elim (sys.getpwnam username) [
  | none ↦ end no_record
  | some account ↦ elim (sys.getspnam username) [
    | no_access ↦ end no_permission
    | no_shadow ↦ compare_passwords sys account password
    | hashed h ↦ compare_passwords sys (record account { pw_passwd = h }) password
  ]
]

-- main: `login_name_max` is what sysconf gives, `allocated` whether malloc succeeds, `stream` what
-- stdin has.
unfoldable pub check_password : System → Option ℕ → Bool → Bytes → Option Bytes → Ended
unfolding look_up
check_password sys login_name_max allocated stream password =
    if allocated
    then elim (fgets (name_max login_name_max) stream) [
      | none ↦ end input_error
      | some username ↦ elim (trim (text username)) [
        | none ↦ end fault
        | some name ↦ look_up sys name password
      ]
    ]
    else end no_memory

-- ===== src/Mount/Defs.antt =====
-- main of t_mount.c. What getopt gives for "o:t:f" is a list of options, each with its optarg.
use code_strudy.Prelude.{ℕ, Bool, Option, none, some, List, [], ◌∷◌, ◌++◌, ◌==◌, if◌then◌else◌}
use code_strudy.CString.{Bytes}

pub data Flag : Type 0 where
  ms_bind ms_dirsync ms_mandlock ms_move ms_noatime ms_nodev ms_nodiratime ms_noexec ms_nosuid
        ms_rdonly ms_rec ms_remount ms_synchronous :
      Flag

-- A result of getopt; `none` is a NULL in optarg.
pub record Choice : Type 0 where
  pub letter : ℕ
  pub optarg : Option Bytes

-- data, fstype, and the flags that were or-ed into `flags`.
pub record Settings : Type 0 where
  pub data_text : Option Bytes
  pub fstype : Option Bytes
  pub flags : List Flag

-- `fault` follows a NULL; `mounted` holds the arguments of mount.
pub data Ended : Type 0 where
  mounted : Bytes → Bytes → Settings → Ended
  not_mounted usage fault : Ended

unfoldable pub flag_of : ℕ → Option Flag
flag_of c =
    if c == b'b'
    then some ms_bind
    else if c == b'd'
    then some ms_dirsync
    else if c == b'l'
    then some ms_mandlock
    else if c == b'm'
    then some ms_move
    else if c == b'A'
    then some ms_noatime
    else if c == b'V'
    then some ms_nodev
    else if c == b'D'
    then some ms_nodiratime
    else if c == b'E'
    then some ms_noexec
    else if c == b'S'
    then some ms_nosuid
    else if c == b'r'
    then some ms_rdonly
    else if c == b'c'
    then some ms_rec
    else if c == b'R'
    then some ms_remount
    else if c == b's'
    then some ms_synchronous
    else none

-- for (i = 0; i < strlen(optarg); i++): `none` is usageErr.
unfoldable pub raise_flags : Bytes → List Flag → Option (List Flag)
raise_flags [] flags = some flags
raise_flags (c ∷ s) flags = elim (flag_of c) [
  | none ↦ none
  | some f ↦ raise_flags s (flags ++ f ∷ [])
]

-- One turn of the loop over getopt: the settings, or how main ends.
pub data Chosen : Type 0 where
  goes_on : Settings → Chosen
  ends : Ended → Chosen

unfoldable pub take_choice : Choice → Settings → Chosen
take_choice c s =
    if c.letter == b'o'
    then goes_on (record s { data_text = c.optarg })
    else if c.letter == b't'
    then goes_on (record s { fstype = c.optarg })
    else if c.letter == b'f'
    then elim c.optarg [
      | none ↦ ends fault
      | some letters ↦ elim (raise_flags letters s.flags) [
        | none ↦ ends usage
        | some flags ↦ goes_on (record s { flags = flags })
      ]
    ]
    else ends usage

-- mount, with the two arguments behind the options.
unfoldable pub mount_two : Bool → List Bytes → Settings → Ended
mount_two succeeds (source ∷ target ∷ []) s =
    if succeeds then mounted source target s else not_mounted
mount_two succeeds _ s = usage

unfoldable pub take_choices : Bool → List Bytes → List Choice → Settings → Ended
take_choices succeeds args [] s = mount_two succeeds args s
take_choices succeeds args (c ∷ more) s = elim (take_choice c s) [
  | goes_on next ↦ take_choices succeeds args more next
  | ends e ↦ e
]

-- main: `args` are the arguments behind the options, `succeeds` says that mount does.
unfoldable pub t_mount : Bool → List Bytes → List Choice → Ended
t_mount succeeds args choices =
    take_choices succeeds args choices (record { data_text = none; fstype = none; flags = [] })

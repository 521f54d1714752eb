-- ===== src/Paths/Defs.antt =====
-- judgePath, myDirname and myBasename of practice/31.2/main.c.
use code_strudy.Prelude.{
  ℕ, ◌+◌, ◌*◌, Bool, false, ◌&&◌, ◌||◌, Option, none, some, [], ◌∷◌, reverse, ltb, ◌==◌,
  if◌then◌else◌, length,
}
use code_strudy.CString.{Bytes, same_bytes}

abbrev pub slash : ℕ
slash = b'/'

abbrev pub buf_lize : ℕ
buf_lize = 4096

-- `null` is the result NULL (of judgePath: -1); `fault` is a read or a write outside an array.
pub data Result : Type 0 where
  text : Bytes → Result
  null : Result
  fault : Result

-- The loop of judgePath: `flag` says that the last byte read was a slash. In the branch that skips,
-- the flag stays 1, and the byte is a slash too.
unfoldable pub copy : Bool → Bytes → Bytes
copy flag [] = []
copy flag (c ∷ from) =
    let rest = copy (c == slash) from in if c == slash && flag then rest else c ∷ rest

-- if (to[i - 1] == '/') to[i - 1] = 0;
unfoldable pub strip : Bytes → Bytes
strip [] = []
strip (c ∷ []) = if c == slash then [] else c ∷ []
strip (c ∷ d ∷ s) = c ∷ strip (d ∷ s)

-- The buffer `to` has 4096 bytes. With nothing copied, `to[i - 1]` stands before it.
unfoldable pub judge_path : Option Bytes → Result
judge_path none = null
judge_path (some from) =
    let to = copy false from in
    if ltb buf_lize (length to) || length to == 0 then fault else text (strip to)

-- The loop over `len`, from the last byte of the buffer down: the bytes before the last slash, last
-- first; `none` if `len` falls below 0.
unfoldable pub walk_back : Bytes → Option Bytes
walk_back [] = none
walk_back (c ∷ r) = if c == slash then some r else walk_back r

-- The same loop in myBasename, which leaves the buffer as it is: the bytes behind the last slash.
unfoldable pub scan_back : Bytes → Bytes → Option Bytes
scan_back [] after = none
scan_back (c ∷ r) after = if c == slash then some after else scan_back r (c ∷ after)

-- `fd_zero` says that `open` returned the descriptor 0.
unfoldable pub dirname_of : Bool → Result → Result
dirname_of fd_zero null = null
dirname_of fd_zero fault = fault
dirname_of fd_zero (text buf) =
    if fd_zero
    then null
    else if length buf == buf_lize
    then fault
    else elim (walk_back (reverse buf)) [ none ↦ text (b'.' ∷ []) | some dir ↦ text (reverse dir) ]

-- `len` is set only in the last branch: `stale` says that the value found in it is negative.
unfoldable pub my_dirname : Bool → Bool → Option Bytes → Result
unfolding dirname_of judge_path
my_dirname stale fd_zero none = if stale then text (b'.' ∷ []) else text (b'.' ∷ [])
my_dirname stale fd_zero (some pathname) =
    if same_bytes pathname (slash ∷ [])
    then (if stale then text (b'.' ∷ []) else text (slash ∷ []))
    else if same_bytes pathname (b'.' ∷ b'.' ∷ [])
    then (if stale then text (b'.' ∷ []) else text (b'.' ∷ b'.' ∷ []))
    else dirname_of fd_zero (judge_path (some pathname))

-- Without a slash the path is appended to the cleared buffer as it was given. Else strcpy(buf, temp)
-- moves the bytes behind the last slash, with their NUL, to the front: where the two places overlap,
-- since the base is longer than what stands before the slash, C leaves it undefined.
unfoldable pub basename_of : Bool → Bytes → Result → Result
basename_of fd_zero pathname null = null
basename_of fd_zero pathname fault = fault
basename_of fd_zero pathname (text buf) =
    if fd_zero
    then null
    else if length buf == buf_lize
    then fault
    else elim (scan_back (reverse buf) []) [
      | none ↦ if ltb (length pathname) buf_lize then text pathname else fault
      | some base ↦ if ltb (length buf) (2 * length base + 1) then fault else text base
    ]

-- strcmp(NULL, …) reads through the null pointer.
unfoldable pub my_basename : Bool → Option Bytes → Result
unfolding basename_of judge_path
my_basename fd_zero none = fault
my_basename fd_zero (some pathname) =
    if same_bytes pathname (slash ∷ [])
    then text (slash ∷ [])
    else if same_bytes pathname (b'.' ∷ b'.' ∷ [])
    then text (b'.' ∷ b'.' ∷ [])
    else if same_bytes pathname (b'.' ∷ [])
    then text (b'.' ∷ [])
    else basename_of fd_zero pathname (judge_path (some pathname))

-- ===== src/Paths/Normal.antt =====
-- What judgePath leaves in the buffer: no two slashes side by side and none at the end.
use code_strudy.Prelude.{
  ◌≤◌, ◌<◌, ◌≡◌, refl, ap, ◌∙◌, ◌≢◌, Bool, true, false, some, List, [], ◌∷◌, ◌++◌, arith, ◌==◌,
  length,
}
use code_strudy.CString.{Bytes}
use code_strudy.Paths.Defs.{slash, buf_lize, text, copy, strip, judge_path}

-- No two slashes side by side; `after` says that a slash stands in front.
abbrev pub Single : Bool → Bytes → Type 0
Single after [] = Unit
Single true (c ∷ s) = (c ≢ slash) × Single (c == slash) s
Single false (c ∷ s) = Single (c == slash) s

abbrev pub NoEndSlash : Bytes → Type 0
NoEndSlash [] = Unit
NoEndSlash (c ∷ []) = c ≢ slash
NoEndSlash (c ∷ d ∷ s) = NoEndSlash (d ∷ s)

copy-Single : (after : Bool) (s : Bytes) → Single after (copy after s)
unfolding copy
copy-Single true [] = tt
copy-Single false [] = tt
copy-Single true (c ∷ s) = ground (arith, copy-Single (c == slash) s)
copy-Single false (c ∷ s) = ground (arith, copy-Single (c == slash) s)

pub copy-of_Single : (after : Bool) (s : Bytes) → Single after s → copy after s ≡ s
unfolding copy
copy-of_Single after [] h = refl
copy-of_Single true (c ∷ s) h = ground (arith, copy-of_Single (c == slash) s)
copy-of_Single false (c ∷ s) h = ground (arith, copy-of_Single (c == slash) s)

pub length-copy : (after : Bool) (s : Bytes) → length (copy after s) ≤ length s
unfolding copy
length-copy after [] = omega arith
length-copy true (c ∷ s) = ground (arith, length-copy (c == slash) s)
length-copy false (c ∷ s) = ground (arith, length-copy (c == slash) s)

-- A run of slashes counts as one: a copied path is never empty.
pub copy-ne-nil : (s : Bytes) → s ≢ [] → 0 < length (copy false s)
unfolding copy
copy-ne-nil [] h = absurd (h refl)
copy-ne-nil (c ∷ s) h = ground arith

strip-Single : (after : Bool) (s : Bytes) → Single after s → Single after (strip s)
unfolding strip
strip-Single after [] h = h
strip-Single true (c ∷ []) h = ground arith
strip-Single false (c ∷ []) h = ground arith
strip-Single true (c ∷ d ∷ s) h = (h.0, strip-Single (c == slash) (d ∷ s) h.1)
strip-Single false (c ∷ d ∷ s) h = strip-Single (c == slash) (d ∷ s) h

strip-NoEndSlash : (after : Bool) (s : Bytes) → Single after s → NoEndSlash (strip s)
unfolding strip
strip-NoEndSlash after [] h = tt
strip-NoEndSlash after (c ∷ []) h = ground arith
strip-NoEndSlash true (c ∷ d ∷ []) h = ground arith
strip-NoEndSlash false (c ∷ d ∷ []) h = ground arith
strip-NoEndSlash true (c ∷ d ∷ e ∷ s) h = strip-NoEndSlash (c == slash) (d ∷ e ∷ s) h.1
strip-NoEndSlash false (c ∷ d ∷ e ∷ s) h = strip-NoEndSlash (c == slash) (d ∷ e ∷ s) h

pub length-strip : (s : Bytes) → length (strip s) ≤ length s
unfolding strip
length-strip [] = omega arith
length-strip (c ∷ []) = ground arith
length-strip (c ∷ d ∷ s) = omega (arith, length-strip (d ∷ s))

pub strip-of_NoEndSlash : (s : Bytes) → NoEndSlash s → strip s ≡ s
unfolding strip
strip-of_NoEndSlash [] h = refl
strip-of_NoEndSlash (c ∷ []) h = ground arith
strip-of_NoEndSlash (c ∷ d ∷ s) h = ap (λ t. c ∷ t) (strip-of_NoEndSlash (d ∷ s) h)

pub strip-append : (s : Bytes) → strip (s ++ slash ∷ []) ≡ s
unfolding strip
strip-append [] = refl
strip-append (c ∷ []) = refl
strip-append (c ∷ d ∷ s) = ap (λ t. c ∷ t) (strip-append (d ∷ s))

-- The names that a path goes through: its parts between slashes, the empty ones left out.
emit : Bytes → List Bytes → List Bytes
emit [] rest = rest
emit (c ∷ name) rest = (c ∷ name) ∷ rest

names_from : Bytes → Bytes → List Bytes
unfolding emit
names_from name [] = emit name []
names_from name (c ∷ s) = elim (c == slash) [
  | true ↦ emit name (names_from [] s)
  | false ↦ names_from (name ++ c ∷ []) s
]

pub names : Bytes → List Bytes
unfolding names_from
names s = names_from [] s

names_from-copy :
    (flag : Bool) (name s : Bytes)
    → (flag ≡ true → name ≡ [])
    → names_from name (copy flag s) ≡ names_from name s
unfolding names_from copy
names_from-copy flag name [] h = refl
names_from-copy true name (c ∷ s) h =
    let at_slash = names_from-copy true [] s (λ _. refl) in
    let inside = names_from-copy false (name ++ c ∷ []) s (λ e. cc) in
    ground (arith, at_slash, inside, h refl)
names_from-copy false name (c ∷ s) h =
    let at_slash = names_from-copy true [] s (λ _. refl) in
    let inside = names_from-copy false (name ++ c ∷ []) s (λ e. cc) in
    ground (arith, at_slash, inside)

names_from-strip : (name s : Bytes) → names_from name (strip s) ≡ names_from name s
unfolding names_from strip
names_from-strip name [] = refl
names_from-strip name (c ∷ []) = ground arith
names_from-strip name (c ∷ d ∷ s) =
    ground (arith, names_from-strip [] (d ∷ s), names_from-strip (name ++ c ∷ []) (d ∷ s))

-- What is known of a path that judgePath has put into the buffer.
pub record IsNormal (from buf : Bytes) : Type 0 where
  pub single : Single false buf
  pub no_end : NoEndSlash buf
  pub same_names : names buf ≡ names from
  pub not_longer : length buf ≤ length from

abbrev pub Normalises : Bytes → Type 0
Normalises from = (buf : Bytes) × (judge_path (some from) ≡ text buf) × IsNormal from buf

-- A path of 1 to 4096 bytes is copied without leaving the buffer; what stands in it then has no
-- two slashes side by side and none at the end, is not longer, and goes through the same names.
pub judge_path_normal : (from : Bytes) → from ≢ [] → length from ≤ buf_lize → Normalises from
unfolding judge_path names
judge_path_normal from given fits = (
  strip (copy false from),
  ground (arith, copy-ne-nil from given, length-copy false from),
  record {
    single = strip-Single false (copy false from) (copy-Single false from);
    no_end = strip-NoEndSlash false (copy false from) (copy-Single false from);
    same_names = names_from-strip [] (copy false from) ∙ names_from-copy false [] from (λ _. refl);
    not_longer = omega (arith, length-strip (copy false from), length-copy false from);
  },
)

length_pos : (s : Bytes) → s ≢ [] → 0 < length s
length_pos [] h = absurd (h refl)
length_pos (c ∷ s) h = omega arith

-- A path of 1 to 4096 bytes with no two slashes side by side and none at the end is left as it is
-- by judgePath.
pub judge_path_idem :
    (buf : Bytes)
    → buf ≢ []
    → length buf ≤ buf_lize
    → Single false buf
    → NoEndSlash buf
    → judge_path (some buf) ≡ text buf
unfolding judge_path
judge_path_idem buf given fits single no_end =
    rw (copy-of_Single false buf single)
      (ground (arith, strip-of_NoEndSlash buf no_end, length_pos buf given))

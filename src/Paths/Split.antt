-- ===== src/Paths/Split.antt =====
-- myDirname and myBasename take a path apart at its last slash, and where they do not.
use mathlib.Core.Bool.{false≢true}
use mathlib.Core.List.{reverse-cons, reverse-reverse}
use code_strudy.Prelude.{
  ℕ, suc, ◌+◌, ◌≤◌, ◌<◌, ◌≡◌, refl, sym, ap, subst, ◌∙◌, ◌≢◌, ◌⊎◌, inl, inr, Bool, true, false,
  none, some, [], ◌∷◌, ◌++◌, reverse, append-nil, append_assoc, arith, ltb, leb, ◌==◌, ==_iff,
  Bool-cases, length, length-append, All, All-append,
}
use code_strudy.CString.{Bytes, same_bytes, same_bytes_iff}
use code_strudy.Paths.Defs.{
  fault, my_dirname, my_basename, judge_path, slash, buf_lize, text, walk_back, scan_back,
  dirname_of, basename_of,
}
use code_strudy.Paths.Normal.{
  judge_path_normal, Single, copy-of_Single, strip-of_NoEndSlash, strip-append, NoEndSlash,
}

abbrev pub NoSlash : Bytes → Type 0
NoSlash = All (λ c. c ≢ slash)

-- Both loops stop at the same slash, the last one of the buffer.
walk-scan :
    (r after : Bytes)
    → (NoSlash (reverse r) × (walk_back r ≡ none) × (scan_back r after ≡ none))
      ⊎ ((d b : Bytes) × (walk_back r ≡ some d)
          × (scan_back r after ≡ some (b ++ after))
          × NoSlash b
          × (reverse r ≡ reverse d ++ slash ∷ b))
unfolding walk_back scan_back
walk-scan [] after = inl (tt, refl, refl)
walk-scan (c ∷ r) after = elim (Bool-cases (c == slash)) [
  | inl e ↦ inr (r, [], rw e, rw e, tt, rw (reverse-cons c r, (==_iff c slash).0 e))
  | inr e ↦
      let here : NoSlash (c ∷ []) =
        ((λ q. absurd (false≢true (sym e ∙ (==_iff c slash).1 q))), tt) in
      elim (walk-scan r (c ∷ after)) [
        | inl (free, w, s) ↦ inl (
          rw (reverse-cons c r) (All-append _ (reverse r) (c ∷ []) free here),
          rw (e, w),
          rw (e, s),
        )
        | inr (d, b, w, s, free, same) ↦ inr (
          d,
          b ++ c ∷ [],
          rw (e, w),
          rw (e, s, append_assoc),
          All-append _ b (c ∷ []) free here,
          rw (reverse-cons c r, same, append_assoc),
        )
      ]
]

not-NoEndSlash : (d : Bytes) → ¬ NoEndSlash (d ++ slash ∷ [])
not-NoEndSlash [] h = h refl
not-NoEndSlash (c ∷ []) h = h refl
not-NoEndSlash (c ∷ e ∷ d) h = not-NoEndSlash (e ∷ d) h

-- The path is none of those that the functions test for first.
pub record IsPlain (from : Bytes) : Type 0 where
  pub given : from ≢ []
  pub fits : length from < buf_lize
  pub not_root : from ≢ slash ∷ []
  pub not_parent : from ≢ b'.' ∷ b'.' ∷ []
  pub not_here : from ≢ b'.' ∷ []

plain_tests :
    (from : Bytes)
    → IsPlain from
    → (same_bytes from (slash ∷ []) ≡ false)
      × (same_bytes from (b'.' ∷ b'.' ∷ []) ≡ false)
      × (same_bytes from (b'.' ∷ []) ≡ false)
plain_tests from p = (
  ground (arith, same_bytes_iff from (slash ∷ []), p.not_root),
  ground (arith, same_bytes_iff from (b'.' ∷ b'.' ∷ []), p.not_parent),
  ground (arith, same_bytes_iff from (b'.' ∷ []), p.not_here),
)

-- The base name is copied to the front of the buffer; it may not reach into itself.
split_base :
    (from d b buf : Bytes)
    → buf ≡ d ++ slash ∷ b
    → scan_back (reverse buf) [] ≡ some (b ++ [])
    → (length buf == buf_lize) ≡ false
    → ((length b ≤ length d) × (basename_of false from (text buf) ≡ text b))
      ⊎ ((length d < length b) × (basename_of false from (text buf) ≡ fault))
unfolding basename_of
split_base from d b buf whole s room =
    let n : length buf ≡ length d + suc (length b) =
      ap length whole ∙ length-append d (slash ∷ b) in
    elim (Bool-cases (leb (length b) (length d))) [
      | inl le ↦ inl (ground (arith, le), rw (room, s, append-nil) (ground (arith, le, n)))
      | inr more ↦ inr (ground (arith, more), rw (room, s, append-nil) (ground (arith, more, n)))
    ]

-- From one buffer the two functions give the halves at its last slash.
split_buffer :
    (from buf : Bytes)
    → length from < buf_lize
    → length buf ≤ length from
    → NoEndSlash buf
    → (NoSlash buf
        × (dirname_of false (text buf) ≡ text (b'.' ∷ []))
        × (basename_of false from (text buf) ≡ text from))
      ⊎ ((d b : Bytes) × (buf ≡ d ++ slash ∷ b)
          × NoSlash b
          × (b ≢ [])
          × (dirname_of false (text buf) ≡ text d)
          × (((length b ≤ length d) × (basename_of false from (text buf) ≡ text b))
              ⊎ ((length d < length b) × (basename_of false from (text buf) ≡ fault))))
unfolding dirname_of basename_of
split_buffer from buf fits le no_end =
    let room : (length buf == buf_lize) ≡ false = ground arith in
    let short : ltb (length from) buf_lize ≡ true = ground arith in
    elim (walk-scan (reverse buf) []) [
      | inl (free, w, s) ↦ inl (rw (← reverse-reverse buf) free, rw (room, w), rw (room, s, short))
      | inr (d, b, w, s, free, same) ↦
          let whole : buf ≡ reverse d ++ slash ∷ b = sym (reverse-reverse buf) ∙ same in
          inr (
            reverse d,
            b,
            whole,
            free,
            (λ e.
                not-NoEndSlash (reverse d)
                  (subst (λ x. NoEndSlash (reverse d ++ slash ∷ x)) e (rw whole at no_end))),
            rw (room, w),
            split_base from (reverse d) b buf whole s room,
          )
    ]

-- How the two functions answer for a path: `buf` is what judgePath leaves in the buffer.
abbrev pub Splits : Bool → Bytes → Type 0
Splits stale from =
    (buf : Bytes) × (judge_path (some from) ≡ text buf)
    × ((NoSlash buf
          × (my_dirname stale false (some from) ≡ text (b'.' ∷ []))
          × (my_basename false (some from) ≡ text from))
        ⊎ ((d b : Bytes) × (buf ≡ d ++ slash ∷ b)
            × NoSlash b
            × (b ≢ [])
            × (my_dirname stale false (some from) ≡ text d)
            × (((length b ≤ length d) × (my_basename false (some from) ≡ text b))
                ⊎ ((length d < length b) × (my_basename false (some from) ≡ fault)))))

-- On a path of 1 to 4095 bytes that is not one of "/", "..", ".", and when open does not return
-- descriptor 0, whatever was found in the unset len, with buf the path as judgePath leaves it: if
-- buf has no slash, the directory is "." and the base name is the path as it was given; otherwise
-- buf is the directory, a slash and a name that is not empty and has no slash, myDirname gives the
-- directory, and myBasename gives that name if it is no longer than the directory, and else copies
-- it onto itself, which has no defined result; there is no other access outside the buffer.
pub split_path : (stale : Bool) (from : Bytes) → IsPlain from → Splits stale from
unfolding my_dirname my_basename
split_path stale from p =
    let (root, parent, here) = plain_tests from p in
    let (buf, e, n) = judge_path_normal from p.given (omega (arith, p.fits)) in
    (buf, e, rw (root, parent, here, e) (split_buffer from buf p.fits n.not_longer n.no_end))

Single-NoSlash : (after : Bool) (n : Bytes) → NoSlash n → Single after n
Single-NoSlash after [] h = tt
Single-NoSlash true (c ∷ n) h = ground (arith, Single-NoSlash (c == slash) n)
Single-NoSlash false (c ∷ n) h = ground (arith, Single-NoSlash (c == slash) n)

Single-trailing : (n : Bytes) → NoSlash n → Single false (n ++ slash ∷ [])
Single-trailing [] h = tt
Single-trailing (c ∷ n) h = ground (arith, Single-trailing n)

NoEndSlash-NoSlash : (c : ℕ) (n : Bytes) → NoSlash n → n ≢ [] → NoEndSlash (c ∷ n)
NoEndSlash-NoSlash c [] h ne = absurd (ne refl)
NoEndSlash-NoSlash c (d ∷ []) h ne = h.0
NoEndSlash-NoSlash c (d ∷ e ∷ n) h ne = NoEndSlash-NoSlash d (e ∷ n) h.1 (λ q. cc)

judge_path-trailing :
    (n : Bytes) → NoSlash n → length n + 1 < buf_lize → judge_path (some (n ++ slash ∷ [])) ≡ text n
unfolding judge_path
judge_path-trailing n h fits =
    rw (copy-of_Single false (n ++ slash ∷ []) (Single-trailing n h), strip-append n)
      (ground (arith, length-append n (slash ∷ [])))

judge_path-child :
    (n : Bytes)
    → NoSlash n
    → n ≢ []
    → length n + 1 < buf_lize
    → judge_path (some (slash ∷ n)) ≡ text (slash ∷ n)
unfolding judge_path
judge_path-child n h ne fits =
    rw
      (
        copy-of_Single false (slash ∷ n) (Single-NoSlash true n h),
        strip-of_NoEndSlash (slash ∷ n) (NoEndSlash-NoSlash slash n h ne),
      )
      (ground arith)

IsPlain-trailing : (n : Bytes) → n ≢ [] → length n + 1 < buf_lize → IsPlain (n ++ slash ∷ [])
IsPlain-trailing [] ne fits = absurd (ne refl)
IsPlain-trailing (c ∷ []) ne fits = record {
  given = λ e. cc;
  fits = fits;
  not_root = λ e. cc;
  not_parent = λ e. ground arith;
  not_here = λ e. cc;
}
IsPlain-trailing (c ∷ d ∷ n) ne fits = record {
  given = λ e. cc;
  fits = omega (arith, length-append n (slash ∷ []));
  not_root = λ e. cc;
  not_parent = λ e. omega (arith, ap length e, length-append n (slash ∷ []));
  not_here = λ e. cc;
}

not-NoSlash : (d b : Bytes) → ¬ NoSlash (d ++ slash ∷ b)
not-NoSlash [] b h = h.0 refl
not-NoSlash (c ∷ d) b h = not-NoSlash d b h.1

text-injective : (a b : Bytes) → text a ≡ text b → a ≡ b
text-injective a b e = cc

before_first : (n d b : Bytes) → NoSlash n → slash ∷ n ≡ d ++ slash ∷ b → d ≡ []
before_first n [] b h e = refl
before_first n (c ∷ d) b h e =
    let tail : n ≡ d ++ slash ∷ b = cc in absurd (not-NoSlash d b (subst NoSlash tail h))

IsPlain-child : (n : Bytes) → n ≢ [] → length n + 1 < buf_lize → IsPlain (slash ∷ n)
IsPlain-child n ne fits = record {
  given = λ e. cc;
  fits = omega arith;
  not_root = λ e. ne (ground arith);
  not_parent = λ e. ground arith;
  not_here = λ e. ground arith;
}

-- A non-empty name without a slash, with one slash behind it, of less than 4096 bytes in all, is
-- its own base name, slash included, when open does not return descriptor 0.
pub basename_keeps_slash :
    (n : Bytes)
    → n ≢ []
    → NoSlash n
    → length n + 1 < buf_lize
    → my_basename false (some (n ++ slash ∷ [])) ≡ text (n ++ slash ∷ [])
basename_keeps_slash n ne h fits =
    let (buf, e, halves) = split_path true (n ++ slash ∷ []) (IsPlain-trailing n ne fits) in
    let buf_is_n : n ≡ buf = text-injective n buf (sym (judge_path-trailing n h fits) ∙ e) in
    elim halves [
      | inl (free, dir, base) ↦ base
      | inr (d, b, whole, free, some_b, dir, base) ↦
          absurd (not-NoSlash d b (subst NoSlash (buf_is_n ∙ whole) h))
    ]

-- The directory of a slash and a non-empty name without a slash, of less than 4096 bytes in all,
-- is the empty string, when open does not return descriptor 0.
pub dirname_of_root_child :
    (stale : Bool) (n : Bytes)
    → n ≢ []
    → NoSlash n
    → length n + 1 < buf_lize
    → my_dirname stale false (some (slash ∷ n)) ≡ text []
dirname_of_root_child stale n ne h fits =
    let (buf, e, halves) = split_path stale (slash ∷ n) (IsPlain-child n ne fits) in
    let buf_is_path : slash ∷ n ≡ buf =
      text-injective (slash ∷ n) buf (sym (judge_path-child n h ne fits) ∙ e) in
    elim halves [
      | inl (free, dir, base) ↦ absurd (not-NoSlash [] n (subst NoSlash (sym buf_is_path) free))
      | inr (d, b, whole, free, some_b, dir, base) ↦
          dir ∙ ap text (before_first n d b h (buf_is_path ∙ whole))
    ]

-- ===== src/Mcopy.antt =====
-- A file copied through two mappings: practice/49.1/main.c under linux_programing_interface. A file
-- is named by a number, the same for two paths to it; a mapping shows the file as it is.
use code_strudy.Prelude.{
  ℕ, zero, suc, ◌+◌, ◌-◌, ◌/◌, ◌≤◌, min, ◌≡◌, refl, ap, ◌∙◌, ◌≢◌, inl, inr, Bool, true, false, not,
  ◌&&◌, ◌||◌, Option, none, some, [], ◌∷◌, ◌++◌, map, append-nil, arith, ◌==◌, if◌then◌else◌,
  ==_iff, Bool-cases, length, take, drop, replicate, length-append, length-replicate, length-take,
}
use code_strudy.CString.{Bytes}
mod Tests

abbrev pub Files : Type 0
Files = ℕ → Option Bytes

unfoldable pub put_file : Files → ℕ → Bytes → Files
put_file files f s = λ g. if g == f then some s else files g

-- Whether the calls succeed for their own reasons: open and fstat of the source, its mmap, open,
-- ftruncate and mmap of the target.
pub record Calls : Type 0 where
  pub opens_from : Bool
  pub maps_from : Bool
  pub opens_to : Bool
  pub truncates : Bool
  pub maps_to : Bool

pub data Copied : Type 0 where
  usage : Copied
  failed : Files → Copied
  done : Files → Copied

-- ftruncate
unfoldable pub resized : ℕ → Bytes → Bytes
resized n s = take n s ++ replicate (n - length s) 0

-- What a mapping shows of a file.
unfoldable pub shown : Option Bytes → Bytes
shown none = []
shown (some s) = s

-- memcpy(pTo, pFrom, size), where both files have `size` bytes at least.
unfoldable pub copy_bytes : ℕ → Bytes → Bytes → Bytes
copy_bytes size to from = take size from ++ drop size to

-- From the open of the target on, for a source of `size` bytes.
unfoldable pub copy_to : Calls → ℕ → ℕ → ℕ → Files → Copied
unfolding put_file resized shown copy_bytes
copy_to calls size src dst files =
    let created = put_file files dst (shown (files dst)) in
    let truncated = put_file created dst (resized size (shown (created dst))) in
    if not calls.opens_to
    then failed files
    else if not calls.truncates
    then failed created
    else if not calls.maps_to
    then failed truncated
    else done
        (put_file truncated dst (copy_bytes size (shown (truncated dst)) (shown (truncated src))))

-- A mapping of no bytes cannot be made.
unfoldable pub mcopy : Calls → ℕ → ℕ → Files → Copied
unfolding copy_to
mcopy calls src dst files = elim (files src) [
  | none ↦ failed files
  | some s ↦
      if not calls.opens_from
      then failed files
      else if (length s == 0) || not calls.maps_from
      then failed files
      else copy_to calls (length s) src dst files
]

-- argc != 3, or --help
unfoldable pub main : Bool → Option (ℕ × ℕ) → Calls → Files → Copied
unfolding mcopy
main help none calls files = usage
main help (some (src, dst)) calls files = if help then usage else mcopy calls src dst files

unfoldable pub all_succeed : Calls → Bool
all_succeed calls =
    calls.opens_from && calls.maps_from && calls.opens_to && calls.truncates && calls.maps_to

-- The target has the bytes of the source, and every other file is as it was.
pub record IsCopied (src dst : ℕ) (s : Bytes) (files after : Files) : Type 0 where
  pub copied : after dst ≡ some s
  pub source : after src ≡ some s
  pub others : (f : ℕ) → f ≢ dst → after f ≡ files f

take-length : (s : Bytes) → take (length s) s ≡ s
take-length [] = refl
take-length (c ∷ s) = ap (λ t. c ∷ t) (take-length s)

drop_all : (n : ℕ) (s : Bytes) → length s ≤ n → drop n s ≡ []
drop_all zero [] h = refl
drop_all zero (c ∷ s) h = absurd (omega arith)
drop_all (suc n) [] h = refl
drop_all (suc n) (c ∷ s) h = drop_all n s (omega arith)

length-resized : (n : ℕ) (s : Bytes) → length (resized n s) ≡ n
unfolding resized
length-resized n s =
    let more : Bytes = replicate (n - length s) 0 in
    let added : length more ≡ n - length s = length-replicate {A = ℕ} (n - length s) 0 in
    omega (arith, length-append (take n s) more, length-take n s, added)

resized_own : (s : Bytes) → resized (length s) s ≡ s
unfolding resized
resized_own s =
    let none_more : length s - length s ≡ 0 = omega arith in
    rw (take-length s, none_more) (append-nil s)

-- What is copied into a file of the source's size.
copy_bytes_own : (s t : Bytes) → copy_bytes (length s) (resized (length s) t) s ≡ s
unfolding copy_bytes
copy_bytes_own s t =
    rw
      (
        take-length s,
        drop_all (length s) (resized (length s) t) (omega (arith, length-resized (length s) t)),
      )
      (append-nil s)

-- The source's mapping behind the ftruncate of the target.
source_shown :
    (src dst : ℕ) (s t : Bytes) (files : Files)
    → files src ≡ some s
    → shown (files dst) ≡ t
    → shown (put_file (put_file files dst t) dst (resized (length s) t) src) ≡ s
unfolding put_file shown
source_shown src dst s t files e is = elim (Bool-cases (src == dst)) [
  | inl same ↦
      let at_source : files src ≡ files dst = ap files ((==_iff src dst).0 same) in
      ground (arith, same, at_source, resized_own s)
  | inr other ↦ ground (arith, other, e)
]

put_file_self : (files : Files) (f : ℕ) (s : Bytes) → put_file files f s f ≡ some s
unfolding put_file
put_file_self files f s = ground arith

put_file_other : (files : Files) (f g : ℕ) (s : Bytes) → g ≢ f → put_file files f s g ≡ files g
unfolding put_file
put_file_other files f g s ne = ground (arith, ne)

-- The files behind a copy in which every call succeeds.
copied_files : ℕ → ℕ → ℕ → Files → Files
copied_files size src dst files =
    let created = put_file files dst (shown (files dst)) in
    let truncated = put_file created dst (resized size (shown (created dst))) in
    put_file truncated dst (copy_bytes size (shown (truncated dst)) (shown (truncated src)))

main_done :
    (calls : Calls) (src dst : ℕ) (c : ℕ) (s : Bytes) (files : Files)
    → files src ≡ some (c ∷ s)
    → all_succeed calls ≡ true
    → main false (some (src, dst)) calls files ≡ done (copied_files (length (c ∷ s)) src dst files)
unfolding main mcopy copy_to all_succeed copied_files
main_done calls src dst c s files e works = ground (arith, e, works)

copied_files_target :
    (src dst : ℕ) (s : Bytes) (files : Files)
    → files src ≡ some s
    → copied_files (length s) src dst files dst ≡ some s
unfolding copied_files
copied_files_target src dst s files e =
    let t = shown (files dst) in
    let created = put_file files dst t in
    let at_created : shown (created dst) ≡ t =
      ap shown (put_file_self files dst t) ∙ unfold shown in refl in
    let truncated = put_file created dst (resized (length s) t) in
    let at_truncated : shown (truncated dst) ≡ resized (length s) t =
      ap shown (put_file_self created dst (resized (length s) t)) ∙ unfold shown in refl in
    put_file_self _ dst _
    ∙ ap some
        (rw (at_created, at_truncated, source_shown src dst s t files e refl) (copy_bytes_own s t))

-- For a source that is not empty, and when every call succeeds: whether the target was missing,
-- longer or shorter, or is the source itself, it has the bytes of the source afterwards, the
-- source its own, and every other file what it had.
pub main-copies :
    (calls : Calls) (src dst : ℕ) (c : ℕ) (s : Bytes) (files : Files)
    → files src ≡ some (c ∷ s)
    → all_succeed calls ≡ true
    → (after : Files) × (main false (some (src, dst)) calls files ≡ done after)
      × IsCopied src dst (c ∷ s) files after
main-copies calls src dst c s files e works =
    let after = copied_files (length (c ∷ s)) src dst files in
    let target = copied_files_target src dst (c ∷ s) files e in
    let others : (f : ℕ) → f ≢ dst → after f ≡ files f =
      λ f ne. unfold copied_files put_file in ground (arith, ne) in
    (
      after,
      main_done calls src dst c s files e works,
      record {
        copied = target;
        source = elim (Bool-cases (src == dst)) [
          | inl same ↦ ap after ((==_iff src dst).0 same) ∙ target
          | inr differs ↦ others src (ground (arith, differs)) ∙ e
        ];
        others = others;
      },
    )

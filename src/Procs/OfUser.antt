-- ===== src/Procs/OfUser.antt =====
-- The loop over entries that are status files, or cannot be opened.
use code_strudy.Prelude.{
  ℕ, zero, suc, ◌≤◌, ◌≡◌, refl, ap, ◌∙◌, inl, inr, Option, none, some, List, [], ◌∷◌, ◌++◌, map,
  append_assoc, arith, ◌==◌, if◌then◌else◌, Bool-cases, length, take, drop, replicate, All,
}
use code_strudy.CString.{Bytes}
use code_strudy.Transfer.Chunks.{overlay}
use code_strudy.Procs.Status.{tab, uid_key, entry, nothing, show_status}
use code_strudy.Procs.Scan.{file_size, Entry, closed, holds, Process, finished, also, scan}
use code_strudy.Procs.Found.{Fields, before_uid, status_text, IsStatus, show_status-entry}

pub entry_of : Option Fields → Entry
entry_of none = closed
entry_of (some f) = holds (status_text f)

-- The processes of the user, in the order of the entries.
pub of_user : (Bytes → ℕ) → ℕ → List (Option Fields) → List Process
of_user atol uid [] = []
of_user atol uid (none ∷ es) = of_user atol uid es
of_user atol uid (some f ∷ es) =
    let rest = of_user atol uid es in
    if atol f.digits == uid then record { name = f.name; pid = f.pid } ∷ rest else rest

abbrev pub IsEntry : Option Fields → Type 0
IsEntry none = Unit
IsEntry (some f) = IsStatus f × (length (status_text f) ≤ file_size)

take-all : (n : ℕ) (xs : Bytes) → length xs ≤ n → take n xs ≡ xs
take-all zero [] le = refl
take-all (suc n) [] le = refl
take-all zero (x ∷ xs) le = absurd (omega arith)
take-all (suc n) (x ∷ xs) le = ap (λ t. x ∷ t) (take-all n xs (omega arith))

-- What the array holds behind the text counts as its rest.
overlaid : Fields → Bytes → Fields
overlaid f file = record f { rest = f.rest ++ drop (length (status_text f)) file }

overlay-status_text :
    (f : Fields) (file : Bytes) → overlay (status_text f) file ≡ status_text (overlaid f file)
unfolding overlaid
overlay-status_text f file =
    let d = drop (length (status_text f)) file in
    append_assoc (before_uid f) (uid_key ++ tab ∷ (f.digits ++ tab ∷ f.rest)) d
    ∙ ap (λ r. before_uid f ++ (uid_key ++ tab ∷ r)) (append_assoc f.digits (tab ∷ f.rest) d)

overlaid-IsStatus : (f : Fields) (file : Bytes) → IsStatus f → IsStatus (overlaid f file)
unfolding overlaid
overlaid-IsStatus f file v = record {
  pid_first = v.pid_first;
  uid_first = v.uid_first;
  name_line = v.name_line;
  pid_line = v.pid_line;
  digits_field = v.digits_field;
}

show_overlay :
    (atol : Bytes → ℕ) (uid : ℕ) (f : Fields) (file : Bytes)
    → IsStatus f
    → show_status atol uid (overlay (status_text f) file)
      ≡ (if atol f.digits == uid then entry f.name f.pid else nothing)
show_overlay atol uid f file v =
    ap (show_status atol uid) (overlay-status_text f file)
    ∙ unfold overlaid in show_status-entry atol uid (overlaid f file) (overlaid-IsStatus f file v)

-- Over entries that cannot be opened, or whose file has at most 1024 bytes, with the fields of a
-- status file: the name as its first line, then "Pid:", then "Uid:", each key first where it
-- stands as a field: whatever the array held before, the loop ends without a fault and shows the
-- name and the identifier of exactly the processes whose first number behind "Uid:", as atol reads
-- it, is the user's, in order.
pub scan-of_user :
    (atol : Bytes → ℕ) (uid : ℕ) (file : Bytes) (es : List (Option Fields))
    → All IsEntry es
    → scan atol uid file (map entry_of es) ≡ finished (of_user atol uid es)
unfolding scan entry_of of_user
scan-of_user atol uid file [] v = refl
scan-of_user atol uid file (none ∷ es) v = scan-of_user atol uid file es v.1
scan-of_user atol uid file (some f ∷ es) v =
    let one = show_overlay atol uid f file v.0.0 in
    let whole = take-all file_size (status_text f) v.0.1 in
    let rest = scan-of_user atol uid (replicate file_size 0) es v.1 in
    elim (Bool-cases (atol f.digits == uid)) [
      | inl same ↦ unfold also in ground (arith, whole, one, rest, same)
      | inr other ↦ ground (arith, whole, one, rest, other)
    ]

-- ===== src/Watch/Adding.antt =====
-- What the search for a watch descriptor finds behind an addition.
use code_strudy.Watch.Table.{
  ok, fault, wd_name_num, null, live, is_null, find_wd, find_null, add_inodity_for_entry, WdName,
  Watch,
}
use code_strudy.Prelude.{
  ℕ, zero, suc, ◌+◌, ◌≤◌, ◌<◌, ◌≡◌, refl, ◌∙◌, ◌≢◌, ◌⊎◌, inl, inr, true, Option, some, List, [],
  ◌∷◌, arith, ◌==◌, if◌then◌else◌, ==_iff, Bool-cases, length, get_elem?, set, length-set, All,
  incr,
}
use code_strudy.CString.{Bytes}

-- The entry that displayInotifyEvent finds for a watch descriptor.
abbrev pub lookup : ℕ → List WdName → Option WdName
lookup k t = get_elem? t (find_wd k t)

-- An entry without a name has the descriptor 0.
abbrev pub IsClean : List WdName → Type 0
IsClean = All (λ e. e.name ≡ null → e.wd ≡ 0)

abbrev pub Absent : ℕ → List WdName → Type 0
Absent k = All (λ e. e.wd ≢ k)

pub record IsValid (w : Watch) : Type 0 where
  pub full_length : length w.table ≡ wd_name_num
  pub clean : IsClean w.table

lookup-set_null :
    (t : List WdName) (e : WdName) (j : ℕ)
    → j ≢ 0
    → IsClean t
    → Absent e.wd t
    → find_null t < length t
    → lookup j (set t (find_null t) e) ≡ (if e.wd == j then some e else lookup j t)
unfolding find_null is_null find_wd
lookup-set_null [] e j nz c a lt = ground arith
lookup-set_null (d ∷ t) e j nz c a lt = ground (arith, c.0, a.0, lookup-set_null t e j nz c.1 a.1)

find_null-le : (t : List WdName) → find_null t ≤ length t
unfolding find_null
find_null-le [] = omega arith
find_null-le (e ∷ t) = ground (arith, find_null-le t)

set-IsClean :
    (t : List WdName) (i : ℕ) (e : WdName) → IsClean t → e.name ≢ null → IsClean (set t i e)
set-IsClean [] i e c ne = tt
set-IsClean (d ∷ t) zero e c ne = ((λ z. absurd (ne z)), c.1)
set-IsClean (d ∷ t) (suc i) e c ne = (c.0, set-IsClean t i e c.1 ne)

-- Either every entry has a name, and the array is left; or the entry is there, and a search for `j`
-- finds what it found before, unless `j` is the new descriptor.
abbrev pub Adds : ℕ → Bytes → ℕ → ℕ → Watch → Type 0
Adds k filename kind j w =
    ((find_null w.table ≡ wd_name_num)
      × (add_inodity_for_entry (some k) true filename kind w ≡ fault))
    ⊎ ((v : Watch) × (add_inodity_for_entry (some k) true filename kind w ≡ ok v [])
        × IsValid v
        × (v.count ≡ incr w.count)
        × (lookup j v.table ≡ (
            if k == j
            then some (record {
              wd = k;
              name = live filename;
              name_len = length filename + 1;
              kind = kind;
            })
            else lookup j w.table)))

-- For a new watch descriptor, given that the calls succeed, at an array in which entries without a
-- name are clear: if every entry has a name, the code writes behind the array; otherwise the array
-- stays such a one, the count grows by one, and a search for a descriptor other than 0 finds the
-- new entry if it is the new descriptor and else what it found before.
pub add_inodity_for_entry-Adds :
    (k : ℕ) (filename : Bytes) (kind j : ℕ) (w : Watch)
    → IsValid w
    → Absent k w.table
    → j ≢ 0
    → Adds k filename kind j w
unfolding add_inodity_for_entry
add_inodity_for_entry-Adds k filename kind j w v a nz =
    let e : WdName = record {
      wd = k;
      name = live filename;
      name_len = length filename + 1;
      kind = kind;
    } in
    let i = find_null w.table in
    elim (Bool-cases (i == wd_name_num)) [
      | inl full ↦ inl ((==_iff i wd_name_num).0 full, rw full)
      | inr room ↦ inr (
        record { table = set w.table i e; count = incr w.count },
        rw room,
        record {
          full_length = length-set w.table i e ∙ v.full_length;
          clean = set-IsClean w.table i e v.clean (λ z. cc);
        },
        refl,
        lookup-set_null w.table e j nz v.clean a
            (ground (arith, room, find_null-le w.table, v.full_length)),
      )
    ]

-- ===== src/Watch/Table.antt =====
-- The array wdName of practice/19.1/main.c, with its two operations and nftw_func.
use code_strudy.Prelude.{
  ℕ, suc, ◌+◌, ◌%◌, Bool, true, false, Option, none, some, List, [], ◌∷◌, ◌==◌, if◌then◌else◌,
  length, get_elem?, set, ℤ, pos, negsuc, incr, decr,
}
use code_strudy.CString.{Bytes}

-- The member `name`: NULL, a string of its own, or a pointer to memory that was freed.
pub data Name : Type 0 where
  null dangling : Name
  live : Bytes → Name

pub record WdName : Type 0 where
  pub wd : ℕ
  pub name : Name
  pub name_len : ℕ
  pub kind : ℕ

abbrev pub wd_name_num : ℕ
wd_name_num = 100

abbrev pub type_file : ℕ
type_file = 1

abbrev pub type_dir : ℕ
type_dir = 0

abbrev pub blank : WdName
blank = record { wd = 0; name = null; name_len = 0; kind = 0 }

pub record Watch : Type 0 where
  pub table : List WdName
  pub count : ℤ

-- What is printed, and the watch that is removed.
pub data Shown : Type 0 where
  created_file created_dir deleted_file deleted_dir moved_from moved_to : Bytes → Bytes → Shown
  watch_removed : ℕ → Shown

-- `exited` is errExit; `fault` is an access outside the array, through a pointer that is unset or
-- to memory that was freed, or a second `free`.
pub data Result : Type 0 where
  ok : Watch → List Shown → Result
  exited : Result
  fault : Result

unfoldable pub is_null : Name → Bool
is_null null = true
is_null (live s) = false
is_null dangling = false

-- for (i = 0; i < WDNAMENUM; i++) if (wdName[i].name == NULL) break;
unfoldable pub find_null : List WdName → ℕ
unfolding is_null
find_null [] = 0
find_null (e ∷ t) = if is_null e.name then 0 else suc (find_null t)

-- The same loop with the test wdName[i].wd == event->wd.
unfoldable pub find_wd : ℕ → List WdName → ℕ
find_wd k [] = 0
find_wd k (e ∷ t) = if e.wd == k then 0 else suc (find_wd k t)

-- The result of inotify_add_watch, and whether malloc succeeds. Behind the last entry there is no
-- array.
unfoldable pub add_inodity_for_entry : Option ℕ → Bool → Bytes → ℕ → Watch → Result
add_inodity_for_entry none malloced filename kind w = exited
add_inodity_for_entry (some k) malloced filename kind w =
    let i = find_null w.table in
    if i == wd_name_num
    then fault
    else if malloced
    then ok
        (record {
          table = set w.table i (record {
            wd = k;
            name = live filename;
            name_len = length filename + 1;
            kind = kind;
          });
          count = incr w.count;
        })
        []
    else exited

-- wdName[wdName_count].wd
unfoldable pub wd_at_count : Watch → Option ℕ
wd_at_count w = elim w.count [
  | pos n ↦ elim (get_elem? w.table n) [ none ↦ none | some e ↦ some e.wd ]
  | negsuc n ↦ none
]

-- memset clears the first entry of the array.
unfoldable pub remove_inodity_for_entry : ℕ → Watch → Result
unfolding wd_at_count
remove_inodity_for_entry i w = elim (wd_at_count w) [
  | none ↦ fault
  | some k ↦ elim (get_elem? w.table i) [
    | none ↦ fault
    | some e ↦ elim e.name [
      | dangling ↦ fault
      | null ↦
          ok (record { table = set w.table 0 blank; count = decr w.count }) (watch_removed k ∷ [])
      | live s ↦
          ok
            (record {
              table = set (set w.table i (record e { name = dangling })) 0 blank;
              count = decr w.count;
            })
            (watch_removed k ∷ [])
    ]
  ]
]

-- FTW_D is 1: `flag & FTW_D` reads the lowest bit.
unfoldable pub nftw_func : Option ℕ → Bool → Bytes → ℕ → Watch → Result
unfolding add_inodity_for_entry
nftw_func wd malloced filename flag w =
    add_inodity_for_entry wd malloced filename (if flag % 2 == 1 then type_dir else type_file) w

-- ===== src/Watch/Events.antt =====
-- displayInotifyEvent and `main` of practice/19.1/main.c.
use code_strudy.Prelude.{
  ℕ, ◌+◌, Bool, Option, none, some, List, [], ◌∷◌, ◌++◌, ltb, ◌==◌, if◌then◌else◌, length,
  get_elem?, replicate, pos,
}
use code_strudy.Watch.Table.{
  null, dangling, live, WdName, Watch, type_file, type_dir, wd_name_num, blank, Shown, Result, ok,
  exited, fault, created_file, created_dir, deleted_file, deleted_dir, moved_from, moved_to,
  find_wd, add_inodity_for_entry, remove_inodity_for_entry, nftw_func,
}
use code_strudy.CString.{Bytes}

pub data Mask : Type 0 where
  in_create in_delete in_moved_from in_moved_to other : Mask

-- What `stat` says of the new path.
pub data Stat : Type 0 where
  failed regular directory special : Stat

-- An event, and the results of the calls that its handling may make.
pub record Event : Type 0 where
  pub wd : ℕ
  pub mask : Mask
  pub name : Bytes
  pub stat : Stat
  pub new_wd : Option ℕ
  pub malloced : Bool

abbrev pub path_max : ℕ
path_max = 4096

unfoldable pub show_first : Shown → Result → Result
show_first s (ok w out) = ok w (s ∷ out)
show_first s exited = exited
show_first s fault = fault

-- The switch, for the entry `i` of the directory `dir`.
unfoldable pub dispatch : ℕ → WdName → Bytes → Event → Mask → Watch → Result
unfolding add_inodity_for_entry remove_inodity_for_entry show_first
dispatch i entry dir e in_create w =
    let path = dir ++ b'/' ∷ e.name in
    elim e.stat [
      | failed ↦ exited
      | regular ↦
          show_first (created_file dir e.name)
            (add_inodity_for_entry e.new_wd e.malloced path type_file w)
      | directory ↦
          show_first (created_dir dir e.name)
            (add_inodity_for_entry e.new_wd e.malloced path type_dir w)
      | special ↦ ok w []
    ]
dispatch i entry dir e in_delete w =
    show_first (if entry.kind == type_file then deleted_file dir e.name else deleted_dir dir e.name)
      (remove_inodity_for_entry i w)
dispatch i entry dir e in_moved_from w = ok w (moved_from dir e.name ∷ [])
dispatch i entry dir e in_moved_to w = ok w (moved_to dir e.name ∷ [])
dispatch i entry dir e other w = ok w []

-- The path must fit its buffer, with the slash and the NUL.
unfoldable pub display_inotify_event : Event → Watch → Result
unfolding dispatch
display_inotify_event e w =
    let i = find_wd e.wd w.table in
    elim (get_elem? w.table i) [
      | none ↦ fault
      | some entry ↦ elim entry.name [
        | null ↦ fault
        | dangling ↦ fault
        | live dir ↦
            if ltb (length dir + length e.name + 1) path_max
            then dispatch i entry dir e e.mask w
            else fault
      ]
    ]

unfoldable pub show_before : List Shown → Result → Result
show_before out (ok w more) = ok w (out ++ more)
show_before out exited = exited
show_before out fault = fault

-- The two loops of `main` over what `read` returns.
unfoldable pub display_all : List Event → Watch → Result
unfolding display_inotify_event show_before
display_all [] w = ok w []
display_all (e ∷ es) w = elim (display_inotify_event e w) [
  | ok v out ↦ show_before out (display_all es v)
  | exited ↦ exited
  | fault ↦ fault
]

-- A file that nftw visits, and the results of the calls for it.
pub record Visit : Type 0 where
  pub filename : Bytes
  pub flag : ℕ
  pub new_wd : Option ℕ
  pub malloced : Bool

unfoldable pub walk : List Visit → Watch → Result
unfolding nftw_func
walk [] w = ok w []
walk (v ∷ vs) w = elim (nftw_func v.new_wd v.malloced v.filename v.flag w) [
  | ok u out ↦ walk vs u
  | exited ↦ exited
  | fault ↦ fault
]

unfoldable pub init : Watch
init = record { table = replicate wd_name_num blank; count = pos 0 }

-- `main`, from the reset of the array on.
unfoldable pub main : List Visit → List Event → Result
unfolding walk display_all init
main visits events = elim (walk visits init) [
  | ok w out ↦ display_all events w
  | exited ↦ exited
  | fault ↦ fault
]

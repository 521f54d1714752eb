-- ===== src/Watch/Tests.antt =====
-- The array with one entry, and the theorems at it.
use code_strudy.Prelude.{ℕ, zero, suc, ◌≡◌, refl, true, none, [], ◌∷◌, arith, replicate, pos, decr}
use code_strudy.Watch.Table.{
  ok, live, blank, WdName, Watch, watch_removed, deleted_file, type_file, wd_name_num, find_wd,
  wd_at_count, remove_inodity_for_entry,
}
use code_strudy.Watch.Events.{
  Event, in_delete, other, failed, display_inotify_event, dispatch, show_first, init,
}
use code_strudy.Watch.Adding.{IsValid, Absent, IsClean, Adds, add_inodity_for_entry-Adds}

blanks-IsClean : (n : ℕ) → IsClean (replicate n blank)
blanks-IsClean zero = tt
blanks-IsClean (suc n) = ((λ e. refl), blanks-IsClean n)

blanks-Absent : (n : ℕ) → Absent 7 (replicate n blank)
blanks-Absent zero = tt
blanks-Absent (suc n) = ((λ e. omega arith), blanks-Absent n)

init-IsValid : IsValid init
unfolding init
init-IsValid = record { full_length = refl; clean = blanks-IsClean wd_name_num }

add_inodity_for_entry-Adds_example : Adds 7 (b'd' ∷ []) 0 7 init
unfolding init
add_inodity_for_entry-Adds_example =
    add_inodity_for_entry-Adds 7 (b'd' ∷ []) 0 7 init init-IsValid (blanks-Absent wd_name_num)
      (λ e. omega arith)

abbrev entry : WdName
entry = record { wd = 1; name = live (b'd' ∷ []); name_len = 2; kind = type_file }

abbrev one_entry : Watch
one_entry = record { table = entry ∷ blank ∷ []; count = pos 1 }

abbrev after_deletion : Watch
after_deletion = record { table = blank ∷ blank ∷ []; count = pos 0 }

abbrev deletion : Event
deletion = record {
  wd = 1;
  mask = in_delete;
  name = b'f' ∷ [];
  stat = failed;
  new_wd = none;
  malloced = true;
}

abbrev later : Event
later = record deletion { mask = other }

-- The watch of the empty entry behind the last is removed, not the entry's own.
deletion_shows :
    display_inotify_event deletion one_entry
    ≡ ok after_deletion (deleted_file (b'd' ∷ []) (b'f' ∷ []) ∷ watch_removed 0 ∷ [])
unfolding display_inotify_event dispatch find_wd remove_inodity_for_entry wd_at_count show_first
    decr
deletion_shows = refl

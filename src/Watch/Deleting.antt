-- ===== src/Watch/Deleting.antt =====
-- What a deletion leaves of the array.
use code_strudy.Prelude.{
  ℕ, ◌+◌, ◌≡◌, refl, sym, subst, ◌≢◌, ◌⊎◌, inl, inr, Option, none, some, List, [], ◌∷◌, arith, ltb,
  ◌==◌, if◌then◌else◌, ==_iff, Bool-cases, Option-cases, length, get_elem?, set, All,
}
use code_strudy.CString.{Bytes}
use code_strudy.Watch.Table.{
  deleted_dir, deleted_file, type_file, Name, null, dangling, live, WdName, Watch, blank, Shown,
  Result, ok, exited, fault, find_wd, remove_inodity_for_entry,
}
use code_strudy.Watch.Events.{path_max, Event, in_delete, display_inotify_event, show_first}

-- No two entries have the descriptor.
abbrev pub AtMostOne : ℕ → List WdName → Type 0
AtMostOne k [] = Unit
AtMostOne k (e ∷ t) = (e.wd ≡ k → All (λ d. d.wd ≢ k) t) × AtMostOne k t

-- The entry that is found is freed, or cleared.
abbrev pub cleared : ℕ → List WdName → WdName → List WdName
cleared k t e = set (set t (find_wd k t) (record e { name = dangling })) 0 blank

abbrev pub Broken : Option WdName → Type 0
Broken none = Unit
Broken (some e) = e.name ≡ dangling

absent-Broken : (k : ℕ) (t : List WdName) → All (λ d. d.wd ≢ k) t → get_elem? t (find_wd k t) ≡ none
unfolding find_wd
absent-Broken k [] a = refl
absent-Broken k (d ∷ t) a = ground (arith, a.0, absent-Broken k t a.1)

found-set :
    (k : ℕ) (t : List WdName) (e : WdName)
    → get_elem? t (find_wd k t) ≡ some e
    → get_elem?
        (set t (find_wd k t) (record e { name = dangling }))
        (find_wd k (set t (find_wd k t) (record e { name = dangling })))
      ≡ some (record e { name = dangling })
unfolding find_wd
found-set k [] e found = ground arith
found-set k (d ∷ t) e found = ground (arith, found-set k t e)

cleared-Broken :
    (k : ℕ) (t : List WdName) (e : WdName)
    → k ≢ 0
    → AtMostOne k t
    → get_elem? t (find_wd k t) ≡ some e
    → Broken (get_elem? (cleared k t e) (find_wd k (cleared k t e)))
unfolding find_wd
cleared-Broken k [] e nz one found = tt
cleared-Broken k (d ∷ t) e nz one found = elim (Bool-cases (d.wd == k)) [
  | inl hit ↦
      let gone = absent-Broken k t (one.0 ((==_iff d.wd k).0 hit)) in
      let e' : get_elem? (cleared k (d ∷ t) e) (find_wd k (cleared k (d ∷ t) e)) ≡ none =
        ground (arith, hit, gone) in
      subst Broken (sym e') tt
  | inr miss ↦
      let later = found-set k t e (ground (arith, miss)) in
      let e' : get_elem? (cleared k (d ∷ t) e) (find_wd k (cleared k (d ∷ t) e))
          ≡ some (record e { name = dangling }) =
        ground (arith, miss, later) in
      subst Broken (sym e') refl
]

Broken-faults :
    (o : Option WdName) (e : Event) (w : Watch)
    → get_elem? w.table (find_wd e.wd w.table) ≡ o
    → Broken o
    → display_inotify_event e w ≡ fault
unfolding display_inotify_event
Broken-faults none e w found b = ground (arith, found)
Broken-faults (some d) e w found b = ground (arith, found, b)

removed_table :
    (i : ℕ) (entry : WdName) (dir : Bytes) (w v : Watch) (out : List Shown)
    → get_elem? w.table i ≡ some entry
    → entry.name ≡ live dir
    → remove_inodity_for_entry i w ≡ ok v out
    → v.table ≡ set (set w.table i (record entry { name = dangling })) 0 blank
unfolding remove_inodity_for_entry
removed_table i entry dir w v out found named e = ground (arith, found, named)

show_first-ok :
    (s : Shown) (r : Result) (v : Watch) (out : List Shown)
    → show_first s r ≡ ok v out
    → (more : List Shown) × (r ≡ ok v more)
unfolding show_first
show_first-ok s (ok w more) v out e = (more, ground arith)
show_first-ok s exited v out e = ground arith
show_first-ok s fault v out e = ground arith

Name-cases : (n : Name) → ((n ≡ null) ⊎ (n ≡ dangling)) ⊎ ((dir : Bytes) × (n ≡ live dir))
Name-cases null = inl (inl refl)
Name-cases dangling = inl (inr refl)
Name-cases (live dir) = inr (dir, refl)

deleted_table :
    (e : Event) (w v : Watch) (out : List Shown)
    → e.mask ≡ in_delete
    → display_inotify_event e w ≡ ok v out
    → (entry : WdName) × (get_elem? w.table (find_wd e.wd w.table) ≡ some entry)
      × (v.table ≡ cleared e.wd w.table entry)
unfolding display_inotify_event
deleted_table e w v out is_delete done =
    elim (Option-cases (get_elem? w.table (find_wd e.wd w.table))) [
      | inl missing ↦ ground (arith, missing)
      | inr (entry, found) ↦ elim (Name-cases entry.name) [
        | inl unnamed ↦ ground (arith, found, unnamed)
        | inr (dir, named) ↦ elim (Bool-cases (ltb (length dir + length e.name + 1) path_max)) [
          | inl fits ↦
              let removing : show_first
                    (if entry.kind == type_file
                      then deleted_file dir e.name
                      else deleted_dir dir e.name)
                    (remove_inodity_for_entry (find_wd e.wd w.table) w)
                  ≡ ok v out =
                ground (arith, found, named, fits, is_delete) in
              let (more, removed) = show_first-ok _ _ v out removing in
              (
                entry,
                found,
                removed_table (find_wd e.wd w.table) entry dir w v more found named removed,
              )
          | inr long ↦ ground (arith, found, named, long)
        ]
      ]
    ]

-- When the deletion event of a descriptor other than 0, which one entry at most has, was handled
-- without a fault, an event of that descriptor that comes next makes the code use an unset pointer
-- or freed memory.
pub deletion_breaks :
    (e next : Event) (w v : Watch) (out : List Shown)
    → e.wd ≢ 0
    → AtMostOne e.wd w.table
    → e.mask ≡ in_delete
    → display_inotify_event e w ≡ ok v out
    → next.wd ≡ e.wd
    → display_inotify_event next v ≡ fault
deletion_breaks e next w v out nz one is_delete done same =
    let (entry, found, table_v) = deleted_table e w v out is_delete done in
    let broken = cleared-Broken e.wd w.table entry nz one found in
    Broken-faults (get_elem? v.table (find_wd next.wd v.table)) next v refl (
      subst (λ (t : List WdName). Broken (get_elem? t (find_wd next.wd t))) (sym table_v)
        (subst
          (λ (k : ℕ).
            Broken
              (get_elem? (cleared e.wd w.table entry) (find_wd k (cleared e.wd w.table entry))))
          (sym same) broken))

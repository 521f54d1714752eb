-- ===== src/Mcopy/Tests.antt =====
-- Copies onto a longer file, onto the file itself, and of an empty file.
use code_strudy.Prelude.{◌≡◌, refl, true, false, none, some, [], ◌∷◌, ◌==◌, if◌then◌else◌}
use code_strudy.Mcopy.{main-copies, mcopy, IsCopied, main, all_succeed, Files, Calls, failed, done}

abbrev works : Calls
works = record {
  opens_from = true;
  maps_from = true;
  opens_to = true;
  truncates = true;
  maps_to = true;
}

abbrev disk : Files
disk f =
    if f == 1
    then some (7 ∷ 8 ∷ [])
    else if f == 2
    then some (1 ∷ 2 ∷ 3 ∷ [])
    else if f == 3
    then some []
    else none

empty_source : main false (some (3, 2)) works disk ≡ failed disk
unfolding main mcopy
empty_source = refl

main-copies_example :
    (after : Files) × (main false (some (1, 2)) works disk ≡ done after)
    × IsCopied 1 2 (7 ∷ 8 ∷ []) disk after
unfolding all_succeed
main-copies_example = main-copies works 1 2 7 (8 ∷ []) disk refl refl

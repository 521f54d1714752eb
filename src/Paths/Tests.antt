-- ===== src/Paths/Tests.antt =====
-- Runs of the path functions, and their theorems at them.
use code_strudy.Paths.Kept.{calls-Holds, Holds, Away}
use code_strudy.Prelude.{ℕ, ◌≡◌, refl, true, false, Option, none, some, List, [], ◌∷◌, arith}
use code_strudy.CString.{Bytes, same_bytes}
use code_strudy.Paths.Defs.{
  slash, text, fault, copy, strip, walk_back, scan_back, my_dirname, my_basename,
}
use code_strudy.Paths.Keys.{
  same_key, answer, left_behind, result_of, own_buffer, calls, call, no_store, Store, Returned,
  Call, dir_key, base_key,
}
use code_strudy.Paths.Split.{IsPlain, Splits, split_path}

-- "/a//b/"
abbrev nested : Bytes
nested = slash ∷ b'a' ∷ slash ∷ slash ∷ b'b' ∷ slash ∷ []

dirname_nested : my_dirname true false (some nested) ≡ text (slash ∷ b'a' ∷ [])
unfolding my_dirname same_bytes copy strip walk_back
dirname_nested = refl

basename_nested : my_basename false (some nested) ≡ text (b'b' ∷ [])
unfolding my_basename same_bytes copy strip scan_back
basename_nested = refl

-- The byte before the buffer is read.
empty_path_faults : my_basename false (some []) ≡ fault
unfolding my_basename same_bytes copy
empty_path_faults = refl

-- The directory of "/" depends on what the unset `len` holds.
dirname_root_unset :
    (my_dirname false false (some (slash ∷ [])) ≡ text (slash ∷ []))
    × (my_dirname true false (some (slash ∷ [])) ≡ text (b'.' ∷ []))
unfolding my_dirname same_bytes
dirname_root_unset = (refl, refl)

nested-IsPlain : IsPlain nested
nested-IsPlain = record {
  given = λ e. cc;
  fits = omega arith;
  not_root = λ e. cc;
  not_parent = λ e. cc;
  not_here = λ e. cc;
}

split_path_example : Splits true nested
split_path_example = split_path true nested nested-IsPlain

abbrev dir_call : ℕ → Call
dir_call t = record {
  key = dir_key;
  thread = t;
  path = some nested;
  stale = false;
  fd_zero = false;
  allocates = true;
}

abbrev base_call : Call
base_call = record (dir_call 0) { key = base_key }

abbrev store_of : Option Store → Store
store_of none = no_store
store_of (some s) = s

abbrev returned_of : Option Returned → Returned
returned_of none = record { pointer = none; store = no_store }
returned_of (some r) = r

abbrev first_result : Returned
first_result = returned_of (call (dir_call 0) no_store)

abbrev later_calls : List Call
later_calls = base_call ∷ dir_call 1 ∷ []

later_store : Store
later_store = store_of (calls later_calls first_result.store)

calls-Holds_example : Holds (dir_call 0) (slash ∷ b'a' ∷ []) first_result later_store
unfolding later_store no_store calls call own_buffer result_of left_behind answer same_key
    my_dirname my_basename same_bytes copy strip walk_back scan_back Away
calls-Holds_example =
    calls-Holds [] (dir_call 0) later_calls no_store later_store first_result (slash ∷ b'a' ∷ [])
      refl refl refl (refl, (refl, tt)) refl

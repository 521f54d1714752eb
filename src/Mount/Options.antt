-- ===== src/Mount/Options.antt =====
-- What becomes of the options of t_mount.c.
use code_strudy.Prelude.{
  ℕ, ◌≡◌, refl, sym, subst, ◌≢◌, ◌⊎◌, inl, inr, Bool, true, false, ◌||◌, Option, none, some, List,
  [], ◌∷◌, ◌++◌, append-nil, append_assoc, arith, ◌==◌, if◌then◌else◌, Bool-cases, Option-cases,
  length, All,
}
use code_strudy.CString.{Bytes}
use code_strudy.Mount.Defs.{
  Ended, usage, mounted, not_mounted, flag_of, t_mount, raise_flags, Flag, Choice, Settings, fault,
  take_choice, mount_two, take_choices,
}

-- The options of "o:t:f", as getopt gives them: -o and -t with an argument, -f with none.
unfoldable pub AsDeclared : Choice → Type 0
AsDeclared c =
    ((c.letter ≡ b'o') × ((text : Bytes) × (c.optarg ≡ some text)))
    ⊎ ((c.letter ≡ b't') × ((text : Bytes) × (c.optarg ≡ some text)))
    ⊎ ((c.letter ≡ b'f') × (c.optarg ≡ none))

pub has_f : List Choice → Bool
has_f [] = false
has_f (c ∷ cs) = (c.letter == b'f') || has_f cs

-- The argument of the last option with a letter, or else `before`.
pub last_of : ℕ → List Choice → Option Bytes → Option Bytes
last_of letter [] before = before
last_of letter (c ∷ cs) before = last_of letter cs (if c.letter == letter then c.optarg else before)

take_choices_faults :
    (succeeds : Bool) (args : List Bytes) (choices : List Choice) (s : Settings)
    → All AsDeclared choices
    → has_f choices ≡ true
    → take_choices succeeds args choices s ≡ fault
unfolding take_choices take_choice has_f AsDeclared
take_choices_faults succeeds args [] s h f = ground arith
take_choices_faults succeeds args (c ∷ cs) s h f = elim h.0 [
  | inl (o, more) ↦ rw o (
      take_choices_faults succeeds args cs (record s { data_text = c.optarg }) h.1
        (ground (arith, o)))
  | inr (inl (t, more)) ↦ rw t (
      take_choices_faults succeeds args cs (record s { fstype = c.optarg }) h.1 (ground (arith, t)))
  | inr (inr (f', null)) ↦ rw (f', null) refl
]

take_choices_mounts :
    (succeeds : Bool) (args : List Bytes) (choices : List Choice) (s : Settings)
    → All AsDeclared choices
    → has_f choices ≡ false
    → take_choices succeeds args choices s
      ≡ mount_two succeeds args (record s {
        data_text = last_of b'o' choices s.data_text;
        fstype = last_of b't' choices s.fstype;
      })
unfolding take_choices take_choice has_f AsDeclared last_of
take_choices_mounts succeeds args [] s h f = refl
take_choices_mounts succeeds args (c ∷ cs) s h f = elim h.0 [
  | inl (o, more) ↦ rw o (
      take_choices_mounts succeeds args cs (record s { data_text = c.optarg }) h.1
        (ground (arith, f)))
  | inr (inl (t, more)) ↦ rw t (
      take_choices_mounts succeeds args cs (record s { fstype = c.optarg }) h.1 (ground (arith, f)))
  | inr (inr (f', null)) ↦ absurd (ground (arith, f'))
]

-- The letters of the mount flags, if all are known.
pub flags_of : Bytes → Option (List Flag)
flags_of [] = some []
flags_of (c ∷ s) = elim (flag_of c) [
  | none ↦ none
  | some f ↦ elim (flags_of s) [ none ↦ none | some fs ↦ some (f ∷ fs) ]
]

-- A text behind -f would raise the flags of its letters, in their order, if all are known.
pub raise_flags-flags_of :
    (s : Bytes) (before : List Flag)
    → raise_flags s before ≡ (elim (flags_of s) [ none ↦ none | some fs ↦ some (before ++ fs) ])
unfolding raise_flags flags_of
raise_flags-flags_of [] before = ground (arith, append-nil before)
raise_flags-flags_of (c ∷ s) before = elim (Option-cases (flag_of c)) [
  | inl unknown ↦ rw (raise_flags, flags_of, unknown) refl
  | inr (f, known) ↦
      let rest = raise_flags-flags_of s (before ++ f ∷ []) in
      elim (Option-cases (flags_of s)) [
        | inl unknown ↦ ground (arith, known, rest, unknown)
        | inr (fs, all_known) ↦
            ground (arith, known, rest, all_known, append_assoc before (f ∷ []) fs)
      ]
]

-- How main ends without an -f, by the arguments behind the options: `kind` and `text` are those of
-- the last -t and the last -o.
pub EndsBy : Bool → List Bytes → Option Bytes → Option Bytes → Ended → Type 0
EndsBy succeeds args kind text e =
    ((length args ≢ 2) × (e ≡ usage))
    ⊎ ((source : Bytes) × (target : Bytes) × (args ≡ source ∷ target ∷ [])
        × (((succeeds ≡ false) × (e ≡ not_mounted))
            ⊎ ((succeeds ≡ true)
                × (e
                    ≡ mounted source target
                        (record { data_text = text; fstype = kind; flags = [] })))))

mount_two-EndsBy :
    (succeeds : Bool) (args : List Bytes) (kind text : Option Bytes)
    → EndsBy succeeds args kind text
        (mount_two succeeds args (record { data_text = text; fstype = kind; flags = [] }))
unfolding mount_two EndsBy
mount_two-EndsBy succeeds [] kind text = inl ((λ e. omega (arith, e)), refl)
mount_two-EndsBy succeeds (a ∷ []) kind text = inl ((λ e. omega (arith, e)), refl)
mount_two-EndsBy true (a ∷ b ∷ []) kind text = inr (a, b, refl, inr (refl, refl))
mount_two-EndsBy false (a ∷ b ∷ []) kind text = inr (a, b, refl, inl (refl, refl))
mount_two-EndsBy succeeds (a ∷ b ∷ c ∷ more) kind text = inl ((λ e. omega (arith, e)), refl)

-- For options as getopt gives them for "o:t:f": with an -f among them the program follows the NULL
-- behind it; without one it shows its usage where there are not two arguments behind the options,
-- else it calls mount with the first as source, the second as target, no flags, the argument of
-- the last -t as type and of the last -o as data, and ends by whether mount succeeds.
pub t_mount-AsDeclared :
    (succeeds : Bool) (args : List Bytes) (choices : List Choice)
    → All AsDeclared choices
    → ((has_f choices ≡ true) × (t_mount succeeds args choices ≡ fault))
      ⊎ ((has_f choices ≡ false)
          × EndsBy succeeds args
              (last_of b't' choices none)
              (last_of b'o' choices none)
              (t_mount succeeds args choices))
unfolding t_mount
t_mount-AsDeclared succeeds args choices h =
    let start : Settings = record { data_text = none; fstype = none; flags = [] } in
    elim (Bool-cases (has_f choices)) [
      | inl asks ↦ inl (asks, take_choices_faults succeeds args choices start h asks)
      | inr plain ↦
          let kind = last_of b't' choices none in
          let text = last_of b'o' choices none in
          inr (
            plain,
            subst (EndsBy succeeds args kind text)
                (sym (take_choices_mounts succeeds args choices start h plain))
                (mount_two-EndsBy succeeds args kind text),
          )
    ]

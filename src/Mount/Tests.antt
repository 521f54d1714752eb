-- ===== src/Mount/Tests.antt =====
-- Command lines of t_mount.c, and the theorem at one.
use code_strudy.Prelude.{◌≡◌, refl, ◌⊎◌, inl, inr, true, false, none, some, List, [], ◌∷◌, ◌++◌}
use code_strudy.CString.{Bytes}
use code_strudy.Mount.Defs.{
  Choice, fault, flag_of, raise_flags, ms_rdonly, ms_noexec, take_choice, take_choices, t_mount,
}
use code_strudy.Mount.Options.{EndsBy, AsDeclared, has_f, last_of, t_mount-AsDeclared}

abbrev source : Bytes
source = b'/' ∷ b's' ∷ []

abbrev target : Bytes
target = b'/' ∷ b't' ∷ []

abbrev two_types : List Choice
two_types =
    record { letter = b't'; optarg = some (b'x' ∷ []) }
    ∷ record { letter = b't'; optarg = some (b'y' ∷ []) }
    ∷ []

abbrev with_f : List Choice
with_f = two_types ++ record { letter = b'f'; optarg = none } ∷ []

-- -f r, which getopt takes for an option and an argument of the program.
flags_fault : t_mount true ((b'r' ∷ []) ∷ source ∷ target ∷ []) with_f ≡ fault
unfolding t_mount take_choices take_choice
flags_fault = refl

-- What "f:" would give.
two_flags : raise_flags (b'r' ∷ b'E' ∷ []) [] ≡ some (ms_rdonly ∷ ms_noexec ∷ [])
unfolding raise_flags flag_of
two_flags = refl

t_mount-AsDeclared_example :
    ((has_f two_types ≡ true) × (t_mount true (source ∷ target ∷ []) two_types ≡ fault))
    ⊎ ((has_f two_types ≡ false)
        × EndsBy true
            (source ∷ target ∷ [])
            (last_of b't' two_types none)
            (last_of b'o' two_types none)
            (t_mount true (source ∷ target ∷ []) two_types))
unfolding AsDeclared
t_mount-AsDeclared_example =
    t_mount-AsDeclared true (source ∷ target ∷ []) two_types
      (inr (inl (refl, (b'x' ∷ [], refl))), (inr (inl (refl, (b'y' ∷ [], refl))), tt))

-- ===== src/Env/Kept.antt =====
-- Which entries myunsetenv keeps.
use code_strudy.Prelude.{
  ◌≡◌, refl, sym, subst, ◌≢◌, ◌↔◌, ◌⊎◌, inl, inr, Bool, true, false, some, [], ◌∷◌, ◌++◌, arith,
  ◌==◌, Bool-cases, length,
}
use code_strudy.CString.{Bytes}
use code_strudy.Env.Defs.{
  Environ, ok, has_equals, same_start, byte_set, removes, unset_loop, my_unsetenv,
}

-- An entry that begins with a string.
abbrev pub HasPrefix : Bytes → Bytes → Type 0
HasPrefix name entry = (rest : Bytes) × (entry ≡ name ++ rest)

-- An entry that myunsetenv leaves.
abbrev pub Stays : Bytes → Bytes → Type 0
Stays name entry = (entry ≡ []) ⊎ HasPrefix name entry

abbrev pub Mem : Bytes → Environ → Type 0
Mem entry [] = ⊥
Mem entry (e ∷ es) = (entry ≡ e) ⊎ Mem entry es

same_start-HasPrefix :
    (name entry : Bytes) → (same_start (length name) entry name ≡ true) ↔ HasPrefix name entry
unfolding same_start
same_start-HasPrefix [] entry = (λ e. (entry, refl), λ h. refl)
same_start-HasPrefix (c ∷ name) [] = (λ e. cc, λ h. let (r, e) = h in cc)
same_start-HasPrefix (c ∷ name) (d ∷ entry) =
    let ih = same_start-HasPrefix name entry in
    (
      λ e. elim (Bool-cases (d == c)) [
        | inl same ↦
            let (r, split) = ih.0 (ground (arith, same)) in (r, ground (arith, same, split))
        | inr other ↦ ground (arith, other)
      ],
      λ h. let (r, split) = h in ground (arith, ih.1 (r, ground arith)),
    )

-- Any entry but the empty one.
not_nil : Bytes → Bool
not_nil [] = false
not_nil (c ∷ s) = true

removes_other :
    (name entry : Bytes)
    → length name ≢ 61
    → same_start (length name) entry name ≡ false
    → removes name entry ≡ some (not_nil entry)
unfolding removes byte_set not_nil
removes_other name [] short other = ground arith
removes_other name (c ∷ entry) short other = ground arith

not_nil-Stays :
    (name entry : Bytes) → ¬ HasPrefix name entry → (not_nil entry ≡ false) ↔ Stays name entry
unfolding not_nil
not_nil-Stays name [] h = (λ e. inl refl, λ g. refl)
not_nil-Stays name (c ∷ entry) h = (λ e. cc, λ g. elim g [ inl e ↦ cc | inr p ↦ absurd (h p) ])

removes-Stays :
    (name entry : Bytes)
    → length name ≢ 61
    → (gone : Bool) × (removes name entry ≡ some gone) × ((gone ≡ false) ↔ Stays name entry)
unfolding removes byte_set
removes-Stays name entry short = elim (Bool-cases (same_start (length name) entry name)) [
  | inl starts ↦
      let stays : Stays name entry = inr ((same_start-HasPrefix name entry).0 starts) in
      (false, rw starts, ((λ e. stays), λ h. refl))
  | inr other ↦
      let not_prefix : ¬ HasPrefix name entry =
        λ h. let starts = (same_start-HasPrefix name entry).1 h in ground (arith, other) in
      (not_nil entry, removes_other name entry short other, not_nil-Stays name entry not_prefix)
]

-- What myunsetenv keeps of an environment.
pub record IsKept (name : Bytes) (environ kept : Environ) : Type 0 where
  pub from_environ : (entry : Bytes) → Mem entry kept → Mem entry environ × Stays name entry
  pub into_kept : (entry : Bytes) → Mem entry environ → Stays name entry → Mem entry kept

keep-IsKept :
    (name e : Bytes) (es more : Environ)
    → Stays name e
    → IsKept name es more
    → IsKept name (e ∷ es) (e ∷ more)
keep-IsKept name e es more stays k = record {
  from_environ = λ entry m. elim m [
    | inl same ↦ (inl same, subst (Stays name) (sym same) stays)
    | inr later ↦ let (a, b) = k.from_environ entry later in (inr a, b)
  ];
  into_kept =
      λ entry m h. elim m [ inl same ↦ inl same | inr later ↦ inr (k.into_kept entry later h) ];
}

drop-IsKept :
    (name e : Bytes) (es more : Environ)
    → ¬ Stays name e
    → IsKept name es more
    → IsKept name (e ∷ es) more
drop-IsKept name e es more goes k = record {
  from_environ = λ entry m. let (a, b) = k.from_environ entry m in (inr a, b);
  into_kept = λ entry m h. elim m [
    | inl same ↦ absurd (goes (subst (Stays name) same h))
    | inr later ↦ k.into_kept entry later h
  ];
}

unset_loop-IsKept :
    (name : Bytes) (environ : Environ)
    → length name ≢ 61
    → (kept : Environ) × (unset_loop name environ ≡ some kept) × IsKept name environ kept
unfolding unset_loop
unset_loop-IsKept name [] short =
    ([], refl, record { from_environ = λ e m. absurd m; into_kept = λ e m h. m })
unset_loop-IsKept name (e ∷ es) short =
    let (gone, tested, iff) = removes-Stays name e short in
    let (more, looped, k) = unset_loop-IsKept name es short in
    elim (Bool-cases gone) [
      | inl goes ↦ (
        more,
        ground (arith, tested, looped, goes),
        drop-IsKept name e es more (λ h. let stays = iff.1 h in ground (arith, goes)) k,
      )
      | inr stays ↦ (
        e ∷ more,
        ground (arith, tested, looped, stays),
        keep-IsKept name e es more (iff.0 stays) k,
      )
    ]

-- For a name without '=' whose length is not 61, myunsetenv returns 0, and what it keeps of the
-- environment are the entries that are empty or begin with the name.
pub my_unsetenv-IsKept :
    (name : Bytes) (environ : Environ)
    → has_equals name ≡ false
    → length name ≢ 61
    → (kept : Environ) × (my_unsetenv (some name) environ ≡ ok kept) × IsKept name environ kept
unfolding my_unsetenv
my_unsetenv-IsKept name environ plain short =
    let (kept, looped, k) = unset_loop-IsKept name environ short in (kept, rw (plain, looped), k)

-- ===== src/Paths/Buffers.antt =====
-- Which calls share a buffer.
use code_strudy.Prelude.{
  ℕ, suc, ◌<◌, ◌≡◌, refl, sym, ap, subst, ◌∙◌, ◌⊎◌, inl, inr, true, ◌&&◌, ◌||◌, Option, none, some,
  arith, ◌==◌, if◌then◌else◌, ==_iff, Bool-cases,
}
use code_strudy.Paths.Keys.{dir_key, base_key, dir_key, same_key, Key, Call, own_buffer, Store}

-- No two keys or threads have the same buffer, and each was allocated.
pub record IsSeparate (s : Store) : Type 0 where
  pub allocated : (k : Key) (t p : ℕ) → s.specific k t ≡ some p → p < s.next
  pub separate :
      (k l : Key) (t u p : ℕ)
      → s.specific k t ≡ some p
      → s.specific l u ≡ some p
      → (same_key k l && t == u) ≡ true

same_key_self : (k : Key) → same_key k k ≡ true
unfolding same_key
same_key_self dir_key = refl
same_key_self base_key = refl

same_owner :
    (k l m : Key) (t u w : ℕ)
    → (same_key k m && t == w) ≡ true
    → (same_key l m && u == w) ≡ true
    → (same_key k l && t == u) ≡ true
unfolding same_key
same_owner dir_key dir_key m t u w here there = ground arith
same_owner base_key base_key m t u w here there = ground arith
same_owner dir_key base_key dir_key t u w here there = absurd (ground arith)
same_owner dir_key base_key base_key t u w here there = absurd (ground arith)
same_owner base_key dir_key dir_key t u w here there = absurd (ground arith)
same_owner base_key dir_key base_key t u w here there = absurd (ground arith)

-- The store behind an allocation.
with_buffer : Call → Store → Store
unfolding same_key
with_buffer c s = record {
  created = λ k. same_key k c.key || s.created k;
  specific = λ k t. if same_key k c.key && t == c.thread then some s.next else s.specific k t;
  next = suc s.next;
  memory = s.memory;
}

with_buffer-IsSeparate : (c : Call) (s : Store) → IsSeparate s → IsSeparate (with_buffer c s)
unfolding with_buffer
with_buffer-IsSeparate c s v = record {
  allocated = λ k t p e. ground (arith, v.allocated k t p);
  separate = λ k l t u p e f. elim (Bool-cases (same_key k c.key && t == c.thread)) [
    | inl here ↦ elim (Bool-cases (same_key l c.key && u == c.thread)) [
      | inl there ↦ same_owner k l c.key t u c.thread here there
      | inr apart ↦ absurd (ground (arith, here, apart, v.allocated l u p))
    ]
    | inr away ↦ elim (Bool-cases (same_key l c.key && u == c.thread)) [
      | inl there ↦ absurd (ground (arith, there, away, v.allocated k t p))
      | inr apart ↦ v.separate k l t u p (ground (arith, away, e)) (ground (arith, apart, f))
    ]
  ];
}

own_buffer-cases :
    (c : Call) (s u : Store) (p : ℕ)
    → own_buffer c s ≡ some (p, u)
    → ((u ≡ s) × (s.specific c.key c.thread ≡ some p))
      ⊎ ((u ≡ with_buffer c s) × (p ≡ s.next) × (s.specific c.key c.thread ≡ none))
unfolding own_buffer with_buffer
own_buffer-cases c s u p e = ground arith

owner-specific :
    (k m : Key) (t w : ℕ) (f : Key → ℕ → Option ℕ) → (same_key k m && t == w) ≡ true → f k t ≡ f m w
unfolding same_key
owner-specific dir_key dir_key t w f e = ap (f dir_key) ((==_iff t w).0 (ground arith))
owner-specific base_key base_key t w f e = ap (f base_key) ((==_iff t w).0 (ground arith))
owner-specific dir_key base_key t w f e = absurd (ground arith)
owner-specific base_key dir_key t w f e = absurd (ground arith)

-- What a call keeps of the buffers: the owners that they had.
pub record IsGrown (s u : Store) : Type 0 where
  pub valid : IsSeparate u
  pub owned : (k : Key) (t p : ℕ) → s.specific k t ≡ some p → u.specific k t ≡ some p
  pub same : (p : ℕ) → u.memory p ≡ s.memory p

with_buffer-IsGrown :
    (c : Call) (s : Store)
    → IsSeparate s
    → s.specific c.key c.thread ≡ none
    → IsGrown s (with_buffer c s)
with_buffer-IsGrown c s v missing = record {
  valid = with_buffer-IsSeparate c s v;
  owned = λ k t p has. elim (Bool-cases (same_key k c.key && t == c.thread)) [
    | inl own ↦
        let same_place = owner-specific k c.key t c.thread s.specific own in
        absurd (ground (arith, same_place, has, missing))
    | inr other ↦ unfold with_buffer in ground (arith, other, has)
  ];
  same = λ p. unfold with_buffer in refl;
}

pub own_buffer-IsGrown :
    (c : Call) (s u : Store) (q : ℕ)
    → IsSeparate s
    → own_buffer c s ≡ some (q, u)
    → IsGrown s u × (u.specific c.key c.thread ≡ some q)
own_buffer-IsGrown c s u q v e = elim (own_buffer-cases c s u q e) [
  | inl (same, has) ↦ (
    subst (IsGrown s) (sym same) (record { valid = v; owned = λ k t p h. h; same = λ p. refl }),
    ap (λ (w : Store). w.specific c.key c.thread) same ∙ has,
  )
  | inr (new, at_next, missing) ↦ (
    subst (IsGrown s) (sym new) (with_buffer-IsGrown c s v missing),
    ap (λ (w : Store). w.specific c.key c.thread) new
        ∙ unfold with_buffer in ground (arith, same_key_self c.key, at_next),
  )
]

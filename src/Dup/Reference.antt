-- ===== src/Dup/Reference.antt =====
-- mydup and mydup2 against what POSIX says of dup and dup2.
use code_strudy.Prelude.{
  ℕ, ◌≤◌, ◌<◌, ◌≡◌, refl, sym, ap, ◌∙◌, ◌≢◌, inl, inr, false, Option, none, some, arith, ◌==◌,
  ==_iff, Bool-cases, Option-cases,
}
use code_strudy.Dup.Defs.{Descriptors, update, Answer, f_dupfd, flags_set, mydup2}

-- dup2 with a descriptor below the limit.
pub dup2 {ℓ} : {F : Type ℓ} → Descriptors F → ℕ → ℕ → Answer F
unfolding update
dup2 t oldfd newfd = elim (t oldfd) [
  | none ↦ record { fd = none; table = t }
  | some f ↦ record { fd = some newfd; table = update t newfd (some f) }
]

-- The same descriptor, and the same file at each.
pub record SameAnswer {ℓ} {F : Type ℓ} (a b : Answer F) : Type ℓ where
  pub same_fd : a.fd ≡ b.fd
  pub same_table : (j : ℕ) → a.table j ≡ b.table j

-- fcntl takes the lowest descriptor that is free from `least` on, and fails only without one below
-- the limit.
pub record IsLowest {ℓ} {F : Type ℓ} (limit : ℕ) (free_from : Descriptors F → ℕ → Option ℕ)
    : Type ℓ where
  pub is_free : (t : Descriptors F) (least k : ℕ) → free_from t least ≡ some k → t k ≡ none
  pub from_least : (t : Descriptors F) (least k : ℕ) → free_from t least ≡ some k → least ≤ k
  pub is_lowest :
      (t : Descriptors F) (least k j : ℕ)
      → free_from t least ≡ some k
      → least ≤ j
      → j < k
      → t j ≢ none
  pub finds :
      (t : Descriptors F) (least j : ℕ)
      → free_from t least ≡ none
      → least ≤ j
      → j < limit
      → t j ≢ none

-- What becomes of a descriptor that is not open, by mydup2 and by dup2.
pub record ClosesFirst {ℓ} {F : Type ℓ} (t : Descriptors F) (newfd : ℕ) (a b : Answer F)
    : Type ℓ where
  pub both_fail : (a.fd ≡ none) × (b.fd ≡ none)
  pub closed : a.table newfd ≡ none
  pub kept : b.table newfd ≡ t newfd

module _ {ℓ} {F : Type ℓ} (limit : ℕ) (free_from : Descriptors F → ℕ → Option ℕ)
    (status_flags : F → ℕ) (lowest : IsLowest limit free_from) where
  free_from-closed :
      (t : Descriptors F) (newfd : ℕ)
      → newfd < limit
      → free_from (update t newfd none) newfd ≡ some newfd
  unfolding update
  free_from-closed t newfd lt = elim (Option-cases (free_from (update t newfd none) newfd)) [
    | inl nothing ↦ absurd (
        lowest.finds (update t newfd none) newfd newfd nothing (omega arith) lt
          (unfold update in ground arith))
    | inr (k, found) ↦ elim (Bool-cases (k == newfd)) [
      | inl same ↦ found ∙ ap some ((==_iff k newfd).0 same)
      | inr other ↦
          let le = lowest.from_least (update t newfd none) newfd k found in
          absurd (
            lowest.is_lowest (update t newfd none) newfd k newfd found (omega arith)
              (ground (arith, other, le)) (unfold update in ground arith))
    ]
  ]

  update-twice :
      (t : Descriptors F) (k j : ℕ) (f : F)
      → update (update t k none) k (some f) j ≡ update t k (some f) j
  unfolding update
  update-twice t k j f = ground arith

  update-same : (t : Descriptors F) (k j : ℕ) (f : F) → t k ≡ some f → t j ≡ update t k (some f) j
  unfolding update
  update-same t k j f e = elim (Bool-cases (j == k)) [
    | inl same ↦ ap t ((==_iff j k).0 same) ∙ e ∙ ground (arith, same)
    | inr other ↦ ground (arith, other)
  ]

  closed-answer :
      (t : Descriptors F) (oldfd newfd : ℕ) (f : F)
      → (oldfd == newfd) ≡ false
      → newfd < limit
      → t oldfd ≡ some f
      → mydup2 free_from status_flags t oldfd newfd
        ≡ record { fd = some newfd; table = update (update t newfd none) newfd (some f) }
  unfolding mydup2 f_dupfd
  closed-answer t oldfd newfd f ne lt e =
      let still : update t newfd none oldfd ≡ some f = unfold update in ground (arith, ne, e) in
      ground (arith, ne, still, free_from-closed t newfd lt)

  -- Given that F_DUPFD takes the lowest free descriptor from a bound on: for an open descriptor,
  -- to a new one below the limit, and when the file's status flags are not 0, mydup2 returns what
  -- dup2 returns, and leaves the same file at each descriptor.
  pub mydup2-dup2 :
      (t : Descriptors F) (oldfd newfd : ℕ) (f : F)
      → newfd < limit
      → t oldfd ≡ some f
      → status_flags f ≢ 0
      → SameAnswer (mydup2 free_from status_flags t oldfd newfd) (dup2 t oldfd newfd)
  unfolding dup2
  mydup2-dup2 t oldfd newfd f lt e nonzero = elim (Bool-cases (oldfd == newfd)) [
    | inl same ↦
        let to_new : t newfd ≡ some f = ap t (sym ((==_iff oldfd newfd).0 same)) ∙ e in
        let answers : mydup2 free_from status_flags t oldfd newfd
            ≡ record { fd = some newfd; table = t } =
          unfold mydup2 flags_set in ground (arith, same, e, nonzero) in
        rw (answers, e, dup2)
          record { same_fd = refl; same_table = λ j. update-same t newfd j f to_new }
    | inr other ↦
        rw (closed-answer t oldfd newfd f other lt e, e, dup2)
          record { same_fd = refl; same_table = λ j. update-twice t newfd j f }
  ]

  -- Without an open `oldfd`, both fail, but mydup2 has closed `newfd` by then.
  pub mydup2-ClosesFirst :
      (t : Descriptors F) (oldfd newfd : ℕ)
      → oldfd ≢ newfd
      → t oldfd ≡ none
      → ClosesFirst t newfd (mydup2 free_from status_flags t oldfd newfd) (dup2 t oldfd newfd)
  unfolding mydup2 f_dupfd dup2 update
  mydup2-ClosesFirst t oldfd newfd ne e = record {
    both_fail = (ground (arith, ne, e), ground (arith, e));
    closed = ground (arith, ne, e);
    kept = ground (arith, e);
  }

-- ===== src/Dup/Defs.antt =====
-- mydup and mydup2 of practice/5.4/mydup.c over the table of the open descriptors. `free_from` is
-- the kernel's choice of a descriptor for F_DUPFD, and `status_flags` what F_GETFL gives for a file.
use code_strudy.Prelude.{ℕ, Bool, true, not, Option, none, some, ◌==◌, if◌then◌else◌}

abbrev pub Descriptors {ℓ} : Type ℓ → Type ℓ
Descriptors F = ℕ → Option F

unfoldable pub update {ℓ} : {F : Type ℓ} → Descriptors F → ℕ → Option F → Descriptors F
update t k f = λ j. if j == k then f else t j

-- What a call returns, `none` for -1, and the table behind it.
pub record Answer {ℓ} (F : Type ℓ) : Type ℓ where
  pub fd : Option ℕ
  pub table : Descriptors F

module _ {ℓ} {F : Type ℓ} (free_from : Descriptors F → ℕ → Option ℕ) (status_flags : F → ℕ) where
  -- fcntl(oldfd, F_DUPFD, least)
  unfoldable pub f_dupfd : Descriptors F → ℕ → ℕ → Answer F
  unfolding update
  f_dupfd t oldfd least = elim (t oldfd) [
    | none ↦ record { fd = none; table = t }
    | some f ↦ elim (free_from t least) [
      | none ↦ record { fd = none; table = t }
      | some k ↦ record { fd = some k; table = update t k (some f) }
    ]
  ]

  unfoldable pub mydup : Descriptors F → ℕ → Answer F
  unfolding f_dupfd
  mydup t oldfd = f_dupfd t oldfd 0

  -- fcntl(oldfd, F_GETFL) != 0: for a descriptor that is not open it is -1.
  unfoldable pub flags_set : Option F → Bool
  flags_set none = true
  flags_set (some f) = not (status_flags f == 0)

  unfoldable pub mydup2 : Descriptors F → ℕ → ℕ → Answer F
  unfolding f_dupfd update flags_set
  mydup2 t oldfd newfd =
      if oldfd == newfd
      then if flags_set (t oldfd)
        then record { fd = some newfd; table = t }
        else record { fd = none; table = t }
      else f_dupfd (update t newfd none) oldfd newfd

-- ===== src/Dup/Tests.antt =====
-- A table of two descriptors, with a kernel that looks at three.
use code_strudy.Dup.Reference.{mydup2-dup2, dup2, SameAnswer, IsLowest}
use code_strudy.Prelude.{ℕ, zero, suc, ◌≤◌, ◌<◌, ◌≡◌, refl, subst, ◌≢◌, Option, none, some, arith}
use code_strudy.Dup.Defs.{flags_set, mydup2, Descriptors}

-- The lowest free descriptor of 0 and 1 from `least` on.
abbrev pick : Option ℕ → Option ℕ → ℕ → Option ℕ
pick none b zero = some 0
pick (some f) none zero = some 1
pick (some f) (some g) zero = none
pick a none (suc zero) = some 1
pick a (some g) (suc zero) = none
pick a b (suc (suc n)) = none

abbrev free_from : Descriptors ℕ → ℕ → Option ℕ
free_from t least = pick (t 0) (t 1) least

free_from-is_free :
    (t : Descriptors ℕ) (a b : Option ℕ) (least k : ℕ)
    → t 0 ≡ a
    → t 1 ≡ b
    → pick a b least ≡ some k
    → (t k ≡ none) × (least ≤ k) × (k ≤ 1) × (k ≢ least → t least ≢ none)
free_from-is_free t none b zero k ea eb e = ground arith
free_from-is_free t (some f) none zero k ea eb e = ground arith
free_from-is_free t (some f) (some g) zero k ea eb e = ground arith
free_from-is_free t a none (suc zero) k ea eb e = ground arith
free_from-is_free t a (some g) (suc zero) k ea eb e = ground arith
free_from-is_free t a b (suc (suc n)) k ea eb e = ground arith

free_from-full :
    (t : Descriptors ℕ) (a b : Option ℕ) (least j : ℕ)
    → t 0 ≡ a
    → t 1 ≡ b
    → pick a b least ≡ none
    → least ≤ j
    → j < 2
    → t j ≢ none
free_from-full t none b zero j ea eb e le lt = ground arith
free_from-full t (some f) none zero j ea eb e le lt = ground arith
free_from-full t (some f) (some g) zero zero ea eb e le lt = λ z. cc
free_from-full t (some f) (some g) zero (suc zero) ea eb e le lt = λ z. cc
free_from-full t (some f) (some g) zero (suc (suc j)) ea eb e le lt = absurd (omega arith)
free_from-full t a none (suc zero) j ea eb e le lt = ground arith
free_from-full t a (some g) (suc zero) zero ea eb e le lt = absurd (omega arith)
free_from-full t a (some g) (suc zero) (suc zero) ea eb e le lt = λ z. cc
free_from-full t a (some g) (suc zero) (suc (suc j)) ea eb e le lt = absurd (omega arith)
free_from-full t a b (suc (suc n)) j ea eb e le lt = absurd (omega arith)

free_from-IsLowest : IsLowest 2 free_from
free_from-IsLowest = record {
  is_free = λ t least k e. (free_from-is_free t (t 0) (t 1) least k refl refl e).0;
  from_least = λ t least k e. (free_from-is_free t (t 0) (t 1) least k refl refl e).1;
  is_lowest = λ t least k j e le lt.
      let (free, more, top, taken) = free_from-is_free t (t 0) (t 1) least k refl refl e in
      let same : least ≡ j = omega arith in subst (λ i. t i ≢ none) same (taken (λ z. omega arith));
  finds = λ t least j e le lt. free_from-full t (t 0) (t 1) least j refl refl e le lt;
}

-- Descriptor 0 is a file whose flags are 2.
abbrev one_open : Descriptors ℕ
one_open zero = some 2
one_open (suc n) = none

mydup2-dup2_example : SameAnswer (mydup2 free_from (λ f. f) one_open 0 1) (dup2 one_open 0 1)
mydup2-dup2_example =
    mydup2-dup2 2 free_from (λ f. f) free_from-IsLowest one_open 0 1 2 (omega arith) refl
      (λ e. omega arith)

-- dup2 of a descriptor that is not open fails; F_GETFL gives -1 for it, which is not 0.
not_open : (mydup2 free_from (λ f. f) one_open 1 1).fd ≡ some 1
unfolding mydup2 flags_set
not_open = refl

-- The flags of a file that is open for reading only are 0.
read_only : (mydup2 free_from (λ f. 0) one_open 0 0).fd ≡ none
unfolding mydup2 flags_set
read_only = refl

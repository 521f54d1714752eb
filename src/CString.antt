-- ===== src/CString.antt =====
-- C strings in fixed arrays of bytes, and the functions of <string.h> that the programs call on
-- them. `none` is a read past the end of an array, which C leaves undefined.
use code_strudy.Prelude.{
  ℕ, zero, suc, ◌+◌, ◌-◌, ◌<◌, ◌≡◌, refl, ap, subst, ◌∙◌, ◌≢◌, ◌↔◌, ◌⊎◌, inl, inr, Bool, true,
  false, ◌&&◌, Option, none, some, List, [], ◌∷◌, ◌++◌, arith, ltb, ◌==◌, if◌then◌else◌, Bool-cases,
  length, replicate, length-append, length-replicate, All,
}

abbrev pub Bytes : Type 0
Bytes = List ℕ

-- There is a NUL inside the array.
unfoldable pub terminated : Bytes → Bool
terminated [] = false
terminated (c ∷ s) = if c == 0 then true else terminated s

-- The bytes before the first NUL.
unfoldable pub text : Bytes → Bytes
text [] = []
text (c ∷ s) = if c == 0 then [] else c ∷ text s

unfoldable pub strlen : Bytes → Option ℕ
strlen [] = none
strlen (c ∷ s) = if c == 0 then some 0 else elim (strlen s) [ none ↦ none | some n ↦ some (n + 1) ]

-- `strcmp(a, b) == 0`
unfoldable pub same_string : Bytes → Bytes → Option Bool
same_string [] b = none
same_string (x ∷ a) [] = none
same_string (x ∷ a) (y ∷ b) =
    if x == y then (if x == 0 then some true else same_string a b) else some false

-- What `strncpy(dst, src, n)` leaves in the `n` bytes at `dst`.
unfoldable pub strncpy : ℕ → Bytes → Option Bytes
strncpy zero src = some []
strncpy (suc n) [] = none
strncpy (suc n) (c ∷ src) =
    if c == 0
    then some (replicate (suc n) 0)
    else elim (strncpy n src) [ none ↦ none | some out ↦ some (c ∷ out) ]

pub length-strncpy : (n : ℕ) (src out : Bytes) → strncpy n src ≡ some out → length out ≡ n
unfolding strncpy
length-strncpy zero src out h = ground arith
length-strncpy (suc n) [] out h = ground arith
length-strncpy (suc n) (c ∷ src) [] h = ground (arith, length-replicate {A = ℕ} (suc n) 0)
length-strncpy (suc n) (c ∷ src) (d ∷ out) h =
    ground (arith, length-strncpy n src out, length-replicate {A = ℕ} n 0)

-- A copy of a terminated string that fits holds the same text.
pub text-strncpy :
    (n : ℕ) (src out : Bytes)
    → strncpy n src ≡ some out
    → terminated out ≡ true
    → (text out ≡ text src) × (terminated src ≡ true)
unfolding strncpy text terminated
text-strncpy zero src out h t = ground arith
text-strncpy (suc n) [] out h t = ground arith
text-strncpy (suc n) (c ∷ src) [] h t = ground arith
text-strncpy (suc n) (c ∷ src) (d ∷ out) h t = ground (arith, text-strncpy n src out)

-- On terminated arrays the comparison is defined, and decides equality of the texts.
pub same_string-text :
    (a b : Bytes)
    → terminated a ≡ true
    → terminated b ≡ true
    → ((same_string a b ≡ some true) × (text a ≡ text b))
      ⊎ ((same_string a b ≡ some false) × (text a ≢ text b))
unfolding same_string text terminated
same_string-text [] b ta tb = ground arith
same_string-text (x ∷ a) [] ta tb = ground arith
same_string-text (x ∷ a) (y ∷ b) ta tb = ground (arith, same_string-text a b)

unfoldable pub same_bytes : Bytes → Bytes → Bool
same_bytes [] [] = true
same_bytes [] (y ∷ b) = false
same_bytes (x ∷ a) [] = false
same_bytes (x ∷ a) (y ∷ b) = x == y && same_bytes a b

pub same_bytes_iff : (a b : Bytes) → (same_bytes a b ≡ true) ↔ (a ≡ b)
unfolding same_bytes
same_bytes_iff [] [] = (λ _. refl, λ _. refl)
same_bytes_iff [] (y ∷ b) = ground arith
same_bytes_iff (x ∷ a) [] = ground arith
same_bytes_iff (x ∷ a) (y ∷ b) = ground (arith, same_bytes_iff a b)

-- An array that holds a terminated string is copied whole, and its text is kept.
pub strncpy-terminated :
    (n : ℕ) (src : Bytes)
    → length src ≡ n
    → terminated src ≡ true
    → (out : Bytes) × (strncpy n src ≡ some out) × (terminated out ≡ true) × (text out ≡ text src)
unfolding strncpy terminated text
strncpy-terminated zero [] e t = ground arith
strncpy-terminated zero (c ∷ src) e t = absurd (omega arith)
strncpy-terminated (suc n) [] e t = absurd (omega arith)
strncpy-terminated (suc n) (c ∷ src) e t = elim (Bool-cases (c == 0)) [
  | inl z ↦ (replicate (suc n) 0, rw z, refl, rw z)
  | inr nz ↦
      let (out, ok, ends, same) = strncpy-terminated n src (omega arith) (rw nz at t) in
      (c ∷ out, rw (nz, ok), rw (nz, ends), rw (nz, same))
]

-- What a copy of `name` with its NUL leaves of `n` zero bytes; `none` is a write past them.
unfoldable pub fill_array : ℕ → Bytes → Option Bytes
fill_array n name =
    if ltb (length name) n then some (name ++ replicate (n - length name) 0) else none

pub text-padded :
    (name : Bytes) (n : ℕ)
    → All (λ c. c ≢ 0) name
    → (terminated (name ++ replicate (suc n) 0) ≡ true)
      × (text (name ++ replicate (suc n) 0) ≡ name)
unfolding terminated text
text-padded [] n h = (refl, refl)
text-padded (c ∷ name) n h =
    let (ends, same) = text-padded name n h.1 in
    (ground (arith, h.0, ends), ground (arith, h.0, same))

-- The array of `n` bytes holds the string, with its NUL.
pub record IsFilled (n : ℕ) (name array : Bytes) : Type 0 where
  pub full : length array ≡ n
  pub ends : terminated array ≡ true
  pub named : text array ≡ name

pub fill_array-IsFilled :
    (n : ℕ) (name : Bytes)
    → All (λ c. c ≢ 0) name
    → length name < n
    → (array : Bytes) × (fill_array n name ≡ some array) × IsFilled n name array
unfolding fill_array
fill_array-IsFilled n name h lt =
    let rest = n - length name in
    let (ends, same) = text-padded name (rest - 1) h in
    let more : suc (rest - 1) ≡ rest = omega arith in
    (
      name ++ replicate rest 0,
      ground (arith, lt),
      record {
        full =
            length-append name (replicate rest 0)
            ∙ ap (λ j. length name + j) (length-replicate rest 0)
            ∙ omega arith;
        ends = subst (λ j. terminated (name ++ replicate j 0) ≡ true) more ends;
        named = subst (λ j. text (name ++ replicate j 0) ≡ name) more same;
      },
    )

-- ===== src/Remote/Command.antt =====
-- The command that a client sends, at the server.
use code_strudy.Prelude.{
  ℕ, zero, suc, ◌-◌, ◌≤◌, ◌<◌, min, ◌≡◌, refl, sym, ap, subst, ◌∙◌, ◌≢◌, inl, inr, true, List, [],
  ◌∷◌, ◌++◌, append-nil, append_assoc, arith, ◌==◌, if◌then◌else◌, ==_iff, Bool-cases, length, take,
  replicate, length-take, All, All-append,
}
use native.Mathlib.Numerals.{unary_clauses}
use code_strudy.CString.{Bytes, terminated, text, text-padded}
use code_strudy.Remote.Defs.{buf_size, add_word, command, nothing, runs, request}

-- The words, each behind a blank.
pub spelled : List Bytes → Bytes
spelled [] = []
spelled (word ∷ words) = b' ' ∷ word ++ spelled words

take-full : (n : ℕ) (s : Bytes) → length s ≤ n → take n s ≡ s
take-full zero [] le = refl
take-full zero (c ∷ s) le = absurd (omega arith)
take-full (suc n) [] le = refl
take-full (suc n) (c ∷ s) le = ap (λ t. c ∷ t) (take-full n s (omega arith))

take-append : (n : ℕ) (a b : Bytes) → take n (a ++ b) ≡ take n a ++ take (n - length a) b
take-append zero [] b = refl
take-append zero (c ∷ a) b = ground arith
take-append (suc n) [] b = let same : suc n ≡ suc n - 0 = omega arith in ap (λ k. take k b) same
take-append (suc n) (c ∷ a) b = simp unary_clauses (ap (λ t. c ∷ t) (take-append n a b))

length-take_le : (n : ℕ) (s : Bytes) → length (take n s) ≤ n
length-take_le n s = omega (arith, length-take n s)

take-All : (n : ℕ) (s : Bytes) → All (λ c. c ≢ 0) s → All (λ c. c ≢ 0) (take n s)
take-All zero s h = tt
take-All (suc n) [] h = tt
take-All (suc n) (c ∷ s) h = (h.0, take-All n s h.1)

take-take : (k n : ℕ) (s : Bytes) → take k (take n s) ≡ take (min k n) s
take-take zero n s = ground arith
take-take (suc k) zero s = ground arith
take-take (suc k) (suc n) [] = simp unary_clauses refl
take-take (suc k) (suc n) (c ∷ s) = ground (arith, take-take k n s)

take-take_append : (n : ℕ) (a b : Bytes) → take n (take n a ++ b) ≡ take n (a ++ b)
take-take_append zero a b = refl
take-take_append (suc n) [] b = refl
take-take_append (suc n) (c ∷ a) b = ap (λ t. c ∷ t) (take-take_append n a b)

add_word_lem :
    (buf word : Bytes)
    → length buf < buf_size
    → add_word buf word ≡ take (buf_size - 1) (buf ++ b' ' ∷ word)
unfolding add_word
add_word_lem buf word lt =
    let room : buf_size - length buf - 1 ≡ buf_size - 1 - length buf = omega arith in
    sym (
      take-append (buf_size - 1) buf (b' ' ∷ word)
      ∙ ap (λ s. s ++ take (buf_size - 1 - length buf) (b' ' ∷ word))
          (take-full (buf_size - 1) buf (omega arith))
      ∙ ap (λ n. buf ++ take n (b' ' ∷ word)) (sym room))

-- What does not fit is left out.
pub command-spelled :
    (buf : Bytes) (words : List Bytes)
    → length buf < buf_size
    → command buf words ≡ take (buf_size - 1) (buf ++ spelled words)
unfolding command spelled
command-spelled buf [] lt =
    sym (ap (take (buf_size - 1)) (append-nil buf) ∙ take-full (buf_size - 1) buf (omega arith))
command-spelled buf (word ∷ words) lt =
    let added = add_word_lem buf word lt in
    let short : length (add_word buf word) < buf_size =
      omega (arith, ap length added, length-take_le (buf_size - 1) (buf ++ b' ' ∷ word)) in
    command-spelled (add_word buf word) words short
    ∙ ap (λ s. take (buf_size - 1) (s ++ spelled words)) added
    ∙ take-take_append (buf_size - 1) (buf ++ b' ' ∷ word) (spelled words)
    ∙ ap (take (buf_size - 1)) (append_assoc buf (b' ' ∷ word) (spelled words))

spelled-All : (words : List Bytes) → All (All (λ c. c ≢ 0)) words → All (λ c. c ≢ 0) (spelled words)
unfolding spelled
spelled-All [] h = tt
spelled-All (word ∷ words) h =
    ((λ e. omega arith), All-append (λ c. c ≢ 0) word (spelled words) h.0 (spelled-All words h.1))

request-runs : (s : Bytes) → s ≢ [] → length s < buf_size → All (λ c. c ≢ 0) s → request s ≡ runs s
unfolding request
request-runs [] ne lt h = absurd (ne refl)
request-runs (c ∷ s) ne lt h =
    let room : suc (buf_size - length (c ∷ s) - 1) ≡ buf_size - length (c ∷ s) = omega arith in
    let padded = text-padded (c ∷ s) (buf_size - length (c ∷ s) - 1) h in
    let (ends, same) =
      subst
        (λ n.
          (terminated (c ∷ s ++ replicate n 0) ≡ true) × (text (c ∷ s ++ replicate n 0) ≡ c ∷ s))
        room padded in
    ground (arith, ends, same)

take-ne-nil : (n : ℕ) (c : ℕ) (s : Bytes) → n ≢ 0 → take n (c ∷ s) ≢ []
take-ne-nil zero c s ne = absurd (ne refl)
take-ne-nil (suc n) c s ne = λ e. cc

-- For words without a NUL: of the command that the client sends, and of whatever front of it one
-- read brings, the server runs that front of the words, each behind a blank, cut after 511 bytes;
-- from a read of no byte it runs nothing.
pub request-command :
    (k : ℕ) (word : Bytes) (words : List Bytes)
    → All (All (λ c. c ≢ 0)) (word ∷ words)
    → request (take k (command [] (word ∷ words)))
      ≡ (if k == 0 then nothing else runs (take (min k (buf_size - 1)) (spelled (word ∷ words))))
request-command k word words h = elim (Bool-cases (k == 0)) [
  | inl none_read ↦ unfold request in ground (arith, (==_iff k 0).0 none_read)
  | inr some_read ↦
      let sent = command-spelled [] (word ∷ words) (omega arith) in
      let s = take (min k (buf_size - 1)) (spelled (word ∷ words)) in
      let got : take k (command [] (word ∷ words)) ≡ s =
        ap (take k) sent ∙ take-take k (buf_size - 1) (spelled (word ∷ words)) in
      let starts : s ≢ [] =
        unfold spelled in
        take-ne-nil (min k (buf_size - 1)) b' ' (word ++ spelled words)
          (ground (arith, some_read)) in
      let short : length s < buf_size =
        omega (arith, length-take_le (min k (buf_size - 1)) (spelled (word ∷ words))) in
      let bytes =
        take-All (min k (buf_size - 1)) (spelled (word ∷ words)) (spelled-All (word ∷ words) h) in
      rw some_read (ap request got ∙ request-runs s starts short bytes)
]

-- ===== src/Transfer/Chunks.antt =====
-- What the successive calls of `read` on a file return before they return 0, each with the result
-- of the send that follows it.
use code_strudy.Prelude.{
  ℕ, zero, suc, ◌-◌, ◌≤◌, ◌<◌, ◌≡◌, refl, ap, Bool, true, List, [], ◌∷◌, ◌++◌, arith, if◌then◌else◌,
  length, take, drop, length-append, All,
}
use code_strudy.CString.{Bytes}

pub record Chunk : Type 0 where
  pub bytes : Bytes
  pub accepted : Bool

-- The bytes of the chunks, in order.
unfoldable pub content : List Chunk → Bytes
content [] = []
content (c ∷ cs) = c.bytes ++ content cs

abbrev pub AllAccepted : List Chunk → Type 0
AllAccepted = All (λ c. c.accepted ≡ true)

-- The chunks before the first one that is not accepted.
unfoldable pub front : List Chunk → List Chunk
front [] = []
front (c ∷ cs) = if c.accepted then c ∷ front cs else []

pub front-accepted : (cs : List Chunk) → AllAccepted cs → front cs ≡ cs
unfolding front
front-accepted [] a = refl
front-accepted (c ∷ cs) a = rw (a.0, front-accepted cs a.1)

-- A read returns at most what the buffer holds, and 0 bytes only at the end.
abbrev pub Fit : ℕ → List Chunk → Type 0
Fit size = All (λ c. (0 < length c.bytes) × (length c.bytes ≤ size))

-- `read` writes the front of a buffer and leaves the rest of it.
abbrev pub overlay : Bytes → Bytes → Bytes
overlay bytes buffer = bytes ++ drop (length bytes) buffer

pub length-drop : (n : ℕ) (xs : Bytes) → length (drop n xs) ≡ length xs - n
length-drop zero xs = omega arith
length-drop (suc n) [] = omega arith
length-drop (suc n) (x ∷ xs) = omega (arith, length-drop n xs)

pub length-overlay :
    (bytes buffer : Bytes)
    → length bytes ≤ length buffer
    → length (overlay bytes buffer) ≡ length buffer
length-overlay bytes buffer le =
    omega
      (arith, length-append bytes (drop (length bytes) buffer), length-drop (length bytes) buffer)

pub take-overlay : (bytes rest : Bytes) → take (length bytes) (bytes ++ rest) ≡ bytes
take-overlay [] rest = refl
take-overlay (c ∷ bytes) rest = ap (λ t. c ∷ t) (take-overlay bytes rest)

pub drop-append : (n : ℕ) (xs ys : Bytes) → n ≤ length xs → drop n (xs ++ ys) ≡ drop n xs ++ ys
drop-append zero xs ys le = refl
drop-append (suc n) [] ys le = absurd (omega arith)
drop-append (suc n) (x ∷ xs) ys le = drop-append n xs ys (omega arith)

pub drop-all : (n : ℕ) (xs : Bytes) → length xs ≤ n → drop n xs ≡ []
drop-all zero [] le = refl
drop-all zero (x ∷ xs) le = absurd (omega arith)
drop-all (suc n) [] le = refl
drop-all (suc n) (x ∷ xs) le = drop-all n xs (omega arith)

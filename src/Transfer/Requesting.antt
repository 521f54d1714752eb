-- ===== src/Transfer/Requesting.antt =====
-- practice/52.2/file_client.c: the request that the client sends, with the overflow of its fields.
use code_strudy.Prelude.{
  ℕ, zero, suc, ◌+◌, ◌-◌, ◌≤◌, ◌<◌, ◌≡◌, refl, ap, ◌∙◌, ◌≢◌, ◌⊎◌, inl, inr, Option, none, some, [],
  ◌∷◌, ◌++◌, append_assoc, arith, ltb, leb, if◌then◌else◌, Bool-cases, length, take, drop,
  length-append, length-take, All,
}
use code_strudy.CString.{Bytes, text}

-- struct mq_request in bytes: the name of the client's queue at 0, the file name at 128.
abbrev pub name_size : ℕ
name_size = 128

abbrev pub request_size : ℕ
request_size = 384

-- strcpy(base + off, s) in an array, of a string without a NUL; `none` is a write past its end.
unfoldable pub strcpy_at : ℕ → Bytes → Bytes → Option Bytes
strcpy_at off s array =
    if leb (off + (length s + 1)) (length array)
    then some (take off array ++ (s ++ 0 ∷ drop (off + (length s + 1)) array))
    else none

-- The two calls of strcpy of the client's main; `unset` is what the request holds before them.
unfoldable pub fill_request : Bytes → Bytes → Bytes → Option Bytes
unfolding strcpy_at
fill_request name path unset = elim (strcpy_at 0 name unset) [
  | none ↦ none
  | some named ↦ strcpy_at name_size path named
]

-- What the server reads in the request: client_mq_name and file_name.
unfoldable pub client_mq_name : Bytes → Bytes
client_mq_name req = text req

unfoldable pub file_name : Bytes → Bytes
file_name req = text (drop name_size req)

pub NoNul : Bytes → Type 0
NoNul s = All (λ c. c ≢ 0) s

text-finished : (s rest : Bytes) → All (λ c. c ≢ 0) s → text (s ++ 0 ∷ rest) ≡ s
unfolding text
text-finished [] rest n = refl
text-finished (c ∷ s) rest n = ground (arith, n.0, text-finished s rest n.1)

text-unfinished : (s rest : Bytes) → All (λ c. c ≢ 0) s → text (s ++ rest) ≡ s ++ text rest
unfolding text
text-unfinished [] rest n = refl
text-unfinished (c ∷ s) rest n = ground (arith, n.0, text-unfinished s rest n.1)

take-All : (n : ℕ) (s : Bytes) → All (λ c. c ≢ 0) s → All (λ c. c ≢ 0) (take n s)
take-All zero s h = tt
take-All (suc n) [] h = tt
take-All (suc n) (c ∷ s) h = (h.0, take-All n s h.1)

take-behind :
    (m c : ℕ) (s rest : Bytes)
    → length s < m
    → (cut : Bytes) × (take m (s ++ c ∷ rest) ≡ s ++ c ∷ cut)
take-behind zero c s rest h = ground arith
take-behind (suc m) c [] rest h = (take m rest, refl)
take-behind (suc m) c (x ∷ s) rest h =
    let (cut, e) = take-behind m c s rest (omega arith) in (cut, ap (λ z. x ∷ z) e)

take-inside : (m : ℕ) (s rest : Bytes) → m ≤ length s → take m (s ++ rest) ≡ take m s
take-inside zero s rest h = refl
take-inside (suc m) [] rest h = ground arith
take-inside (suc m) (x ∷ s) rest h = ap (λ z. x ∷ z) (take-inside m s rest (omega arith))

drop-length : (s rest : Bytes) → drop (length s) (s ++ rest) ≡ rest
drop-length [] rest = refl
drop-length (x ∷ s) rest = drop-length s rest

length-drop : (n : ℕ) (s : Bytes) → length (drop n s) ≡ length s - n
length-drop zero s = omega arith
length-drop (suc n) [] = omega arith
length-drop (suc n) (x ∷ s) = omega (arith, length-drop n s)

-- A copy faults exactly where the string and its NUL do not fit, and keeps the array's length.
strcpy_at-cases :
    (off : ℕ) (s array : Bytes)
    → (length array < off + (length s + 1)) × (strcpy_at off s array ≡ none)
      ⊎ (off + (length s + 1) ≤ length array)
        × (strcpy_at off s array
            ≡ some (take off array ++ (s ++ 0 ∷ drop (off + (length s + 1)) array)))
unfolding strcpy_at
strcpy_at-cases off s array = ground arith

strcpy_at-first :
    (s array : Bytes)
    → (length array < length s + 1) × (strcpy_at 0 s array ≡ none)
      ⊎ (length s + 1 ≤ length array)
        × (strcpy_at 0 s array ≡ some (s ++ 0 ∷ drop (length s + 1) array))
unfolding strcpy_at
strcpy_at-first s array = ground arith

-- What the server reads as the name of the client's queue.
pub read_name : Bytes → Bytes → Bytes
read_name name path = if ltb (length name) name_size then name else take name_size name ++ path

text-overrun :
    (name path rest tail : Bytes)
    → All (λ c. c ≢ 0) name
    → All (λ c. c ≢ 0) path
    → text (take name_size (name ++ 0 ∷ rest) ++ (path ++ 0 ∷ tail)) ≡ read_name name path
unfolding read_name
text-overrun name path rest tail n m = elim (Bool-cases (ltb (length name) name_size)) [
  | inl fits ↦
      let (cut, e) = take-behind name_size 0 name rest (ground arith) in
      ap text (ap (λ z. z ++ (path ++ 0 ∷ tail)) e ∙ append_assoc name (0 ∷ cut) (path ++ 0 ∷ tail))
      ∙ text-finished name (cut ++ (path ++ 0 ∷ tail)) n
      ∙ rw fits refl
  | inr long ↦
      ap (λ z. text (z ++ (path ++ 0 ∷ tail)))
        (take-inside name_size name (0 ∷ rest) (ground arith))
      ∙ text-unfinished (take name_size name) (path ++ 0 ∷ tail) (take-All name_size name n)
      ∙ ap (λ z. take name_size name ++ z) (text-finished path tail m)
      ∙ rw long refl
]

named_length :
    (name unset : Bytes)
    → length name + 1 ≤ length unset
    → length (name ++ 0 ∷ drop (length name + 1) unset) ≡ length unset
named_length name unset h = omega (
  arith,
  length-append name (0 ∷ drop (length name + 1) unset),
  length-drop (length name + 1) unset,
)

-- The client of practice/52.2 writes past its request exactly where the name of its queue is of
-- 384 characters or more, or that of the file of 256 or more; otherwise the server reads the file
-- name that was meant, and as the queue's name the one that was meant where it is shorter than
-- 128, while a longer one is cut there and the file name follows it.
pub fill_request-read :
    (name path unset : Bytes)
    → All (λ c. c ≢ 0) name
    → All (λ c. c ≢ 0) path
    → length unset ≡ request_size
    → ((384 ≤ length name ⊎ 256 ≤ length path) × (fill_request name path unset ≡ none))
      ⊎ ((length name < 384)
          × (length path < 256)
          × ((req : Bytes) × (fill_request name path unset ≡ some req)
              × (file_name req ≡ path)
              × (client_mq_name req ≡ read_name name path)))
unfolding fill_request client_mq_name file_name
fill_request-read name path unset n m size = elim (strcpy_at-first name unset) [
  | inl (over, fault) ↦ inl (inl (omega arith), rw (fault, fill_request) refl)
  | inr (fits, copied) ↦
      let named : Bytes = name ++ 0 ∷ drop (length name + 1) unset in
      elim (strcpy_at-cases name_size path named) [
        | inl (over, fault) ↦ inl (
          inr (omega (arith, size, named_length name unset fits)),
          rw (copied, fill_request, fault) refl,
        )
        | inr (fits2, copied2) ↦
            let tail = drop (name_size + (length path + 1)) named in
            let l : name_size ≡ length (take name_size named) =
              omega (arith, length-take name_size named, named_length name unset fits, size) in
            let k = named_length name unset fits in
            inr (
              omega (arith, size),
              omega (arith, size, k),
              (
                take name_size named ++ (path ++ 0 ∷ tail),
                rw (copied, fill_request, copied2) refl,
                ap text (
                      ap (λ z. drop z (take name_size named ++ (path ++ 0 ∷ tail))) l
                      ∙ drop-length (take name_size named) (path ++ 0 ∷ tail))
                    ∙ text-finished path tail m,
                text-overrun name path (drop (length name + 1) unset) tail n m,
              ),
            )
      ]
]

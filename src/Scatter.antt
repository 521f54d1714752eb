-- ===== src/Scatter.antt =====
-- myreadv and mywritev of practice/5.7/scatterIO.c under linux_programing_interface. A buffer is
-- `none` where iov_base is NULL. What the calls return comes as functions of the index of the buffer:
-- `none` is -1, otherwise the number of bytes.
mod Tests
use code_strudy.Prelude.{
  ℕ, suc, ◌+◌, ◌-◌, ◌/◌, min, ◌≡◌, refl, sym, ap, ◌∙◌, ◌≢◌, inl, inr, Option, none, some, List, [],
  ◌∷◌, ◌++◌, map, append-nil, append_assoc, arith, Option-cases, length, set, take, drop, All,
}
use code_strudy.CString.{Bytes}

-- What is in the file when mywritev returns, or when it ends the process.
pub data Written : Type 0 where
  count : ℕ → Bytes → Written
  null_base : Bytes → Written
  write_failed : Bytes → Written

unfoldable pub writev_from : (ℕ → Bytes → Option ℕ) → ℕ → List (Option Bytes) → Bytes → Written
writev_from write i [] file = count i file
writev_from write i (none ∷ iov) file = null_base file
writev_from write i (some base ∷ iov) file = elim (write i base) [
  | none ↦ write_failed file
  | some n ↦ writev_from write (suc i) iov (file ++ take n base)
]

unfoldable pub my_writev : (ℕ → Bytes → Option ℕ) → List (Option Bytes) → Bytes → Written
unfolding writev_from
my_writev write iov file = writev_from write 0 iov file

-- What the buffers get, and what is left to read.
pub data Filled : Type 0 where
  count : ℕ → List Bytes → Bytes → Filled
  null_base : Filled
  read_failed : Filled

unfoldable pub put_first : Bytes → Filled → Filled
put_first bytes (count k bufs rest) = count k (bytes ∷ bufs) rest
put_first bytes null_base = null_base
put_first bytes read_failed = read_failed

-- A buffer is given by its length.
unfoldable pub readv_from : (ℕ → ℕ → Option ℕ) → ℕ → List (Option ℕ) → Bytes → Filled
unfolding put_first
readv_from read i [] file = Filled.count i [] file
readv_from read i (none ∷ iov) file = Filled.null_base
readv_from read i (some len ∷ iov) file = elim (read i len) [
  | none ↦ read_failed
  | some n ↦ put_first (take n file) (readv_from read (suc i) iov (drop n file))
]

unfoldable pub my_readv : (ℕ → ℕ → Option ℕ) → List (Option ℕ) → Bytes → Filled
unfolding readv_from
my_readv read iov file = readv_from read 0 iov file

pub join : List Bytes → Bytes
join [] = []
join (b ∷ bs) = b ++ join bs

take_all : (b rest : Bytes) → take (length b) (b ++ rest) ≡ b
take_all [] rest = refl
take_all (c ∷ b) rest = ap (λ t. c ∷ t) (take_all b rest)

take_self : (b : Bytes) → take (length b) b ≡ b
take_self [] = refl
take_self (c ∷ b) = ap (λ t. c ∷ t) (take_self b)

drop_all : (b rest : Bytes) → drop (length b) (b ++ rest) ≡ rest
drop_all [] rest = refl
drop_all (c ∷ b) rest = drop_all b rest

writev_from-join :
    (write : ℕ → Bytes → Option ℕ) (i : ℕ) (bufs : List Bytes) (file : Bytes)
    → ((j : ℕ) (b : Bytes) → write j b ≡ some (length b))
    → writev_from write i (map some bufs) file ≡ Written.count (i + length bufs) (file ++ join bufs)
unfolding writev_from join
writev_from-join write i [] file h = ground (arith, append-nil file)
writev_from-join write i (b ∷ bufs) file h = ground (
  arith,
  h i b,
  take_self b,
  writev_from-join write (suc i) bufs (file ++ b) h,
  append_assoc file b (join bufs),
)

readv_from-join :
    (read : ℕ → ℕ → Option ℕ) (i : ℕ) (bufs : List Bytes) (rest : Bytes)
    → ((j n : ℕ) → read j n ≡ some n)
    → readv_from read i (map (λ b. some (length b)) bufs) (join bufs ++ rest)
      ≡ Filled.count (i + length bufs) bufs rest
unfolding readv_from put_first join
readv_from-join read i [] rest h = ground arith
readv_from-join read i (b ∷ bufs) rest h = ground (
  arith,
  h i (length b),
  append_assoc b (join bufs) rest,
  take_all b (join bufs ++ rest),
  drop_all b (join bufs ++ rest),
  readv_from-join read (suc i) bufs rest h,
)

-- When each write accepts its buffer whole and each read fills its buffer, mywritev on an empty
-- file returns the number of the buffers, none of which is NULL, and myreadv of what it wrote,
-- into buffers of the same lengths, fills them with the same bytes and leaves nothing.
pub my_readv-my_writev :
    (write : ℕ → Bytes → Option ℕ) (read : ℕ → ℕ → Option ℕ) (bufs : List Bytes)
    → ((j : ℕ) (b : Bytes) → write j b ≡ some (length b))
    → ((j n : ℕ) → read j n ≡ some n)
    → (file : Bytes) × (my_writev write (map some bufs) [] ≡ Written.count (length bufs) file)
      × (my_readv read (map (λ b. some (length b)) bufs) file ≡ Filled.count (length bufs) bufs [])
unfolding my_writev my_readv
my_readv-my_writev write read bufs w r = (
  join bufs,
  writev_from-join write 0 bufs [] w ∙ ground arith,
  ap (λ f. readv_from read 0 (map (λ b. some (length b)) bufs) f) (sym (append-nil (join bufs)))
      ∙ readv_from-join read 0 bufs [] r
      ∙ ground arith,
)

writev_from_counts :
    (write : ℕ → Bytes → Option ℕ) (i k : ℕ) (iov : List (Option Bytes)) (file out : Bytes)
    → writev_from write i iov file ≡ Written.count k out
    → (k ≡ i + length iov) × All (λ b. b ≢ none) iov
unfolding writev_from
writev_from_counts write i k [] file out e = (ground arith, tt)
writev_from_counts write i k (none ∷ iov) file out e = ground arith
writev_from_counts write i k (some b ∷ iov) file out e = elim (Option-cases (write i b)) [
  | inl fails ↦ ground (arith, fails)
  | inr (n, wrote) ↦
      let (same, set_bases) =
        writev_from_counts write (suc i) k iov (file ++ take n b) out (ground (arith, wrote)) in
      (omega (arith, same), ((λ z. cc), set_bases))
]

-- Whatever part of each buffer the writes accept, if mywritev returns a count, it is the number of
-- the buffers, and none of them is NULL.
pub my_writev_counts :
    (write : ℕ → Bytes → Option ℕ) (k : ℕ) (iov : List (Option Bytes)) (file out : Bytes)
    → my_writev write iov file ≡ Written.count k out
    → (k ≡ length iov) × All (λ b. b ≢ none) iov
unfolding my_writev
my_writev_counts write k iov file out e =
    let (same, set_bases) = writev_from_counts write 0 k iov file out e in
    (omega (arith, same), set_bases)

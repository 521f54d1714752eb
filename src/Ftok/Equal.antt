-- ===== src/Ftok/Equal.antt =====
-- When the calculated key is that of ftok.
use code_strudy.Prelude.{
  ℕ, ◌+◌, ◌-◌, ◌*◌, ◌%◌, ◌^◌, ◌<◌, ◌≡◌, ap, ◌∙◌, ◌≢◌, ◌⊎◌, inl, inr, Bool, true, false, ◌&&◌, ◌||◌,
  Option, some, arith, ltb, ◌==◌, if◌then◌else◌, Bool-cases,
}
use Prim.Native.Nat.{bit_or}
use code_strudy.Ftok.Defs.{
  failed, compared, compare_keys, main, Status, shift_left, extend, calculate,
}
use code_strudy.Ftok.BitOr.{bit_or-zero_left, bit_or-fields, bit_or-ones, bit_or-zero_right}

shift_left-proj : (p : ℕ) → p < 2 ^ 8 → shift_left (extend 8 p) 24 ≡ p * 2 ^ 24
unfolding shift_left extend
shift_left-proj p h = ground arith

-- The sign of the device number fills the byte above it.
shift_left-dev :
    (d : ℕ)
    → d < 2 ^ 8
    → shift_left (extend 8 d) 16 ≡ (if ltb d 128 then 0 else 255) * 2 ^ 24 + d * 2 ^ 16
unfolding shift_left extend
shift_left-dev d h = ground arith

extend-inode :
    (i : ℕ) → i < 2 ^ 16 → extend 16 i ≡ (if ltb i (2 ^ 15) then 0 else 65535) * 2 ^ 16 + i
unfolding extend
extend-inode i h = ground arith

-- What a sign leaves of the field above.
over : Bool → ℕ → ℕ → ℕ
over small ones x = if small then x else ones

bit_or-over :
    (k x : ℕ) (small : Bool)
    → x < 2 ^ k
    → bit_or x (if small then 0 else 2 ^ k - 1) ≡ over small (2 ^ k - 1) x
unfolding over
bit_or-over k x true h = bit_or-zero_right k x h
bit_or-over k x false h = bit_or-ones k x h

upper_fields :
    (p e x d : ℕ)
    → d < 2 ^ 8
    → bit_or p e ≡ x
    → bit_or (p * 2 ^ 24) (e * 2 ^ 24 + d * 2 ^ 16) ≡ (x * 2 ^ 8 + d) * 2 ^ 16
upper_fields p e x d h is =
    let none_low : p * 2 ^ 24 ≡ p * 2 ^ 24 + 0 = omega arith in
    let fields = bit_or-fields 24 p 0 e (d * 2 ^ 16) (omega arith) (omega arith) in
    ap (λ n. bit_or n (e * 2 ^ 24 + d * 2 ^ 16)) none_low
    ∙ fields
    ∙ omega (arith, is, bit_or-zero_left (d * 2 ^ 16))

lower_fields :
    (t f y i : ℕ)
    → i < 2 ^ 16
    → bit_or t f ≡ y
    → bit_or (t * 2 ^ 16) (f * 2 ^ 16 + i) ≡ y * 2 ^ 16 + i
lower_fields t f y i h is =
    let none_low : t * 2 ^ 16 ≡ t * 2 ^ 16 + 0 = omega arith in
    let fields = bit_or-fields 16 t 0 f i (omega arith) h in
    ap (λ n. bit_or n (f * 2 ^ 16 + i)) none_low ∙ fields ∙ omega (arith, is, bit_or-zero_left i)

over_small : (small : Bool) (p : ℕ) → p < 2 ^ 8 → over small 255 p < 2 ^ 8
unfolding over
over_small true p h = h
over_small false p h = omega arith

calculate_lem :
    (p d i : ℕ)
    → p < 2 ^ 8
    → d < 2 ^ 8
    → i < 2 ^ 16
    → calculate p d i
      ≡ over (ltb i (2 ^ 15)) 65535 (over (ltb d 128) 255 p * 2 ^ 8 + d) * 2 ^ 16 + i
unfolding calculate
calculate_lem p d i hp hd hi =
    let e : ℕ = if ltb d 128 then 0 else 255 in
    let f : ℕ = if ltb i (2 ^ 15) then 0 else 65535 in
    let top = over (ltb d 128) 255 p in
    let small = over_small (ltb d 128) p hp in
    let upper = upper_fields p e top d hd (bit_or-over 8 p (ltb d 128) hp) in
    let t = top * 2 ^ 8 + d in
    let whole =
      lower_fields t f (over (ltb i (2 ^ 15)) 65535 t) i hi
        (bit_or-over 16 t (ltb i (2 ^ 15)) (omega (arith, small, hd))) in
    rw (shift_left-proj p hp, shift_left-dev d hd, extend-inode i hi, upper) whole

-- What ftok is documented to make of the low bits of its arguments.
pub ftok_key : Status → ℕ → ℕ
ftok_key s proj = proj % 2 ^ 8 * 2 ^ 24 + s.minor % 2 ^ 8 * 2 ^ 16 + s.ino % 2 ^ 16

-- No sign bit that matters: each is 0, or the bits above it are ones already.
pub fields_kept : ℕ → ℕ → ℕ → Bool
fields_kept p d i = (ltb d (2 ^ 7) || p == 255) && (ltb i (2 ^ 15) || (p == 255 && d == 255))

over_equal :
    (p d i : ℕ)
    → p < 2 ^ 8
    → d < 2 ^ 8
    → i < 2 ^ 16
    → (over (ltb i (2 ^ 15)) 65535 (over (ltb d 128) 255 p * 2 ^ 8 + d) * 2 ^ 16 + i
        == p * 2 ^ 24 + d * 2 ^ 16 + i)
      ≡ fields_kept p d i
unfolding over fields_kept
over_equal p d i hp hd hi = ground arith

-- For a file that can be opened and a ftok that makes its key of the low 8, 8 and 16 bits, as
-- documented: where that key is 2 ^ 32 - 1, which is -1, the program fails; else it shows that
-- key, the one it calculates in 32 bits, and that they are equal exactly if the sign bit of the
-- device number is 0 or the project is 255, and that of the inode is 0 or project and device are
-- 255.
pub main-compares :
    (s : Status) (ftok : ℕ → Option ℕ) (arg : ℕ)
    → ((proj : ℕ) → ftok proj ≡ some (ftok_key s proj))
    → ((ftok_key s arg ≡ 2 ^ 32 - 1) × (main true (some s) ftok false (some arg) ≡ failed))
      ⊎ ((ftok_key s arg ≢ 2 ^ 32 - 1)
          × (main true (some s) ftok false (some arg)
              ≡ compared
                  (ftok_key s arg)
                  (calculate (arg % 2 ^ 8) (s.minor % 2 ^ 8) (s.ino % 2 ^ 16))
                  (fields_kept (arg % 2 ^ 8) (s.minor % 2 ^ 8) (s.ino % 2 ^ 16))))
unfolding main compare_keys
main-compares s ftok arg documented =
    let p = arg % 2 ^ 8 in
    let d = s.minor % 2 ^ 8 in
    let i = s.ino % 2 ^ 16 in
    let hp : p < 2 ^ 8 = omega arith in
    let hd : d < 2 ^ 8 = omega arith in
    let hi : i < 2 ^ 16 = omega arith in
    let key : ftok_key s p ≡ ftok_key s arg = unfold ftok_key in omega arith in
    let kept : (calculate p d i == ftok_key s arg) ≡ fields_kept p d i =
      ap (λ n. n == ftok_key s arg) (calculate_lem p d i hp hd hi)
      ∙ unfold ftok_key in over_equal p d i hp hd hi in
    elim (Bool-cases (ftok_key s arg == 2 ^ 32 - 1)) [
      | inl all_ones ↦ inl (ground (arith, all_ones), ground (arith, documented p, key, all_ones))
      | inr other ↦
          inr ((λ e. ground (arith, other)), ground (arith, documented p, key, kept, other))
    ]

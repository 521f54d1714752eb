-- ===== src/Ftok/BitOr.antt =====
-- bit_or of numbers that are made of two fields, and of a field of ones.
use code_strudy.Prelude.{
  ℕ, zero, suc, ◌+◌, ◌-◌, ◌*◌, ◌/◌, ◌%◌, ◌^◌, ◌≤◌, ◌<◌, ◌≡◌, refl, ap, ◌∙◌, arith,
}
use Prim.Native.Nat.{max, digits, bit_or, bit_or-bitwise}
use native.Mathlib.Nat.{pow-suc, one-le-pow}

-- Two counts of digits that are both enough.
abbrev or_digits : ℕ → ℕ → ℕ → ℕ
or_digits n a b = digits (λ d. d) max n a b

or_digits_enough : (n k a b : ℕ) → a ≤ n → a ≤ k → or_digits n a b ≡ or_digits k a b
or_digits_enough zero zero a b h j = refl
or_digits_enough zero (suc k) zero b h j = refl
or_digits_enough zero (suc k) (suc a) b h j = absurd (omega arith)
or_digits_enough (suc n) zero zero b h j = refl
or_digits_enough (suc n) zero (suc a) b h j = absurd (omega arith)
or_digits_enough (suc n) (suc k) zero b h j = refl
or_digits_enough (suc n) (suc k) (suc a) b h j =
    ap (λ r. r * 2 + max (suc a % 2) (b % 2))
      (or_digits_enough n k (suc a / 2) (b / 2) (omega arith) (omega arith))

bit_or-halves : (a b : ℕ) → bit_or a b ≡ bit_or (a / 2) (b / 2) * 2 + max (a % 2) (b % 2)
bit_or-halves zero b = simp bit_or-bitwise (omega arith)
bit_or-halves (suc a) b = simp bit_or-bitwise (
    ap (λ r. r * 2 + max (suc a % 2) (b % 2))
      (or_digits_enough a (suc a / 2) (suc a / 2) (b / 2) (omega arith) (omega arith)))

pub bit_or-zero_left : (b : ℕ) → bit_or 0 b ≡ b
bit_or-zero_left b = simp bit_or-bitwise refl

double_field : (x k : ℕ) → x * 2 ^ suc k ≡ 2 * (x * 2 ^ k)
double_field x k = omega (arith, ap (λ (t : ℕ). x * t) (pow-suc 2 k))

half_field : (x y k : ℕ) → ((x * 2 ^ suc k + y) / 2 ≡ x * 2 ^ k + y / 2)
half_field x y k = omega (arith, double_field x k)

odd_field : (x y k : ℕ) → ((x * 2 ^ suc k + y) % 2 ≡ y % 2)
odd_field x y k = omega (arith, double_field x k)

-- Two numbers of `k` low bits each.
pub bit_or-fields :
    (k x y z w : ℕ)
    → y < 2 ^ k
    → w < 2 ^ k
    → bit_or (x * 2 ^ k + y) (z * 2 ^ k + w) ≡ bit_or x z * 2 ^ k + bit_or y w
bit_or-fields zero x y z w h j =
    let none_y : y ≡ 0 = omega arith in
    let none_w : w ≡ 0 = omega arith in
    let same_x : x * 2 ^ 0 + 0 ≡ x = omega arith in
    let same_z : z * 2 ^ 0 + 0 ≡ z = omega arith in
    rw (none_y, none_w, same_x, same_z) (omega (arith, bit_or-zero_left 0))
bit_or-fields (suc k) x y z w h j =
    let rest : bit_or (x * 2 ^ k + y / 2) (z * 2 ^ k + w / 2)
        ≡ bit_or x z * 2 ^ k + bit_or (y / 2) (w / 2) =
      bit_or-fields k x (y / 2) z (w / 2) (omega (arith, pow-suc 2 k))
        (omega (arith, pow-suc 2 k)) in
    bit_or-halves (x * 2 ^ suc k + y) (z * 2 ^ suc k + w)
    ∙ rw (half_field x y k, half_field z w k, odd_field x y k, odd_field z w k)
        (omega (arith, rest, bit_or-halves y w, double_field (bit_or x z) k))

-- A field of `k` ones.
pub bit_or-ones : (k a : ℕ) → a < 2 ^ k → bit_or a (2 ^ k - 1) ≡ 2 ^ k - 1
bit_or-ones zero a h = let none_a : a ≡ 0 = omega arith in rw none_a refl
bit_or-ones (suc k) a h =
    let ones : 2 ^ suc k - 1 ≡ 2 * (2 ^ k - 1) + 1 = omega (arith, pow-suc 2 k, one-le-pow k 2) in
    let half : (2 ^ suc k - 1) / 2 ≡ 2 ^ k - 1 = omega (arith, ones) in
    let odd : (2 ^ suc k - 1) % 2 ≡ 1 = omega (arith, ones) in
    bit_or-halves a (2 ^ suc k - 1)
    ∙ rw (half, odd) (ground (arith, ones, bit_or-ones k (a / 2) (omega (arith, pow-suc 2 k))))

pub bit_or-zero_right : (k a : ℕ) → a < 2 ^ k → bit_or a 0 ≡ a
bit_or-zero_right zero a h = let none_a : a ≡ 0 = omega arith in rw none_a refl
bit_or-zero_right (suc k) a h =
    bit_or-halves a 0 ∙ ground (arith, bit_or-zero_right k (a / 2) (omega (arith, pow-suc 2 k)))

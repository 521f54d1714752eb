-- ===== src/Ftok/Defs.antt =====
-- `main` from the argument to the comparison. Numbers of 32 bits are given by their bit patterns.
use code_strudy.Prelude.{
  ℕ, ◌+◌, ◌-◌, ◌*◌, ◌%◌, ◌^◌, Bool, Option, none, some, ltb, ◌==◌, if◌then◌else◌,
}
use Prim.Native.Nat.{bit_or}

-- A number of `w` bits with a sign, as one of 32.
unfoldable pub extend : ℕ → ℕ → ℕ
extend w v = if ltb v (2 ^ (w - 1)) then v else v + (2 ^ 32 - 2 ^ w)

-- x << n for an int
unfoldable pub shift_left : ℕ → ℕ → ℕ
shift_left x n = x * 2 ^ n % 2 ^ 32

-- `proj`, `dev_num` and `inode` are the bits of the two chars and the short.
unfoldable pub calculate : ℕ → ℕ → ℕ → ℕ
unfolding extend shift_left
calculate proj dev_num inode =
    bit_or (bit_or (shift_left (extend 8 proj) 24) (shift_left (extend 8 dev_num) 16))
      (extend 16 inode)

-- What stat gives: MINOR(st_dev) and st_ino.
pub record Status : Type 0 where
  pub minor : ℕ
  pub ino : ℕ

-- The key is shown with what was calculated, and whether they are equal.
pub data Outcome : Type 0 where
  usage failed : Outcome
  compared : ℕ → ℕ → Bool → Outcome

-- `opened`, `status` and `ftok` are the results of open, stat and ftok, `none` for an error. A key whose
-- bits are those of -1 is taken for an error of ftok.
module _ (opened : Bool) (status : Option Status) (ftok : ℕ → Option ℕ) where
  unfoldable pub compare_keys : ℕ → Outcome
  unfolding calculate
  compare_keys proj =
      if opened
      then elim (ftok proj) [
        | none ↦ failed
        | some key ↦ elim status [
          | none ↦ failed
          | some s ↦
              let calcu = calculate proj (s.minor % 2 ^ 8) (s.ino % 2 ^ 16) in
              if key == 2 ^ 32 - 1 then failed else compared key calcu (calcu == key)
        ]
      ]
      else failed

  -- `arg` is what atoi makes of argv[1], as 32 bits; `help` says that argv[1] is --help.
  unfoldable pub main : Bool → Option ℕ → Outcome
  unfolding compare_keys
  main help none = compare_keys 1
  main help (some arg) = if help then usage else compare_keys (arg % 2 ^ 8)

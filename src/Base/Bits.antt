-- ===== src/Base/Bits.antt =====
-- `|` on words, where one side has the low bits free that the other side sets: a page address and
-- the flags of its page table entry.
use Prim.Native.Nat.{
  ℕ, zero, suc, ◌+◌, ◌*◌, ◌/◌, ◌%◌, ◌^◌, ◌≤◌, ◌<◌, max, bit_or, digits, bit_or-bitwise,
}
use mathlib.Core.Path.{◌≡◌, refl, ap}
use native.Mathlib.Nat.{pow-suc}
use native.Mathlib.Omega.{arith}

abbrev or_digits : ℕ → ℕ → ℕ → ℕ
or_digits fuel x y = digits (λ b. b) max fuel x y

-- Any fuel from the number itself on gives the same digits.
or_digits_enough : (x y m n : ℕ) → x ≤ m → x ≤ n → or_digits m x y ≡ or_digits n x y
or_digits_enough zero y zero zero h k = refl
or_digits_enough zero y zero (suc n) h k = refl
or_digits_enough zero y (suc m) zero h k = refl
or_digits_enough zero y (suc m) (suc n) h k = refl
or_digits_enough (suc x) y zero n h k = absurd (omega arith)
or_digits_enough (suc x) y (suc m) zero h k = absurd (omega arith)
or_digits_enough (suc x) y (suc m) (suc n) h k =
    ap (λ (d : ℕ). d * 2 + max (suc x % 2) (y % 2))
      (or_digits_enough (suc x / 2) (y / 2) m n (omega arith) (omega arith))

zero-bit_or : (y : ℕ) → bit_or 0 y ≡ y
zero-bit_or y = bit_or-bitwise 0 y

-- The lowest digit of `|`, and the rest.
pub bit_or_split : (x y : ℕ) → bit_or x y ≡ 2 * bit_or (x / 2) (y / 2) + max (x % 2) (y % 2)
bit_or_split zero y = omega (arith, zero-bit_or y, zero-bit_or (y / 2))
bit_or_split (suc x) y = omega (
  arith,
  bit_or-bitwise (suc x) y,
  bit_or-bitwise (suc x / 2) (y / 2),
  or_digits_enough (suc x / 2) (y / 2) x (suc x / 2) (omega arith) (omega arith),
)

bit_or-zero_below : (bound x : ℕ) → x ≤ bound → bit_or x 0 ≡ x
bit_or-zero_below bound zero h = zero-bit_or 0
bit_or-zero_below zero (suc x) h = absurd (omega arith)
bit_or-zero_below (suc bound) (suc x) h =
    omega (arith, bit_or_split (suc x) 0, bit_or-zero_below bound (suc x / 2) (omega arith))

double_lem : (k high : ℕ) → high * 2 ^ suc k ≡ 2 * (high * 2 ^ k)
double_lem k high = omega (arith, ap (λ (t : ℕ). high * t) (pow-suc 2 k))

-- `|` leaves the bits above the `k` low ones alone, if the right side has none.
pub bit_or_block :
    (k high a b : ℕ)
    → a < 2 ^ k
    → b < 2 ^ k
    → bit_or (high * 2 ^ k + a) b ≡ high * 2 ^ k + bit_or a b
bit_or_block zero high a b h l = ground (arith, bit_or-zero_below high high, zero-bit_or 0)
bit_or_block (suc k) high a b h l =
    let grow = double_lem k high in
    let pow = pow-suc 2 k in
    ground (
      arith,
      bit_or_split (high * 2 ^ suc k + a) b,
      bit_or_split a b,
      bit_or_block k high (a / 2) (b / 2),
    )

pub bit_or-lt : (k a b : ℕ) → a < 2 ^ k → b < 2 ^ k → bit_or a b < 2 ^ k
bit_or-lt zero a b h l = ground (arith, zero-bit_or 0)
bit_or-lt (suc k) a b h l =
    let pow = pow-suc 2 k in ground (arith, bit_or_split a b, bit_or-lt k (a / 2) (b / 2))

pub bit_or-mod_two : (a b : ℕ) → bit_or a b % 2 ≡ max (a % 2) (b % 2)
bit_or-mod_two a b = omega (arith, bit_or_split a b)

-- ===== src/Tarfs/Octal.antt =====
-- The numbers in a header of the archive: `atoi`, `power` and `convertOctalToDecimal` of
-- sys/tarfs.c. All arithmetic is on `uint64_t`.
pub mod Value
pub mod Field
use preemptive_unix_os.Base.{
  ℕ, zero, suc, ◌+◌, ◌-◌, ◌*◌, ◌/◌, ◌%◌, ◌^◌, Bool, ◌&&◌, Option, none, some, List, [], ◌∷◌, Run,
  ok, fault, ◌>>=◌, if◌then◌else◌, leb, ◌==◌, minus_one,
}

-- The loop of `atoi`: `none` where it returns 0 early, at a character that is no digit. A `char` of
-- 128 or more is negative, and no digit as a `uint64_t` either.
unfoldable pub atoi_loop : List ℕ → ℕ → Run (Option ℕ)
atoi_loop [] res = fault
atoi_loop (c ∷ str) res =
    let rest = atoi_loop str ((res * 10 + c + 2 ^ 64 - 48) % 2 ^ 64) in
    if c == 0 then ok (some res) else if leb 48 c && leb c 57 then rest else ok none

-- The result, with the sign as a factor of 1 or 2^64 - 1.
unfoldable pub with_sign : ℕ → Option ℕ → ℕ
with_sign sign none = 0
with_sign sign (some res) = res * sign % 2 ^ 64

unfoldable pub atoi : List ℕ → Run ℕ
unfolding with_sign
atoi [] = fault
atoi (c ∷ str) =
    if c == b'-'
    then (atoi_loop str 0 >>= λ r. ok (with_sign minus_one r))
    else if c == b'+'
    then (atoi_loop str 0 >>= λ r. ok (with_sign 1 r))
    else (atoi_loop (c ∷ str) 0 >>= λ r. ok (with_sign 1 r))

-- `power` halves `n` at each call, down to 0: 64 calls deep at most, and one more. The two equal
-- recursive calls are made once.
unfoldable pub power_rounds : ℕ → ℕ → ℕ → ℕ
power_rounds zero x n = 1
power_rounds (suc k) x n =
    let half = power_rounds k x (n / 2) in
    if n == 0
    then 1
    else if n % 2 == 0
    then half * half % 2 ^ 64
    else (x * half % 2 ^ 64) * half % 2 ^ 64

unfoldable pub power : ℕ → ℕ → ℕ
power x n = power_rounds 65 x n

-- The loop of `convertOctalToDecimal` over `num`, with the rounds that are left; a `uint64_t` has
-- 20 digits at most, and `none` is more rounds than that.
unfoldable pub convert_loop : ℕ → ℕ → ℕ → ℕ → Option ℕ
convert_loop zero num i decimal_num = none
convert_loop (suc k) num i decimal_num =
    let rest = convert_loop k (num / 10) (i + 1) ((decimal_num + num % 10 * power 8 i) % 2 ^ 64) in
    if num == 0 then some decimal_num else rest

unfoldable pub convert_octal_to_decimal : ℕ → Option ℕ
convert_octal_to_decimal octal_num = convert_loop 21 octal_num 0 0

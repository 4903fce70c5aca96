-- ===== src/Base/Words.antt =====
-- Machine words: `uint64_t` and `int` as numbers below the modulus, with the wrap-around written out.
use Prim.Native.Nat.{ℕ, ◌+◌, ◌-◌, ◌%◌, ◌^◌}
use mathlib.Core.Bool.{Bool}
use preemptive_unix_os.Base.Tests.{ltb, if◌then◌else◌}

abbrev pub u64_mod : ℕ
u64_mod = 2 ^ 64

-- `a + b` and `a - b` on `uint64_t`
abbrev pub add64 : ℕ → ℕ → ℕ
add64 a b = (a + b) % 2 ^ 64

abbrev pub sub64 : ℕ → ℕ → ℕ
sub64 a b = (a + 2 ^ 64 - b) % 2 ^ 64

-- `x++` and `x--` on an `int` that is kept as its bit pattern
abbrev pub inc32 : ℕ → ℕ
inc32 a = (a + 1) % 2 ^ 32

abbrev pub dec32 : ℕ → ℕ
dec32 a = (a + 2 ^ 32 - 1) % 2 ^ 32

-- `-1`, as an `int` or a `ssize_t` that is read as a `uint64_t`
abbrev pub minus_one : ℕ
minus_one = 2 ^ 64 - 1

-- `a < b` on signed words: adding `2 ^ 63` turns the signed order into the unsigned one.
abbrev pub ltb_signed : ℕ → ℕ → Bool
ltb_signed a b = ltb (add64 a (2 ^ 63)) (add64 b (2 ^ 63))

-- An `int` that is kept as its bit pattern, as a 64-bit number.
abbrev pub sign_extend : ℕ → ℕ
sign_extend n = let i = n % 2 ^ 32 in if ltb i (2 ^ 31) then i else i + 2 ^ 64 - 2 ^ 32

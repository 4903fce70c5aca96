-- ===== src/Tarfs/Octal/Value.antt =====
-- What the numbers of sys/tarfs.c mean.
use preemptive_unix_os.Base.{
  AllBelow, from_digits-zero, ℕ, zero, suc, ◌+◌, ◌*◌, ◌/◌, ◌%◌, ◌^◌, ◌≤◌, ◌<◌, ◌≡◌, ◌∙◌, sym, ap,
  inl, inr, some, List, [], ◌∷◌, arith, ◌==◌, false, Bool-cases, pow-add, mod-mul-mod, from_digits,
  length,
}
use native.Mathlib.Nat.{pow-zero, mul_assoc, mul_comm, pow-suc, mod-eq_of_lt, pow-le-pow_right}
use preemptive_unix_os.Tarfs.Octal.{power_rounds, power, convert_loop, convert_octal_to_decimal}

halves : (n : ℕ) → (n % 2 ≡ 0) → n ≡ n / 2 + n / 2
halves n e = omega arith

halves_odd : (n : ℕ) → (n % 2 ≡ 1) → n ≡ suc (n / 2 + n / 2)
halves_odd n e = omega arith

abbrev word : ℕ → ℕ
word a = a % 2 ^ 64

word-word : (a : ℕ) → word (word a) ≡ word a
word-word a = omega arith

odd_step : (x a : ℕ) → word (word (x * word a) * word a) ≡ word (x * (a * a))
odd_step x a =
    ap (λ (h : ℕ). word (word (x * word a) * h)) (sym (word-word a))
    ∙ mod-mul-mod (2 ^ 64) (x * word a) (word a)
    ∙ ap word (mul_assoc x (word a) (word a))
    ∙ sym (mod-mul-mod (2 ^ 64) x (word a * word a))
    ∙ ap (λ (h : ℕ). word (word x * h)) (mod-mul-mod (2 ^ 64) a a)
    ∙ mod-mul-mod (2 ^ 64) x (a * a)

-- With more rounds than `n` has binary digits, `power` is the power modulo 2^64.
power_rounds_lem : (k x n : ℕ) → n < 2 ^ k → power_rounds (suc k) x n ≡ word (x ^ n)
unfolding power_rounds
power_rounds_lem k x zero h = rw (pow-zero x)
power_rounds_lem zero x (suc n) h = absurd (omega arith)
power_rounds_lem (suc k) x (suc n) h =
    let below : suc n / 2 < 2 ^ k = omega (arith, pow-suc 2 k) in
    let ih = power_rounds_lem k x (suc n / 2) below in
    let a = x ^ (suc n / 2) in
    let nonzero : (suc n == 0) ≡ false = ground arith in
    elim (Bool-cases (suc n % 2 == 0)) [
      | inl even ↦
          let twice : a * a ≡ x ^ suc n =
            sym (pow-add x (suc n / 2) (suc n / 2))
            ∙ ap (λ (e : ℕ). x ^ e) (sym (halves (suc n) (ground arith))) in
          rw (nonzero, even, ih) (mod-mul-mod (2 ^ 64) a a ∙ ap word twice)
      | inr odd ↦
          let twice : x * (a * a) ≡ x ^ suc n =
            ap (λ (e : ℕ). x * e) (sym (pow-add x (suc n / 2) (suc n / 2)))
            ∙ mul_comm x (x ^ (suc n / 2 + suc n / 2))
            ∙ sym (pow-suc x (suc n / 2 + suc n / 2))
            ∙ ap (λ (e : ℕ). x ^ e) (sym (halves_odd (suc n) (ground arith))) in
          rw (nonzero, odd, ih) (odd_step x a ∙ ap word twice)
    ]

-- `power` is the power modulo 2^64, for every `uint64_t` exponent.
pub power_lem : (x n : ℕ) → n < 2 ^ 64 → power x n ≡ x ^ n % 2 ^ 64
unfolding power
power_lem x n h = power_rounds_lem 64 x n h

power_eight : (i : ℕ) → i ≤ 20 → (power 8 i ≡ 8 ^ i) × (8 ^ i ≤ 2 ^ 60)
power_eight i h =
    let le : 8 ^ i ≤ 8 ^ 20 = pow-le-pow_right {n = 8} (omega arith) h in
    (power_lem 8 i (omega arith) ∙ mod-eq_of_lt (omega arith), omega arith)

convert_loop_lem :
    (k i acc : ℕ) (ds : List ℕ)
    → AllBelow 8 ds
    → length ds < k
    → i + length ds ≤ 20
    → acc < 8 ^ i
    → convert_loop k (from_digits 10 ds) i acc ≡ some (acc + 8 ^ i * from_digits 8 ds)
unfolding convert_loop
convert_loop_lem zero i acc ds all more fits small = absurd (omega arith)
convert_loop_lem (suc k) i acc [] all more fits small = ap some (omega arith)
convert_loop_lem (suc k) i acc (d ∷ ds) all more fits small =
    let p = power_eight i (omega arith) in
    let grow : 8 ^ (i + 1) ≡ 8 ^ i * 8 = pow-add 8 i 1 in
    let last : (d + 10 * from_digits 10 ds) % 10 ≡ d = omega arith in
    let rest : (d + 10 * from_digits 10 ds) / 10 ≡ from_digits 10 ds = omega arith in
    let bound : d * 8 ^ i ≤ 7 * 8 ^ i = grind arith in
    let sum : (acc + d * 8 ^ i) % 2 ^ 64 ≡ acc + d * 8 ^ i = omega arith in
    let ih =
      convert_loop_lem k (i + 1) (acc + d * 8 ^ i) ds all.1 (omega arith) (omega arith)
        (omega arith) in
    elim (Bool-cases ((d + 10 * from_digits 10 ds) == 0)) [
      | inl e ↦
          let z : d + 8 * from_digits 8 ds ≡ 0 =
            from_digits-zero 10 8 (d ∷ ds) (omega arith) (ground arith) in
          rw (e, z) (ap some (omega arith))
      | inr e ↦ rw (e, last, rest, p.0, sum, ih) (ap some (rw grow (omega arith)))
    ]

-- `convertOctalToDecimal` of a number whose decimal digits are all octal ones, 20 of them at most, is the number that
-- they stand for in base 8.
pub convert_octal_to_decimal_lem :
    (ds : List ℕ)
    → AllBelow 8 ds
    → length ds ≤ 20
    → convert_octal_to_decimal (from_digits 10 ds) ≡ some (from_digits 8 ds)
unfolding convert_octal_to_decimal
convert_octal_to_decimal_lem ds all h =
    convert_loop_lem 21 0 0 ds all (omega arith) (omega arith) (omega arith) ∙ ap some (omega arith)

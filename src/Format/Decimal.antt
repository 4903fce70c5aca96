-- ===== src/Format/Decimal.antt =====
-- `%d` of `printf` in libc/printf.c.
use native.Mathlib.Nat.{
  pow-suc, mod-add-div, mod-lt, mul-le-mul_left, pow-le-pow_right, div-lt_iff_lt-mul,
}
use preemptive_unix_os.Base.{
  ℕ, zero, suc, ◌+◌, ◌-◌, ◌*◌, ◌/◌, ◌%◌, ◌^◌, ◌≤◌, ◌<◌, ◌≡◌, ◌⊎◌, ◌∙◌, refl, sym, ap, inl, inr,
  List, [], ◌∷◌, ◌++◌, arith, ◌==◌, ltb, leb, true, false, Bool-cases, ok, fault, ◌>>=◌, some,
}
use preemptive_unix_os.Format.{above, digits_from, decimal, each, print_int}
use preemptive_unix_os.Format.RoundTrip.{atoi_loop_digit, atoi_digit}
use preemptive_unix_os.Tarfs.Octal.{atoi_loop, with_sign, atoi}

ten : (j : ℕ) → j ≤ 8 → (10 ^ suc j ≡ 10 ^ j * 10) × (10 ^ j ≤ 10 ^ 8)
ten j h = (pow-suc 10 j, pow-le-pow_right {n = 10} (omega arith) h)

nine : (j : ℕ) → (j == 9) ≡ true → j ≡ 9
nine j h = ground arith

-- The power of ten above a number below 10^9.
above_lem :
    (k j i : ℕ)
    → i < 10 ^ 9
    → j ≤ 9
    → 9 < k + j
    → (m : ℕ) × (above k i (10 ^ j) ≡ ok (10 ^ m)) × (i < 10 ^ m) × (m ≤ 9)
unfolding above
above_lem zero j i h l f = absurd (omega arith)
above_lem (suc k) j i h l f = elim (Bool-cases (ltb i (10 ^ j))) [
  | inl here ↦ (j, rw here refl, ground arith, l)
  | inr more_than ↦ elim (Bool-cases (j == 9)) [
    | inl last ↦
        let top : 10 ^ j ≡ 10 ^ 9 = ap (λ (e : ℕ). 10 ^ e) (nine j last) in absurd (ground arith)
    | inr more ↦
        let (step, bound) = ten j (ground arith) in
        let (m, run, below, le) = above_lem k (suc j) i h (ground arith) (omega arith) in
        let small : leb (2 ^ 31) (10 ^ j * 10) ≡ false = ground arith in
        (m, rw (more_than, small, sym step) run, below, le)
  ]
]

-- A number from 10^9 on has no power of ten above it among the values of an `int`.
above-overflow : (k j i : ℕ) → 10 ^ 9 ≤ i → j ≤ 9 → 9 < k + j → above k i (10 ^ j) ≡ fault
unfolding above
above-overflow zero j i h l f = absurd (omega arith)
above-overflow (suc k) j i h l f = elim (Bool-cases (j == 9)) [
  | inl last ↦
      let top : 10 ^ j ≡ 10 ^ 9 = ap (λ (e : ℕ). 10 ^ e) (nine j last) in
      let no : ltb i (10 ^ j) ≡ false = ground arith in
      let big : leb (2 ^ 31) (10 ^ j * 10) ≡ true = ground arith in rw (no, big) refl
  | inr more ↦
      let (step, bound) = ten j (ground arith) in
      let no : ltb i (10 ^ j) ≡ false = ground arith in
      let small : leb (2 ^ 31) (10 ^ j * 10) ≡ false = ground arith in
      rw (no, small, sym step) (above-overflow k (suc j) i h (ground arith) (omega arith))
]

next_total :
    (acc d p r i big : ℕ) → big ≡ p * 10 → r + p * d ≡ i → (acc * 10 + d) * p + r ≡ acc * big + i
next_total acc d p r i big e f = omega (arith, ap (λ (t : ℕ). acc * t) e)

-- What the loop over the powers of ten promises for a number below 10^m.
record Printed (m k i acc : ℕ) (str : List ℕ) : Type 0 where
  s : List ℕ
  run : digits_from k i (10 ^ m / 10) ≡ ok s
  read : atoi_loop (s ++ str) acc ≡ atoi_loop str (acc * 10 ^ m + i)
  starts : (m ≡ 0) ⊎ ((d : ℕ) × (s' : List ℕ) × (d < 10) × (s ≡ (48 + d) ∷ s'))

digits_from-Printed :
    (m k i acc : ℕ) (str : List ℕ)
    → i < 10 ^ m
    → m < k
    → acc * 10 ^ m + i < 2 ^ 64
    → Printed m k i acc str
unfolding digits_from
digits_from-Printed m zero i acc str h f b = absurd (omega arith)
digits_from-Printed zero (suc k) i acc str h f b =
    let z : acc ≡ acc * 1 + i = omega arith in
    record { s = []; run = refl; read = ap (λ (a : ℕ). atoi_loop str a) z; starts = inl refl }
digits_from-Printed (suc j) (suc k) i acc str h f b =
    let p = 10 ^ j in
    let grow : 10 ^ suc j ≡ p * 10 = pow-suc 10 j in
    let nonneg : 0 ≤ j = omega arith in
    let pos : 10 ^ 0 ≤ p = pow-le-pow_right {n = 10} (omega arith) nonneg in
    let whole = mod-add-div i p in
    let d = i / p in
    let digit : d < 10 = (div-lt_iff_lt-mul {k = p} (omega arith)).1 (omega arith) in
    let total : (acc * 10 + d) * p + i % p ≡ acc * 10 ^ suc j + i =
      next_total acc d p (i % p) i (10 ^ suc j) grow whole in
    let low : i % p < p = mod-lt i {m = p} (omega arith) in
    let room : (acc * 10 + d) * 1 ≤ (acc * 10 + d) * p = mul-le-mul_left (acc * 10 + d) pos in
    let rest = digits_from-Printed j k (i % p) (acc * 10 + d) str low (omega arith) (omega arith) in
    let hp : 10 ^ suc j / 10 ≡ p = omega arith in
    let nonzero : (p == 0) ≡ false = ground arith in
    record {
      s = (48 + d) ∷ rest.s;
      run = rw (hp, nonzero, rest.run) refl;
      read =
          atoi_loop_digit d acc (rest.s ++ str) digit (omega arith)
          ∙ rest.read
          ∙ ap (λ (a : ℕ). atoi_loop str a) total;
      starts = inr (d, rest.s, digit, refl);
    }

-- Where the power of ten is at hand, the characters are a number that `atoi` reads back.
decimal_lem :
    (i : ℕ)
    → 0 < i
    → i < 10 ^ 9
    → (s : List ℕ) × (decimal i ≡ ok s)
      × (atoi_loop (s ++ (0 ∷ [])) 0 ≡ ok (some i))
      × ((d : ℕ) × (s' : List ℕ) × (d < 10) × (s ≡ (48 + d) ∷ s'))
unfolding decimal atoi_loop
decimal_lem i p h =
    let (m, run, below, le) = above_lem 11 0 i h (omega arith) (omega arith) in
    let w = digits_from-Printed m 11 i 0 (0 ∷ []) below (omega arith) (omega arith) in
    (
      w.s,
      rw (run, w.run) refl,
      w.read ∙ ap (λ (a : ℕ). ok (some a)) (omega arith),
      elim w.starts [
        | inl z ↦ let one : 10 ^ m ≡ 1 = ap (λ (e : ℕ). 10 ^ e) z in absurd (omega arith)
        | inr starts ↦ starts
      ],
    )

minus_lem : (i : ℕ) → 0 < i → i < 2 ^ 64 → i * (2 ^ 64 - 1) % 2 ^ 64 ≡ 2 ^ 64 - i
minus_lem i p h = omega arith

-- For 0 < i < 10^9, `%d` of `i` writes the characters of a number that `atoi` reads back as `i`, one at a time, and
-- `%d` of `-i` writes "-" before them, which `atoi` reads back as the 64-bit pattern of `-i`.
pub print_int_lem :
    (i : ℕ)
    → 0 < i
    → i < 10 ^ 9
    → (s : List ℕ) × (print_int i ≡ ok (each s))
      × (atoi (s ++ (0 ∷ [])) ≡ ok i)
      × (print_int (2 ^ 32 - i) ≡ ok ((45 ∷ 0 ∷ [], 1) ∷ each s))
      × (atoi (45 ∷ s ++ (0 ∷ [])) ≡ ok (2 ^ 64 - i))
unfolding print_int with_sign atoi
print_int_lem i p h =
    let (s, run, read, (d, s', digit, e)) = decimal_lem i p h in
    let nz : (i == 0) ≡ false = ground arith in
    let pos : ltb i (2 ^ 31) ≡ true = ground arith in
    let nz' : (2 ^ 32 - i == 0) ≡ false = ground arith in
    let neg : ltb (2 ^ 32 - i) (2 ^ 31) ≡ false = ground arith in
    let some_minus : (2 ^ 32 - i == 2 ^ 31) ≡ false = ground arith in
    let back : 2 ^ 32 - (2 ^ 32 - i) ≡ i = omega arith in
    let one : i * 1 % 2 ^ 64 ≡ i = omega arith in
    let minus : i * (2 ^ 64 - 1) % 2 ^ 64 ≡ 2 ^ 64 - i = minus_lem i p (omega arith) in
    (
      s,
      rw (nz, pos, run) refl,
      ap (λ (l : List ℕ). atoi (l ++ (0 ∷ []))) e
          ∙ atoi_digit d (s' ++ (0 ∷ [])) digit
          ∙ ap (λ (l : List ℕ). atoi_loop (l ++ (0 ∷ [])) 0 >>= λ r. ok (with_sign 1 r)) (sym e)
          ∙ ap (λ r. r >>= λ x. ok (with_sign 1 x)) read
          ∙ ap ok one,
      rw (nz', neg, some_minus, back, run) refl,
      ap (λ r. r >>= λ x. ok (with_sign (2 ^ 64 - 1) x)) read ∙ ap ok minus,
    )

-- `%d` of a number from 10^9 on is undefined: the power of ten that it looks for is no `int`.
pub print_int-overflow : (i : ℕ) → 10 ^ 9 ≤ i → i < 2 ^ 31 → print_int i ≡ fault
unfolding print_int decimal
print_int-overflow i h l =
    let nz : (i == 0) ≡ false = ground arith in
    let pos : ltb i (2 ^ 31) ≡ true = ground arith in
    rw (nz, pos, above-overflow 11 0 i h (omega arith) (omega arith)) refl

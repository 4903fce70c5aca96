-- ===== src/Tarfs/Octal/Field.antt =====
-- A numeric field of an archive header, as sys/tarfs.c reads it: `convertOctalToDecimal(atoi(field))`.
use native.Mathlib.Nat.{pow-le-pow_right}
use preemptive_unix_os.Base.{
  false, ◌==◌, ◌-◌, AllBelow, from_digits, from_digits-lt, ℕ, ◌+◌, ◌*◌, ◌%◌, ◌^◌, ◌≤◌, ◌<◌, ◌≡◌,
  ◌∙◌, refl, ap, some, List, [], ◌∷◌, ◌++◌, arith, length, ok, ◌>>=◌,
}
use preemptive_unix_os.Tarfs.Octal.{atoi_loop, with_sign, atoi, convert_octal_to_decimal}
use preemptive_unix_os.Tarfs.Octal.Value.{convert_octal_to_decimal_lem}

-- The digits `es` as characters, the first of them first.
abbrev pub characters : List ℕ → List ℕ
characters [] = []
characters (e ∷ es) = (48 + e) ∷ characters es

-- `es` read from its end, before `ds`: the digits with the lowest one first.
abbrev pub reverse_onto : List ℕ → List ℕ → List ℕ
reverse_onto [] ds = ds
reverse_onto (e ∷ es) ds = reverse_onto es (e ∷ ds)

AllBelow-reverse_onto :
    (n : ℕ) (es ds : List ℕ) → AllBelow n es → AllBelow n ds → AllBelow n (reverse_onto es ds)
AllBelow-reverse_onto n [] ds a b = b
AllBelow-reverse_onto n (e ∷ es) ds a b = AllBelow-reverse_onto n es (e ∷ ds) a.1 (a.0, b)

length-reverse_onto : (es ds : List ℕ) → length (reverse_onto es ds) ≡ length es + length ds
length-reverse_onto [] ds = omega arith
length-reverse_onto (e ∷ es) ds = length-reverse_onto es (e ∷ ds) ∙ omega arith

AllBelow-le : (n m : ℕ) (ds : List ℕ) → n ≤ m → AllBelow n ds → AllBelow m ds
AllBelow-le n m [] h a = a
AllBelow-le n m (d ∷ ds) h a = (omega (arith, a.0), AllBelow-le n m ds h a.1)

below : (ds : List ℕ) → AllBelow 8 ds → length ds ≤ 19 → from_digits 10 ds < 10 ^ 19
below ds a h =
    let lt = from_digits-lt 10 ds (AllBelow-le 8 10 ds (omega arith) a) in
    let le : 10 ^ length ds ≤ 10 ^ 19 = pow-le-pow_right {n = 10} (omega arith) h in omega arith

atoi_loop-digits :
    (es ds rest : List ℕ)
    → AllBelow 8 es
    → AllBelow 8 ds
    → length es + length ds ≤ 19
    → atoi_loop (characters es ++ (0 ∷ rest)) (from_digits 10 ds)
      ≡ ok (some (from_digits 10 (reverse_onto es ds)))
unfolding atoi_loop
atoi_loop-digits [] ds rest a b h = refl
atoi_loop-digits (e ∷ es) ds rest a b h =
    let small = below (e ∷ ds) (a.0, b) (omega arith) in
    let step : (from_digits 10 ds * 10 + (48 + e) + 2 ^ 64 - 48) % 2 ^ 64
        ≡ from_digits 10 (e ∷ ds) =
      omega (arith, a.0) in
    rw step (ground (arith, a.0, atoi_loop-digits es (e ∷ ds) rest a.1 (a.0, b)))

-- A string of digits has no sign.
atoi-unsigned :
    (es rest : List ℕ)
    → AllBelow 8 es
    → atoi (characters es ++ (0 ∷ rest))
      ≡ (atoi_loop (characters es ++ (0 ∷ rest)) 0 >>= λ r. ok (with_sign 1 r))
unfolding atoi
atoi-unsigned [] rest a = refl
atoi-unsigned (e ∷ es) rest a =
    let minus : (48 + e == b'-') ≡ false = ground arith in
    let plus : (48 + e == b'+') ≡ false = ground arith in rw (minus, plus) refl

-- A field of up to 19 octal digits, ended by a NUL, is read as the number that the digits stand for in base 8.
pub octal_field :
    (es rest : List ℕ)
    → AllBelow 8 es
    → length es ≤ 19
    → (atoi (characters es ++ (0 ∷ rest)) >>= λ n. ok (convert_octal_to_decimal n))
      ≡ ok (some (from_digits 8 (reverse_onto es [])))
unfolding with_sign
octal_field es rest a h =
    let all = AllBelow-reverse_onto 8 es [] a tt in
    let len = length-reverse_onto es [] in
    let fits : from_digits 10 (reverse_onto es []) * 1 % 2 ^ 64
        ≡ from_digits 10 (reverse_onto es []) =
      omega (arith, below (reverse_onto es []) all (omega (arith, len))) in
    rw (atoi-unsigned es rest a, atoi_loop-digits es [] rest a tt (omega arith), fits)
      (ap ok (convert_octal_to_decimal_lem (reverse_onto es []) all (omega (arith, len))))

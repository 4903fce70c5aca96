-- ===== src/Format/RoundTrip.antt =====
-- The number that `convert` of libc/printf.c prints in base 10 is the one that `atoi` of sys/tarfs.c reads back.
use preemptive_unix_os.Base.{
  ℕ, zero, suc, ◌+◌, ◌-◌, ◌*◌, ◌%◌, ◌^◌, ◌<◌, ◌≡◌, ◌≢◌, ◌∙◌, refl, sym, ap, List, [], ◌∷◌, ◌++◌,
  arith, ◌==◌, false, ok, ◌>>=◌, from_digits, AllBelow,
}
use preemptive_unix_os.Format.{digit_char, convert}
use preemptive_unix_os.Format.Convert.{spelled, Digits, convert_lem}
use preemptive_unix_os.Tarfs.Octal.{atoi_loop, with_sign, atoi}

pub digit_char-decimal : (d : ℕ) → d < 10 → digit_char d ≡ 48 + d
unfolding digit_char
digit_char-decimal d h = ground arith

-- One more digit.
pub atoi_loop_digit :
    (d acc : ℕ) (str : List ℕ)
    → d < 10
    → acc * 10 + d < 2 ^ 64
    → atoi_loop ((48 + d) ∷ str) acc ≡ atoi_loop str (acc * 10 + d)
unfolding atoi_loop
atoi_loop_digit d acc str h small =
    let step : (acc * 10 + (48 + d) + 2 ^ 64 - 48) % 2 ^ 64 ≡ acc * 10 + d = omega arith in
    rw step (ground arith)

atoi_loop-spelled :
    (ds out : List ℕ)
    → AllBelow 10 ds
    → from_digits 10 ds < 2 ^ 64
    → atoi_loop (spelled ds out) 0 ≡ atoi_loop out (from_digits 10 ds)
atoi_loop-spelled [] out b h = refl
atoi_loop-spelled (d ∷ ds) out b h =
    let e : from_digits 10 ds * 10 + d ≡ d + 10 * from_digits 10 ds = omega arith in
    atoi_loop-spelled ds (digit_char d ∷ out) b.1 (omega arith)
    ∙ ap (λ (c : ℕ). atoi_loop (c ∷ out) (from_digits 10 ds)) (digit_char-decimal d b.0)
    ∙ atoi_loop_digit d (from_digits 10 ds) out b.0 (omega arith)
    ∙ ap (λ (acc : ℕ). atoi_loop out acc) e

-- A string that starts with a digit has no sign.
pub atoi_digit :
    (d : ℕ) (str : List ℕ)
    → d < 10
    → atoi ((48 + d) ∷ str) ≡ (atoi_loop ((48 + d) ∷ str) 0 >>= λ r. ok (with_sign 1 r))
unfolding atoi
atoi_digit d str h =
    let minus : (48 + d == b'-') ≡ false = ground arith in
    let plus : (48 + d == b'+') ≡ false = ground arith in rw (minus, plus) refl

atoi-spelled :
    (d : ℕ) (ds out : List ℕ)
    → d < 10
    → AllBelow 10 ds
    → atoi (spelled ds ((48 + d) ∷ out))
      ≡ (atoi_loop (spelled ds ((48 + d) ∷ out)) 0 >>= λ r. ok (with_sign 1 r))
atoi-spelled d [] out h b = atoi_digit d out h
atoi-spelled d (e ∷ ds) out h b =
    rw (digit_char-decimal e b.0) (atoi-spelled e ds ((48 + d) ∷ out) b.0 b.1)

spelled-append : (ds out rest : List ℕ) → spelled ds out ++ rest ≡ spelled ds (out ++ rest)
spelled-append [] out rest = refl
spelled-append (d ∷ ds) out rest = spelled-append ds (digit_char d ∷ out) rest

atoi-decimal :
    (ds : List ℕ)
    → AllBelow 10 ds
    → from_digits 10 ds < 2 ^ 64
    → from_digits 10 ds ≢ 0
    → atoi (spelled ds (0 ∷ [])) ≡ ok (from_digits 10 ds)
unfolding with_sign atoi_loop
atoi-decimal [] b h ne = absurd (ne refl)
atoi-decimal (d ∷ ds) b h ne =
    let all = atoi_loop-spelled (d ∷ ds) (0 ∷ []) b h in
    let one : from_digits 10 (d ∷ ds) * 1 % 2 ^ 64 ≡ from_digits 10 (d ∷ ds) = omega arith in
    let head = digit_char-decimal d b.0 in
    ap (λ (c : ℕ). atoi (spelled ds (c ∷ 0 ∷ []))) head
    ∙ atoi-spelled d ds (0 ∷ []) b.0 b.1
    ∙ ap (λ (c : ℕ). atoi_loop (spelled ds (c ∷ 0 ∷ [])) 0 >>= λ r. ok (with_sign 1 r)) (sym head)
    ∙ ap (λ r. r >>= λ x. ok (with_sign 1 x)) all
    ∙ ap ok one

spelled-read :
    (n : ℕ) (d : Digits 10 n) → n < 2 ^ 64 → n ≢ 0 → atoi (spelled d.ds [] ++ (0 ∷ [])) ≡ ok n
spelled-read n d h ne =
    rw (spelled-append d.ds [] (0 ∷ [])) (
      atoi-decimal d.ds d.below (omega (arith, d.value)) (λ e. ne (sym d.value ∙ e))
      ∙ ap ok d.value)

zero_read : atoi (48 ∷ 0 ∷ []) ≡ ok 0
unfolding atoi atoi_loop with_sign
zero_read = refl

-- `atoi` reads back what `convert` writes in base 10, for every 64-bit number.
pub atoi-convert : (n : ℕ) → n < 2 ^ 64 → (convert n 10 >>= λ s. atoi (s ++ (0 ∷ []))) ≡ ok n
unfolding convert
atoi-convert zero h = zero_read
atoi-convert (suc m) h =
    let (d, e) = convert_lem (suc m) 10 (omega arith) h (omega arith) in
    rw e (spelled-read (suc m) d h (omega arith))

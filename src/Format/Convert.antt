-- ===== src/Format/Convert.antt =====
-- `convert` of libc/printf.c: the digits that it writes.
use native.Mathlib.Nat.{pow-suc, mod-add-div, mod-lt, mul-le-mul_right}
use preemptive_unix_os.Base.{
  ℕ, zero, suc, ◌+◌, ◌*◌, ◌/◌, ◌%◌, ◌^◌, ◌≤◌, ◌<◌, ◌≡◌, ◌≢◌, ◌∙◌, refl, ap, List, [], ◌∷◌, arith,
  ◌==◌, false, ok, from_digits, AllBelow,
}
use preemptive_unix_os.Format.{digit_char, convert_loop, convert}

-- The characters of the digits `ds`, the last one first, before `out`.
abbrev pub spelled : List ℕ → List ℕ → List ℕ
spelled [] out = out
spelled (d ∷ ds) out = spelled ds (digit_char d ∷ out)

-- The digits of a number, the lowest first: what `convert` promises to write.
pub record Digits (base n : ℕ) : Type 0 where
  pub ds : List ℕ
  pub below : AllBelow base ds
  pub value : from_digits base ds ≡ n

-- A base of 2 or more makes a quotient at least halve.
half_at_least : (n base k : ℕ) → 2 ≤ base → n < 2 ^ suc k → n / base < 2 ^ k
half_at_least n base k b h =
    let p = pow-suc 2 k in
    let whole = mod-add-div n base in
    let grow : 2 * (n / base) ≤ base * (n / base) = mul-le-mul_right (n / base) b in omega arith

convert_loop_lem :
    (k n base : ℕ) (out : List ℕ)
    → 2 ≤ base
    → n < 2 ^ k
    → (d : Digits base n) × (convert_loop (suc k) n base out ≡ ok (spelled d.ds out))
unfolding convert_loop
convert_loop_lem k zero base out b h = (record { ds = []; below = tt; value = refl }, refl)
convert_loop_lem zero (suc n) base out b h = absurd (omega arith)
convert_loop_lem (suc k) (suc n) base out b h =
    let (rest, e) =
      convert_loop_lem k (suc n / base) base (digit_char (suc n % base) ∷ out) b
        (half_at_least (suc n) base k b h) in
    let nonzero : (suc n == 0) ≡ false = ground arith in
    let small = mod-lt (suc n) {m = base} (omega arith) in
    (
      record {
        ds = suc n % base ∷ rest.ds;
        below = (small, rest.below);
        value = ap (λ (q : ℕ). suc n % base + base * q) rest.value ∙ mod-add-div (suc n) base;
      },
      rw nonzero e,
    )

-- `convert` writes the digits of every 64-bit number, in any base from 2 on, the highest digit first, and "0" for 0.
pub convert_lem :
    (n base : ℕ)
    → 2 ≤ base
    → n < 2 ^ 64
    → n ≢ 0
    → (d : Digits base n) × (convert n base ≡ ok (spelled d.ds []))
unfolding convert
convert_lem n base b h ne =
    let nonzero : (n == 0) ≡ false = ground arith in rw nonzero (convert_loop_lem 64 n base [] b h)

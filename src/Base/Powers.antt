-- ===== src/Base/Powers.antt =====
-- Powers, products under a remainder, and numbers as lists of digits.
use Prim.Native.Nat.{ℕ, zero, suc, ◌+◌, ◌*◌, ◌/◌, ◌%◌, ◌^◌, ◌<◌}
use mathlib.Core.Path.{◌≡◌, refl, sym, ap₂, ◌∙◌}
use mathlib.Core.List.{List, [], ◌∷◌}
use native.Mathlib.Nat.{pow-zero, pow-suc, mod-add-div, add-mul-mod_self_left}
use native.Mathlib.Omega.{arith}
use preemptive_unix_os.Base.Lists.{length}

pub pow-add : (x a b : ℕ) → x ^ (a + b) ≡ x ^ a * x ^ b
pow-add x zero b = let e : 0 + b ≡ b = omega arith in rw (e, pow-zero x) (omega arith)
pow-add x (suc a) b =
    let e : suc a + b ≡ suc (a + b) = omega arith in
    rw (e, pow-suc x (a + b), pow-suc x a, pow-add x a b) (omega arith)

mod-product : (m r q s p : ℕ) → (r + m * q) * (s + m * p) % m ≡ r * s % m
mod-product m r q s p =
    let e : (r + m * q) * (s + m * p) ≡ r * s + m * (q * s + r * p + q * (m * p)) = omega arith in
    rw e (add-mul-mod_self_left (r * s) m (q * s + r * p + q * (m * p)))

pub mod-mul-mod : (m a b : ℕ) → (a % m) * (b % m) % m ≡ a * b % m
mod-mul-mod m a b =
    sym (mod-product m (a % m) (a / m) (b % m) (b / m))
    ∙ ap₂ (λ (x y : ℕ). x * y % m) (mod-add-div a m) (mod-add-div b m)

-- The number with these digits, the lowest first.
abbrev pub from_digits : ℕ → List ℕ → ℕ
from_digits base [] = 0
from_digits base (d ∷ ds) = d + base * from_digits base ds

abbrev pub AllBelow : ℕ → List ℕ → Type 0
AllBelow n [] = Unit {0}
AllBelow n (d ∷ ds) = (d < n) × AllBelow n ds

pub from_digits-lt :
    (base : ℕ) (ds : List ℕ) → AllBelow base ds → from_digits base ds < base ^ length ds
from_digits-lt base [] h = rw (pow-zero base) (omega arith)
from_digits-lt base (d ∷ ds) h =
    let ih = from_digits-lt base ds h.1 in rw (pow-suc base (length ds)) (grind arith)

-- A number is 0 in one base where its digits are 0 in another.
pub from_digits-zero :
    (base base' : ℕ) (ds : List ℕ) → 0 < base → from_digits base ds ≡ 0 → from_digits base' ds ≡ 0
from_digits-zero base base' [] h e = refl
from_digits-zero base base' (d ∷ ds) h e =
    let none_left : from_digits base ds ≡ 0 = grind arith in
    let ih = from_digits-zero base base' ds h none_left in rw ih (omega arith)

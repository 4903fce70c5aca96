-- ===== src/Base/Tests.antt =====
-- Boolean tests on the native numbers, the conditional, and the result of code that may fault.
use Prim.Native.Nat.{ℕ, ◌<◌, compare, Ordering}
use mathlib.Core.Path.{◌≡◌, refl}
use mathlib.Core.Logic.{◌↔◌, ◌⊎◌, inl, inr}
use mathlib.Core.Bool.{Bool, true, false}
use mathlib.Core.Option.{Option, none, some}
use native.Mathlib.Omega.{arith}

abbrev pub ltb : ℕ → ℕ → Bool
ltb a b = elim (compare a b) [ Ordering.lt ↦ true | _ ↦ false ]

abbrev pub leb : ℕ → ℕ → Bool
leb a b = elim (compare a b) [ Ordering.gt ↦ false | _ ↦ true ]

infix 50 ◌==◌
abbrev pub ◌==◌ : ℕ → ℕ → Bool
a == b = elim (compare a b) [ Ordering.eq ↦ true | _ ↦ false ]

infix 1 if◌then◌else◌
abbrev pub if◌then◌else◌ {ℓ} : {A : Type ℓ} → Bool → A → A → A
if true then x else y = x
if false then x else y = y

pub lt→ltb : (a b : ℕ) → a < b → ltb a b ≡ true
lt→ltb a b h = ground arith

pub ==_iff : (a b : ℕ) → ((a == b) ≡ true) ↔ (a ≡ b)
==_iff a b = ground arith

pub Bool-cases : (b : Bool) → (b ≡ true) ⊎ (b ≡ false)
Bool-cases true = inl refl
Bool-cases false = inr refl

pub Option-cases {ℓ} : {A : Type ℓ} (o : Option A) → (o ≡ none) ⊎ ((a : A) × (o ≡ some a))
Option-cases none = inl refl
Option-cases (some a) = inr (a, refl)

-- `fault` is undefined behaviour in C: a NULL dereference, or an access outside its object. `hang`
-- is a `while(1);`.
pub data Run {ℓ} (A : Type ℓ) : Type ℓ where
  ok : A → Run A
  fault : Run A
  hang : Run A

infixl 5 ◌>>=◌
abbrev pub ◌>>=◌ {ℓ κ} : {A : Type ℓ} {B : Type κ} → Run A → (A → Run B) → Run B
ok a >>= f = f a
fault >>= f = fault
hang >>= f = hang

-- What there must be one of.
abbrev pub or_fault {ℓ} : {A : Type ℓ} → Option A → Run A
or_fault none = fault
or_fault (some value) = ok value

-- Total correctness: the code does not fault, and what it returns satisfies `P`.
abbrev pub Ensures {ℓ} : {A : Type ℓ} → (A → Type 0) → Run A → Type 0
Ensures P (ok a) = P a
Ensures P fault = ⊥
Ensures P hang = ⊥

pub Ensures-weaken {ℓ} :
    {A : Type ℓ} {P Q : A → Type 0} (m : Run A) → ((x : A) → P x → Q x) → Ensures P m → Ensures Q m
Ensures-weaken (ok x) f h = f x h
Ensures-weaken fault f h = absurd h
Ensures-weaken hang f h = absurd h

pub Ensures-bind {ℓ κ} :
    {A : Type ℓ} {B : Type κ} {P : A → Type 0} (Q : B → Type 0) (m : Run A) (f : A → Run B)
    → Ensures P m
    → ((x : A) → P x → Ensures Q (f x))
    → Ensures Q (m >>= f)
Ensures-bind Q (ok x) f h g = g x h
Ensures-bind Q fault f h g = absurd h
Ensures-bind Q hang f h g = absurd h

-- A function that differs from `f` at `i`, where it is `v`: a write to an array of any length.
abbrev pub update {ℓ} : {A : Type ℓ} → (ℕ → A) → ℕ → A → ℕ → A
update f i v j = if j == i then v else f j

pub Ensures-and {ℓ} :
    {A : Type ℓ} (P Q : A → Type 0) (m : Run A)
    → Ensures P m
    → Ensures Q m
    → Ensures (λ x. P x × Q x) m
Ensures-and P Q (ok x) p q = (p, q)
Ensures-and P Q fault p q = absurd p
Ensures-and P Q hang p q = absurd p

-- Two steps after one, and the same step in another form.
pub bind-then :
    {A B C : Type 0} (m : Run A) (f : A → Run B) (g : B → Run C) (h : A → Run C)
    → ((x : A) → (f x >>= g) ≡ h x)
    → ((m >>= f) >>= g) ≡ (m >>= h)
bind-then (ok x) f g h e = e x
bind-then fault f g h e = refl
bind-then hang f g h e = refl

pub bind-cong :
    {A B : Type 0} (m : Run A) (f g : A → Run B) → ((x : A) → f x ≡ g x) → (m >>= f) ≡ (m >>= g)
bind-cong (ok x) f g e = e x
bind-cong fault f g e = refl
bind-cong hang f g e = refl

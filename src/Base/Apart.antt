-- ===== src/Base/Apart.antt =====
-- Lists of addresses without repetition.
use Prim.Native.Nat.{ℕ}
use mathlib.Core.Logic.{◌≢◌}
use mathlib.Core.List.{List, [], ◌∷◌, ◌++◌}

abbrev pub Misses : ℕ → List ℕ → Type 0
Misses p [] = Unit {0}
Misses p (q ∷ qs) = (p ≢ q) × Misses p qs

abbrev pub Distinct : List ℕ → Type 0
Distinct [] = Unit {0}
Distinct (p ∷ ps) = Misses p ps × Distinct ps

pub Misses-append : (x : ℕ) (ps qs : List ℕ) → Misses x ps → Misses x qs → Misses x (ps ++ qs)
Misses-append x [] qs m n = n
Misses-append x (p ∷ ps) qs (ne, m) n = (ne, Misses-append x ps qs m n)

pub Misses-left : (x : ℕ) (ps qs : List ℕ) → Misses x (ps ++ qs) → Misses x ps
Misses-left x [] qs m = tt
Misses-left x (p ∷ ps) qs (ne, m) = (ne, Misses-left x ps qs m)

pub Misses-right : (x : ℕ) (ps qs : List ℕ) → Misses x (ps ++ qs) → Misses x qs
Misses-right x [] qs m = m
Misses-right x (p ∷ ps) qs (ne, m) = Misses-right x ps qs m

pub Distinct-right : (ps qs : List ℕ) → Distinct (ps ++ qs) → Distinct qs
Distinct-right [] qs d = d
Distinct-right (p ∷ ps) qs (m, d) = Distinct-right ps qs d

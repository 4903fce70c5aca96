-- ===== src/Base/Memory.antt =====
-- `memcpy` between byte arrays: a read or a write outside the array is a fault.
use Prim.Native.Nat.{ℕ, zero, suc, ◌+◌, ◌≤◌}
use mathlib.Core.Path.{◌≡◌, refl, ap}
use mathlib.Core.List.{List, [], ◌∷◌, ◌++◌}
use native.Mathlib.Omega.{arith}
use native.Mathlib.Numerals.{unary_clauses}
use mathlib.Core.List.{append-nil}
use preemptive_unix_os.Base.Tests.{Run, ok, fault, leb, if◌then◌else◌}
use preemptive_unix_os.Base.Lists.{length, take, drop}

-- The array with `data` written over its elements from index `i` on.
abbrev pub splice : List ℕ → ℕ → List ℕ → List ℕ
splice xs i [] = xs
splice [] i (d ∷ ds) = []
splice (x ∷ xs) zero (d ∷ ds) = d ∷ splice xs zero ds
splice (x ∷ xs) (suc i) (d ∷ ds) = x ∷ splice xs i (d ∷ ds)

-- The source of a `memcpy`: the `n` bytes from index `i` on.
abbrev pub fetch : List ℕ → ℕ → ℕ → Run (List ℕ)
fetch xs i n = if leb (i + n) (length xs) then ok (take n (drop i xs)) else fault

-- The destination of a `memcpy`.
abbrev pub store : List ℕ → ℕ → List ℕ → Run (List ℕ)
store xs i bytes = if leb (i + length bytes) (length xs) then ok (splice xs i bytes) else fault

pub length-splice : (xs : List ℕ) (i : ℕ) (ds : List ℕ) → length (splice xs i ds) ≡ length xs
length-splice xs i [] = refl
length-splice [] i (d ∷ ds) = refl
length-splice (x ∷ xs) zero (d ∷ ds) = ap suc (length-splice xs zero ds)
length-splice (x ∷ xs) (suc i) (d ∷ ds) = ap suc (length-splice xs i (d ∷ ds))

pub splice-zero :
    (xs ds : List ℕ) → length ds ≤ length xs → splice xs 0 ds ≡ ds ++ drop (length ds) xs
splice-zero xs [] h = refl
splice-zero [] (d ∷ ds) h = absurd (omega arith)
splice-zero (x ∷ xs) (d ∷ ds) h = ap (λ l. d ∷ l) (splice-zero xs ds (omega arith))

take-splice :
    (xs ds : List ℕ) (k : ℕ)
    → k + length ds ≤ length xs
    → take (k + length ds) (splice xs k ds) ≡ take k xs ++ ds
take-splice xs [] k h = simp (unary_clauses, append-nil)
take-splice [] (d ∷ ds) k h = absurd (omega arith)
take-splice (x ∷ xs) (d ∷ ds) zero h =
    simp unary_clauses (ap (λ l. d ∷ l) (ground (arith, take-splice xs ds 0)))
take-splice (x ∷ xs) (d ∷ ds) (suc k) h =
    let e : suc k + suc (length ds) ≡ suc (k + suc (length ds)) = omega arith in
    rw e (ap (λ l. x ∷ l) (take-splice xs (d ∷ ds) k (omega arith)))

-- Writing just behind a window extends the window by what is written.
pub window-splice :
    (xs ds : List ℕ) (r k : ℕ)
    → r + k + length ds ≤ length xs
    → take (k + length ds) (drop r (splice xs (r + k) ds)) ≡ take k (drop r xs) ++ ds
window-splice xs ds zero k h =
    let e : 0 + k ≡ k = omega arith in rw e (take-splice xs ds k (omega arith))
window-splice xs [] (suc r) k h = simp (unary_clauses, append-nil)
window-splice [] (d ∷ ds) (suc r) k h = absurd (omega arith)
window-splice (x ∷ xs) (d ∷ ds) (suc r) k h = ground (arith, window-splice xs (d ∷ ds) r k)

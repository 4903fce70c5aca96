-- ===== src/Strings/Copy.antt =====
-- `strlen`, `strcpy`, `strncpy` and `memset` of libc/.
use preemptive_unix_os.Base.{
  ℕ, zero, suc, ◌+◌, ◌%◌, ◌^◌, leb, false, ◌≤◌, ◌<◌, ◌≡◌, refl, List, [], ◌∷◌, ◌++◌, ok, arith,
  length, take, drop, replicate, min,
}
use preemptive_unix_os.Strings.{IsText, terminated, strlen, strcpy, strncpy, strncpy_loop, memset}

-- `strlen` counts the characters before the NUL.
pub strlen_lem : (s rest : List ℕ) → IsText s → strlen (terminated s rest) ≡ ok (length s)
unfolding strlen
strlen_lem [] rest t = refl
strlen_lem (c ∷ s) rest t = ground (arith, strlen_lem s rest)

-- `strcpy` into an object with room for the string and its NUL writes those and leaves the rest of
-- the object alone.
pub strcpy_lem :
    (dest s rest : List ℕ)
    → IsText s
    → length s < length dest
    → strcpy dest (terminated s rest) ≡ ok (terminated s (drop (length s + 1) dest))
unfolding strcpy
strcpy_lem [] s rest t h = absurd (omega arith)
strcpy_lem (d ∷ dest) [] rest t h = ground arith
strcpy_lem (d ∷ dest) (c ∷ s) rest t h = ground (arith, strcpy_lem dest s rest)

strncpy_loop_lem :
    (dest s rest : List ℕ) (n : ℕ)
    → IsText s
    → min n (length s) < length dest
    → strncpy_loop dest (terminated s rest) n
      ≡ ok (terminated (take n s) (drop (min n (length s) + 1) dest))
unfolding strncpy_loop
strncpy_loop_lem [] s rest n t h = absurd (omega arith)
strncpy_loop_lem (d ∷ dest) [] rest zero t h = ground arith
strncpy_loop_lem (d ∷ dest) (c ∷ s) rest zero t h = ground arith
strncpy_loop_lem (d ∷ dest) [] rest (suc n) t h = ground arith
strncpy_loop_lem (d ∷ dest) (c ∷ s) rest (suc n) t h =
    ground (arith, strncpy_loop_lem dest s rest n)

-- `strncpy` copies the first `n` characters of a string, or all of them if there are fewer, and a
-- NUL behind them: up to `n + 1` bytes. `n` is an `int` that is not negative.
pub strncpy_lem :
    (dest s rest : List ℕ) (n : ℕ)
    → IsText s
    → n < 2 ^ 31
    → min n (length s) < length dest
    → strncpy dest (terminated s rest) n
      ≡ ok (terminated (take n s) (drop (min n (length s) + 1) dest))
unfolding strncpy
strncpy_lem dest s rest n t small h =
    let whole : n % 2 ^ 32 ≡ n = omega arith in
    let sign : leb (2 ^ 31) n ≡ false = ground arith in
    rw (whole, sign) (strncpy_loop_lem dest s rest n t h)

pub memset_lem :
    (xs : List ℕ) (c n : ℕ)
    → n ≤ length xs
    → memset xs c n ≡ ok (replicate n (c % 256) ++ drop n xs)
unfolding memset
memset_lem xs c zero h = refl
memset_lem [] c (suc n) h = absurd (omega arith)
memset_lem (x ∷ xs) c (suc n) h = ground (arith, memset_lem xs c n)

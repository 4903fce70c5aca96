-- ===== src/Strings/Compare.antt =====
-- `strcmp` and `strncmp` of libc/: a result of 0 means that the strings are equal.
use preemptive_unix_os.Base.{
  ℕ, zero, suc, ◌-◌, ◌<◌, ◌≡◌, ◌↔◌, refl, List, [], ◌∷◌, ◌++◌, ok, arith, take,
}
use preemptive_unix_os.Strings.{IsText, terminated, char_diff, strcmp, strncmp_from, strncmp}

char_diff-eq : (a b : ℕ) → a < 256 → b < 256 → char_diff a b ≡ 0 → a ≡ b
unfolding char_diff
char_diff-eq a b h k e = ground arith

char_diff_self : (a : ℕ) → a < 256 → char_diff a a ≡ 0
unfolding char_diff
char_diff_self a h = ground arith

cons_eq : (a b : ℕ) (s t : List ℕ) → ◌≡◌ {A = List ℕ} (a ∷ s) (b ∷ t) → (a ≡ b) × (s ≡ t)
cons_eq a b s t e = ground arith

-- `strcmp` returns 0 exactly for equal strings.
pub strcmp-zero_iff :
    (s t r q : List ℕ)
    → IsText s
    → IsText t
    → (strcmp (terminated s r) (terminated t q) ≡ ok 0) ↔ (s ≡ t)
unfolding strcmp
strcmp-zero_iff [] [] r q hs ht = (λ e. refl, λ e. ground (arith, char_diff_self 0))
strcmp-zero_iff [] (b ∷ t) r q hs ht = (λ e. ground (arith, char_diff-eq 0 b), λ e. cc)
strcmp-zero_iff (a ∷ s) [] r q hs ht = (λ e. ground (arith, char_diff-eq a 0), λ e. cc)
strcmp-zero_iff (a ∷ s) (b ∷ t) r q hs ht =
    let ih = strcmp-zero_iff s t r q hs.2 ht.2 in
    (λ e. ground (arith, ih.0, char_diff-eq a b), λ e. ground (arith, ih.1, cons_eq a b s t e))

strncmp_from-zero_iff :
    (s t r q : List ℕ) (left : ℕ)
    → IsText s
    → IsText t
    → (strncmp_from (terminated s r) (terminated t q) left ≡ ok 0)
      ↔ (take (suc left) (s ++ (0 ∷ [])) ≡ take (suc left) (t ++ (0 ∷ [])))
unfolding strncmp_from
strncmp_from-zero_iff [] [] r q zero hs ht = (λ e. refl, λ e. ground (arith, char_diff_self 0))
strncmp_from-zero_iff [] [] r q (suc n) hs ht = (λ e. refl, λ e. ground (arith, char_diff_self 0))
strncmp_from-zero_iff [] (b ∷ t) r q zero hs ht =
    (λ e. ground (arith, char_diff-eq 0 b), λ e. ground arith)
strncmp_from-zero_iff [] (b ∷ t) r q (suc n) hs ht =
    (λ e. ground (arith, char_diff-eq 0 b), λ e. ground arith)
strncmp_from-zero_iff (a ∷ s) [] r q zero hs ht =
    (λ e. ground (arith, char_diff-eq a 0), λ e. ground arith)
strncmp_from-zero_iff (a ∷ s) [] r q (suc n) hs ht =
    (λ e. ground (arith, char_diff-eq a 0), λ e. ground arith)
strncmp_from-zero_iff (a ∷ s) (b ∷ t) r q zero hs ht =
    (λ e. ground (arith, char_diff-eq a b), λ e. ground (arith, char_diff_self a))
strncmp_from-zero_iff (a ∷ s) (b ∷ t) r q (suc n) hs ht =
    let ih = strncmp_from-zero_iff s t r q n hs.2 ht.2 in
    (λ e. ground (arith, ih.0, char_diff-eq a b), λ e. ground (arith, ih.1))

-- `strncmp` with `n` of 1 or more returns 0 exactly for strings that agree, NUL included, in their
-- first `n` characters.
pub strncmp-zero_iff :
    (s t r q : List ℕ) (n : ℕ)
    → IsText s
    → IsText t
    → 0 < n
    → (strncmp (terminated s r) (terminated t q) n ≡ ok 0)
      ↔ (take n (s ++ (0 ∷ [])) ≡ take n (t ++ (0 ∷ [])))
unfolding strncmp
strncmp-zero_iff s t r q zero hs ht h = absurd (omega arith)
strncmp-zero_iff s t r q (suc n) hs ht h =
    let e : suc n - 1 ≡ n = omega arith in rw e (strncmp_from-zero_iff s t r q n hs ht)

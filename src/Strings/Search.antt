-- ===== src/Strings/Search.antt =====
-- `strstr` of libc/strstr.c: it finds the first place where the substring starts.
use preemptive_unix_os.Base.{
  ℕ, ◌<◌, ◌≡◌, refl, List, [], ◌∷◌, ok, arith, length, ◌==◌, Bool, true, false, Option, none, some,
  ◌&&◌, if◌then◌else◌,
}
use preemptive_unix_os.Strings.{IsText, terminated, starts_at, strstr_from, strstr}

-- `sub` is a prefix of `main`.
unfoldable pub is_prefix : List ℕ → List ℕ → Bool
is_prefix [] main = true
is_prefix (b ∷ sub) [] = false
is_prefix (b ∷ sub) (a ∷ main) = a == b && is_prefix sub main

-- The suffix of `main` at the first place where `sub` starts.
unfoldable pub first_at : List ℕ → List ℕ → Option (List ℕ)
first_at sub [] = none
first_at sub (a ∷ main) = if is_prefix sub (a ∷ main) then some (a ∷ main) else first_at sub main

-- What `strstr` returns for an answer about texts: the same place in memory.
abbrev pub in_memory : List ℕ → Option (List ℕ) → Option (List ℕ)
in_memory rest none = none
in_memory rest (some s) = some (terminated s rest)

starts_at-prefix :
    (main sub r q : List ℕ)
    → IsText main
    → IsText sub
    → starts_at (terminated main r) (terminated sub q) ≡ ok (is_prefix sub main)
unfolding starts_at is_prefix
starts_at-prefix [] [] r q hm hs = refl
starts_at-prefix [] (b ∷ sub) r q hm hs = ground arith
starts_at-prefix (a ∷ main) [] r q hm hs = ground arith
starts_at-prefix (a ∷ main) (b ∷ sub) r q hm hs = ground (arith, starts_at-prefix main sub r q)

strstr_from-first :
    (main sub r q : List ℕ)
    → IsText main
    → IsText sub
    → strstr_from (terminated main r) (terminated sub q) ≡ ok (in_memory r (first_at sub main))
unfolding strstr_from first_at
strstr_from-first [] sub r q hm hs = refl
strstr_from-first (a ∷ main) sub r q hm hs =
    ground (arith, starts_at-prefix (a ∷ main) sub r q, strstr_from-first main sub r q)

-- `strstr` with a substring that is not empty returns the first place where it starts, or NULL where
-- it starts nowhere.
pub strstr_lem :
    (main sub r q : List ℕ)
    → IsText main
    → IsText sub
    → 0 < length sub
    → strstr (terminated main r) (terminated sub q) ≡ ok (in_memory r (first_at sub main))
unfolding strstr
strstr_lem main [] r q hm hs h = absurd (omega arith)
strstr_lem main (b ∷ sub) r q hm hs h = ground (arith, strstr_from-first main (b ∷ sub) r q)

-- ===== src/Strings.antt =====
-- The string functions of libc/ and sys/ (strlen.c, strcpy.c, strncpy.c, strcmp.c, strncmp.c,
-- memset.c, libc/strstr.c, sys/memcpy.c). A `char *` is the list of the bytes from it to the end of its
-- object, so a loop that misses the NUL faults.
pub mod Copy
pub mod Compare
pub mod Search
pub mod Tests
use preemptive_unix_os.Base.{
  ℕ, zero, suc, ◌+◌, ◌-◌, ◌%◌, ◌^◌, Bool, true, false, ◌&&◌, not, Option, none, some, List, [], ◌∷◌,
  ◌++◌, Run, ok, fault, ◌>>=◌, if◌then◌else◌, ltb, leb, ◌==◌, ◌≡◌, ◌≢◌, ◌<◌,
}

unfoldable pub strlen : List ℕ → Run ℕ
strlen [] = fault
strlen (c ∷ s) = if c == 0 then ok 0 else (strlen s >>= λ count. ok (count + 1))

-- The destination after the copy.
unfoldable pub strcpy : List ℕ → List ℕ → Run (List ℕ)
strcpy [] source = fault
strcpy (d ∷ dest) [] = fault
strcpy (d ∷ dest) (c ∷ source) =
    if c == 0 then ok (0 ∷ dest) else (strcpy dest source >>= λ rest. ok (c ∷ rest))

-- `n` counts down where the source counts up to it. The NUL is written also after `n` bytes.
unfoldable pub strncpy_loop : List ℕ → List ℕ → ℕ → Run (List ℕ)
strncpy_loop [] source n = fault
strncpy_loop (d ∷ dest) [] n = fault
strncpy_loop (d ∷ dest) (c ∷ source) zero = ok (0 ∷ dest)
strncpy_loop (d ∷ dest) (c ∷ source) (suc n) =
    if c == 0 then ok (0 ∷ dest) else (strncpy_loop dest source n >>= λ rest. ok (c ∷ rest))

-- `n` is narrowed to an `int`; a negative one copies nothing.
unfoldable pub strncpy : List ℕ → List ℕ → ℕ → Run (List ℕ)
strncpy dest source n =
    strncpy_loop dest source (if leb (2 ^ 31) (n % 2 ^ 32) then 0 else n % 2 ^ 32)

-- A `char` is signed: as an `int`, kept as its bit pattern.
abbrev pub char_to_int : ℕ → ℕ
char_to_int c = if ltb c 128 then c else c + 2 ^ 32 - 256

-- `*firstString - *secondString`
unfoldable pub char_diff : ℕ → ℕ → ℕ
char_diff a b = (char_to_int a + 2 ^ 32 - char_to_int b) % 2 ^ 32

unfoldable pub strcmp : List ℕ → List ℕ → Run ℕ
strcmp [] second = fault
strcmp (a ∷ first) [] = fault
strcmp (a ∷ first) (b ∷ second) =
    let rest = strcmp first second in
    if not (a == 0) && not (b == 0) && a == b then rest else ok (char_diff a b)

-- `left` is `n - count`: the source counts from 1.
unfoldable pub strncmp_from : List ℕ → List ℕ → ℕ → Run ℕ
strncmp_from [] second left = fault
strncmp_from (a ∷ first) [] left = fault
strncmp_from (a ∷ first) (b ∷ second) zero = ok (char_diff a b)
strncmp_from (a ∷ first) (b ∷ second) (suc left) =
    let rest = strncmp_from first second left in
    if not (a == 0) && not (b == 0) && a == b then rest else ok (char_diff a b)

unfoldable pub strncmp : List ℕ → List ℕ → ℕ → Run ℕ
unfolding strncmp_from
strncmp first second n = strncmp_from first second (n - 1)

-- The inner loop of `strstr`: true if it runs to the end of the substring.
unfoldable pub starts_at : List ℕ → List ℕ → Run Bool
starts_at [] sub = fault
starts_at (a ∷ main) [] = fault
starts_at (a ∷ main) (b ∷ sub) =
    let rest = starts_at main sub in
    if not (a == 0) && not (b == 0) && a == b then rest else ok (b == 0)

-- The rest of the string from the first place where the substring starts; `none` is NULL.
unfoldable pub strstr_from : List ℕ → List ℕ → Run (Option (List ℕ))
strstr_from [] sub = fault
strstr_from (a ∷ main) sub =
    let rest = strstr_from main sub in
    if a == 0
    then ok none
    else (starts_at (a ∷ main) sub >>= λ found. if found then ok (some (a ∷ main)) else rest)

unfoldable pub strstr : List ℕ → List ℕ → Run (Option (List ℕ))
unfolding strstr_from
strstr string [] = fault
strstr string (b ∷ sub) = if b == 0 then ok (some string) else strstr_from string (b ∷ sub)

-- `memset` and the `memcpy` of sys/: the destination after the loop.
unfoldable pub memset : List ℕ → ℕ → ℕ → Run (List ℕ)
memset string c zero = ok string
memset [] c (suc n) = fault
memset (d ∷ string) c (suc n) = memset string c n >>= λ rest. ok (c % 256 ∷ rest)

-- A string in memory: its characters, none of them NUL, and the NUL with what follows it.
abbrev pub IsText : List ℕ → Type 0
IsText [] = Unit {0}
IsText (c ∷ s) = (c ≢ 0) × (c < 256) × IsText s

abbrev pub terminated : List ℕ → List ℕ → List ℕ
terminated s rest = s ++ (0 ∷ rest)

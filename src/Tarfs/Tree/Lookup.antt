-- ===== src/Tarfs/Tree/Lookup.antt =====
-- `lookUpForFile` of sys/tarfs.c on a path from the root.
use preemptive_unix_os.Base.{
  ℕ, suc, ◌+◌, ◌-◌, ◌<◌, ◌≡◌, ◌≢◌, refl, false, List, [], ◌∷◌, ◌++◌, some, ok, ◌==◌, length, take,
  take_all, arith, Ensures,
}
use preemptive_unix_os.Strings.{strlen}
use preemptive_unix_os.Tarfs.Node.{TarFile}
use preemptive_unix_os.Tarfs.Path.Parse.{IsName, AreNames, joined, parse_file_name-joined}
use preemptive_unix_os.Tarfs.Tree.{num_files, is_root, descend_path, look_up_for_file}
use preemptive_unix_os.Tarfs.Tree.Refine.{
  Tree, Stands, Narrow, AllTexts, Finds, at_path, descend-Finds,
}

-- The string ends.
abbrev Ends : List ℕ → Type 0
Ends str = (n : ℕ) × (strlen str ≡ ok n)

Ends-name : (name rest : List ℕ) → IsName name → Ends rest → Ends (name ++ rest)
unfolding strlen
Ends-name [] rest n h = h
Ends-name (c ∷ name) rest (nz, ns, n) h =
    let (k, e) = Ends-name name rest n h in
    let f : (c == 0) ≡ false = ground arith in (k + 1, rw (f, e) refl)

zero_end : (rest : List ℕ) → Ends (0 ∷ rest)
unfolding strlen
zero_end rest = (0, refl)

slash_end : (str : List ℕ) → Ends str → Ends (b'/' ∷ str)
unfolding strlen
slash_end str (m, e) = (m + 1, rw e refl)

Ends-joined :
    (name : List ℕ) (names : List (List ℕ)) (rest : List ℕ)
    → AreNames (name ∷ names)
    → Ends (joined (name ∷ names) (0 ∷ rest))
Ends-joined name [] rest (n, some_char, k, all) = Ends-name name (0 ∷ rest) n (zero_end rest)
Ends-joined name (next ∷ names) rest (n, some_char, k, all) =
    Ends-name name (b'/' ∷ joined (next ∷ names) (0 ∷ rest)) n
      (slash_end (joined (next ∷ names) (0 ∷ rest)) (Ends-joined next names rest all))

-- A string with two characters at least is not "/".
is_root-longer : (c : ℕ) (str : List ℕ) → c ≢ 0 → Ends str → is_root (b'/' ∷ c ∷ str) ≡ ok false
unfolding is_root strlen
is_root-longer c str nz (k, e) =
    let f : (c == 0) ≡ false = ground arith in
    let g : (k + 1 + 1 == 1) ≡ false = ground arith in rw (f, e, g) refl

is_root-joined :
    (name : List ℕ) (names : List (List ℕ)) (rest : List ℕ)
    → AreNames (name ∷ names)
    → is_root (b'/' ∷ joined (name ∷ names) (0 ∷ rest)) ≡ ok false
is_root-joined [] names rest (n, some_char, k, all) = absurd (omega arith)
is_root-joined (c ∷ name) [] rest ((nz, ns, n), some_char, k, all) =
    is_root-longer c (name ++ (0 ∷ rest)) nz (Ends-name name (0 ∷ rest) n (zero_end rest))
is_root-joined (c ∷ name) (next ∷ names) rest ((nz, ns, n), some_char, k, all) =
    is_root-longer c (name ++ (b'/' ∷ joined (next ∷ names) (0 ∷ rest))) nz (
      Ends-name name (b'/' ∷ joined (next ∷ names) (0 ∷ rest)) n
        (slash_end (joined (next ∷ names) (0 ∷ rest)) (Ends-joined next names rest all)))

-- `lookUpForFile` of a path from the root, of one to 127 names with slashes between them, each of 1 to 127 characters, in a
-- tree where no directory has more than 100 children, and with memory from `kmalloc` for the array of names and for each
-- name: it finds the file that the path names in the tree of files, and NULL where there is none.
pub look_up_for_file-Finds :
    (memory : ℕ) (files : ℕ → TarFile) (tarfsroot : ℕ) (cwd : List ℕ) (t : Tree) (name : List ℕ)
    (names : List (List ℕ)) (rest : List ℕ)
    → Stands files tarfsroot t
    → Narrow (suc num_files) t
    → AreNames (name ∷ names)
    → AllTexts (name ∷ names)
    → length names < 127
    → length names + 1 < memory
    → Ensures
        (Finds (suc num_files) files (at_path (some t) (name ∷ names)))
        (look_up_for_file memory files tarfsroot cwd (b'/' ∷ joined (name ∷ names) (0 ∷ rest)))
unfolding look_up_for_file descend_path
look_up_for_file-Finds memory files tarfsroot cwd t name names rest s w all texts h mem =
    let parsed = (parse_file_name-joined (memory - 1) name names rest all h).0 (omega arith) in
    let some : (memory == 0) ≡ false = ground arith in
    let whole : take (suc (length names)) (name ∷ names) ≡ name ∷ names =
      take_all (suc (length names)) (name ∷ names) (omega arith) in
    rw (is_root-joined name names rest all, some, parsed, whole)
      (descend-Finds (suc num_files) files tarfsroot t (name ∷ names) s w texts)

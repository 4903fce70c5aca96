-- ===== src/Tarfs/Tree.antt =====
-- The tree of files of sys/tarfs.c: `lookUpForFile`. A `struct tar_file *` is an address, 0 for NULL. A loop over the
-- children of a directory gets one round more than there are files. `memory` is the number of calls of `kmalloc` before the
-- first one that returns NULL, which is written through.
pub mod Refine
pub mod Lookup
use preemptive_unix_os.Base.{
  ℕ, zero, suc, ◌+◌, ◌-◌, Bool, true, false, List, [], ◌∷◌, ◌++◌, Run, ok, fault, hang, ◌>>=◌,
  if◌then◌else◌, ◌==◌, ◌&&◌, take, drop, length, replicate,
}
use preemptive_unix_os.Strings.{strcmp, strlen, strcpy, terminated}
use preemptive_unix_os.Tarfs.Node.{TarFile}
use preemptive_unix_os.Tarfs.Path.{parse_file_name, max_length_filename}

abbrev pub num_files : ℕ
num_files = 100

-- The first file from `cur` on with the name, or NULL.
unfoldable pub find_sibling : ℕ → (ℕ → TarFile) → ℕ → List ℕ → Run ℕ
find_sibling zero files cur name = hang
find_sibling (suc n) files cur name =
    let rest = find_sibling n files (files cur).next name in
    if cur == 0
    then ok 0
    else (strcmp (files cur).file_name (terminated name []) >>= λ d.
        if d == 0 then ok cur else rest)

-- The loop over the names of a path, from the directory `cur` on.
unfoldable pub descend : ℕ → (ℕ → TarFile) → ℕ → List (List ℕ) → Run ℕ
descend rounds files cur [] = ok cur
descend rounds files cur (name ∷ names) =
    find_sibling rounds files (files cur).child name >>= λ next.
    if next == 0 then ok 0 else descend rounds files next names

-- The path is "/".
unfoldable pub is_root : List ℕ → Run Bool
is_root path = strlen path >>= λ n. elim path [ [] ↦ fault | c ∷ rest ↦ ok (n == 1 && c == b'/') ]

-- The names that count of a path, from the directory `cur` on.
unfoldable pub descend_path : ℕ → (ℕ → TarFile) → ℕ → List ℕ → Run ℕ
descend_path memory files cur path = parse_file_name memory path >>= λ (args, count).
    descend (suc num_files) files cur (take count args)

-- The current directory, from its path behind the first character. The copy of the path and the array of names take a call of
-- `kmalloc` each.
unfoldable pub current_directory : ℕ → (ℕ → TarFile) → ℕ → List ℕ → Run ℕ
current_directory memory files tarfsroot cwd =
    if memory == 0
    then fault
    else (strcpy (replicate max_length_filename 0) cwd >>= λ cur_dir. is_root cur_dir >>= λ at_root.
        if at_root
        then ok tarfsroot
        else if memory == 1
        then fault
        else descend_path (memory - 2) files tarfsroot (drop 1 cur_dir))

-- `lookUpForFile`. The array of names takes a call of `kmalloc`, and each name in it one.
unfoldable pub look_up_for_file : ℕ → (ℕ → TarFile) → ℕ → List ℕ → List ℕ → Run ℕ
look_up_for_file memory files tarfsroot cwd [] = fault
look_up_for_file memory files tarfsroot cwd (c ∷ rest) = is_root (c ∷ rest) >>= λ at_root.
    if at_root
    then ok tarfsroot
    else if memory == 0
    then fault
    else if c == b'/'
    then descend_path (memory - 1) files tarfsroot rest
    else (parse_file_name (memory - 1) (c ∷ rest) >>= λ (args, count).
        current_directory (memory - 1 - length args) files tarfsroot cwd >>= λ cur.
        if cur == 0 then ok 0 else descend (suc num_files) files cur (take count args))

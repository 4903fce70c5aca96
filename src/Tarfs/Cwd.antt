-- ===== src/Tarfs/Cwd.antt =====
-- The current directory of a process: `sys_getcwd` and `sys_chdir` of sys/syscall.c. The path is the 128 bytes at `cwd`.
-- `memory n` is the number of calls of `kmalloc` before the first one that returns NULL, in the `n`-th look-up of a path or
-- call of `parseFileName`; the copy of the path is taken to get memory.
pub mod Getcwd
pub mod Tests
use preemptive_unix_os.Base.{
  or_fault, ℕ, zero, suc, ◌-◌, ◌^◌, Bool, true, false, ◌&&◌, Option, none, some, List, [], ◌∷◌, Run,
  ok, fault, hang, ◌>>=◌, if◌then◌else◌, leb, ◌==◌, not, take, replicate, minus_one,
}
use preemptive_unix_os.Strings.{strcmp, strcpy, strlen, terminated}
use preemptive_unix_os.Tarfs.Octal.{convert_octal_to_decimal}
use preemptive_unix_os.Tarfs.Node.{TarFile, dirtype}
use preemptive_unix_os.Tarfs.Path.{parse_file_name, max_length_filename}
use preemptive_unix_os.Tarfs.Tree.{is_root, look_up_for_file}

-- The buffer afterwards, or NULL where the path does not fit; its second test is never reached.
unfoldable pub sys_getcwd : List ℕ → List ℕ → ℕ → Run (Option (List ℕ))
sys_getcwd cwd buf size =
    strlen cwd >>= λ n. if leb size n then ok none else (strcpy buf cwd >>= λ buf'. ok (some buf'))

-- `-1` as an `int`
abbrev pub failure : ℕ
failure = 2 ^ 32 - 1

-- The file is a directory that everybody may enter.
unfoldable pub may_enter : TarFile → Run Bool
may_enter file = or_fault (convert_octal_to_decimal 755) >>= λ perm.
    ok (file.file_type == dirtype && file.file_perm == perm)

-- The directory's path, or -1 and the path `cur_dir` again.
unfoldable pub enter : TarFile → List ℕ → List ℕ → Run (ℕ × List ℕ)
enter file cur_dir cwd = may_enter file >>= λ good.
    if good
    then (strcpy cwd file.file_path >>= λ cwd'. ok (0, cwd'))
    else (strcpy cwd cur_dir >>= λ cwd'. ok (failure, cwd'))

abbrev pub parent_of : (ℕ → TarFile) → ℕ → ℕ
parent_of files node = if (files node).parent == 0 then node else (files node).parent

-- The loop over the names of the path. A name is looked up from the directory that was entered last.
unfoldable pub enter_all :
    (ℕ → ℕ) → (ℕ → TarFile) → ℕ → List ℕ → ℕ → List (List ℕ) → List ℕ → Run (ℕ × List ℕ)
enter_all memory files tarfsroot cur_dir cur_node [] cwd = ok (0, cwd)
enter_all memory files tarfsroot cur_dir cur_node (name ∷ names) cwd =
    strcmp (terminated name []) (46 ∷ 46 ∷ 0 ∷ []) >>= λ up.
    strcmp (terminated name []) (46 ∷ 0 ∷ []) >>= λ here.
    if up == 0
    then (let node = parent_of files cur_node in
        enter (files node) cur_dir cwd >>= λ (r, cwd').
        if r == 0
        then enter_all (λ n. memory (suc n)) files tarfsroot cur_dir node names cwd'
        else ok (r, cwd'))
    else if here == 0
    then enter_all (λ n. memory (suc n)) files tarfsroot cur_dir cur_node names cwd
    else (look_up_for_file (memory 0) files tarfsroot cwd (terminated name []) >>= λ node.
        if node == 0
        then (strcpy cwd cur_dir >>= λ cwd'. ok (failure, cwd'))
        else (enter (files node) cur_dir cwd >>= λ (r, cwd').
            if r == 0
            then enter_all (λ n. memory (suc n)) files tarfsroot cur_dir node names cwd'
            else ok (r, cwd')))

-- `chdir("..")`: a file that cannot be entered leaves the path alone.
unfoldable pub chdir_up : ℕ → (ℕ → TarFile) → ℕ → List ℕ → Run (ℕ × List ℕ)
chdir_up memory files tarfsroot cwd = strcpy (replicate max_length_filename 0) cwd >>= λ cur_dir.
    look_up_for_file memory files tarfsroot cwd cur_dir >>= λ node.
    if node == 0
    then ok (failure, cwd)
    else (let file = files (parent_of files node) in
        may_enter file >>= λ good.
        if good then (strcpy cwd file.file_path >>= λ cwd'. ok (0, cwd')) else ok (failure, cwd))

-- The other paths, `rest` from the root or from the current directory.
unfoldable pub chdir_path : (ℕ → ℕ) → (ℕ → TarFile) → ℕ → List ℕ → Bool → List ℕ → Run (ℕ × List ℕ)
chdir_path memory files tarfsroot cwd is_relative_path rest =
    strcpy (replicate max_length_filename 0) cwd >>= λ cur_dir.
    parse_file_name (memory 0) rest >>= λ (nodes, count).
    (if is_relative_path
      then look_up_for_file (memory 1) files tarfsroot cwd cur_dir
      else ok tarfsroot)
    >>= λ cur_node.
        if cur_node == 0
        then fault
        else (strcpy cwd (files cur_node).file_path >>= λ cwd'.
            enter_all (λ n. memory (suc (suc n))) files tarfsroot cur_dir cur_node
              (take count nodes) cwd')

-- The result, and the path afterwards.
unfoldable pub sys_chdir : (ℕ → ℕ) → (ℕ → TarFile) → ℕ → List ℕ → List ℕ → Run (ℕ × List ℕ)
sys_chdir memory files tarfsroot cwd [] = fault
sys_chdir memory files tarfsroot cwd (c ∷ rest) = strcmp (c ∷ rest) (46 ∷ 46 ∷ 0 ∷ []) >>= λ up.
    if up == 0
    then chdir_up (memory 0) files tarfsroot cwd
    else (strcmp (c ∷ rest) (46 ∷ 0 ∷ []) >>= λ here.
        if here == 0
        then ok (0, cwd)
        else (is_root (c ∷ rest) >>= λ at_root.
            if at_root
            then (strcpy cwd (files tarfsroot).file_path >>= λ cwd'. ok (0, cwd'))
            else if c == b'/'
            then chdir_path memory files tarfsroot cwd false rest
            else chdir_path memory files tarfsroot cwd true (c ∷ rest)))

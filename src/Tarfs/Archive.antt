-- ===== src/Tarfs/Archive.antt =====
-- The archive of sys/tarfs.c: `getFile` and `setupHeirarchyOfTarfs`. A `char *` into a header is the list of bytes from the
-- field to the end of the header. `memory` is the number of calls of
-- `kmalloc` before the first one that returns NULL, in the look-up of a path or in `parseFileName`; the other calls of
-- `kmalloc` are taken to give memory. A pointer wraps round at 2^64.
pub mod Ends
pub mod Tests
use preemptive_unix_os.Base.{
  ℕ, zero, suc, ◌+◌, ◌-◌, ◌*◌, ◌/◌, ◌^◌, Bool, true, false, Option, none, some, List, [], ◌∷◌, ◌++◌,
  Run, ok, fault, add64, hang, ◌>>=◌, if◌then◌else◌, leb, ◌==◌, update, or_fault, take, drop,
  replicate, get_elem?,
}
use preemptive_unix_os.Page.Align.{align_file_up}
use preemptive_unix_os.Strings.{strcmp, strcpy, strlen, terminated}
use preemptive_unix_os.Tarfs.Octal.{atoi, convert_octal_to_decimal}
use preemptive_unix_os.Tarfs.Node.{TarFile, dirtype}
use preemptive_unix_os.Tarfs.Path.{mystrcat, parse_file_name}
use preemptive_unix_os.Tarfs.Tree.{num_files, look_up_for_file}

-- `struct posix_header_ustar`, the fields that are read, with the memory behind the header.
pub record Header : Type 0 where
  pub name : List ℕ
  pub mode : List ℕ
  pub size : List ℕ
  pub typeflag : List ℕ
  pub content : List ℕ

-- The headers at their addresses, and where the archive starts and ends.
pub record Archive : Type 0 where
  pub headers : ℕ → Header
  pub tarfs_start : ℕ
  pub tarfs_end : ℕ

-- `convertOctalToDecimal(atoi(field))`; a 64-bit number has 20 digits at most.
unfoldable pub octal_number : List ℕ → Run ℕ
octal_number field = atoi field >>= λ n. or_fault (convert_octal_to_decimal n)

-- The header behind a file of this size, whose header is at `tarf_obj`.
unfoldable pub next_header : ℕ → ℕ → ℕ
next_header tarf_obj file_size =
    if file_size == 0
    then add64 tarf_obj 512
    else add64 (add64 tarf_obj (align_file_up file_size)) 512

-- The loop of `getFile`: the address behind the first header with the name, or NULL at an empty name or at the end.
unfoldable pub find_file : ℕ → Archive → ℕ → List ℕ → Run ℕ
find_file zero a tarf_obj str = hang
find_file (suc n) a tarf_obj str =
    let h = a.headers tarf_obj in
    if leb a.tarfs_end tarf_obj
    then ok 0
    else (strcmp h.name (0 ∷ []) >>= λ empty.
        if empty == 0
        then ok 0
        else (octal_number h.size >>= λ file_size. strcmp str h.name >>= λ d.
            if d == 0
            then ok (add64 tarf_obj 512)
            else find_file n a (next_header tarf_obj file_size) str))

-- Each round goes on by 512 bytes at least, unless the pointer wraps round.
abbrev pub archive_rounds : Archive → ℕ
archive_rounds a = suc ((a.tarfs_end - a.tarfs_start + 511) / 512)

-- The path without its first character, in 100 bytes.
unfoldable pub without_slash : List ℕ → Run (List ℕ)
without_slash path = strlen path >>= λ fsize.
    if leb 101 fsize then fault else ok (terminated (take (fsize - 1) (drop 1 path)) [])

unfoldable pub get_file : ℕ → Archive → (ℕ → TarFile) → ℕ → List ℕ → List ℕ → Run ℕ
get_file memory a files tarfsroot cwd filename =
    look_up_for_file memory files tarfsroot cwd filename >>= λ file_ptr.
    if file_ptr == 0
    then ok 0
    else (without_slash (files file_ptr).file_path >>= λ str.
        find_file (archive_rounds a) a a.tarfs_start str)

-- The files at their addresses, the root, and the list of those in no use.
pub record Hierarchy : Type 0 where
  pub files : ℕ → TarFile
  pub tarfsroot : ℕ
  pub tar_file_free_list : ℕ

unfoldable pub tar_file_alloc : Hierarchy → ℕ × Hierarchy
tar_file_alloc s =
    let new_file = s.tar_file_free_list in
    (
      new_file,
      if new_file == 0 then s else record s { tar_file_free_list = (s.files new_file).next },
    )

-- A string of this text in 100 bytes.
abbrev pub new_string : List ℕ → Run (List ℕ)
new_string text = strcpy (replicate 100 0) text

unfoldable pub set_up_root : Archive → Hierarchy → Run Hierarchy
set_up_root a s =
    let (root, s') = tar_file_alloc s in
    octal_number (55 ∷ 53 ∷ 53 ∷ 0 ∷ []) >>= λ perm. new_string (47 ∷ 0 ∷ []) >>= λ slash.
    if root == 0
    then fault
    else ok (record s' {
      files = update s'.files root (record {
        next = 0;
        child = 0;
        parent = 0;
        file_name = slash;
        file_path = slash;
        file_size = 0;
        start = [];
        file_type = dirtype;
        file_perm = perm;
      });
      tarfsroot = root;
    })

-- The siblings from `node` on, up to the one with the name: there is none behind the last one.
unfoldable pub find_named : ℕ → (ℕ → TarFile) → ℕ → List ℕ → Run ℕ
find_named zero files node name = hang
find_named (suc n) files node name =
    let rest = find_named n files (files node).next name in
    if node == 0
    then fault
    else (strcmp (files node).file_name (terminated name []) >>= λ d.
        if d == 0 then ok node else rest)

unfoldable pub find_parent : (ℕ → TarFile) → ℕ → List (List ℕ) → Run ℕ
find_parent files node [] = ok node
find_parent files node (name ∷ names) =
    find_named (suc num_files) files (files node).child name >>= λ child.
    find_parent files child names

unfoldable pub last_sibling : ℕ → (ℕ → TarFile) → ℕ → Run ℕ
last_sibling zero files node = hang
last_sibling (suc n) files node =
    let rest = last_sibling n files (files node).next in
    if (files node).next == 0 then ok node else rest

-- The file `temp` behind the children of `parent`.
unfoldable pub add_child : (ℕ → TarFile) → ℕ → ℕ → Run (ℕ → TarFile)
add_child files parent temp =
    let a = update files temp (record (files temp) { parent = parent }) in
    let child = (a parent).child in
    if child == 0
    then ok (update a parent (record (a parent) { child = temp }))
    else (last_sibling (suc num_files) a child >>= λ last.
        ok (update a last (record (a last) { next = temp })))

-- The new file of a header, before it has a place in the tree.
unfoldable pub new_file : Header → ℕ → List ℕ → Run TarFile
new_file h file_size base_name = new_string (terminated base_name []) >>= λ file_name.
    new_string (47 ∷ 0 ∷ []) >>= λ slash. mystrcat slash h.name >>= λ file_path.
    atoi h.typeflag >>= λ file_type. octal_number h.mode >>= λ perm. ok (record {
      next = 0;
      child = 0;
      parent = 0;
      file_name = file_name;
      file_path = file_path;
      file_size = file_size;
      start = h.content;
      file_type = file_type;
      file_perm = perm;
    })

-- One header of the loop of `setupHeirarchyOfTarfs`.
unfoldable pub set_up_file : ℕ → Header → ℕ → Hierarchy → Run Hierarchy
set_up_file memory h file_size s = parse_file_name memory h.name >>= λ (nodes, count).
    or_fault (get_elem? nodes (count - 1)) >>= λ base_name.
    let (temp, s') = tar_file_alloc s in
    new_file h file_size base_name >>= λ file.
    let a = update s'.files temp file in
    if temp == 0
    then fault
    else (find_parent a s'.tarfsroot (take (count - 1) nodes) >>= λ parent.
        add_child a parent temp >>= λ b. ok (record s' { files = b }))

-- "lib/libc.a", the last file that is entered.
abbrev pub last_entry : List ℕ
last_entry = 108 ∷ 105 ∷ 98 ∷ 47 ∷ 108 ∷ 105 ∷ 98 ∷ 99 ∷ 46 ∷ 97 ∷ 0 ∷ []

-- `memory n` is for the round that has `n` rounds behind it.
unfoldable pub set_up_from : (ℕ → ℕ) → ℕ → Archive → ℕ → Hierarchy → Run Hierarchy
set_up_from memory zero a tarf_obj s = hang
set_up_from memory (suc n) a tarf_obj s =
    let h = a.headers tarf_obj in
    if leb a.tarfs_end tarf_obj
    then ok s
    else (strcmp h.name (0 ∷ []) >>= λ empty.
        if empty == 0
        then ok s
        else (octal_number h.size >>= λ file_size. set_up_file (memory n) h file_size s >>= λ s'.
            strcmp h.name last_entry >>= λ last.
            if last == 0
            then ok s'
            else set_up_from memory n a (next_header tarf_obj file_size) s'))

unfoldable pub setup_heirarchy_of_tarfs : (ℕ → ℕ) → Archive → Hierarchy → Run Hierarchy
setup_heirarchy_of_tarfs memory a s =
    set_up_root a s >>= λ s'. set_up_from memory (archive_rounds a) a a.tarfs_start s'

-- ===== src/Tarfs/Archive/Tests.antt =====
-- Runs of the file tree and of the archive of sys/tarfs.c.
use preemptive_unix_os.Base.{
  ◌+◌, ◌<◌, ℕ, suc, ◌≡◌, refl, inl, inr, ◌⊎◌, List, [], ◌∷◌, ◌++◌, some, ok, ◌>>=◌, arith, Ensures,
  if◌then◌else◌, ◌==◌,
}
use preemptive_unix_os.Strings.{char_diff, strcmp, strcpy, strlen}
use preemptive_unix_os.Page.Align.{align_file_up}
use preemptive_unix_os.Tarfs.Octal.{
  convert_loop, power, power_rounds, atoi, atoi_loop, with_sign, convert_octal_to_decimal,
}
use preemptive_unix_os.Tarfs.Node.{TarFile, dirtype}
use preemptive_unix_os.Tarfs.Path.{
  parse_file_name, parse_from, add_char, end_name, end_string, mystrcat,
}
use preemptive_unix_os.Tarfs.Path.Parse.{joined, parse_file_name-joined}
use preemptive_unix_os.Tarfs.Tree.{
  num_files, find_sibling, descend, descend_path, is_root, look_up_for_file,
}
use preemptive_unix_os.Tarfs.Tree.Refine.{
  Tree, node, empty, before, Stands, StandAll, Narrow, AllNarrow, Finds, at_path,
}
use preemptive_unix_os.Tarfs.Tree.Lookup.{look_up_for_file-Finds}
use preemptive_unix_os.Tarfs.Archive.{
  Archive, Hierarchy, octal_number, next_header, find_file, archive_rounds, tar_file_alloc,
  set_up_root, find_named, find_parent, last_sibling, add_child, new_file, set_up_file, set_up_from,
  setup_heirarchy_of_tarfs,
}
use preemptive_unix_os.Tarfs.Archive.Ends.{IsHeader, Located, find_file-Located}

abbrev bin : List ℕ
bin = 98 ∷ 105 ∷ 110 ∷ []

abbrev ls : List ℕ
ls = 108 ∷ 115 ∷ []

parse_file_name-joined_example :
    (1 < 50 → parse_file_name 50 (joined (bin ∷ ls ∷ []) (0 ∷ [])) ≡ ok (bin ∷ ls ∷ [], suc 1))
    × (suc 1 < 50
        → parse_file_name 50 (joined (bin ∷ ls ∷ []) (b'/' ∷ 0 ∷ []))
          ≡ ok ((bin ∷ ls ∷ []) ++ ([] ∷ []), suc 1))
parse_file_name-joined_example =
    parse_file_name-joined 50 bin (ls ∷ []) []
      (
        (omega arith, omega arith, (omega arith, omega arith, (omega arith, omega arith, tt))),
        omega arith,
        omega arith,
        ((omega arith, omega arith, (omega arith, omega arith, tt)), omega arith, omega arith, tt),
      )
      (omega arith)

-- The root at 500, with "bin" at 600 and in it "ls" at 700.
abbrev files : ℕ → TarFile
files p = record {
  next = 0;
  child = if p == 500 then 600 else if p == 600 then 700 else 0;
  parent = 0;
  file_name =
      if p == 500 then 47 ∷ 0 ∷ [] else if p == 600 then bin ++ (0 ∷ []) else ls ++ (0 ∷ []);
  file_path = [];
  file_size = 0;
  start = [];
  file_type = dirtype;
  file_perm = 493;
}

abbrev tree : Tree
tree = node (47 ∷ []) (before (node bin (before (node ls empty) empty)) empty)

tree-Stands : Stands files 500 tree
unfolding Stands StandAll
tree-Stands = (
  omega arith,
  (omega arith, omega arith, tt),
  ([], refl),
  (
    (
      omega arith,
      (omega arith, omega arith, (omega arith, omega arith, (omega arith, omega arith, tt))),
      ([], refl),
      (
        (omega arith, (omega arith, omega arith, (omega arith, omega arith, tt)), ([], refl), refl),
        refl,
      ),
    ),
    refl,
  ),
)

tree-Narrow : Narrow (suc num_files) tree
unfolding Narrow AllNarrow
tree-Narrow = (omega arith, ((omega arith, ((omega arith, tt), tt)), tt))

look_up_for_file-Finds_example :
    Ensures
      (Finds (suc num_files) files (at_path (some tree) (bin ∷ ls ∷ [])))
      (look_up_for_file 50 files 500 [] (b'/' ∷ joined (bin ∷ ls ∷ []) (0 ∷ [])))
look_up_for_file-Finds_example =
    look_up_for_file-Finds 50 files 500 [] tree bin (ls ∷ []) [] tree-Stands tree-Narrow
      (
        (omega arith, omega arith, (omega arith, omega arith, (omega arith, omega arith, tt))),
        omega arith,
        omega arith,
        ((omega arith, omega arith, (omega arith, omega arith, tt)), omega arith, omega arith, tt),
      )
      (
        (omega arith, omega arith, (omega arith, omega arith, (omega arith, omega arith, tt))),
        ((omega arith, omega arith, (omega arith, omega arith, tt)), tt),
      )
      (omega arith) (omega arith)

found : look_up_for_file 50 files 500 [] (47 ∷ 98 ∷ 105 ∷ 110 ∷ 47 ∷ 108 ∷ 115 ∷ 0 ∷ []) ≡ ok 700
unfolding look_up_for_file is_root descend_path descend find_sibling parse_file_name parse_from
    add_char end_name end_string strcmp strlen char_diff
found = refl

-- An archive with "bin/" and, behind it, "bin/ls" of three bytes.
abbrev archive : Archive
archive = record {
  headers = λ p.
      if p == 4096
      then record {
        name = bin ++ (47 ∷ 0 ∷ []);
        mode = 55 ∷ 53 ∷ 53 ∷ 0 ∷ [];
        size = 48 ∷ 0 ∷ [];
        typeflag = 53 ∷ 0 ∷ [];
        content = [];
      }
      else if p == 4608
      then record {
        name = bin ++ (47 ∷ ls) ++ (0 ∷ []);
        mode = 55 ∷ 53 ∷ 53 ∷ 0 ∷ [];
        size = 51 ∷ 0 ∷ [];
        typeflag = 48 ∷ 0 ∷ [];
        content = [];
      }
      else record { name = 0 ∷ []; mode = []; size = []; typeflag = []; content = [] };
  tarfs_start = 4096;
  tarfs_end = 4096 + 2048;
}

-- The addresses of its headers.
abbrev Reached : ℕ → Type 0
Reached p = (p ≡ 4096) ⊎ (p ≡ 4608) ⊎ (p ≡ 5632)

archive-IsHeader : (p : ℕ) → Reached p → p < archive.tarfs_end → IsHeader archive Reached p
unfolding octal_number atoi atoi_loop with_sign convert_octal_to_decimal convert_loop power
    power_rounds next_header align_file_up strcmp char_diff
archive-IsHeader p (inl first) h =
    rw first (inr (inr (inr (inr (inl refl)))), inr (0, refl, omega arith, inr (inl refl)))
archive-IsHeader p (inr (inl second)) h =
    rw second
      (inr (inr (inr (inr (inr (inr (inl refl)))))), inr (3, refl, omega arith, inr (inr refl)))
archive-IsHeader p (inr (inr third)) h = rw third (inl refl, inl refl)

find_file-Located_example :
    Ensures
      (Located archive (bin ++ (47 ∷ ls) ++ (0 ∷ [])))
      (find_file (archive_rounds archive) archive 4096 (bin ++ (47 ∷ ls) ++ (0 ∷ [])))
find_file-Located_example =
    find_file-Located archive (bin ++ (47 ∷ ls) ++ (0 ∷ []))
      (inr (inr (inr (inr (inr (inr (inl refl))))))) Reached archive-IsHeader (inl refl)

-- The tree that is built from the archive: "/bin/ls" is there, and has three bytes.
abbrev no_files : Hierarchy
no_files = record {
  files = λ p. record {
    next = if p == 3 then 0 else p + 1;
    child = 0;
    parent = 0;
    file_name = [];
    file_path = [];
    file_size = 0;
    start = [];
    file_type = 0;
    file_perm = 0;
  };
  tarfsroot = 0;
  tar_file_free_list = 1;
}

set_up :
    (setup_heirarchy_of_tarfs (λ _. 50) archive no_files >>= λ s. ok (
      (s.files s.tarfsroot).child
      ∷ (s.files 2).child
      ∷ (s.files 3).file_size
      ∷ (s.files 3).parent
      ∷ []))
    ≡ ok (2 ∷ 3 ∷ 3 ∷ 2 ∷ [])
unfolding setup_heirarchy_of_tarfs set_up_root set_up_from set_up_file new_file find_parent
    find_named add_child last_sibling tar_file_alloc octal_number atoi atoi_loop with_sign
    convert_octal_to_decimal convert_loop power power_rounds parse_file_name parse_from add_char
    end_name end_string strcmp strlen char_diff strcpy mystrcat next_header align_file_up
set_up = refl

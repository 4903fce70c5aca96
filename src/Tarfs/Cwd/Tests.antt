-- ===== src/Tarfs/Cwd/Tests.antt =====
-- Runs of `sys_chdir` and `sys_getcwd` of sys/syscall.c.
use preemptive_unix_os.Base.{ℕ, ◌≡◌, refl, [], ◌∷◌, ok, ◌>>=◌, replicate, if◌then◌else◌, ◌==◌, take}
use preemptive_unix_os.Strings.{char_diff, strcmp, strcpy, strlen}
use preemptive_unix_os.Tarfs.Octal.{convert_octal_to_decimal, convert_loop, power, power_rounds}
use preemptive_unix_os.Tarfs.Node.{TarFile, dirtype}
use preemptive_unix_os.Tarfs.Path.{parse_file_name, parse_from, add_char, end_name, end_string}
use preemptive_unix_os.Tarfs.Tree.{
  find_sibling, descend, descend_path, current_directory, is_root, look_up_for_file,
}
use preemptive_unix_os.Tarfs.Cwd.{may_enter, enter, enter_all, chdir_up, chdir_path, sys_chdir}

-- The root at 500, with the directory "bin/" at 600.
abbrev files : ℕ → TarFile
files p = record {
  next = 0;
  child = if p == 500 then 600 else 0;
  parent = if p == 600 then 500 else 0;
  file_name = if p == 500 then 47 ∷ 0 ∷ [] else 98 ∷ 105 ∷ 110 ∷ 0 ∷ [];
  file_path = if p == 500 then 47 ∷ 0 ∷ [] else 47 ∷ 98 ∷ 105 ∷ 110 ∷ 47 ∷ 0 ∷ [];
  file_size = 0;
  start = [];
  file_type = dirtype;
  file_perm = 493;
}

-- chdir("bin") at the root, and chdir("..") from there.
chdir_bin :
    (sys_chdir (λ _. 50) files 500 (47 ∷ replicate 8 0) (98 ∷ 105 ∷ 110 ∷ 0 ∷ []) >>= λ r.
    ok (r.0 ∷ take 6 r.1))
    ≡ ok (0 ∷ 47 ∷ 98 ∷ 105 ∷ 110 ∷ 47 ∷ 0 ∷ [])
unfolding sys_chdir chdir_path enter_all enter may_enter look_up_for_file current_directory is_root
    descend_path descend find_sibling parse_file_name parse_from add_char end_name end_string strcmp
    strlen strcpy char_diff convert_octal_to_decimal convert_loop power power_rounds
chdir_bin = refl

chdir_parent :
    (sys_chdir (λ _. 50) files 500 (47 ∷ 98 ∷ 105 ∷ 110 ∷ 47 ∷ replicate 8 0) (46 ∷ 46 ∷ 0 ∷ [])
      >>= λ r. ok (r.0 ∷ take 2 r.1))
    ≡ ok (0 ∷ 47 ∷ 0 ∷ [])
unfolding sys_chdir chdir_up enter may_enter look_up_for_file current_directory is_root descend_path
    descend find_sibling parse_file_name parse_from add_char end_name end_string strcmp strlen
    strcpy char_diff convert_octal_to_decimal convert_loop power power_rounds
chdir_parent = refl

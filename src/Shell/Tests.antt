-- ===== src/Shell/Tests.antt =====
-- Runs of the functions of bin/shell/shell.c that take a line apart.
use preemptive_unix_os.Base.{◌≡◌, refl, [], ◌∷◌, ok, fault}
use preemptive_unix_os.Strings.{strlen, strcpy, strncmp, strncmp_from, char_diff}
use preemptive_unix_os.Shell.{
  split_from, split, leading_spaces, strip_end, trim, trim_all, get_commands, arguments_from,
  get_arguments, path_variable, with_command, all_with_command, get_paths_appended_with_command,
}
use preemptive_unix_os.Shell.Commands.{Padded}

abbrev list_files : Padded
list_files = record { before = 0; command = 108 ∷ 115 ∷ []; after = 1 }

abbrev count_words : Padded
count_words = record { before = 1; command = 119 ∷ 99 ∷ []; after = 0 }

-- An empty line reads in front of the array.
empty_line : get_commands (0 ∷ []) ≡ fault
unfolding get_commands split split_from trim_all trim leading_spaces strip_end
empty_line = refl

two_arguments :
    get_arguments (108 ∷ 115 ∷ 32 ∷ 47 ∷ 0 ∷ []) ≡ ok ((108 ∷ 115 ∷ []) ∷ (47 ∷ []) ∷ [])
unfolding get_arguments arguments_from
two_arguments = refl

-- PATH=/b:/c and the command "x"
two_paths :
    get_paths_appended_with_command
      (120 ∷ [])
      ((80 ∷ 65 ∷ 84 ∷ 72 ∷ 61 ∷ 47 ∷ 98 ∷ 58 ∷ 47 ∷ 99 ∷ 0 ∷ []) ∷ [])
    ≡ ok ((47 ∷ 98 ∷ 47 ∷ 120 ∷ []) ∷ (47 ∷ 99 ∷ 47 ∷ 120 ∷ []) ∷ [])
unfolding get_paths_appended_with_command path_variable split split_from all_with_command
    with_command strlen strcpy strncmp strncmp_from char_diff
two_paths = refl

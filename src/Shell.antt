-- ===== src/Shell.antt =====
-- The shell of bin/shell/shell.c: how a line is taken apart, and the paths of a command. A string in an array is the text
-- before its NUL; an array of 128 characters is fresh from `malloc`, which clears it.
pub mod Split
pub mod Commands
pub mod Tests
use preemptive_unix_os.Base.{
  ℕ, zero, suc, ◌+◌, ◌-◌, Bool, true, false, not, Option, none, some, List, [], ◌∷◌, ◌++◌, Run, ok,
  fault, ◌>>=◌, if◌then◌else◌, leb, ltb, ◌==◌, length, map, drop, replicate,
}
use preemptive_unix_os.Strings.{strlen, strcpy, strncmp, terminated}

abbrev pub no_of_commands : ℕ
no_of_commands = 10

abbrev pub no_of_arguments : ℕ
no_of_arguments = 128

abbrev pub no_of_paths : ℕ
no_of_paths = 128

-- `args[j][k]`, with the strings before it and its own text.
abbrev pub in_bounds : ℕ → List (List ℕ) → List ℕ → Bool
in_bounds limit args text =
    if leb limit (length args)
    then false
    else if leb no_of_arguments (length text)
    then false
    else true

-- The loops of `getCommands` and `getPathsAppendedWithCommand`: the pieces between the characters `sep`, in an array of `limit`
-- strings.
unfoldable pub split_from : ℕ → ℕ → List ℕ → List (List ℕ) → List ℕ → Run (List (List ℕ))
split_from sep limit [] args text = fault
split_from sep limit (c ∷ string) args text =
    let more = split_from sep limit string args (text ++ (c ∷ [])) in
    let next = split_from sep limit string (args ++ (text ∷ [])) [] in
    if not (in_bounds limit args text)
    then fault
    else if c == 0
    then ok (args ++ (text ∷ []))
    else if c == sep
    then (if leb limit (length args + 1) then fault else next)
    else more

unfoldable pub split : ℕ → ℕ → List ℕ → Run (List (List ℕ))
split sep limit string = split_from sep limit string [] []

-- How many spaces a text starts with.
unfoldable pub leading_spaces : List ℕ → ℕ
leading_spaces [] = 0
leading_spaces (c ∷ text) = if c == 32 then suc (leading_spaces text) else 0

-- A character before a text that was stripped: a space goes where nothing is left behind it.
abbrev pub strip_last : ℕ → List ℕ → List ℕ
strip_last c [] = if c == 32 then [] else c ∷ []
strip_last c (d ∷ text) = c ∷ d ∷ text

-- A text without the spaces at its end.
unfoldable pub strip_end : List ℕ → List ℕ
strip_end [] = []
strip_end (c ∷ text) = strip_last c (strip_end text)

-- One command: its spaces in front are moved over, which reads that many characters behind the NUL; then those at its end go,
-- which reads in front of the array where nothing else is left.
unfoldable pub trim : List ℕ → Run (List ℕ)
trim text =
    let whitespace_count = leading_spaces text in
    let moved = drop whitespace_count text in
    if ltb no_of_arguments (length text + whitespace_count)
    then fault
    else if length moved == 0
    then fault
    else ok (strip_end moved)

unfoldable pub trim_all : List (List ℕ) → Run (List (List ℕ))
trim_all [] = ok []
trim_all (text ∷ texts) = trim text >>= λ first. trim_all texts >>= λ rest. ok (first ∷ rest)

-- The commands, and the number of pipes between them. The array ends with a NULL.
unfoldable pub get_commands : List ℕ → Run (List (List ℕ) × ℕ)
get_commands string = split b'|' no_of_commands string >>= λ commands.
    if leb no_of_commands (length commands)
    then fault
    else (trim_all commands >>= λ trimmed. ok (trimmed, length trimmed - 1))

-- The arguments between spaces. At a space in front of an argument, as at a second one in a row, the character before the
-- argument's array is read.
unfoldable pub arguments_from : List ℕ → List (List ℕ) → List ℕ → Run (List (List ℕ))
arguments_from [] args text = fault
arguments_from (c ∷ string) args text =
    let more = arguments_from string args (text ++ (c ∷ [])) in
    let next = arguments_from string (args ++ (text ∷ [])) [] in
    if not (in_bounds no_of_arguments args text)
    then fault
    else if c == 0
    then ok (args ++ (text ∷ []))
    else if c == 32
    then (if length text == 0
        then fault
        else if leb no_of_arguments (length args + 1)
        then fault
        else next)
    else more

unfoldable pub get_arguments : List ℕ → Run (List (List ℕ))
get_arguments string = arguments_from string [] []

-- The value of the first variable whose name starts with "PATH".
unfoldable pub path_variable : List (List ℕ) → Run (List ℕ)
path_variable [] = fault
path_variable (env ∷ envp) = strncmp env (80 ∷ 65 ∷ 84 ∷ 72 ∷ 0 ∷ []) 4 >>= λ d.
    if d == 0
    then (strlen env >>= λ n. strcpy (replicate (n - 4) 0) (drop 5 env))
    else path_variable envp

-- A directory with a slash and the command behind it, in 128 characters.
unfoldable pub with_command : List ℕ → List ℕ → Run (List ℕ)
with_command command path =
    let whole = path ++ (b'/' ∷ command) in
    if leb no_of_arguments (length whole) then fault else ok whole

unfoldable pub all_with_command : List ℕ → List (List ℕ) → Run (List (List ℕ))
all_with_command command [] = ok []
all_with_command command (path ∷ paths) = with_command command path >>= λ first.
    all_with_command command paths >>= λ rest. ok (first ∷ rest)

unfoldable pub get_paths_appended_with_command : List ℕ → List (List ℕ) → Run (List (List ℕ))
get_paths_appended_with_command command envp = path_variable envp >>= λ pathvar.
    split b':' no_of_paths pathvar >>= λ paths.
    if leb no_of_paths (length paths) then fault else all_with_command command paths

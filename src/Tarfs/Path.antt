-- ===== src/Tarfs/Path.antt =====
-- Paths in sys/tarfs.c: `parseFileName` and `mystrcat`. A name in `args` is the text before its NUL; `args` and each name
-- have 128 places, and what is written behind them is undefined. The kernel heap is known by the number of calls of `kmalloc`
-- before the first one that returns NULL, which is written through.
pub mod Parse
use preemptive_unix_os.Base.{
  ℕ, zero, suc, ◌+◌, ◌-◌, Bool, true, false, List, [], ◌∷◌, ◌++◌, Run, ok, fault, ◌>>=◌,
  if◌then◌else◌, leb, ◌==◌, length,
}
use preemptive_unix_os.Strings.{strcpy}

abbrev pub max_length_filename : ℕ
max_length_filename = 128

-- The destination after the second string is behind the first one.
unfoldable pub mystrcat : List ℕ → List ℕ → Run (List ℕ)
mystrcat [] second = fault
mystrcat (d ∷ first) second =
    if d == 0 then strcpy (d ∷ first) second else (mystrcat first second >>= λ rest. ok (d ∷ rest))

-- The names so far, the one that is being written, how many were counted, the last character, 0 before the first, and how
-- many calls of `kmalloc` are left.
pub record Parser : Type 0 where
  pub args : List (List ℕ)
  pub name : List ℕ
  pub count : ℕ
  pub last : ℕ
  pub memory : ℕ

-- `args[j][k]` is within its arrays.
abbrev pub has_room : Parser → Bool
has_room p =
    if leb max_length_filename (length p.args)
    then false
    else if leb max_length_filename (length p.name)
    then false
    else true

unfoldable pub add_char : ℕ → Parser → Run Parser
add_char c p = if has_room p then ok (record p { name = p.name ++ (c ∷ []); last = c }) else fault

unfoldable pub end_name : Parser → Run Parser
end_name p =
    if has_room p
    then (if leb max_length_filename (length p.args + 1)
        then fault
        else if p.memory == 0
        then fault
        else ok (record {
          args = p.args ++ (p.name ∷ []);
          name = [];
          count = p.count + 1;
          last = b'/';
          memory = p.memory - 1;
        }))
    else fault

-- Behind the loop: an empty string has no last character.
unfoldable pub end_string : Parser → Run (List (List ℕ) × ℕ)
end_string p =
    if p.last == 0
    then fault
    else if has_room p
    then ok (p.args ++ (p.name ∷ []), if p.last == b'/' then p.count else p.count + 1)
    else fault

unfoldable pub parse_from : List ℕ → Parser → Run (List (List ℕ) × ℕ)
parse_from [] p = fault
parse_from (c ∷ string) p =
    if c == 0
    then end_string p
    else ((if c == b'/' then end_name p else add_char c p) >>= λ p'. parse_from string p')

-- One call of `kmalloc` for each name.
unfoldable pub parse_file_name : ℕ → List ℕ → Run (List (List ℕ) × ℕ)
parse_file_name memory string =
    if memory == 0
    then fault
    else parse_from string
        (record { args = []; name = []; count = 0; last = 0; memory = memory - 1 })

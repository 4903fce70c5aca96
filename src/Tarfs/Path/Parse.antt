-- ===== src/Tarfs/Path/Parse.antt =====
-- `parseFileName` of sys/tarfs.c reads back the names of a path.
use preemptive_unix_os.Base.{
  ℕ, suc, ◌+◌, ◌<◌, ◌≤◌, ◌-◌, ◌≡◌, ◌≢◌, ◌∙◌, refl, sym, ap, true, false, List, [], ◌∷◌, ◌++◌, Run,
  ok, leb, ◌==◌, length, length-append, arith,
}
use mathlib.Core.List.{append-nil, append_assoc}
use preemptive_unix_os.Tarfs.Path.{
  Parser, max_length_filename, has_room, add_char, end_name, end_string, parse_from,
  parse_file_name,
}

-- A name in a path: characters that are neither NUL nor a slash.
abbrev pub IsName : List ℕ → Type 0
IsName [] = Unit {0}
IsName (c ∷ name) = (c ≢ 0) × (c ≢ b'/') × IsName name

abbrev pub AreNames : List (List ℕ) → Type 0
AreNames [] = Unit {0}
AreNames (name ∷ names) = IsName name × (0 < length name) × (length name < 128) × AreNames names

-- The names with slashes between them, before `rest`.
abbrev pub joined : List (List ℕ) → List ℕ → List ℕ
joined [] rest = rest
joined (name ∷ []) rest = name ++ rest
joined (name ∷ next ∷ names) rest = name ++ (b'/' ∷ joined (next ∷ names) rest)

has_room-true : (p : Parser) → length p.args < 128 → length p.name < 128 → has_room p ≡ true
has_room-true p h k =
    let e : leb max_length_filename (length p.args) ≡ false = ground arith in
    let f : leb max_length_filename (length p.name) ≡ false = ground arith in rw (e, f) refl

-- The last character of a name, or `c` where it is empty.
abbrev last_char : ℕ → List ℕ → ℕ
last_char c [] = c
last_char c (d ∷ name) = last_char d name

-- A name is put behind what was written of it.
parse_from-name :
    (name rest : List ℕ) (p : Parser)
    → IsName name
    → length p.args < 128
    → length p.name + length name < 128
    → parse_from (name ++ rest) p
      ≡ parse_from rest (record p { name = p.name ++ name; last = last_char p.last name })
unfolding parse_from add_char
parse_from-name [] rest p n h k =
    ap (λ (l : List ℕ). parse_from rest (record p { name = l })) (sym (append-nil p.name))
parse_from-name (c ∷ name) rest p (nz, ns, n) h k =
    let e : (c == 0) ≡ false = ground arith in
    let f : (c == b'/') ≡ false = ground arith in
    let room = has_room-true p h (omega arith) in
    let grown : length (p.name ++ (c ∷ [])) ≡ length p.name + 1 = length-append p.name (c ∷ []) in
    rw (e, f, room)
      (parse_from-name name rest (record p { name = p.name ++ (c ∷ []); last = c }) n h
          (omega arith)
        ∙ ap (λ (l : List ℕ). parse_from rest (record p { name = l; last = last_char c name }))
            (append_assoc p.name (c ∷ []) name))

-- A name and the slash behind it.
parse_from-slash :
    (name rest : List ℕ) (p : Parser)
    → IsName name
    → length p.args < 127
    → 0 < p.memory
    → length name < 128
    → p.name ≡ []
    → parse_from (name ++ (b'/' ∷ rest)) p
      ≡ parse_from rest (record {
        args = p.args ++ (name ∷ []);
        name = [];
        count = p.count + 1;
        last = b'/';
        memory = p.memory - 1;
      })
unfolding parse_from end_name
parse_from-slash name rest p n h some k e =
    let none_yet : length p.name ≡ 0 = ap length e in
    let written : p.name ++ name ≡ name = ap (λ (l : List ℕ). l ++ name) e in
    let p' : Parser = record p { name = p.name ++ name; last = last_char p.last name } in
    let room = has_room-true p' (omega arith) (rw written k) in
    let more : leb max_length_filename (length p.args + 1) ≡ false = ground arith in
    let granted : (p.memory == 0) ≡ false = ground arith in
    parse_from-name name (b'/' ∷ rest) p n (omega arith) (omega arith)
    ∙ rw (room, more, granted, written) refl

last_char-name :
    (c d : ℕ) (name : List ℕ)
    → c ≢ 0
    → c ≢ b'/'
    → IsName name
    → (last_char c name ≢ 0) × (last_char c name ≢ b'/')
last_char-name c d [] nz ns n = (nz, ns)
last_char-name c d (e ∷ name) nz ns (ez, es, n) = last_char-name e d name ez es n

-- The last name, with the NUL behind it.
parse_from-last :
    (name rest : List ℕ) (p : Parser)
    → IsName name
    → 0 < length name
    → length p.args < 128
    → length name < 128
    → p.name ≡ []
    → parse_from (name ++ (0 ∷ rest)) p ≡ ok (p.args ++ (name ∷ []), p.count + 1)
unfolding parse_from end_string
parse_from-last [] rest p n some_char h k e = absurd (omega arith)
parse_from-last (c ∷ name) rest p n some_char h k e =
    let none_yet : length p.name ≡ 0 = ap length e in
    let written : p.name ++ (c ∷ name) ≡ c ∷ name = ap (λ (l : List ℕ). l ++ (c ∷ name)) e in
    let p' : Parser = record p { name = p.name ++ (c ∷ name); last = last_char c name } in
    let room = has_room-true p' h (rw written k) in
    let (nz, ns) = last_char-name c 0 name n.0 n.1 n.2 in
    let f : (last_char c name == 0) ≡ false = ground arith in
    let g : (last_char c name == b'/') ≡ false = ground arith in
    parse_from-name (c ∷ name) (0 ∷ rest) p n h (omega arith) ∙ rw (f, room, g, written) refl

-- The NUL behind a slash.
parse_from-end :
    (rest : List ℕ) (p : Parser)
    → p.name ≡ []
    → p.last ≡ b'/'
    → length p.args < 128
    → parse_from (0 ∷ rest) p ≡ ok (p.args ++ ([] ∷ []), p.count)
unfolding parse_from end_string
parse_from-end rest p e l h =
    let none_yet : length p.name ≡ 0 = ap length e in
    let f : (p.last == 0) ≡ false = ground arith in
    let g : (p.last == b'/') ≡ true = ground arith in
    rw (f, g, has_room-true p h (omega arith), e) refl

-- The result with names and count in another form.
result_eq :
    (xs ys : List (List ℕ)) (m k : ℕ)
    → xs ≡ ys
    → m ≡ k
    → ◌≡◌ {A = Run (List (List ℕ) × ℕ)} (ok (xs, m)) (ok (ys, k))
result_eq xs ys m k e f = rw (e, f) refl

abbrev after : Parser → List ℕ → Parser
after p name = record {
  args = p.args ++ (name ∷ []);
  name = [];
  count = p.count + 1;
  last = b'/';
  memory = p.memory - 1;
}

parse_from-names :
    (name : List ℕ) (names : List (List ℕ)) (rest : List ℕ) (p : Parser)
    → AreNames (name ∷ names)
    → length p.args + length names < 127
    → length names ≤ p.memory
    → p.name ≡ []
    → parse_from (joined (name ∷ names) (0 ∷ rest)) p
      ≡ ok (p.args ++ (name ∷ names), p.count + suc (length names))
parse_from-names name [] rest p (n, some_char, k, all) h mem e =
    parse_from-last name rest p n some_char (omega arith) k e
    ∙ ap (λ (m : ℕ). ok (p.args ++ (name ∷ []), m)) (omega arith)
parse_from-names name (next ∷ names) rest p (n, some_char, k, all) h mem e =
    let size : length (p.args ++ (name ∷ [])) ≡ length p.args + 1 =
      length-append p.args (name ∷ []) in
    let sum : p.count + 1 + suc (length names) ≡ p.count + suc (suc (length names)) = omega arith in
    parse_from-slash name (joined (next ∷ names) (0 ∷ rest)) p n (omega arith) (omega arith) k e
    ∙ parse_from-names next names rest (after p name) all (omega arith) (omega arith) refl
    ∙ result_eq _ _ _ _ (append_assoc p.args (name ∷ []) (next ∷ names)) sum

parse_from-slashed :
    (name : List ℕ) (names : List (List ℕ)) (rest : List ℕ) (p : Parser)
    → AreNames (name ∷ names)
    → length p.args + length names < 127
    → length names < p.memory
    → p.name ≡ []
    → parse_from (joined (name ∷ names) (b'/' ∷ 0 ∷ rest)) p
      ≡ ok (p.args ++ (name ∷ names) ++ ([] ∷ []), p.count + suc (length names))
parse_from-slashed name [] rest p (n, some_char, k, all) h mem e =
    parse_from-slash name (0 ∷ rest) p n (omega arith) (omega arith) k e
    ∙ parse_from-end rest (after p name) refl refl (omega (arith, length-append p.args (name ∷ [])))
parse_from-slashed name (next ∷ names) rest p (n, some_char, k, all) h mem e =
    let size : length (p.args ++ (name ∷ [])) ≡ length p.args + 1 =
      length-append p.args (name ∷ []) in
    let sum : p.count + 1 + suc (length names) ≡ p.count + suc (suc (length names)) = omega arith in
    let start = append_assoc p.args (name ∷ []) (next ∷ names) in
    parse_from-slash name (joined (next ∷ names) (b'/' ∷ 0 ∷ rest)) p n (omega arith) (omega arith)
      k e
    ∙ parse_from-slashed next names rest (after p name) all (omega arith) (omega arith) refl
    ∙ result_eq _ _ _ _ (ap (λ (l : List (List ℕ)). l ++ ([] ∷ [])) start) sum

-- `parseFileName` of a path of one to 127 names with slashes between them, each of 1 to 127 characters, where `kmalloc` gives
-- memory for each name: it reads back the names, and counts them. A slash behind the last name adds an empty name that is
-- not counted, and takes one more call of `kmalloc`.
pub parse_file_name-joined :
    (memory : ℕ) (name : List ℕ) (names : List (List ℕ)) (rest : List ℕ)
    → AreNames (name ∷ names)
    → length names < 127
    → (length names < memory
        → parse_file_name memory (joined (name ∷ names) (0 ∷ rest))
          ≡ ok (name ∷ names, suc (length names)))
      × (suc (length names) < memory
          → parse_file_name memory (joined (name ∷ names) (b'/' ∷ 0 ∷ rest))
            ≡ ok ((name ∷ names) ++ ([] ∷ []), suc (length names)))
unfolding parse_file_name
parse_file_name-joined memory name names rest all h =
    let start : Parser = record {
      args = [];
      name = [];
      count = 0;
      last = 0;
      memory = memory - 1;
    } in
    let sum : 0 + suc (length names) ≡ suc (length names) = omega arith in
    (
      λ m.
          let some : (memory == 0) ≡ false = ground arith in
          rw some (
            parse_from-names name names rest start all (omega arith) (omega arith) refl
            ∙ result_eq _ _ _ _ refl sum),
      λ m.
          let some : (memory == 0) ≡ false = ground arith in
          rw some (
            parse_from-slashed name names rest start all (omega arith) (omega arith) refl
            ∙ result_eq _ _ _ _ refl sum),
    )

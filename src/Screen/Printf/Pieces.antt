-- ===== src/Screen/Printf/Pieces.antt =====
-- `printf` of text and strings.
use preemptive_unix_os.Base.{
  bind-cong, bind-then, ℕ, ◌≡◌, ◌≢◌, ◌==◌, false, refl, ◌∙◌, List, [], ◌∷◌, ◌++◌, length, ok, ◌>>=◌,
  arith,
}
use preemptive_unix_os.Format.{Arg, text}
use preemptive_unix_os.Screen.{Screen, writek, put_char}
use preemptive_unix_os.Screen.Printf.{printf_from, printf, show_directive}

-- A character of the format, or a string for `%s` with what follows its NUL.
pub data Piece : Type 0 where
  char : ℕ → Piece
  string : List ℕ → List ℕ → Piece

abbrev pub NoNul : List ℕ → Type 0
NoNul [] = Unit {0}
NoNul (c ∷ str) = (c ≢ 0) × NoNul str

abbrev pub ArePieces : List Piece → Type 0
ArePieces [] = Unit {0}
ArePieces (char c ∷ ps) = (c ≢ 0) × (c ≢ b'%') × ArePieces ps
ArePieces (string str rest ∷ ps) = NoNul str × ArePieces ps

-- The format and the arguments.
abbrev pub format_of : List Piece → List ℕ → List ℕ
format_of [] rest = 0 ∷ rest
format_of (char c ∷ ps) rest = c ∷ format_of ps rest
format_of (string str behind ∷ ps) rest = b'%' ∷ b's' ∷ format_of ps rest

abbrev pub args_of : List Piece → List Arg
args_of [] = []
args_of (char c ∷ ps) = args_of ps
args_of (string str behind ∷ ps) = text (str ++ (0 ∷ behind)) ∷ args_of ps

-- The text that they stand for.
abbrev pub shown : List Piece → List ℕ
shown [] = 0 ∷ []
shown (char c ∷ ps) = c ∷ shown ps
shown (string str behind ∷ ps) = str ++ shown ps

-- A string and then a text, or both as one text.
writek-append :
    (str behind more : List ℕ) (s : Screen)
    → NoNul str
    → (writek (str ++ (0 ∷ behind)) s >>= λ s'. writek more s') ≡ writek (str ++ more) s
unfolding writek
writek-append [] behind more s t = refl
writek-append (c ∷ str) behind more s (ne, t) =
    let f : (c == 0) ≡ false = ground arith in
    rw f (
      bind-then (put_char c s) (λ s'. writek (str ++ (0 ∷ behind)) s') (λ s'. writek more s')
        (λ s'. writek (str ++ more) s') (λ s'. writek-append str behind more s' t))

printf_from-char :
    (c d : ℕ) (format : List ℕ) (args : List Arg) (room : ℕ) (s : Screen)
    → c ≢ 0
    → c ≢ b'%'
    → printf_from (c ∷ d ∷ format) args room s
      ≡ (writek (c ∷ 0 ∷ []) s >>= λ s'. printf_from (d ∷ format) args room s')
unfolding printf_from
printf_from-char c d format args room s nul percent =
    let f : (c == 0) ≡ false = ground arith in
    let g : (c == b'%') ≡ false = ground arith in ground (arith, f, g)

printf_from-format :
    (c : ℕ) (ps : List Piece) (rest : List ℕ) (args : List Arg) (room : ℕ) (s : Screen)
    → c ≢ 0
    → c ≢ b'%'
    → printf_from (c ∷ format_of ps rest) args room s
      ≡ (writek (c ∷ 0 ∷ []) s >>= λ s'. printf_from (format_of ps rest) args room s')
printf_from-format c [] rest = printf_from-char c 0 rest
printf_from-format c (char d ∷ ps) rest = printf_from-char c d (format_of ps rest)
printf_from-format c (string str behind ∷ ps) rest =
    printf_from-char c b'%' (b's' ∷ format_of ps rest)

printf_from-string :
    (str format : List ℕ) (args : List Arg) (room : ℕ) (s : Screen)
    → printf_from (b'%' ∷ b's' ∷ format) (text str ∷ args) room s
      ≡ (writek str s >>= λ s'. printf_from format args (length str) s')
unfolding printf_from show_directive
printf_from-string str format args room s =
    bind-then (writek str s) (λ s'. ok (length str, s', args)) (λ r. printf_from format r.2 r.0 r.1)
      (λ s'. printf_from format args (length str) s') (λ s'. refl)

printf_from-shown :
    (ps : List Piece) (rest : List ℕ) (room : ℕ) (s : Screen)
    → ArePieces ps
    → printf_from (format_of ps rest) (args_of ps) room s ≡ writek (shown ps) s
unfolding printf_from writek
printf_from-shown [] [] room s all = refl
printf_from-shown [] (x ∷ rest) room s all = refl
printf_from-shown (char c ∷ ps) rest room s (nul, percent, all) =
    printf_from-format c ps rest (args_of ps) room s nul percent
    ∙ bind-cong (writek (c ∷ 0 ∷ []) s) (λ s'. printf_from (format_of ps rest) (args_of ps) room s')
        (λ s'. writek (shown ps) s') (λ s'. printf_from-shown ps rest room s' all)
    ∙ writek-append (c ∷ []) [] (shown ps) s (nul, tt)
printf_from-shown (string str behind ∷ ps) rest room s (t, all) =
    printf_from-string (str ++ (0 ∷ behind)) (format_of ps rest) (args_of ps) room s
    ∙ bind-cong (writek (str ++ (0 ∷ behind)) s)
        (λ s'. printf_from (format_of ps rest) (args_of ps) (length (str ++ (0 ∷ behind))) s')
        (λ s'. writek (shown ps) s')
        (λ s'. printf_from-shown ps rest (length (str ++ (0 ∷ behind))) s' all)
    ∙ writek-append str behind (shown ps) s t

-- `printf` of the kernel with a format of characters other than `%` and of `%s` shows what one `writek` of the whole text
-- shows, with the strings in their places, also where that scrolls or faults.
pub printf-shown :
    (ps : List Piece) (rest : List ℕ) (s : Screen)
    → ArePieces ps
    → printf (format_of ps rest) (args_of ps) s ≡ writek (shown ps) s
unfolding printf
printf-shown ps rest s all = printf_from-shown ps rest 0 s all

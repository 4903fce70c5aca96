-- ===== src/Screen/Printf.antt =====
-- `printf` of sys/printf.c, which shows each piece on the screen at once. Its `convert` and the loops of `%d` have the text of
-- libc/printf.c.
pub mod Pieces
pub mod Tests
use preemptive_unix_os.Base.{
  ℕ, ◌+◌, ◌-◌, ◌*◌, ◌%◌, ◌^◌, true, false, List, [], ◌∷◌, ◌++◌, length, Run, ok, fault, ◌>>=◌,
  if◌then◌else◌, ltb, leb, ◌==◌, sign_extend,
}
use preemptive_unix_os.Format.{Arg, number, text, convert, decimal, takes_number}
use preemptive_unix_os.Screen.{Screen, writek}

-- Each character as a string of its own.
unfoldable pub write_each : List ℕ → Screen → Run Screen
write_each [] s = ok s
write_each (c ∷ str) s = writek (c ∷ 0 ∷ []) s >>= λ s'. write_each str s'

-- `%d` for an `int` that is kept as its bit pattern: -2^31 has no negative.
unfoldable pub show_int : ℕ → Screen → Run Screen
show_int i s =
    if i == 0
    then (writek (48 ∷ 0 ∷ []) s >>= λ s'. writek (0 ∷ 0 ∷ []) s')
    else if ltb i (2 ^ 31)
    then (decimal i >>= λ str. write_each str s)
    else if i == 2 ^ 31
    then fault
    else (writek (45 ∷ 0 ∷ []) s >>= λ s'. decimal (2 ^ 32 - i) >>= λ str. write_each str s')

-- How many bytes may be written at the result of `convert`: `ptr`, or a string literal.
abbrev pub room_of : ℕ → ℕ
room_of n = if n == 0 then 0 else 512

unfoldable pub show_converted : ℕ → ℕ → Screen → Run (ℕ × Screen)
show_converted n base s =
    convert n base >>= λ str. writek (str ++ (0 ∷ [])) s >>= λ s'. ok (room_of n, s')

-- The directives that take a number. `room` is how many bytes may be written at the pointer `s` of the source, none where it
-- is NULL: `%c` writes two of them.
unfoldable pub show_number : ℕ → ℕ → ℕ → Screen → Run (ℕ × Screen)
show_number directive n room s =
    if directive == b'c'
    then (if leb 2 room then (writek (n % 256 ∷ 0 ∷ []) s >>= λ s'. ok (room, s')) else fault)
    else if directive == b'd'
    then (show_int (n % 2 ^ 32) s >>= λ s'. ok (room, s'))
    else if directive == b'o'
    then show_converted (sign_extend n) 8 s
    else if directive == b'u'
    then show_converted n 10 s
    else if directive == b'x'
    then (writek (48 ∷ 120 ∷ 0 ∷ []) s >>= λ s'. show_converted n 16 s')
    else show_converted n 16 s

-- One directive: the bytes at `s`, the screen, and the arguments that are left.
unfoldable pub show_directive : ℕ → List Arg → ℕ → Screen → Run (ℕ × Screen × List Arg)
show_directive directive [] room s =
    if takes_number directive then fault else if directive == b's' then fault else ok (room, s, [])
show_directive directive (number n ∷ args) room s =
    if takes_number directive
    then (show_number directive n room s >>= λ (room', s'). ok (room', s', args))
    else if directive == b's'
    then fault
    else ok (room, s, number n ∷ args)
show_directive directive (text str ∷ args) room s =
    if takes_number directive
    then fault
    else if directive == b's'
    then (writek str s >>= λ s'. ok (length str, s', args))
    else ok (room, s, text str ∷ args)

unfoldable pub printf_from : List ℕ → List Arg → ℕ → Screen → Run Screen
printf_from [] args room s = fault
printf_from (c ∷ []) args room s = if c == 0 then ok s else fault
printf_from (c ∷ d ∷ format) args room s = elim (c == 0) [
  | true ↦ ok s
  | false ↦ elim (c == b'%') [
    | true ↦
        show_directive d args room s >>= λ (room', s', args'). printf_from format args' room' s'
    | false ↦ writek (c ∷ 0 ∷ []) s >>= λ s'. printf_from (d ∷ format) args room s'
  ]
]

unfoldable pub printf : List ℕ → List Arg → Screen → Run Screen
printf format args s = printf_from format args 0 s

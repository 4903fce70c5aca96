-- ===== src/Screen/Printf/Tests.antt =====
-- Runs of `printf` of sys/printf.c.
use preemptive_unix_os.Base.{◌≡◌, [], ◌∷◌, List, ok, fault, refl, arith, ◌>>=◌}
use preemptive_unix_os.Format.{number, convert, convert_loop, digit_char}
use preemptive_unix_os.Screen.{Screen, writek, put_char, wrap, scroll_screen, set_cell}
use preemptive_unix_os.Screen.Printf.{
  printf, printf_from, show_directive, show_number, show_converted,
}
use preemptive_unix_os.Screen.Printf.Pieces.{
  Piece, char, string, format_of, args_of, shown, printf-shown,
}

abbrev empty : Screen
empty = record { x_pos = 0; y_pos = 0; cells = λ _. 0 }

-- "a%sb" with the string "cd".
abbrev pieces : List Piece
pieces = char 97 ∷ string (99 ∷ 100 ∷ []) [] ∷ char 98 ∷ []

printf-shown_example :
    printf (format_of pieces []) (args_of pieces) empty ≡ writek (shown pieces) empty
printf-shown_example = printf-shown pieces [] empty (
  λ e. omega (arith, e),
  λ e. omega (arith, e),
  (
    (λ e. omega (arith, e), (λ e. omega (arith, e), tt)),
    (λ e. omega (arith, e), λ e. omega (arith, e), tt),
  ),
)

-- "%x" of 26 shows "0x1A".
hexadecimal :
    (printf (b'%' ∷ b'x' ∷ 0 ∷ []) (number 26 ∷ []) empty >>= λ s.
    ok (s.cells 1 ∷ s.cells 2 ∷ s.cells 3 ∷ s.x_pos ∷ []))
    ≡ ok (632 ∷ 561 ∷ 577 ∷ 4 ∷ [])
unfolding printf printf_from show_directive show_number show_converted convert convert_loop
    digit_char writek put_char wrap scroll_screen set_cell
hexadecimal = refl

-- "%c" as the first directive writes through NULL.
character_fault : printf (b'%' ∷ b'c' ∷ 0 ∷ []) (number 65 ∷ []) empty ≡ fault
unfolding printf printf_from show_directive show_number
character_fault = refl

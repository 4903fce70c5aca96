-- ===== src/Screen/Tests.antt =====
-- Runs of `writek` of sys/printf.c.
use preemptive_unix_os.Base.{ℕ, ◌+◌, ◌≡◌, ◌∷◌, [], List, ok, refl, arith, Ensures, ◌>>=◌}
use preemptive_unix_os.Strings.{terminated}
use preemptive_unix_os.Screen.{
  Screen, next_row, wrap, scroll_screen, set_cell, put_char, scroll, writek,
}
use preemptive_unix_os.Screen.Writek.{OnRow, writek-OnRow, Shows, writek-Shows}

abbrev blank : Screen
blank = record { x_pos = 78; y_pos = 24; cells = λ i. i }

abbrev hi : List ℕ
hi = 72 ∷ 105 ∷ []

-- After a newline on the last row, a character scrolls: the cell at 1840 is the one that was at 1920.
scrolls :
    (writek (10 ∷ 72 ∷ 0 ∷ []) blank >>= λ s. ok (s.cells 1840 ∷ s.cells 1920 ∷ []))
    ≡ ok (1920 ∷ 584 ∷ [])
unfolding writek put_char next_row wrap scroll_screen set_cell scroll
scrolls = refl

writek-OnRow_example : Ensures (OnRow (2 + 24)) (writek (terminated hi []) blank)
writek-OnRow_example =
    writek-OnRow hi [] blank 24 (omega arith, omega arith, (omega arith, omega arith, tt))
      (omega arith, omega arith) (omega arith) (omega arith)

writek-Shows_example : Ensures (Shows blank hi) (writek (terminated hi []) blank)
writek-Shows_example =
    writek-Shows hi [] blank
      (omega arith, omega arith, omega arith, (omega arith, omega arith, omega arith, tt))
      (omega arith) (omega arith)

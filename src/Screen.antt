-- ===== src/Screen.antt =====
-- `writek` of sys/printf.c: the text screen of 25 rows of 80 cells. A cell is the 16 bits of a colour and a
-- character. The row is an `int`, which newlines move below the last row; the next character scrolls.
pub mod Printf
pub mod Writek
pub mod Tests
use preemptive_unix_os.Base.{
  ℕ, suc, ◌+◌, ◌*◌, ◌^◌, Bool, List, [], ◌∷◌, Run, ok, fault, ◌>>=◌, if◌then◌else◌, ltb, leb, ◌==◌,
  update,
}

-- `xPos`, `yPos`, and the video memory by its cells.
pub record Screen : Type 0 where
  pub x_pos : ℕ
  pub y_pos : ℕ
  pub cells : ℕ → ℕ

-- The `memcpy` of 3840 bytes from the second row on, and the `memset` of the last row.
unfoldable pub scroll : (ℕ → ℕ) → ℕ → ℕ
scroll cells i = if ltb i 1920 then cells (i + 80) else if ltb i 2000 then 0 else cells i

-- `0x02 << 8 | c` as 16 bits, for a `char` that is negative from 128 on.
abbrev pub cell_of : ℕ → ℕ
cell_of c = if ltb c 128 then 512 + c else 0xFF00 + c

-- `yPos++` on an `int`.
unfoldable pub next_row : Screen → Run Screen
next_row s =
    if leb (2 ^ 31) (s.y_pos + 1) then fault else ok (record s { y_pos = s.y_pos + 1; x_pos = 0 })

-- A row that is full goes on in the next one.
unfoldable pub wrap : Screen → Run Screen
wrap s = if leb 80 s.x_pos then next_row s else ok s

-- Below the last row everything moves one row up.
unfoldable pub scroll_screen : Screen → Screen
scroll_screen s =
    if ltb 24 s.y_pos then record { x_pos = 0; y_pos = 24; cells = scroll s.cells } else s

-- The cell under the cursor is set; a cell outside the video memory is no part of the screen.
unfoldable pub set_cell : ℕ → Screen → Run Screen
set_cell c s =
    let at = s.x_pos + s.y_pos * 80 in
    if leb 2000 at
    then fault
    else ok (record s { x_pos = s.x_pos + 1; cells = update s.cells at (cell_of c) })

unfoldable pub put_char : ℕ → Screen → Run Screen
put_char c s =
    if c == 10
    then next_row s
    else if c == 13
    then ok (record s { x_pos = 0 })
    else (wrap s >>= λ s'. set_cell c (scroll_screen s'))

unfoldable pub writek : List ℕ → Screen → Run Screen
writek [] s = fault
writek (c ∷ str) s = if c == 0 then ok s else (put_char c s >>= λ s'. writek str s')

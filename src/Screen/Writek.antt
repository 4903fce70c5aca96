-- ===== src/Screen/Writek.antt =====
-- What `writek` of sys/printf.c leaves on the screen.
use preemptive_unix_os.Base.{
  Ensures-bind, Ensures-weaken, ℕ, zero, suc, ◌+◌, ◌*◌, ◌^◌, ◌≤◌, ◌<◌, ◌≡◌, ◌≢◌, ◌⊎◌, ◌∙◌, refl,
  inl, inr, true, false, List, [], ◌∷◌, ok, ltb, leb, ◌==◌, update, length, arith, Bool-cases,
  Ensures, get_or,
}
use preemptive_unix_os.Strings.{IsText, terminated}
use preemptive_unix_os.Screen.{
  Screen, cell_of, next_row, wrap, scroll_screen, set_cell, put_char, writek,
}

-- The cursor stands on a cell of its row or just behind the row.
abbrev pub OnRow : ℕ → Screen → Type 0
OnRow top s = (s.x_pos ≤ 80) × (s.y_pos ≤ top)

put_char-OnRow :
    (c : ℕ) (s : Screen) (top : ℕ)
    → OnRow top s
    → suc top < 2 ^ 31
    → 24 ≤ top
    → Ensures (OnRow (suc top)) (put_char c s)
unfolding put_char next_row wrap scroll_screen set_cell
put_char-OnRow c s top h l m =
    let up : leb (2 ^ 31) (s.y_pos + 1) ≡ false = ground (arith, h.1) in
    elim (Bool-cases (c == 10)) [
      | inl newline ↦ rw (newline, up) (omega arith, omega (arith, h.1))
      | inr other ↦ elim (Bool-cases (c == 13)) [
        | inl ret ↦ rw (other, ret) (omega arith, omega (arith, h.1))
        | inr plain ↦ elim (Bool-cases (leb 80 s.x_pos)) [
          | inl full ↦ elim (Bool-cases (ltb 24 (s.y_pos + 1))) [
            | inl low ↦ rw (other, plain, full, up, low) (omega arith, omega arith)
            | inr high ↦
                let fits : leb 2000 (0 + (s.y_pos + 1) * 80) ≡ false = ground arith in
                rw (other, plain, full, up, high, fits) (omega arith, omega (arith, h.1))
          ]
          | inr room ↦ elim (Bool-cases (ltb 24 s.y_pos)) [
            | inl low ↦ rw (other, plain, room, low) (omega arith, omega arith)
            | inr high ↦
                let fits : leb 2000 (s.x_pos + s.y_pos * 80) ≡ false = ground (arith, h.0) in
                rw (other, plain, room, high, fits) (ground arith, ground arith)
          ]
        ]
      ]
    ]

-- `writek` writes no cell outside the video memory, whatever the characters; the row is an `int` as long as the
-- characters are fewer than 2^31.
pub writek-OnRow :
    (str rest : List ℕ) (s : Screen) (top : ℕ)
    → IsText str
    → OnRow top s
    → 24 ≤ top
    → top + length str < 2 ^ 31
    → Ensures (OnRow (length str + top)) (writek (terminated str rest) s)
unfolding writek
writek-OnRow [] rest s top t h m l = (h.0, omega (arith, h.1))
writek-OnRow (c ∷ str) rest s top t h m l =
    let e : suc (length str) + top ≡ length str + suc top = omega arith in
    let nonzero : (c == 0) ≡ false = ground (arith, t.0) in
    rw (nonzero, e)
      (Ensures-bind (OnRow (length str + suc top)) (put_char c s)
        (λ s'. writek (terminated str rest) s') (put_char-OnRow c s top h (omega arith) m)
        (λ s' h'. writek-OnRow str rest s' (suc top) t.2 h' (omega arith) (omega arith)))

abbrev pub Plain : List ℕ → Type 0
Plain [] = Unit {0}
Plain (c ∷ str) = (c ≢ 0) × (c ≢ 10) × (c ≢ 13) × Plain str

abbrev typed : ℕ → Screen → Screen
typed c s = record s {
  x_pos = s.x_pos + 1;
  cells = update s.cells (s.x_pos + s.y_pos * 80) (cell_of c);
}

-- A character that fits into the row.
put_char_plain :
    (c : ℕ) (s : Screen)
    → c ≢ 10
    → c ≢ 13
    → s.x_pos < 80
    → s.y_pos ≤ 24
    → put_char c s ≡ ok (typed c s)
unfolding put_char wrap scroll_screen set_cell
put_char_plain c s n r h l =
    let newline : (c == 10) ≡ false = ground arith in
    let ret : (c == 13) ≡ false = ground arith in
    let room : leb 80 s.x_pos ≡ false = ground arith in
    let high : ltb 24 s.y_pos ≡ false = ground arith in
    let fits : leb 2000 (s.x_pos + s.y_pos * 80) ≡ false = ground arith in
    rw (newline, ret, room, high, fits) refl

-- `s'` is `s` with the characters `str` from the cursor on, and the cursor behind them.
pub record Shows (s : Screen) (str : List ℕ) (s' : Screen) : Type 0 where
  pub cursor : (s'.x_pos ≡ s.x_pos + length str) × (s'.y_pos ≡ s.y_pos)
  pub shown :
      (k : ℕ) → k < length str → s'.cells (s.x_pos + s.y_pos * 80 + k) ≡ cell_of (get_or str k 0)
  pub kept :
      (i : ℕ)
      → (i < s.x_pos + s.y_pos * 80) ⊎ (s.x_pos + s.y_pos * 80 + length str ≤ i)
      → s'.cells i ≡ s.cells i

shown_at :
    (c : ℕ) (str : List ℕ) (s s' : Screen)
    → Shows (typed c s) str s'
    → (k : ℕ) → k < length (c ∷ str)
    → s'.cells (s.x_pos + s.y_pos * 80 + k) ≡ cell_of (get_or (c ∷ str) k 0)
shown_at c str s s' w zero h =
    let at : s.x_pos + s.y_pos * 80 + 0 ≡ s.x_pos + s.y_pos * 80 = omega arith in
    let here : (s.x_pos + s.y_pos * 80 == s.x_pos + s.y_pos * 80) ≡ true = ground arith in
    rw at (w.kept (s.x_pos + s.y_pos * 80) (inl (omega arith)) ∙ rw here refl)
shown_at c str s s' w (suc k) h =
    let at : s.x_pos + s.y_pos * 80 + suc k ≡ s.x_pos + 1 + s.y_pos * 80 + k = omega arith in
    rw at (w.shown k (omega arith))

Shows-cons :
    (c : ℕ) (str : List ℕ) (s s' : Screen) → Shows (typed c s) str s' → Shows s (c ∷ str) s'
Shows-cons c str s s' w = record {
  cursor = (w.cursor.0 ∙ omega arith, w.cursor.1);
  shown = shown_at c str s s' w;
  kept = λ i o. elim o [
    | inl l ↦
        let apart : (i == s.x_pos + s.y_pos * 80) ≡ false = ground arith in
        w.kept i (inl (omega arith)) ∙ rw apart refl
    | inr g ↦
        let apart : (i == s.x_pos + s.y_pos * 80) ≡ false = ground arith in
        w.kept i (inr (omega arith)) ∙ rw apart refl
  ];
}

-- A text without control characters that fits into the row of the cursor is shown from the cursor on, and no other
-- cell changes.
pub writek-Shows :
    (str rest : List ℕ) (s : Screen)
    → Plain str
    → s.x_pos + length str ≤ 80
    → s.y_pos ≤ 24
    → Ensures (Shows s str) (writek (terminated str rest) s)
unfolding writek
writek-Shows [] rest s p h l = record {
  cursor = (omega arith, refl);
  shown = λ k b. absurd (omega arith);
  kept = λ i o. refl;
}
writek-Shows (c ∷ str) rest s (nz, n, r, p) h l =
    let nonzero : (c == 0) ≡ false = ground arith in
    rw (nonzero, put_char_plain c s n r (omega arith) l)
      (Ensures-weaken (writek (terminated str rest) (typed c s)) (λ s' w. Shows-cons c str s s' w)
        (writek-Shows str rest (typed c s) p (omega arith) l))

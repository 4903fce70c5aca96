-- ===== src/Shell/Split.antt =====
-- The loops of bin/shell/shell.c that take a string apart read back its pieces.
use mathlib.Core.List.{append-nil, append_assoc}
use preemptive_unix_os.Base.{
  ℕ, ◌+◌, ◌<◌, ◌≡◌, ◌≢◌, ◌∙◌, refl, sym, ap, true, false, List, [], ◌∷◌, ◌++◌, ok, leb, ◌==◌,
  length, length-append, arith,
}
use preemptive_unix_os.Shell.{no_of_arguments, in_bounds, split_from, split}

-- A piece: characters that are neither NUL nor the separator.
abbrev pub IsPiece : ℕ → List ℕ → Type 0
IsPiece sep [] = Unit {0}
IsPiece sep (c ∷ text) = (c ≢ 0) × (c ≢ sep) × IsPiece sep text

abbrev pub ArePieces : ℕ → List (List ℕ) → Type 0
ArePieces sep [] = Unit {0}
ArePieces sep (text ∷ texts) = IsPiece sep text × (length text < 128) × ArePieces sep texts

-- The pieces with the separator between them, before `rest`.
abbrev pub joined_by : ℕ → List (List ℕ) → List ℕ → List ℕ
joined_by sep [] rest = rest
joined_by sep (text ∷ []) rest = text ++ rest
joined_by sep (text ∷ next ∷ texts) rest = text ++ (sep ∷ joined_by sep (next ∷ texts) rest)

module _ (sep limit : ℕ) (some_sep : sep ≢ 0) where
  in_bounds-true :
      (args : List (List ℕ)) (text : List ℕ)
      → length args < limit
      → length text < 128
      → in_bounds limit args text ≡ true
  in_bounds-true args text h k =
      let e : leb limit (length args) ≡ false = ground arith in
      let f : leb no_of_arguments (length text) ≡ false = ground arith in rw (e, f) refl

  split_from-piece :
      (piece rest : List ℕ) (args : List (List ℕ)) (text : List ℕ)
      → IsPiece sep piece
      → length args < limit
      → length text + length piece < 128
      → split_from sep limit (piece ++ rest) args text
        ≡ split_from sep limit rest args (text ++ piece)
  unfolding split_from
  split_from-piece [] rest args text p h k =
      ap (λ (l : List ℕ). split_from sep limit rest args l) (sym (append-nil text))
  split_from-piece (c ∷ piece) rest args text (nz, ns, p) h k =
      let e : (c == 0) ≡ false = ground arith in
      let f : (c == sep) ≡ false = ground arith in
      let grown : length (text ++ (c ∷ [])) ≡ length text + 1 = length-append text (c ∷ []) in
      rw (in_bounds-true args text h (omega arith), e, f)
        (split_from-piece piece rest args (text ++ (c ∷ [])) p h (omega arith)
          ∙ ap (λ (l : List ℕ). split_from sep limit rest args l)
              (append_assoc text (c ∷ []) piece))

  split_from-joined :
      (piece : List ℕ) (pieces : List (List ℕ)) (rest : List ℕ) (args : List (List ℕ))
      → ArePieces sep (piece ∷ pieces)
      → length args + length pieces < limit
      → split_from sep limit (joined_by sep (piece ∷ pieces) (0 ∷ rest)) args []
        ≡ ok (args ++ (piece ∷ pieces))
  unfolding split_from
  split_from-joined piece [] rest args (p, k, all) h =
      split_from-piece piece (0 ∷ rest) args [] p (omega arith) (omega arith)
      ∙ rw (in_bounds-true args piece (omega arith) k) refl
  split_from-joined piece (next ∷ pieces) rest args (p, k, all) h =
      let zero_sep : (sep == 0) ≡ false = ground arith in
      let same_sep : (sep == sep) ≡ true = ground arith in
      let more : leb limit (length args + 1) ≡ false = ground arith in
      let grown : length (args ++ (piece ∷ [])) ≡ length args + 1 =
        length-append args (piece ∷ []) in
      split_from-piece piece (sep ∷ joined_by sep (next ∷ pieces) (0 ∷ rest)) args [] p
        (omega arith) (omega arith)
      ∙ rw (in_bounds-true args piece (omega arith) k, zero_sep, same_sep, more)
          (split_from-joined next pieces rest (args ++ (piece ∷ [])) all (omega arith)
            ∙ ap (λ (l : List (List ℕ)). ok l) (append_assoc args (piece ∷ []) (next ∷ pieces)))

  -- A string of pieces with separators between them, up to as many as the array holds, is taken apart into those pieces.
  pub split-joined :
      (piece : List ℕ) (pieces : List (List ℕ)) (rest : List ℕ)
      → ArePieces sep (piece ∷ pieces)
      → length pieces < limit
      → split sep limit (joined_by sep (piece ∷ pieces) (0 ∷ rest)) ≡ ok (piece ∷ pieces)
  unfolding split
  split-joined piece pieces rest all h = split_from-joined piece pieces rest [] all (omega arith)

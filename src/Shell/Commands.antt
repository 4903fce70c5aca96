-- ===== src/Shell/Commands.antt =====
-- `getCommands` of bin/shell/shell.c reads back the commands of a line.

use preemptive_unix_os.Base.{ℕ, ◌+◌, ◌≤◌, ◌<◌, ◌≢◌, List, [], ◌∷◌, ◌++◌, length, replicate}
use preemptive_unix_os.Shell.Split.{IsPiece}

-- A command with spaces around it.
pub record Padded : Type 0 where
  pub before : ℕ
  pub command : List ℕ
  pub after : ℕ

abbrev pub padded_text : Padded → List ℕ
padded_text p = replicate p.before 32 ++ (p.command ++ replicate p.after 32)

-- The last character is no space.
abbrev pub EndsTight : List ℕ → Type 0
EndsTight [] = ⊥
EndsTight (c ∷ []) = c ≢ 32
EndsTight (c ∷ d ∷ text) = EndsTight (d ∷ text)

abbrev pub StartsTight : List ℕ → Type 0
StartsTight [] = ⊥
StartsTight (c ∷ text) = c ≢ 32

-- A command starts and ends with another character than a space, and fits into its array, with as many characters behind it
-- as there are spaces in front.
abbrev pub IsCommand : Padded → Type 0
IsCommand p =
    StartsTight p.command
    × EndsTight p.command
    × IsPiece b'|' (padded_text p)
    × (length (padded_text p) + p.before ≤ 128)
    × (length (padded_text p) < 128)

abbrev pub AreCommands : List Padded → Type 0
AreCommands [] = Unit {0}
AreCommands (p ∷ ps) = IsCommand p × AreCommands ps

abbrev pub commands_of : List Padded → List (List ℕ)
commands_of [] = []
commands_of (p ∷ ps) = p.command ∷ commands_of ps

abbrev pub texts_of : List Padded → List (List ℕ)
texts_of [] = []
texts_of (p ∷ ps) = padded_text p ∷ texts_of ps

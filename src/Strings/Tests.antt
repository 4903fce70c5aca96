-- ===== src/Strings/Tests.antt =====
-- Runs of the string functions of libc/ on short strings.
use preemptive_unix_os.Base.{ℕ, ◌≡◌, List, [], ◌∷◌, ok, arith}
use preemptive_unix_os.Strings.{strstr, IsText, terminated}
use preemptive_unix_os.Strings.Search.{strstr_lem, in_memory, first_at}

abbrev bin : List ℕ
bin = 98 ∷ 105 ∷ 110 ∷ []

bin-IsText : IsText bin
bin-IsText = ground arith

abbrev in_ : List ℕ
in_ = 105 ∷ 110 ∷ []

in_-IsText : IsText in_
in_-IsText = ground arith

abbrev room : List ℕ
room = 1 ∷ 2 ∷ 3 ∷ 4 ∷ 5 ∷ []

strstr_lem_example :
    strstr (terminated bin []) (terminated in_ []) ≡ ok (in_memory [] (first_at in_ bin))
strstr_lem_example = strstr_lem bin in_ [] [] bin-IsText in_-IsText (omega arith)

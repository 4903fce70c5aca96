-- ===== src/Tarfs/Tests.antt =====
-- Runs of the numbers of sys/tarfs.c on header fields.
use preemptive_unix_os.Base.{ℕ, ◌≡◌, some, List, [], ◌∷◌, ◌++◌, arith, ok, ◌>>=◌}
use preemptive_unix_os.Tarfs.Octal.{atoi, convert_octal_to_decimal}
use preemptive_unix_os.Tarfs.Octal.Field.{characters, octal_field}

abbrev mode : List ℕ
mode = 7 ∷ 5 ∷ 5 ∷ []

octal_field_example :
    (atoi (characters mode ++ (0 ∷ [])) >>= λ n. ok (convert_octal_to_decimal n)) ≡ ok (some 493)
octal_field_example = octal_field mode [] (ground arith) (omega arith)

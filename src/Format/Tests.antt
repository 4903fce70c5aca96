-- ===== src/Format/Tests.antt =====
-- Runs of `convert` and `printf` of libc/printf.c.
use preemptive_unix_os.Base.{ℕ, ◌-◌, ◌^◌, ◌≡◌, ◌∷◌, ◌++◌, [], List, ok, fault, refl, arith, ◌>>=◌}
use preemptive_unix_os.Strings.{strlen}
use preemptive_unix_os.Format.{
  digits_from, above, decimal, print_number, print_directive, convert, printf, print_int, number,
  text, each,
}
use preemptive_unix_os.Format.RoundTrip.{atoi-convert}
use preemptive_unix_os.Format.Decimal.{print_int_lem, print_int-overflow}
use preemptive_unix_os.Tarfs.Octal.{atoi}

-- printf("n=%d%%\n", 42)
printf_percent :
    printf (110 ∷ 61 ∷ 37 ∷ 100 ∷ 37 ∷ 37 ∷ 10 ∷ 0 ∷ []) (number 42 ∷ [])
    ≡ ok (
        (110 ∷ 0 ∷ [], 1)
        ∷ (61 ∷ 0 ∷ [], 1)
        ∷ (52 ∷ 0 ∷ [], 2)
        ∷ (50 ∷ 0 ∷ [], 2)
        ∷ (10 ∷ 0 ∷ [], 1)
        ∷ [])
unfolding printf print_directive print_number print_int decimal above digits_from
printf_percent = refl

-- printf("%s", "hi")
printf_string :
    printf (37 ∷ 115 ∷ 0 ∷ []) (text (104 ∷ 105 ∷ 0 ∷ []) ∷ []) ≡ ok ((104 ∷ 105 ∷ 0 ∷ [], 2) ∷ [])
unfolding printf print_directive strlen
printf_string = refl

atoi-convert_example : (convert 65535 10 >>= λ s. atoi (s ++ (0 ∷ []))) ≡ ok 65535
atoi-convert_example = atoi-convert 65535 (omega arith)

print_int_lem_example :
    (s : List ℕ) × (print_int 1234 ≡ ok (each s))
    × (atoi (s ++ (0 ∷ [])) ≡ ok 1234)
    × (print_int (2 ^ 32 - 1234) ≡ ok ((45 ∷ 0 ∷ [], 1) ∷ each s))
    × (atoi (45 ∷ s ++ (0 ∷ [])) ≡ ok (2 ^ 64 - 1234))
print_int_lem_example = print_int_lem 1234 (omega arith) (omega arith)

print_int-overflow_example : print_int 2000000000 ≡ fault
print_int-overflow_example = print_int-overflow 2000000000 (omega arith) (omega arith)

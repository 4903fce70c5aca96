-- ===== src/Format.antt =====
-- `printf` of libc/printf.c with its `convert` (sys/printf.c has the same text, and prints each piece at
-- once). The variable arguments are a list; an argument of another kind than the directive wants is
-- undefined. What is printed is the list of the calls of `write(1, s, n)`: the object at `s`, and `n`. The count that
-- `printf` returns, and a `malloc` that fails under `%c`, are left out.
pub mod Convert
pub mod Decimal
pub mod RoundTrip
pub mod Tests
use preemptive_unix_os.Base.{
  ℕ, zero, suc, ◌+◌, ◌-◌, ◌*◌, ◌/◌, ◌%◌, ◌^◌, Bool, true, false, List, [], ◌∷◌, ◌++◌, Run, ok,
  fault, hang, ◌>>=◌, if◌then◌else◌, ltb, leb, ◌==◌, sign_extend,
}
use preemptive_unix_os.Strings.{strlen}

-- `"0123456789ABCDEF"[d]`
unfoldable pub digit_char : ℕ → ℕ
digit_char d = if ltb d 10 then 48 + d else 55 + d

-- The two loops of `convert`: the digits go before those that are there. A 64-bit number has 64 digits at most.
unfoldable pub convert_loop : ℕ → ℕ → ℕ → List ℕ → Run (List ℕ)
convert_loop zero n base out = hang
convert_loop (suc k) n base out =
    let rest = convert_loop k (n / base) base (digit_char (n % base) ∷ out) in
    if n == 0 then ok out else rest

-- The characters before the NUL.
unfoldable pub convert : ℕ → ℕ → Run (List ℕ)
convert input_number base =
    if input_number == 0 then ok (48 ∷ []) else convert_loop 65 input_number base []

-- An object, and how many of its bytes are to be written.
abbrev pub Write : Type 0
Write = List ℕ × ℕ

-- `while(i>=hp) hp=hp*10;` on an `int`: a product from 2^31 on is undefined.
unfoldable pub above : ℕ → ℕ → ℕ → Run ℕ
above zero i hp = hang
above (suc k) i hp =
    let rest = above k i (hp * 10) in
    if ltb i hp then ok hp else if leb (2 ^ 31) (hp * 10) then fault else rest

-- `while(hp>0)`: one character for each power of ten.
unfoldable pub digits_from : ℕ → ℕ → ℕ → Run (List ℕ)
digits_from zero i hp = hang
digits_from (suc k) i hp =
    let rest = digits_from k (i % hp) (hp / 10) in
    if hp == 0 then ok [] else (rest >>= λ more. ok ((48 + i / hp) ∷ more))

-- The characters of `%d` for a positive `int`.
unfoldable pub decimal : ℕ → Run (List ℕ)
decimal i = above 11 i 1 >>= λ hp. digits_from 11 i (hp / 10)

-- Each character is written as a string of its own, and with its NUL.
abbrev pub each : List ℕ → List Write
each [] = []
each (c ∷ s) = (c ∷ 0 ∷ [], 2) ∷ each s

-- `%d` for an `int` that is kept as its bit pattern: -2^31 has no negative.
unfoldable pub print_int : ℕ → Run (List Write)
print_int i =
    if i == 0
    then ok ((48 ∷ 0 ∷ 0 ∷ [], 2) ∷ [])
    else if ltb i (2 ^ 31)
    then (decimal i >>= λ s. ok (each s))
    else if i == 2 ^ 31
    then fault
    else (decimal (2 ^ 32 - i) >>= λ s. ok ((45 ∷ 0 ∷ [], 1) ∷ each s))

-- `va_arg` of a number, as the 64 bits of its register, and of a string.
pub data Arg : Type 0 where
  number : ℕ → Arg
  text : List ℕ → Arg

-- The directives that take a number.
unfoldable pub print_number : ℕ → ℕ → Run (List Write)
print_number directive n =
    if directive == b'c'
    then ok ((n % 256 ∷ 0 ∷ [], 1) ∷ [])
    else if directive == b'd'
    then print_int (n % 2 ^ 32)
    else if directive == b'o'
    then (convert (sign_extend n) 8 >>= λ s. ok ((s ++ (0 ∷ []), 2) ∷ []))
    else if directive == b'u'
    then (convert n 10 >>= λ s. ok ((s ++ (0 ∷ []), 2) ∷ []))
    else if directive == b'x'
    then (convert n 16 >>= λ s. ok ((48 ∷ 120 ∷ 0 ∷ [], 2) ∷ (s ++ (0 ∷ []), 2) ∷ []))
    else (convert n 16 >>= λ s. ok ((s ++ (0 ∷ []), 2) ∷ []))

abbrev pub takes_number : ℕ → Bool
takes_number directive =
    if directive == b'c'
    then true
    else if directive == b'd'
    then true
    else if directive == b'o'
    then true
    else if directive == b'u'
    then true
    else if directive == b'x'
    then true
    else directive == b'p'

-- One directive: what it writes, and the arguments that are left.
unfoldable pub print_directive : ℕ → List Arg → Run (List Write × List Arg)
print_directive directive [] =
    if takes_number directive then fault else if directive == b's' then fault else ok ([], [])
print_directive directive (number n ∷ args) =
    if takes_number directive
    then (print_number directive n >>= λ ws. ok (ws, args))
    else if directive == b's'
    then fault
    else ok ([], number n ∷ args)
print_directive directive (text s ∷ args) =
    if takes_number directive
    then fault
    else if directive == b's'
    then (strlen s >>= λ n. ok ((s, n) ∷ [], args))
    else ok ([], text s ∷ args)

-- `printf`: the format goes on behind any character that follows a `%`, also behind a NUL.
unfoldable pub printf : List ℕ → List Arg → Run (List Write)
printf [] args = fault
printf (c ∷ []) args = if c == 0 then ok [] else fault
printf (c ∷ d ∷ format) args = elim (c == 0) [
  | true ↦ ok []
  | false ↦ elim (c == b'%') [
    | true ↦
        print_directive d args >>= λ (ws, args'). printf format args' >>= λ more. ok (ws ++ more)
    | false ↦ printf (d ∷ format) args >>= λ more. ok ((c ∷ 0 ∷ [], 1) ∷ more)
  ]
]

-- ===== src/Page/Align.antt =====
-- `alignUp` and `alignDown` of sys/page.c, `alignFileUp` of sys/tarfs.c, and the eight-byte alignment
-- of sys/syscall.c, which counts one step at a time.
use preemptive_unix_os.Base.{
  ℕ, zero, suc, ◌+◌, ◌-◌, ◌*◌, ◌/◌, ◌%◌, ◌^◌, ◌≤◌, ◌<◌, ◌≡◌, arith, ◌==◌, if◌then◌else◌, add64,
  sub64, Option, none, some, Bool-cases, inl, inr,
}

abbrev pub page_size : ℕ
page_size = 4096

unfoldable pub align_up : ℕ → ℕ
align_up address =
    let diff = page_size - address % page_size in
    add64 address (if diff == page_size then 0 else diff)

unfoldable pub align_down : ℕ → ℕ
align_down address = address - address % page_size

abbrev pub file_content_size : ℕ
file_content_size = 512

unfoldable pub align_file_up : ℕ → ℕ
align_file_up size =
    let diff = file_content_size - size % file_content_size in
    if diff == file_content_size then size else add64 size diff

-- `while (temp % 8) temp++;` with the rounds that are left; `none` when they run out.
unfoldable pub align_up_eight : ℕ → ℕ → Option ℕ
align_up_eight zero temp = none
align_up_eight (suc k) temp =
    let rest = align_up_eight k (add64 temp 1) in if temp % 8 == 0 then some temp else rest

-- `while (temp % 8) temp--;`
unfoldable pub align_down_eight : ℕ → ℕ → Option ℕ
align_down_eight zero temp = none
align_down_eight (suc k) temp =
    let rest = align_down_eight k (sub64 temp 1) in if temp % 8 == 0 then some temp else rest

-- `alignUp` of an address whose page is not the last one is the least page boundary at or above it.
pub align_up_least :
    (a : ℕ)
    → a ≤ 2 ^ 64 - page_size
    → (a ≤ align_up a)
      × (align_up a % page_size ≡ 0)
      × ((b : ℕ) → b % page_size ≡ 0 → a ≤ b → (align_up a ≤ b))
unfolding align_up
align_up_least a h = (ground arith, ground arith, λ b e l. ground arith)

pub align_up_last : (a : ℕ) → 2 ^ 64 - page_size < a → a < 2 ^ 64 → align_up a ≡ 0
unfolding align_up
align_up_last a h l = ground arith

pub align_down_greatest :
    (a : ℕ)
    → (align_down a ≤ a)
      × (align_down a % page_size ≡ 0)
      × ((b : ℕ) → b % page_size ≡ 0 → b ≤ a → (b ≤ align_down a))
unfolding align_down
align_down_greatest a = (omega arith, omega arith, λ b e l. omega arith)

pub align_file_up_least :
    (a : ℕ)
    → a < 2 ^ 64 - file_content_size
    → (a ≤ align_file_up a)
      × (align_file_up a % file_content_size ≡ 0)
      × (align_file_up a < a + file_content_size)
unfolding align_file_up
align_file_up_least a h = (ground arith, ground arith, ground arith)

-- Eight rounds of the loop are enough, below the last eight-byte boundary.
align_up_eight_rounds :
    (k a : ℕ)
    → a ≤ 2 ^ 64 - 8
    → (8 - a % 8) % 8 < k
    → align_up_eight k a ≡ some (a + (8 - a % 8) % 8)
unfolding align_up_eight
align_up_eight_rounds zero a h f = elim f [ ]
align_up_eight_rounds (suc k) a h f = elim (Bool-cases (a % 8 == 0)) [
  | inl e ↦ rw e (ground arith)
  | inr e ↦ rw e (ground (arith, align_up_eight_rounds k (add64 a 1)))
]

pub align_up_eight_lem : (a : ℕ) → a ≤ 2 ^ 64 - 8 → align_up_eight 8 a ≡ some ((a + 7) / 8 * 8)
align_up_eight_lem a h = ground (arith, align_up_eight_rounds 8 a)

align_down_eight_rounds :
    (k a : ℕ) → a < 2 ^ 64 → a % 8 < k → align_down_eight k a ≡ some (a - a % 8)
unfolding align_down_eight
align_down_eight_rounds zero a h f = elim f [ ]
align_down_eight_rounds (suc k) a h f = ground (arith, align_down_eight_rounds k (sub64 a 1))

pub align_down_eight_lem : (a : ℕ) → a < 2 ^ 64 → align_down_eight 8 a ≡ some (a / 8 * 8)
align_down_eight_lem a h = ground (arith, align_down_eight_rounds 8 a)

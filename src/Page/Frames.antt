-- ===== src/Page/Frames.antt =====
-- The page frames of sys/page.c: the array `pages` of descriptors, the free list that runs through
-- it, and the contents of physical memory. A `struct page *` is the index of its descriptor, and
-- NULL is `none`. `ref_count` is an `int`, kept as its bit pattern.
pub mod FreeList
pub mod Init
use preemptive_unix_os.Base.{
  ℕ, zero, suc, ◌+◌, ◌-◌, ◌*◌, ◌/◌, ◌%◌, ◌^◌, Bool, ◌&&◌, ◌||◌, Option, none, some, if◌then◌else◌,
  leb, Run, ok, fault, update, add64, sub64,
}
use preemptive_unix_os.Page.Align.{page_size, align_down}

abbrev pub Page : Type 0
Page = ℕ

-- `frame p i` is the `uint64_t` number `i` of the page frame `p`.
pub record Memory : Type 0 where
  pub next : Page → Option Page
  pub prev : Page → Option Page
  pub ref_count : Page → ℕ
  pub page_free_list : Option Page
  pub frame : Page → ℕ → ℕ

abbrev pub num_pages : ℕ
num_pages = 32766

abbrev pub kernbase : ℕ
kernbase = 0xFFFFFFFF80000000

abbrev pub physbase : ℕ
physbase = 0x200000

abbrev pub kheapstart : ℕ
kheapstart = 0xFFFFFFFF80502000

abbrev pub kheapend : ℕ
kheapend = 0xFFFFFFFF80600000

abbrev pub kaddr : ℕ → ℕ
kaddr phy_addr = add64 kernbase phy_addr

abbrev pub paddr : ℕ → ℕ
paddr kv_addr = sub64 kv_addr kernbase

unfoldable pub get_pa : Page → ℕ
get_pa p = p * page_size % 2 ^ 64

unfoldable pub get_va : Page → ℕ
unfolding get_pa
get_va p = kaddr (get_pa p)

unfoldable pub get_str_ptr_from_pa : ℕ → Page
unfolding align_down
get_str_ptr_from_pa phy_addr = align_down phy_addr / page_size

unfoldable pub get_str_ptr_from_va : ℕ → Page
unfolding get_str_ptr_from_pa
get_str_ptr_from_va virt_addr = get_str_ptr_from_pa (paddr virt_addr)

-- The pages that `page_free_init` keeps off the free list. `KHEAPEND` is a kernel address, above
-- every physical one, so nothing from `PHYSBASE` on is free.
unfoldable pub is_reserved : Page → Bool
is_reserved i =
    let start_addr = i * page_size in
    let end_addr = start_addr + page_size - 1 in
    (leb 0x9FC00 start_addr && leb start_addr 0x100000)
    || (leb 0x9FC00 end_addr && leb end_addr 0x100000)
    || (leb physbase start_addr && leb start_addr kheapend)
    || (leb physbase end_addr && leb end_addr kheapend)

-- One round of the loop of `page_free_init`. The first page that becomes free gets its `next` alone.
unfoldable pub page_free_step : Page → Memory → Memory
unfolding is_reserved
page_free_step i m =
    if is_reserved i
    then record m { ref_count = update m.ref_count i 1 }
    else elim m.page_free_list [
      | none ↦ record m { page_free_list = some i; next = update m.next i none }
      | some head ↦ record m {
        next = update m.next head (some i);
        prev = update m.prev i (some head);
        page_free_list = some i;
        ref_count = update m.ref_count i 0;
      }
    ]

-- The loop over the first `n` pages.
unfoldable pub page_free_rounds : ℕ → Memory → Memory
page_free_rounds zero m = m
page_free_rounds (suc n) m = page_free_step n (page_free_rounds n m)

unfoldable pub page_free_init : Memory → Memory
page_free_init m = page_free_rounds num_pages m

-- The new head of the free list is written through before it is tested, so the last free page
-- cannot be taken.
unfoldable pub page_alloc : Memory → Run (Option Page × Memory)
page_alloc m = elim m.page_free_list [
  | none ↦ ok (none, m)
  | some temp ↦ elim (m.prev temp) [
    | none ↦ fault
    | some head ↦ ok (
      some temp,
      record m {
        page_free_list = some head;
        prev = update m.prev temp none;
        next = update m.next head none;
        frame = update m.frame temp (λ _. 0);
      },
    )
  ]
]

unfoldable pub page_release : Page → Memory → Run Memory
page_release page m = elim m.page_free_list [
  | none ↦ fault
  | some head ↦ ok (record m {
    frame = update m.frame page (λ _. 0);
    ref_count = update m.ref_count page 0;
    prev = update m.prev page (some head);
    next = update (update m.next page none) head (some page);
    page_free_list = some page;
  })
]

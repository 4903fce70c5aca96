-- ===== src/Page/Fault.antt =====
-- The page faults of sys/isr.c: a new page for an address of an area, and the copy of a page that is shared until it is
-- written. The processor follows the same tables as the walks of sys/page.c.
pub mod Cow
pub mod InPlace
pub mod Tests
use preemptive_unix_os.Base.{
  ℕ, zero, suc, ◌+◌, ◌-◌, ◌*◌, ◌/◌, ◌%◌, ◌^◌, Bool, Option, none, some, if◌then◌else◌, leb, ◌==◌,
  Run, ok, fault, ◌>>=◌, update, add64, sub64, bit_or,
}
use preemptive_unix_os.Page.Align.{page_size, align_up, align_down}
use preemptive_unix_os.Page.Frames.{Page, Memory, paddr, get_str_ptr_from_pa, page_alloc}
use preemptive_unix_os.Page.Walk.{
  load, store, bit_rw, check_present, pml4off, pdpeoff, pdeoff, pteoff, pml4_walk, page_insert,
  page_remove,
}
use preemptive_unix_os.Page.Kmalloc.{kmalloc}
use preemptive_unix_os.Vma.{Vma}

abbrev pub bit_cow : ℕ
bit_cow = 256

-- `e & BIT_COW`
abbrev pub check_cow : ℕ → Bool
check_cow e = e / bit_cow % 2 == 1

-- The frame that an entry points to; an entry that is not present is another page fault, inside the kernel.
unfoldable pub follow : Memory → Page → ℕ → Run Page
follow m table off =
    if check_present (m.frame table off) then ok (m.frame table off / page_size) else fault

-- The frame that the processor finds for a virtual address, from the top table on.
unfoldable pub frame_at : Memory → Page → ℕ → Run Page
frame_at m cr3 v_addr = follow m cr3 (pml4off v_addr) >>= λ t2.
    follow m t2 (pdpeoff v_addr) >>= λ t3.
    follow m t3 (pdeoff v_addr) >>= λ t4. follow m t4 (pteoff v_addr)

-- `memcpy` of a page to the virtual address.
unfoldable pub write_page : Memory → Page → ℕ → (ℕ → ℕ) → Run Memory
write_page m cr3 v_addr buffer =
    frame_at m cr3 v_addr >>= λ page. ok (record m { frame = update m.frame page buffer })

-- The frame of a kernel virtual address.
abbrev pub kernel_frame : ℕ → Page
kernel_frame kv_addr = paddr kv_addr / page_size

-- The page gets a copy of its own at a new frame, with its bytes kept in the page at `buffer` meanwhile. NULL, for the buffer
-- or for the new frame, is written through.
unfoldable pub copy_page : Memory → ℕ → ℕ → ℕ → Run Memory
copy_page m buffer pml4 fault_addr =
    let cr3 = kernel_frame pml4 in
    if buffer == 0
    then fault
    else (frame_at m cr3 (align_down fault_addr) >>= λ page.
        let kept = record m { frame = update m.frame (kernel_frame buffer) (m.frame page) } in
        page_remove kept pml4 fault_addr >>= λ m1. page_alloc m1 >>= λ (new_page, m2).
        elim new_page [
          | none ↦ fault
          | some p ↦
              (page_insert m2 pml4 fault_addr p 7 >>= λ m3.
              write_page m3 cr3 (align_down fault_addr) (m3.frame (kernel_frame buffer)))
        ])

-- The end of the kernel heap, which gives a page for the buffer in any case, and the memory. An entry without the bit is left
-- alone. A page with another number of references than two is made writeable in place.
unfoldable pub copy_on_write_handler : ℕ → Memory → ℕ → ℕ → Run (ℕ × Memory)
copy_on_write_handler kernel_heap_end m pml4 fault_addr =
    let (buffer, heap') = kmalloc kernel_heap_end page_size in
    pml4_walk m pml4 fault_addr >>= λ (found, m'). elim found [
      | none ↦ fault
      | some pte ↦
          (let e = load m' pte in
            if check_cow e
            then (if m'.ref_count (get_str_ptr_from_pa e) == 2
                then (copy_page m' buffer pml4 fault_addr >>= λ m''. ok (heap', m''))
                else ok (heap', store m' pte (bit_or (e - bit_cow) bit_rw)))
            else ok (heap', m'))
    ]

-- A page that is not mapped yet gets a new frame.
unfoldable pub allocate_page : Memory → ℕ → ℕ → ℕ → Run Memory
allocate_page m pml4 v_addr perms = pml4_walk m pml4 v_addr >>= λ (found, m'). elim found [
  | none ↦ fault
  | some pte ↦
      (if load m' pte == 0
        then (page_alloc m' >>= λ (new_page, m''). elim new_page [
          | none ↦ fault
          | some p ↦ page_insert m'' pml4 v_addr p perms
        ])
        else ok m')
]

-- The rounds that are left, from the page `i` on. `i*PAGE_SIZE` is an `int`.
unfoldable pub allocate_from : ℕ → ℕ → Memory → ℕ → ℕ → ℕ → Run Memory
allocate_from zero i m pml4 start perms = ok m
allocate_from (suc k) i m pml4 start perms =
    if leb (2 ^ 31) (i * page_size)
    then fault
    else (allocate_page m pml4 (add64 start (i * page_size)) perms >>= λ m'.
        allocate_from k (suc i) m' pml4 start perms)

-- A number of pages from 2^31 on is a negative `int`.
unfoldable pub allocate_pages : Memory → ℕ → Vma → Run Memory
allocate_pages m pml4 vmas =
    let pages = sub64 (align_up vmas.end) (align_down vmas.start) / page_size % 2 ^ 32 in
    let perms = if vmas.flags_vma / 2 % 2 == 1 then 7 else 5 in
    allocate_from (if leb (2 ^ 31) pages then 0 else pages) 0 m pml4 vmas.start perms

-- ===== src/Page/Kmalloc.antt =====
-- `kmalloc` of sys/page.c: the kernel heap, from which nothing is freed. The state is
-- `kernel_heap_end`, 0 before the first call; what is returned is a kernel address, or 0.
use preemptive_unix_os.Base.{
  ◌-◌, inl, inr, Bool-cases, ℕ, ◌+◌, ◌%◌, ◌^◌, ◌≤◌, ◌<◌, ◌≡◌, ◌≢◌, ◌⊎◌, arith, ltb, leb, ◌==◌,
  if◌then◌else◌, add64,
}
use preemptive_unix_os.Page.Align.{page_size, align_up, align_up_least}
use preemptive_unix_os.Page.Frames.{kheapstart, kheapend}

unfoldable pub heap_end : ℕ → ℕ
heap_end kernel_heap_end = if kernel_heap_end == 0 then kheapstart else kernel_heap_end

-- The address, and `kernel_heap_end` after the call.
unfoldable pub kmalloc : ℕ → ℕ → ℕ × ℕ
unfolding heap_end
kmalloc kernel_heap_end size =
    let end = heap_end kernel_heap_end in
    if leb page_size size
    then (let temp = align_up end in
        if ltb (add64 temp size) kheapend then (temp, add64 temp size) else (0, end))
    else (if ltb (add64 end size) kheapend then (end, add64 end size) else (0, end))

-- The heap's end lies in the heap.
abbrev pub InHeap : ℕ → Type 0
InHeap end = (end ≡ 0) ⊎ (kheapstart ≤ end) × (end < kheapend)

-- What a call promises that asked for `size` bytes of the heap that ended at `end`: the end stays in the
-- heap and does not fall, and a block that is returned starts at or after the old end, ends at or before the new
-- end, and starts a page if it is a page or longer.
abbrev pub Grants : ℕ → ℕ → ℕ × ℕ → Type 0
Grants end size (p, end') =
    InHeap end'
    × (heap_end end ≤ end')
    × (p ≢ 0 → (heap_end end ≤ p) × (p + size ≤ end'))
    × (p ≢ 0 → page_size ≤ size → p % page_size ≡ 0)

heap_end-in : (end : ℕ) → InHeap end → (kheapstart ≤ heap_end end) × (heap_end end < kheapend)
unfolding heap_end
heap_end-in end h = ground arith

rounded :
    (end : ℕ)
    → InHeap end
    → (heap_end end ≤ align_up (heap_end end))
      × (align_up (heap_end end) % page_size ≡ 0)
      × (align_up (heap_end end) ≤ kheapend)
rounded end h =
    let within = heap_end-in end h in
    let up = align_up_least (heap_end end) (omega arith) in
    (up.0, up.1, up.2 kheapend (omega arith) (omega arith))

-- Every call of `kmalloc` keeps the promises of `Grants`, if adding `size` to an address of the heap
-- does not wrap round 2^64.
pub kmalloc-Grants :
    (end size : ℕ) → InHeap end → size < 2 ^ 64 - kheapend → Grants end size (kmalloc end size)
unfolding kmalloc
kmalloc-Grants end size h small =
    let within = heap_end-in end h in
    let up = rounded end h in
    elim (Bool-cases (leb page_size size)) [
      | inl large ↦ rw large (ground arith, ground arith, λ ne. ground arith, λ ne l. ground arith)
      | inr less ↦ rw less (ground arith, ground arith, λ ne. ground arith, λ ne l. ground arith)
    ]

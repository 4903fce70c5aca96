-- ===== src/Vma/Remove.antt =====
-- `vma_free_init` of sys/page.c and `vma_remove_for_process` of sys/cleanup.c: the areas in no use, and the pages of those
-- that go.
pub mod Freed
pub mod Tests
use preemptive_unix_os.Base.{
  ℕ, zero, suc, ◌+◌, ◌*◌, ◌/◌, ◌%◌, ◌^◌, add64, sub64, leb, Run, ok, fault, hang, ◌>>=◌,
  if◌then◌else◌, ◌==◌, update,
}
use preemptive_unix_os.Page.Align.{page_size, align_up, align_down}
use preemptive_unix_os.Page.Frames.{Memory}
use preemptive_unix_os.Page.Walk.{get_mapping, page_remove}
use preemptive_unix_os.Vma.{Vma, Areas, num_vm_areas, rounds}

-- One step of the loop of `vma_free_init`: the area at `p` comes before the ones in no use.
unfoldable pub free_first : Areas → ℕ → Areas
free_first s p =
    let old = s.vma_free_list in
    if old == 0
    then record s {
      areas = update s.areas p (record (s.areas p) { next = 0; prev = 0 });
      vma_free_list = p;
    }
    else (let a = update s.areas old (record (s.areas old) { prev = p }) in
        record s { areas = update a p (record (a p) { next = old }); vma_free_list = p })

-- The loop from the area with the number `k - 1` down, with the array at `vma_array` and `size` bytes for an area.
unfoldable pub vma_free_from : ℕ → ℕ → ℕ → Areas → Areas
vma_free_from zero vma_array size s = s
vma_free_from (suc k) vma_array size s =
    vma_free_from k vma_array size (free_first s (vma_array + k * size))

-- `sizeof(struct vma)` with its alignment is the parameter `size`.
unfoldable pub vma_free_init : ℕ → ℕ → Areas → Areas
vma_free_init vma_array size s = vma_free_from num_vm_areas vma_array size s

-- An area back to those in no use; there must be one.
unfoldable pub release_vma : Areas → ℕ → Run Areas
release_vma s vma_temp =
    let old = s.vma_free_list in
    let a = update s.areas old (record (s.areas old) { prev = vma_temp }) in
    if old == 0
    then fault
    else ok (record s {
      areas =
          update a vma_temp (record { next = old; prev = 0; start = 0; end = 0; flags_vma = 0 });
      vma_free_list = vma_temp;
    })

-- The loop over the pages of an area, from the page `i` on, with the rounds that are left. `i*PAGE_SIZE` is an `int`. A walk
-- without memory is read through.
unfoldable pub unmap_from : ℕ → ℕ → Memory → ℕ → ℕ → Run Memory
unmap_from zero i m pml4 start = ok m
unmap_from (suc k) i m pml4 start =
    let at = add64 start (i * page_size) in
    if leb (2 ^ 31) (i * page_size)
    then fault
    else (get_mapping m at pml4 >>= λ (e, m1).
        (if e == 0 then ok m1 else page_remove m1 pml4 at) >>= λ m2.
        unmap_from k (suc i) m2 pml4 start)

-- The pages of an area; a number of them from 2^31 on is a negative `int`.
unfoldable pub unmap_area : Memory → ℕ → Vma → Run Memory
unmap_area m pml4 area =
    let pages = sub64 (align_up area.end) (align_down area.start) / page_size % 2 ^ 32 in
    unmap_from (if leb (2 ^ 31) pages then 0 else pages) 0 m pml4 area.start

unfoldable pub remove_from : ℕ → Areas → Memory → ℕ → ℕ → Run (Areas × Memory)
remove_from zero s m pml4 vma_temp = hang
remove_from (suc n) s m pml4 vma_temp =
    let vma_follower = (s.areas vma_temp).next in
    if vma_temp == 0
    then ok (s, m)
    else (unmap_area m pml4 (s.areas vma_temp) >>= λ m'.
        release_vma s vma_temp >>= λ s'. remove_from n s' m' pml4 vma_follower)

-- The process has its areas in `s` and its page tables at `pml4`.
unfoldable pub vma_remove_for_process : Areas → Memory → ℕ → Run (Areas × Memory)
vma_remove_for_process s m pml4 =
    remove_from rounds s m pml4 s.first_vma >>= λ (s', m'). ok (record s' { first_vma = 0 }, m')

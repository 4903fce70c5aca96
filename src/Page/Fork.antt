-- ===== src/Page/Fork.antt =====
-- The memory of `fork_handler` of sys/syscall.c: the areas of the child and its page tables. The process table, the
-- exception stack and the registers of the child are not part of the state.
pub mod Share
pub mod Tests
use preemptive_unix_os.Base.{
  ℕ, zero, suc, ◌+◌, ◌-◌, ◌*◌, ◌/◌, ◌%◌, ◌^◌, Bool, Option, none, some, if◌then◌else◌, leb, ◌==◌,
  Run, ok, fault, hang, ◌>>=◌, update, add64, sub64, bit_or,
}
use preemptive_unix_os.Page.Align.{page_size, align_up, align_down}
use preemptive_unix_os.Page.Frames.{Page, Memory, get_str_ptr_from_pa}
use preemptive_unix_os.Page.Walk.{load, store, bit_rw, pml4_walk, page_insert}
use preemptive_unix_os.Page.Fault.{bit_cow}
use preemptive_unix_os.Vma.{Vma, Areas, rounds, vma_alloc}

-- `(e & ~(0x2)) | BIT_COW`
abbrev pub as_cow : ℕ → ℕ
as_cow e = bit_or (if e / bit_rw % 2 == 1 then e - bit_rw else e) bit_cow

-- One page of an area: where the parent has it, the child maps the same frame, and neither may write it.
unfoldable pub share_page : Memory → ℕ → ℕ → ℕ → Bool → Run Memory
share_page m parent child v_addr writeable = pml4_walk m parent v_addr >>= λ (found, m').
    elim found [
      | none ↦ fault
      | some pte ↦
          (let e = load m' pte in
            if e == 0
            then ok m'
            else if writeable
            then page_insert (store m' pte (as_cow e)) child v_addr (get_str_ptr_from_pa (as_cow e))
                261
            else page_insert m' child v_addr (get_str_ptr_from_pa e) 5)
    ]

-- The rounds that are left, from the page `i` on. `i*PAGE_SIZE` is an `int`.
unfoldable pub share_from : ℕ → ℕ → Memory → ℕ → ℕ → ℕ → Bool → Run Memory
share_from zero i m parent child start writeable = ok m
share_from (suc k) i m parent child start writeable =
    if leb (2 ^ 31) (i * page_size)
    then fault
    else (share_page m parent child (add64 start (i * page_size)) writeable >>= λ m'.
        share_from k (suc i) m' parent child start writeable)

-- The pages of an area; a number of them from 2^31 on is a negative `int`.
unfoldable pub share_area : Memory → ℕ → ℕ → Vma → Run Memory
share_area m parent child area =
    let pages = sub64 (align_up area.end) (align_down area.start) / page_size % 2 ^ 32 in
    share_from (if leb (2 ^ 31) pages then 0 else pages) 0 m parent child area.start
      (area.flags_vma / 2 % 2 == 1)

-- The areas, of which the parent's start at `first_vma`, the memory, and the child's areas so far.
pub record Fork : Type 0 where
  pub areas : Areas
  pub memory : Memory
  pub child_first_vma : ℕ
  pub prev_child_vma : ℕ

-- A copy of the area at `vma_temp` behind those that the child has.
unfoldable pub copy_area : Fork → ℕ → Run Fork
copy_area f vma_temp =
    let (new, s) = vma_alloc f.areas in
    let prev = f.prev_child_vma in
    let first = vma_temp == s.first_vma in
    let a =
      update s.areas new
        (record (s.areas vma_temp) { next = 0; prev = if first then 0 else prev }) in
    if new == 0
    then fault
    else ok (record {
      areas = record s {
        areas = if first then a else update a prev (record (a prev) { next = new });
      };
      memory = f.memory;
      child_first_vma = if first then new else f.child_first_vma;
      prev_child_vma = new;
    })

-- The loop over the areas of the parent, from `vma_temp` on.
unfoldable pub fork_from : ℕ → Fork → ℕ → ℕ → ℕ → Run Fork
fork_from zero f parent child vma_temp = hang
fork_from (suc n) f parent child vma_temp =
    if vma_temp == 0
    then ok f
    else (copy_area f vma_temp >>= λ f1.
        share_area f1.memory parent child (f1.areas.areas vma_temp) >>= λ m.
        fork_from n (record f1 { memory = m }) parent child (f1.areas.areas vma_temp).next)

unfoldable pub fork_memory : Areas → Memory → ℕ → ℕ → Run Fork
fork_memory s m parent child =
    fork_from rounds (record { areas = s; memory = m; child_first_vma = 0; prev_child_vma = 0 })
      parent child s.first_vma

-- ===== src/Vma.antt =====
-- The virtual memory areas of a process: `vma_alloc` of sys/page.c, the loader's areas of
-- sys/elf.c, the heap and the stack area of sys/process.c, `findVMA` of sys/isr.c, and `getHeapVMA` and
-- `SYS_brk` of sys/syscall.c. A `struct vma *` is an address, 0 for NULL. A loop over the areas of a
-- process gets one round more than there are areas; on a longer, circular list it spins.
pub mod Chain
pub mod Check
pub mod Insert
pub mod Load
pub mod Brk
pub mod Find
pub mod Remove
pub mod Tests
use preemptive_unix_os.Base.{
  ℕ, zero, suc, ◌+◌, ◌-◌, ◌/◌, ◌%◌, Bool, true, false, ◌&&◌, ◌||◌, not, List, [], ◌∷◌, Run, ok,
  fault, hang, ◌>>=◌, if◌then◌else◌, leb, ltb, ◌==◌, minus_one, update, add64, sub64,
}
use preemptive_unix_os.Page.Align.{page_size, align_up, align_down}

-- `struct vma`
pub record Vma : Type 0 where
  pub next : ℕ
  pub prev : ℕ
  pub start : ℕ
  pub end : ℕ
  pub flags_vma : ℕ

-- The areas at their addresses, the first one of the process, and the list of the areas in no use.
pub record Areas : Type 0 where
  pub areas : ℕ → Vma
  pub first_vma : ℕ
  pub vma_free_list : ℕ

abbrev pub num_vm_areas : ℕ
num_vm_areas = 100

abbrev pub rounds : ℕ
rounds = 101

abbrev pub ustacktop : ℕ
ustacktop = 0xFFFFFF7F7FFFE000

abbrev pub ustacklimit : ℕ
ustacklimit = 0xFFFFFF7F7FEFE000

abbrev pub uheapstart : ℕ
uheapstart = 0xFFFFFF7F7FDFC000

abbrev pub uheaplimit : ℕ
uheaplimit = 0xFFFFFF7F7FEFC000

-- The area to use, NULL when there is none left.
unfoldable pub vma_alloc : Areas → ℕ × Areas
vma_alloc s =
    let temp = s.vma_free_list in
    (temp, if temp == 0 then s else record s { vma_free_list = (s.areas temp).next })

abbrev pub contains : Vma → ℕ → Bool
contains v addr = leb v.start addr && leb addr v.end

-- The area grows to the end of the section where that is behind the area's end.
unfoldable pub grow_vma : Areas → ℕ → ℕ → ℕ → Areas
grow_vma s p addr size =
    let v = s.areas p in
    if ltb v.end (add64 addr size)
    then record s { areas = update s.areas p (record v { end = align_up (add64 addr size) }) }
    else s

unfoldable pub check_from : ℕ → Areas → ℕ → ℕ → ℕ → Run (Bool × Areas)
check_from zero s temp addr size = hang
check_from (suc n) s temp addr size =
    let rest = check_from n s (s.areas temp).next addr size in
    if temp == 0
    then ok (false, s)
    else if contains (s.areas temp) addr
    then ok (true, grow_vma s temp addr size)
    else rest

unfoldable pub check_vma : Areas → ℕ → ℕ → Run (Bool × Areas)
check_vma s addr size = check_from rounds s s.first_vma addr size

unfoldable pub get_vma_flags : ℕ → ℕ
get_vma_flags shf =
    if shf == 6
    then 5
    else if shf == 3
    then 3
    else if shf == 2
    then 1
    else if shf == 7
    then 7
    else 2

-- A NULL area is written through.
unfoldable pub set_vma : Areas → ℕ → ℕ → ℕ → ℕ → ℕ → ℕ → Run Areas
set_vma s curr prev next start end flags =
    let first = if prev == 0 && next == 0 then curr else s.first_vma in
    let a1 =
      update s.areas curr
        (record (s.areas curr) { start = start; end = end; next = next; prev = prev }) in
    let a2 = if next == 0 then a1 else update a1 next (record (a1 next) { prev = curr }) in
    let a3 = if prev == 0 then a2 else update a2 prev (record (a2 prev) { next = curr }) in
    let a4 = update a3 curr (record (a3 curr) { flags_vma = flags }) in
    if curr == 0 then fault else ok (record s { areas = a4; first_vma = first })

-- The loop of `insert_vma` from the area `temp`, with the area `curr` to put behind one that contains
-- `addr`, or behind the last one.
unfoldable pub insert_from : ℕ → Areas → ℕ → ℕ → ℕ → ℕ → ℕ → ℕ → Run Areas
insert_from zero s temp curr addr start end flags = hang
insert_from (suc n) s temp curr addr start end flags =
    let v = s.areas temp in
    let rest = insert_from n s v.next curr addr start end flags in
    if v.next == 0
    then set_vma s curr temp 0 start end flags
    else if contains v addr
    then set_vma s curr temp v.next start end flags
    else rest

unfoldable pub insert_vma : Areas → ℕ → ℕ → ℕ → Run Areas
insert_vma s addr size flags =
    let (temp, s') = vma_alloc s in
    let start = align_down addr in
    let end = align_up (add64 addr size) in
    if s.first_vma == 0
    then set_vma s' temp 0 0 start end (get_vma_flags flags)
    else insert_from rounds s' s.first_vma temp addr start end (get_vma_flags flags)

-- What the loader reads of a section header.
pub record Section : Type 0 where
  pub sh_flags : ℕ
  pub sh_addr : ℕ
  pub sh_size : ℕ

-- `sh_flags & SH_ALLOC`
abbrev pub is_alloc : Section → Bool
is_alloc sec = sec.sh_flags / 2 % 2 == 1

unfoldable pub load_section : Areas → Section → Run Areas
load_section s sec =
    if is_alloc sec
    then (check_vma s sec.sh_addr sec.sh_size >>= λ (found, s').
        if found then ok s' else insert_vma s' sec.sh_addr sec.sh_size sec.sh_flags)
    else ok s

-- The loop of `getELF` over the section headers of the file.
unfoldable pub get_elf : Areas → List Section → Run Areas
get_elf s [] = ok s
get_elf s (sec ∷ sections) = load_section s sec >>= λ s'. get_elf s' sections

unfoldable pub find_last_from : ℕ → (ℕ → Vma) → ℕ → Run ℕ
find_last_from zero areas temp = hang
find_last_from (suc n) areas temp =
    let rest = find_last_from n areas (areas temp).next in
    if (areas temp).next == 0 then ok temp else rest

unfoldable pub find_last_vma : Areas → Run ℕ
find_last_vma s = if s.first_vma == 0 then ok 0 else find_last_from rounds s.areas s.first_vma

-- The new area behind the last one. `prev` is set here for both; NULL is written through.
unfoldable pub add_last : Areas → ℕ → Vma → Run Areas
add_last s temp new =
    let (curr, s') = vma_alloc s in
    if temp == 0 || curr == 0
    then fault
    else ok (record s' {
      areas = update (update s'.areas temp (record (s'.areas temp) { next = curr })) curr new;
    })

-- `add_heap_vma`: 3 is `VM_READ | VM_WRITE`.
unfoldable pub add_heap_vma : Areas → Run Areas
add_heap_vma s = find_last_vma s >>= λ temp.
    add_last s temp
      (record { next = 0; prev = temp; start = uheapstart; end = uheapstart; flags_vma = 3 })

-- `add_stack_vma` does nothing where no area is left.
unfoldable pub add_stack_vma : Areas → Run Areas
add_stack_vma s = find_last_vma s >>= λ temp.
    if s.vma_free_list == 0
    then ok s
    else add_last s temp (record {
      next = 0;
      prev = temp;
      start = ustacktop - page_size;
      end = ustacktop;
      flags_vma = 3;
    })

unfoldable pub heap_from : ℕ → (ℕ → Vma) → ℕ → Run ℕ
heap_from zero areas temp = hang
heap_from (suc n) areas temp =
    let rest = heap_from n areas (areas temp).next in
    if temp == 0 then ok 0 else if (areas temp).start == uheapstart then ok temp else rest

unfoldable pub get_heap_vma : Areas → Run ℕ
get_heap_vma s = heap_from rounds s.areas s.first_vma

-- `SYS_brk`: what it returns, and the areas after it. A process without a heap area reads NULL.
unfoldable pub sys_brk : Areas → ℕ → Run (ℕ × Areas)
sys_brk s new_heap_top = get_heap_vma s >>= λ temp.
    let v = s.areas temp in
    if new_heap_top == 0
    then (if temp == 0 then fault else ok (v.end, s))
    else if ltb uheaplimit new_heap_top || ltb new_heap_top uheapstart
    then ok (minus_one, s)
    else if temp == 0
    then fault
    else if ltb v.end new_heap_top
    then ok (0, record s { areas = update s.areas temp (record v { end = align_up new_heap_top }) })
    else ok (0, s)

-- The test of `findVMA`; bit 1 of `errno` says that a write faulted, bit 1 of the flags allows writes.
unfoldable pub admits : Vma → ℕ → ℕ → Bool
admits v addr errno =
    let stack_cond =
      ltb ustacklimit v.start
      && leb page_size (sub64 v.start ustacklimit)
      && leb (sub64 v.start 8) addr in
    let write = errno / 2 % 2 == 1 in
    (contains v addr || stack_cond) && ((write && v.flags_vma / 2 % 2 == 1) || not write)

unfoldable pub find_from : ℕ → (ℕ → Vma) → ℕ → ℕ → ℕ → Run ℕ
find_from zero areas temp addr errno = hang
find_from (suc n) areas temp addr errno =
    let rest = find_from n areas (areas temp).next addr errno in
    if temp == 0 then ok 0 else if admits (areas temp) addr errno then ok temp else rest

unfoldable pub find_vma : Areas → ℕ → ℕ → Run ℕ
find_vma s addr errno = find_from rounds s.areas s.first_vma addr errno

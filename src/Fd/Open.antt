-- ===== src/Fd/Open.antt =====
-- `sys_open`, `sys_dup` and `sys_pipe` of sys/syscall.c: the slots that they hand out.
use preemptive_unix_os.Base.{
  ℕ, zero, suc, ◌≤◌, ◌<◌, ◌≡◌, ◌≢◌, ◌∙◌, refl, ap, true, false, some, List, [], ◌∷◌, ok, fault,
  arith, ◌==◌, ltb, update, set, get_elem?, length, length-set, Ensures,
}
use preemptive_unix_os.Page.Kmalloc.{kmalloc}
use preemptive_unix_os.Fd.{
  tarfile, FileDescriptor, Kernel, set_slot, find_slot, new_descriptor, max_file_descriptors,
  sizeof_file_descriptor,
}
use preemptive_unix_os.Fd.Calls.{sys_open, open_allowed, sys_dup}
use preemptive_unix_os.Fd.Slots.{
  HasTable, FirstFree, find_slot-FirstFree, find_slot-full, slot-some,
}

pub get_elem?-set_self : (xs : List ℕ) (i p : ℕ) → i < length xs → get_elem? (set xs i p) i ≡ some p
get_elem?-set_self [] i p h = absurd (omega arith)
get_elem?-set_self (x ∷ xs) zero p h = refl
get_elem?-set_self (x ∷ xs) (suc i) p h = get_elem?-set_self xs i p (omega arith)

pub get_elem?-set_ne : (xs : List ℕ) (i j p : ℕ) → i ≢ j → get_elem? (set xs i p) j ≡ get_elem? xs j
get_elem?-set_ne [] i j p ne = refl
get_elem?-set_ne (x ∷ xs) zero zero p ne = absurd (ne refl)
get_elem?-set_ne (x ∷ xs) zero (suc j) p ne = refl
get_elem?-set_ne (x ∷ xs) (suc i) zero p ne = refl
get_elem?-set_ne (x ∷ xs) (suc i) (suc j) p ne = get_elem?-set_ne xs i j p (λ e. ne (ap suc e))

-- Slot `i` holds the pointer `p`, and the other slots what they held before.
abbrev pub OnlySlot : Kernel → ℕ → ℕ → Kernel → Type 0
OnlySlot k i p k' =
    HasTable k'
    × (get_elem? k'.table i ≡ some p)
    × ((j : ℕ) → i ≢ j → get_elem? k'.table j ≡ get_elem? k.table j)

pub OnlySlot-set :
    (k k' : Kernel) (i p : ℕ)
    → HasTable k
    → i < max_file_descriptors
    → k'.table ≡ set k.table i p
    → OnlySlot k i p k'
OnlySlot-set k k' i p t h e = (
  rw e (length-set k.table i p ∙ t),
  rw e (get_elem?-set_self k.table i p (omega arith)),
  λ j ne. rw e (get_elem?-set_ne k.table i j p ne),
)

abbrev pub in_slot : Kernel → ℕ → ℕ → Kernel
in_slot k i p = record k { table = set k.table i p }

pub set_slot-ok :
    (k : Kernel) (i p : ℕ) → i < max_file_descriptors → set_slot k i p ≡ ok (in_slot k i p)
unfolding set_slot
set_slot-ok k i p h = ground arith

abbrev pub file_end : ℕ → ℕ → FileDescriptor
file_end file_ptr flags = record {
  fd_type = tarfile;
  offset = 0;
  perm = flags;
  ref_count = 1;
  file_ptr = file_ptr;
  pipe_ptr = 0;
}

abbrev with_file : Kernel → ℕ → ℕ → Kernel
with_file k file_ptr flags =
    let (p, heap') = kmalloc k.heap sizeof_file_descriptor in
    record k { heap = heap'; descriptors = update k.descriptors p (file_end file_ptr flags) }

-- What `sys_open` promises: it returns the slot, which then holds a new descriptor for the file at offset
-- 0 with one reference, and leaves the other slots alone.
abbrev pub Opens : Kernel → ℕ → ℕ → ℕ → ℕ × Kernel → Type 0
Opens k file_ptr flags i (ret, k') =
    (ret ≡ i)
    × OnlySlot k i (kmalloc k.heap sizeof_file_descriptor).0 k'
    × (k'.descriptors (kmalloc k.heap sizeof_file_descriptor).0 ≡ file_end file_ptr flags)

module _ (k : Kernel) (t : HasTable k) where
  -- `sys_open` of a file that may be opened, with memory for a descriptor and a NULL slot from 3 on, uses the
  -- first such slot (`Opens`).
  pub sys_open-Opens :
      (file_ptr flags i : ℕ)
      → file_ptr ≢ 0
      → open_allowed (k.files file_ptr) flags ≡ true
      → FirstFree k 3 i
      → (kmalloc k.heap sizeof_file_descriptor).0 ≢ 0
      → Ensures (Opens k file_ptr flags i) (sys_open k file_ptr flags)
  unfolding sys_open new_descriptor
  sys_open-Opens file_ptr flags i file allowed free memory =
      let found : find_slot 13 k 3 ≡ ok i =
        find_slot-FirstFree 13 k 3 i t (omega (arith, free.inside)) free in
      let e1 : (file_ptr == 0) ≡ false = ground arith in
      let e2 : ltb max_file_descriptors i ≡ false = ground (arith, free.inside) in
      let e3 : ((kmalloc k.heap sizeof_file_descriptor).0 == 0) ≡ false = ground arith in
      rw
        (
          e1,
          allowed,
          found,
          e2,
          e3,
          set_slot-ok (with_file k file_ptr flags) i (kmalloc k.heap sizeof_file_descriptor).0
              free.inside,
        )
        (
          refl,
          OnlySlot-set k
              (in_slot (with_file k file_ptr flags) i (kmalloc k.heap sizeof_file_descriptor).0) i
              (kmalloc k.heap sizeof_file_descriptor).0 t free.inside refl,
          ground arith,
        )

  -- `sys_open` of a file that may be opened, with no NULL slot from 3 on, reads behind the array.
  pub sys_open-full :
      (file_ptr flags : ℕ)
      → file_ptr ≢ 0
      → open_allowed (k.files file_ptr) flags ≡ true
      → ((j : ℕ) → 3 ≤ j → j < max_file_descriptors → get_elem? k.table j ≢ some 0)
      → sys_open k file_ptr flags ≡ fault
  unfolding sys_open
  sys_open-full file_ptr flags file allowed used =
      let e1 : (file_ptr == 0) ≡ false = ground arith in
      rw (e1, allowed, find_slot-full 13 k 3 t (omega arith) (omega arith) used)

  pub sys_dup-ok :
      (oldfd i p : ℕ)
      → get_elem? k.table oldfd ≡ some p
      → FirstFree k 0 i
      → sys_dup k oldfd ≡ ok (i, in_slot k i p)
  unfolding sys_dup
  sys_dup-ok oldfd i p old free =
      let found : find_slot 16 k 0 ≡ ok i =
        find_slot-FirstFree 16 k 0 i t (omega (arith, free.inside)) free in
      let e2 : ltb max_file_descriptors i ≡ false = ground (arith, free.inside) in
      rw (found, e2, slot-some k oldfd p old, set_slot-ok k i p free.inside) refl

  -- `sys_dup` of an open descriptor puts its pointer into the first NULL slot. The descriptor's count of
  -- references stays as it was.
  pub sys_dup-shares :
      (oldfd i p : ℕ)
      → get_elem? k.table oldfd ≡ some p
      → FirstFree k 0 i
      → Ensures
          (λ (ret, k'). (ret ≡ i) × OnlySlot k i p k' × (k'.descriptors ≡ k.descriptors))
          (sys_dup k oldfd)
  sys_dup-shares oldfd i p old free =
      rw (sys_dup-ok oldfd i p old free)
        (refl, OnlySlot-set k (in_slot k i p) i p t free.inside refl, refl)

-- ===== src/Page/Fork/Tests.antt =====
-- Runs of `fork` on a small memory.
use preemptive_unix_os.Base.{
  ◌+◌, ◌*◌, ◌≡◌, refl, [], none, some, arith, Ensures, ◌>>=◌, ◌==◌, if◌then◌else◌, true,
}
use preemptive_unix_os.Page.Align.{page_size, align_up, align_down}
use preemptive_unix_os.Page.Frames.{Memory, get_pa, get_str_ptr_from_pa}
use preemptive_unix_os.Page.Walk.{
  pml4_walk, pdpe_walk, pde_walk, entry_or_alloc, load, store, page_insert,
}
use preemptive_unix_os.Page.Walk.Mapping.{table_of}
use preemptive_unix_os.Page.Kmalloc.{kmalloc, heap_end}
use preemptive_unix_os.Page.Fault.{copy_on_write_handler}
use preemptive_unix_os.Vma.{Areas, vma_alloc}
use preemptive_unix_os.Page.Fork.{
  share_page, share_area, share_from, copy_area, fork_from, fork_memory,
}
use preemptive_unix_os.Page.Fork.Share.{Forking, Apart, share_page-copy_on_write_handler}

-- The tables of the parent are the frames 1 to 4 and lead from address 0 to the frame 9; those of the child are the frames 11 to
-- 14; the frames 5 and 7 are free.
abbrev parent : Memory
parent = record {
  page_free_list = some 5;
  prev = λ p. if p == 5 then some 7 else none;
  next = λ p. if p == 7 then some 5 else none;
  ref_count = λ p. if p == 9 then 1 else 0;
  frame = λ p i.
      if p == 9
      then i
      else if i == 0
      then (if p == 4 then 9 * page_size + 7 else if p == 14 then 0 else (p + 1) * page_size + 7)
      else 0;
}

parent-Forking : Forking 0 parent 0 1 2 3 4 11 12 13 14 5 7 []
unfolding kmalloc heap_end align_up
parent-Forking = record {
  parent = record {
    root = omega arith;
    level1 = (refl, refl, omega arith);
    level2 = (refl, refl, omega arith);
    level3 = (refl, refl, omega arith);
  };
  child = record {
    root = omega arith;
    level1 = (refl, refl, omega arith);
    level2 = (refl, refl, omega arith);
    level3 = (refl, refl, omega arith);
  };
  child_apart = (λ e. omega (arith, e), λ e. omega (arith, e), λ e. omega (arith, e));
  leaf_Outside =
      (λ e. omega (arith, e), λ e. omega (arith, e), λ e. omega (arith, e), λ e. omega (arith, e));
  here = refl;
  in_memory = omega arith;
  fresh = refl;
  one = refl;
  free = record {
    chain = (refl, (refl, refl));
    distinct = ((λ e. omega (arith, e), tt), (tt, tt));
  };
  new = omega arith;
  new_Outside =
      (λ e. omega (arith, e), λ e. omega (arith, e), λ e. omega (arith, e), λ e. omega (arith, e));
  granted = λ e. omega (arith, e);
  buffer_Outside =
      (λ e. omega (arith, e), λ e. omega (arith, e), λ e. omega (arith, e), λ e. omega (arith, e));
  buffer_apart = (λ e. omega (arith, e), λ e. omega (arith, e), λ e. omega (arith, e));
  new_apart = λ e. omega (arith, e);
  frame_apart = (λ e. omega (arith, e), λ e. omega (arith, e), λ e. omega (arith, e));
}

share_page-copy_on_write_handler_example :
    Ensures
      (λ (_, m'). Apart parent 0 4 11 5 m')
      (share_page parent (table_of 1) (table_of 11) 0 true >>= λ m'.
        copy_on_write_handler 0 m' (table_of 11) 0)
share_page-copy_on_write_handler_example = share_page-copy_on_write_handler parent-Forking

-- One writeable area at 40, of one page; the areas 50 and 60 are in no use.
abbrev one_area : Areas
one_area = record {
  areas = λ a.
      if a == 40
      then record { next = 0; prev = 0; start = 0; end = 100; flags_vma = 3 }
      else record { next = if a == 50 then 60 else 0; prev = 0; start = 0; end = 0; flags_vma = 0 };
  first_vma = 40;
  vma_free_list = 50;
}

fork_one_area :
    Ensures
      (λ f.
        (f.child_first_vma ≡ 50)
        × ((f.areas.areas 50).end ≡ 100)
        × ((f.areas.areas 50).flags_vma ≡ 3)
        × (f.areas.vma_free_list ≡ 60)
        × (f.memory.frame 14 0 ≡ 9 * page_size + 0x105)
        × (f.memory.frame 4 0 ≡ 9 * page_size + 0x105)
        × (f.memory.ref_count 9 ≡ 2))
      (fork_memory one_area parent (table_of 1) (table_of 11))
unfolding fork_memory fork_from copy_area share_area share_from share_page vma_alloc align_up
    align_down pml4_walk pdpe_walk pde_walk entry_or_alloc load store page_insert get_pa
    get_str_ptr_from_pa
fork_one_area = (refl, refl, refl, refl, refl, refl, refl)

-- ===== src/Page/Fault/Tests.antt =====
-- Runs of the page faults.
use preemptive_unix_os.Base.{
  ℕ, ◌+◌, ◌*◌, ◌<◌, ◌≡◌, ◌≢◌, refl, [], none, some, arith, Ensures, ◌==◌, if◌then◌else◌,
}
use preemptive_unix_os.Page.Align.{page_size, align_up, align_down}
use preemptive_unix_os.Page.Frames.{Memory}
use preemptive_unix_os.Page.Walk.{
  pml4_walk, pdpe_walk, pde_walk, entry_or_alloc, load, store, page_insert,
}
use preemptive_unix_os.Page.Frames.{page_alloc, get_pa}
use preemptive_unix_os.Page.Walk.Mapping.{table_of}
use preemptive_unix_os.Page.Fault.{
  allocate_page, allocate_from, copy_on_write_handler, allocate_pages,
}
use preemptive_unix_os.Page.Fault.InPlace.{InPlace, copy_on_write_handler-InPlace}
use preemptive_unix_os.Page.Kmalloc.{kmalloc, heap_end}
use preemptive_unix_os.Page.Fault.Cow.{Shared, Owns, copy_on_write_handler-Owns}

-- The tables in the frames 1 to 4 lead from address 0 to the shared frame 9; the frames 5 and 7 are free.
abbrev forked : Memory
forked = record {
  page_free_list = some 5;
  prev = λ p. if p == 5 then some 7 else none;
  next = λ p. if p == 7 then some 5 else none;
  ref_count = λ p. if p == 9 then 2 else 0;
  frame = λ p i.
      if p == 9
      then i
      else if i == 0
      then (if p == 4 then 9 * page_size + 0x105 else if p == 0 then 0 else (p + 1) * page_size + 7)
      else 0;
}

apart : (a b : ℕ) → a < b → a ≢ b
apart a b h e = omega arith

forked-Shared : Shared 0 forked 0 1 2 3 4 5 7 []
unfolding kmalloc heap_end align_up
forked-Shared = record {
  granted = λ e. omega (arith, e);
  buffer_Outside =
      (λ e. omega (arith, e), λ e. omega (arith, e), λ e. omega (arith, e), λ e. omega (arith, e));
  buffer_apart = (λ e. omega (arith, e), λ e. omega (arith, e));
  path = record {
    root = omega arith;
    level1 = (refl, refl, omega arith);
    level2 = (refl, refl, omega arith);
    level3 = (refl, refl, omega arith);
  };
  apart = (apart 1 4 (omega arith), apart 2 4 (omega arith), apart 3 4 (omega arith));
  here = refl;
  cow = refl;
  two = refl;
  free = record {
    chain = (refl, (refl, refl));
    distinct = ((apart 5 7 (omega arith), tt), (tt, tt));
  };
  new = omega arith;
  new_Outside = (
    apart 1 5 (omega arith),
    apart 2 5 (omega arith),
    apart 3 5 (omega arith),
    apart 4 5 (omega arith),
  );
  old_apart = (λ e. omega (arith, e), λ e. omega (arith, e));
}

copy_on_write_handler-Owns_example :
    Ensures
      (λ (_, m'). Owns 0 forked 0 1 4 5 7 [] m')
      (copy_on_write_handler 0 forked (table_of 1) 0)
copy_on_write_handler-Owns_example = copy_on_write_handler-Owns forked-Shared

-- A page for an address of an area of one page.
new_page :
    Ensures
      (λ m'.
        (m'.frame 4 0 ≡ 5 * page_size + 7) × (m'.ref_count 5 ≡ 1) × (m'.page_free_list ≡ some 7))
      (allocate_pages
        (record forked { frame = λ p i. if p == 4 then 0 else forked.frame p i })
        (table_of 1)
        (record { next = 0; prev = 0; start = 0; end = 100; flags_vma = 2 }))
unfolding allocate_pages allocate_from allocate_page align_up align_down pml4_walk pdpe_walk
    pde_walk entry_or_alloc load store page_alloc page_insert get_pa
new_page = (refl, refl, refl)

-- Three processes share the frame 9.
abbrev three : Memory
three = record forked { ref_count = λ p. if p == 9 then 3 else 0 }

copy_on_write_handler-InPlace_example :
    Ensures (λ (_, m'). InPlace three 0 4 m') (copy_on_write_handler 0 three (table_of 1) 0)
copy_on_write_handler-InPlace_example =
    copy_on_write_handler-InPlace {v = 0} {t1 = 1} {t2 = 2} {t3 = 3} {t4 = 4}
      (record {
        root = omega arith;
        level1 = (refl, refl, omega arith);
        level2 = (refl, refl, omega arith);
        level3 = (refl, refl, omega arith);
      })
      refl (λ e. omega (arith, e)) 0

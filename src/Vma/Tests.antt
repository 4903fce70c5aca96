-- ===== src/Vma/Tests.antt =====
-- Runs of the areas of a process on a program with two sections, a heap and a stack.
use preemptive_unix_os.Base.{◌+◌, ◌-◌, refl, List, [], ◌∷◌, arith, Ensures, if◌then◌else◌, ◌==◌}
use preemptive_unix_os.Page.Align.{page_size}
use preemptive_unix_os.Vma.{Areas, Section, get_elf, sys_brk, find_vma, uheapstart, ustacktop}
use preemptive_unix_os.Vma.Chain.{Links}
use preemptive_unix_os.Vma.Insert.{IsLoaded}
use preemptive_unix_os.Vma.Load.{LoadsAll, get_elf-LoadsAll}
use preemptive_unix_os.Vma.Brk.{HasHeap, Breaks, sys_brk-Breaks, heap_of}
use preemptive_unix_os.Vma.Find.{Words, FirstOwner, find_vma-FirstOwner}

-- The areas 10 and 20 are free.
abbrev two_free : Areas
two_free = record {
  areas =
      λ p. record { next = if p == 10 then 20 else 0; prev = 0; start = 0; end = 0; flags_vma = 0 };
  first_vma = 0;
  vma_free_list = 10;
}

two_free-IsLoaded : IsLoaded two_free [] (10 ∷ 20 ∷ [])
two_free-IsLoaded = record {
  chain = refl;
  distinct = tt;
  free = (refl, λ e. ground arith, (refl, λ e. ground arith, refl));
  free_distinct = ((λ e. ground arith, tt), (tt, tt));
  apart = (tt, (tt, tt));
  few = omega arith;
}

abbrev sections : List Section
sections =
    record { sh_flags = 6; sh_addr = 0x400100; sh_size = 0x500 }
    ∷ record { sh_flags = 3; sh_addr = 0x400600; sh_size = 0x2000 }
    ∷ []

get_elf-LoadsAll_example : Ensures (LoadsAll two_free [] sections) (get_elf two_free sections)
get_elf-LoadsAll_example =
    get_elf-LoadsAll two_free [] (10 ∷ 20 ∷ []) sections two_free-IsLoaded (omega arith)
      (omega arith, (omega arith, tt))

-- The areas of a process: 30 the heap, of one page, and 40 the stack.
abbrev heap_and_stack : Areas
heap_and_stack = record {
  areas = λ p.
      if p == 30
      then record {
        next = 40;
        prev = 0;
        start = uheapstart;
        end = uheapstart + page_size;
        flags_vma = 3;
      }
      else record {
        next = 0;
        prev = 30;
        start = ustacktop - page_size;
        end = ustacktop;
        flags_vma = 3;
      };
  first_vma = 30;
  vma_free_list = 0;
}

heap_and_stack-Links : Links heap_and_stack.areas 30 (30 ∷ 40 ∷ [])
heap_and_stack-Links = (refl, λ e. ground arith, (refl, λ e. ground arith, refl))

heap_and_stack-Words : Words heap_and_stack.areas (30 ∷ 40 ∷ [])
heap_and_stack-Words = (omega arith, (omega arith, tt))

heap_and_stack-HasHeap : HasHeap heap_and_stack (30 ∷ 40 ∷ []) 30
unfolding heap_of
heap_and_stack-HasHeap = record {
  chain = heap_and_stack-Links;
  few = omega arith;
  heap = refl;
  nonnull = λ e. ground arith;
  bounds = (omega arith, omega arith);
}

sys_brk-Breaks_example :
    Ensures
      (Breaks heap_and_stack 30 (uheapstart + 5000))
      (sys_brk heap_and_stack (uheapstart + 5000))
sys_brk-Breaks_example =
    sys_brk-Breaks heap_and_stack (30 ∷ 40 ∷ []) 30 (uheapstart + 5000) heap_and_stack-HasHeap

find_vma-FirstOwner_example :
    Ensures
      (FirstOwner heap_and_stack.areas (30 ∷ 40 ∷ []) (uheapstart + 8) 2)
      (find_vma heap_and_stack (uheapstart + 8) 2)
find_vma-FirstOwner_example =
    find_vma-FirstOwner heap_and_stack (30 ∷ 40 ∷ []) (uheapstart + 8) 2 heap_and_stack-Links
      heap_and_stack-Words (omega arith)
      (λ stack. omega (arith, stack), (λ stack. omega (arith, stack), tt))

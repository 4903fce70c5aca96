-- ===== src/Heap/Tests.antt =====
-- Runs of `malloc` and `free` of libc/malloc.c, on the kernel's `brk`.
use preemptive_unix_os.Base.{
  ◌+◌, ◌-◌, ◌^◌, ◌≡◌, [], ◌∷◌, ok, refl, arith, Ensures, ◌>>=◌, inr, false, if◌then◌else◌, ◌==◌,
}
use preemptive_unix_os.Vma.{Areas, sys_brk, get_heap_vma, heap_from, uheapstart}
use preemptive_unix_os.Vma.Brk.{HasHeap, heap_of}
use preemptive_unix_os.Heap.{
  Program, consider, choose_from, choose, find_heap, extend, malloc, free_from, free, sbrk,
}
use preemptive_unix_os.Heap.Blocks.{Blocks}
use preemptive_unix_os.Heap.Malloc.{IsHeap, Outcome, malloc-Outcome}
use preemptive_unix_os.Heap.Free.{Frees, free-Frees}
use preemptive_unix_os.Heap.Break.{kernel_brk, kernel_brk-laws}

-- A process with the heap's area alone, at 30.
abbrev space : Areas
space = record {
  areas = λ p. record {
    next = 0;
    prev = 0;
    start = uheapstart;
    end = uheapstart + 4096;
    flags_vma = 6;
  };
  first_vma = 30;
  vma_free_list = 0;
}

space-HasHeap : HasHeap space (30 ∷ []) 30
unfolding heap_of
space-HasHeap = record {
  chain = (refl, omega arith, refl);
  few = omega arith;
  heap = refl;
  nonnull = omega arith;
  bounds = (omega arith, omega arith);
}

-- A program with one block, of 16 bytes.
abbrev program : Program (kernel_brk 30)
program = record {
  nodes = λ i.
      if i == 0
      then record { size = 16; mem_ptr = uheapstart; is_free = 0 }
      else record { size = 0; mem_ptr = 0; is_free = 0 };
  index = 1;
  heap_end = uheapstart + 16;
  bytes = λ a. 7;
  space = space;
}

program-Blocks : Blocks program.nodes 1 (uheapstart + 16) (uheapstart + 4096)
program-Blocks = record {
  count = omega arith;
  in_use = inr (omega arith, omega arith, omega arith);
  placed = λ i l. let e : i ≡ 0 = omega arith in rw e (omega arith, omega arith);
  apart = λ i j l m. absurd (omega arith);
  unused = λ i l. let e : (i == 0) ≡ false = ground arith in rw e (refl, refl, refl);
}

program-IsHeap : IsHeap (kernel_brk-laws (30 ∷ []) 30) program
unfolding kernel_brk-laws
program-IsHeap = record { valid = space-HasHeap; blocks = program-Blocks }

malloc-Outcome_example :
    Ensures (Outcome (kernel_brk-laws (30 ∷ []) 30) program 100) (malloc 100 program)
malloc-Outcome_example =
    malloc-Outcome (kernel_brk-laws (30 ∷ []) 30) program 100 program-IsHeap (omega arith)
      (omega arith)

free-Frees_example :
    Frees (kernel_brk-laws (30 ∷ []) 30) program uheapstart (free uheapstart program)
free-Frees_example =
    free-Frees (kernel_brk-laws (30 ∷ []) 30) program uheapstart program-IsHeap (omega arith)

-- A block of 2^64 - 16 bytes is said to be there, and the heap then ends where the first block starts.
huge_block : (malloc (2 ^ 64 - 16) program >>= λ r. ok (r.1.heap_end)) ≡ ok uheapstart
unfolding malloc choose choose_from consider find_heap extend sys_brk get_heap_vma heap_from
huge_block = refl

-- An empty block shares its address with the next one, and both are freed together.
empty_block :
    (malloc 0 program >>= λ r. malloc 8 r.1 >>= λ t. ok ((free r.0 t.1).nodes 2).is_free) ≡ ok 1
unfolding malloc choose choose_from consider find_heap extend sys_brk get_heap_vma heap_from free
    free_from
empty_block = refl

-- `sbrk` does not see that `brk` failed.
sbrk_beyond : (sbrk (kernel_brk 30) (2 ^ 20) space >>= λ r. ok r.0) ≡ ok (uheapstart + 4096)
unfolding sbrk sys_brk get_heap_vma heap_from
sbrk_beyond = refl

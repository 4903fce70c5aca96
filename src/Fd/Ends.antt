-- ===== src/Fd/Ends.antt =====
-- `sys_pipe` of sys/syscall.c: the two slots that it uses.
use std.Path.{transport}
use preemptive_unix_os.Base.{
  ap, ℕ, ◌<◌, ◌≡◌, ◌≢◌, ◌∙◌, refl, sym, List, false, some, arith, ok, ltb, ◌==◌, get_elem?, set,
  length-set, Ensures,
}
use preemptive_unix_os.Page.Kmalloc.{kmalloc}
use preemptive_unix_os.Fd.{
  piperead, pipewrite, Kernel, find_slot, max_file_descriptors, sizeof_file_descriptor,
  sizeof_pipe_node, pipe_size,
}
use preemptive_unix_os.Fd.Calls.{
  sys_pipe, second_slot, with_object, connect, with_pipe, pipe_end, new_pipe,
}
use preemptive_unix_os.Fd.Slots.{HasTable, FirstFree, find_slot-FirstFree}
use preemptive_unix_os.Fd.Open.{set_slot-ok, in_slot, get_elem?-set_self, get_elem?-set_ne}

-- The four objects of a new pipe, in the order in which `sys_pipe` asks for them.
abbrev heap1 : Kernel → ℕ
heap1 k = (kmalloc k.heap pipe_size).1

abbrev fd1 : Kernel → ℕ
fd1 k = (kmalloc (heap1 k) sizeof_file_descriptor).0

abbrev heap2 : Kernel → ℕ
heap2 k = (kmalloc (heap1 k) sizeof_file_descriptor).1

abbrev fd2 : Kernel → ℕ
fd2 k = (kmalloc (heap2 k) sizeof_file_descriptor).0

abbrev heap3 : Kernel → ℕ
heap3 k = (kmalloc (heap2 k) sizeof_file_descriptor).1

abbrev node : Kernel → ℕ
node k = (kmalloc (heap3 k) sizeof_pipe_node).0

abbrev heap4 : Kernel → ℕ
heap4 k = (kmalloc (heap3 k) sizeof_pipe_node).1

-- `kmalloc` returns memory for the buffer, the two descriptors and the node, and the descriptors have two addresses.
pub record HasMemory (k : Kernel) : Type 0 where
  pub for_buffer : (kmalloc k.heap pipe_size).0 ≢ 0
  pub for_fd1 : fd1 k ≢ 0
  pub for_fd2 : fd2 k ≢ 0
  pub for_node : node k ≢ 0
  pub apart : fd1 k ≢ fd2 k

-- Slot `i` reads from a pipe and slot `j` writes to it, and the pipe is as `sys_pipe` makes it.
abbrev pub Connected : Kernel → ℕ → ℕ → List ℕ → Type 0
Connected k i j bytes =
    (p q pipe : ℕ) × (get_elem? k.table i ≡ some p)
    × (get_elem? k.table j ≡ some q)
    × (k.descriptors p ≡ pipe_end piperead pipe)
    × (k.descriptors q ≡ pipe_end pipewrite pipe)
    × (k.pipes pipe ≡ new_pipe bytes)

-- What `sys_pipe` does with its two slots: success, the numbers, a connected pair, the other slots as before.
abbrev pub Pairs : Kernel → List ℕ → ℕ → ℕ → ℕ × (ℕ × ℕ) × Kernel → Type 0
Pairs k bytes i j (ret, fds, k') =
    (ret ≡ 0)
    × (fds ≡ (i, j))
    × Connected k' i j bytes
    × ((s : ℕ) → i ≢ s → j ≢ s → get_elem? k'.table s ≡ get_elem? k.table s)

second_slot-inside : (i : ℕ) → (second_slot i < max_file_descriptors) × (i ≢ second_slot i)
unfolding second_slot
second_slot-inside i = ground arith

module _ (k : Kernel) (bytes : List ℕ) (t : HasTable k) (m : HasMemory k) where
  connect-Pairs :
      (i j : ℕ)
      → i < max_file_descriptors
      → j < max_file_descriptors
      → i ≢ j
      → Ensures
          (Pairs k bytes i j)
          (connect (with_pipe k bytes (fd1 k) (fd2 k) (node k) (heap4 k)) i j (fd1 k) (fd2 k))
  unfolding connect
  connect-Pairs i j a b ne =
      let k0 = with_pipe k bytes (fd1 k) (fd2 k) (node k) (heap4 k) in
      rw (set_slot-ok k0 i (fd1 k) a, set_slot-ok (in_slot k0 i (fd1 k)) j (fd2 k) b)
        (
          refl,
          refl,
          (
            fd1 k,
            fd2 k,
            node k,
            get_elem?-set_ne (set k.table i (fd1 k)) j i (fd2 k) (λ e. ne (sym e))
                ∙ get_elem?-set_self k.table i (fd1 k) (omega arith),
            get_elem?-set_self (set k.table i (fd1 k)) j (fd2 k)
                (omega (arith, length-set k.table i (fd1 k))),
            ground (arith, m.apart),
            ground arith,
            ground arith,
          ),
          λ s x y.
              get_elem?-set_ne (set k.table i (fd1 k)) j s (fd2 k) y
              ∙ get_elem?-set_ne k.table i s (fd1 k) x,
        )

  sys_pipe-Pairs :
      (i : ℕ) → FirstFree k 3 i → Ensures (Pairs k bytes i (second_slot i)) (sys_pipe k bytes)
  unfolding sys_pipe with_object
  sys_pipe-Pairs i free =
      let found : find_slot 13 k 3 ≡ ok i =
        find_slot-FirstFree 13 k 3 i t (omega (arith, free.inside)) free in
      let e2 : ltb max_file_descriptors i ≡ false = ground (arith, free.inside) in
      let j = second_slot-inside i in
      let e0 : ((kmalloc k.heap pipe_size).0 == 0) ≡ false = ground (arith, m.for_buffer) in
      let e3 : (fd1 k == 0) ≡ false = ground (arith, m.for_fd1) in
      let e4 : (fd2 k == 0) ≡ false = ground (arith, m.for_fd2) in
      let e5 : (node k == 0) ≡ false = ground (arith, m.for_node) in
      rw (e0, found, e2, e3, e4, e5) (connect-Pairs i (second_slot i) free.inside j.0 j.1)

  -- `sys_pipe`, where slot 3 is NULL and there is memory for the pipe, connects slots 3 and 4 and leaves
  -- the others alone.
  pub sys_pipe-connects : FirstFree k 3 3 → Ensures (Pairs k bytes 3 4) (sys_pipe k bytes)
  unfolding second_slot
  sys_pipe-connects free = sys_pipe-Pairs 3 free

  -- `sys_pipe`, where slot 3 is in use and `i` is the first NULL slot behind it, connects slots `i` and 3: the
  -- descriptor that slot 3 held is lost.
  pub sys_pipe-overwrites :
      (i : ℕ) → FirstFree k 3 i → i ≢ 3 → Ensures (Pairs k bytes i 3) (sys_pipe k bytes)
  unfolding second_slot
  sys_pipe-overwrites i free ne =
      let e : second_slot i ≡ 3 = ground arith in
      transport (ap (λ j. Ensures (Pairs k bytes i j) (sys_pipe k bytes)) e) (sys_pipe-Pairs i free)

-- ===== src/Fd/Close.antt =====
-- `sys_close` of sys/syscall.c: descriptors with one reference, with several, and with several slots.
use preemptive_unix_os.Base.{
  Ensures-weaken, fault, hang, Run, set, ap, ◌∙◌, sym, ℕ, ◌+◌, ◌≤◌, ◌<◌, ◌^◌, ◌≡◌, ◌≢◌, refl, true,
  false, some, ok, arith, ◌>>=◌, ◌==◌, update, get_elem?, sub64, Ensures,
}
use preemptive_unix_os.Pipe.{PipeNode}
use preemptive_unix_os.Fd.{
  set_slot, FdType, tarfile, piperead, pipewrite, stdfiletype, FileDescriptor, Kernel,
  max_file_descriptors,
}
use preemptive_unix_os.Fd.Calls.{sys_close, sys_dup, mark_closed}
use preemptive_unix_os.Fd.Slots.{HasTable, FirstFree, slot-some}
use preemptive_unix_os.Fd.Open.{OnlySlot, OnlySlot-set, set_slot-ok, in_slot, sys_dup-ok}

-- The descriptor with one reference less.
abbrev pub released : FileDescriptor → FileDescriptor
released d = record d { ref_count = sub64 d.ref_count 1 }

abbrev after_release : Kernel → ℕ → Kernel
after_release k p = record k { descriptors = update k.descriptors p (released (k.descriptors p)) }

-- The pipe `node` after the end of type `t` was closed.
unfoldable pub close_end : FdType → PipeNode → PipeNode
close_end pipewrite node = record node { is_write_closed = true }
close_end piperead node = record node { is_read_closed = true }
close_end tarfile node = node
close_end stdfiletype node = node

-- A descriptor of a pipe's end has a pipe.
abbrev pub HasPipe : FileDescriptor → Type 0
HasPipe d = ((d.fd_type ≡ piperead → d.pipe_ptr ≢ 0) × (d.fd_type ≡ pipewrite → d.pipe_ptr ≢ 0))

abbrev Marks : Kernel → FileDescriptor → Kernel → Type 0
Marks k d k' =
    (k'.table ≡ k.table)
    × (k'.descriptors ≡ k.descriptors)
    × (k'.pipes d.pipe_ptr ≡ close_end d.fd_type (k.pipes d.pipe_ptr))

mark_closed-Marks :
    (k : Kernel) (d : FileDescriptor) (t : FdType)
    → d.fd_type ≡ t
    → HasPipe d
    → Ensures (Marks k d) (mark_closed k d)
unfolding mark_closed close_end
mark_closed-Marks k d tarfile e has = rw e (refl, refl, refl)
mark_closed-Marks k d stdfiletype e has = rw e (refl, refl, refl)
mark_closed-Marks k d pipewrite e has =
    let f : (d.pipe_ptr == 0) ≡ false = ground (arith, has.1 e) in
    rw (e, f) (refl, refl, ground arith)
mark_closed-Marks k d piperead e has =
    let f : (d.pipe_ptr == 0) ≡ false = ground (arith, has.0 e) in
    rw (e, f) (refl, refl, ground arith)

-- What closing slot `fd` promises that holds the last reference to the descriptor at `p`: 0 is returned, the slot
-- is NULL, the other slots stay, and the pipe knows that this end is closed.
abbrev pub Closes : Kernel → ℕ → ℕ → ℕ × Kernel → Type 0
Closes k fd p (ret, k') =
    let d = k.descriptors p in
    (ret ≡ 0)
    × OnlySlot k fd 0 k'
    × (k'.pipes d.pipe_ptr ≡ close_end d.fd_type (k.pipes d.pipe_ptr))

module _ (k : Kernel) (fd p : ℕ) (t : HasTable k) (inside : fd < max_file_descriptors)
    (held : get_elem? k.table fd ≡ some p) (nonnull : p ≢ 0) where
  finish :
      (m : Run Kernel)
      → Ensures (Marks (after_release k p) (released (k.descriptors p))) m
      → Ensures (Closes k fd p) (m >>= λ k''. set_slot k'' fd 0 >>= λ k'''. ok (0, k'''))
  finish fault h = absurd h
  finish hang h = absurd h
  finish (ok k'') (table, descriptors, pipe) =
      rw (set_slot-ok k'' fd 0 inside)
        (refl, OnlySlot-set k (in_slot k'' fd 0) fd 0 t inside (ap (λ x. set x fd 0) table), pipe)

  -- `sys_close` of a slot with the last reference to its descriptor keeps the promises of `Closes`.
  pub sys_close-last :
      (k.descriptors p).ref_count ≡ 1
      → HasPipe (k.descriptors p)
      → Ensures (Closes k fd p) (sys_close k fd)
  unfolding sys_close
  sys_close-last one has =
      let e1 : (p == 0) ≡ false = ground arith in
      let e2 : (sub64 (k.descriptors p).ref_count 1 == 0) ≡ true = ground arith in
      rw (slot-some k fd p held, e1, e2)
        (finish (mark_closed (after_release k p) (released (k.descriptors p))) (
          mark_closed-Marks (after_release k p) (released (k.descriptors p))
            (k.descriptors p).fd_type refl has))

  -- `sys_close` of a descriptor with more than one reference leaves the slot and the pipes as they were, so a
  -- program can go on to use the descriptor that it closed.
  pub sys_close-shared :
      2 ≤ (k.descriptors p).ref_count
      → (k.descriptors p).ref_count < 2 ^ 64
      → Ensures
          (λ (ret, k').
            (ret ≡ 0)
            × (k'.table ≡ k.table)
            × (k'.pipes ≡ k.pipes)
            × ((k'.descriptors p).ref_count + 1 ≡ (k.descriptors p).ref_count))
          (sys_close k fd)
  unfolding sys_close
  sys_close-shared many bound =
      let e1 : (p == 0) ≡ false = ground arith in
      let e2 : (sub64 (k.descriptors p).ref_count 1 == 0) ≡ false = ground arith in
      rw (slot-some k fd p held, e1, e2) (refl, refl, refl, ground arith)

-- After `sys_dup` of a pipe's write end with one reference, `sys_close` of the old descriptor marks the pipe
-- as closed for writing, though the new descriptor still stands for that end.
pub sys_dup-sys_close :
    (k : Kernel) (fd p i : ℕ)
    → HasTable k
    → fd < max_file_descriptors
    → get_elem? k.table fd ≡ some p
    → p ≢ 0
    → FirstFree k 0 i
    → (k.descriptors p).ref_count ≡ 1
    → (k.descriptors p).fd_type ≡ pipewrite
    → (k.descriptors p).pipe_ptr ≢ 0
    → Ensures
        (λ (ret, k').
          (get_elem? k'.table i ≡ some p)
          × ((k'.pipes (k.descriptors p).pipe_ptr).is_write_closed ≡ true))
        (sys_dup k fd >>= λ (_, k'). sys_close k' fd)
unfolding close_end
sys_dup-sys_close k fd p i t inside held nonnull free one write pipe =
    let ne : i ≢ fd =
      λ e. nonnull (some_inj (sym held ∙ ap (get_elem? k.table) (sym e) ∙ free.free)) in
    let k1 = in_slot k i p in
    let placed = OnlySlot-set k k1 i p t free.inside refl in
    let closed =
      sys_close-last k1 fd p placed.0 inside (placed.2 fd ne ∙ held) nonnull one
        (λ e. absurd (piperead_ne (sym e ∙ write)), λ _. pipe) in
    rw (sys_dup-ok k t fd i p held free) (
      Ensures-weaken (sys_close k1 fd)
        (λ (ret, k') (z, slots, q). (
          slots.2 i (λ e. ne (sym e)) ∙ placed.1,
          ap (λ x. x.is_write_closed)
              (q ∙ ap (λ ty. close_end ty (k.pipes (k.descriptors p).pipe_ptr)) write),
        ))
        closed)
  where
    some_inj : {x y : ℕ} → some x ≡ some y → x ≡ y
    some_inj e = cc

    piperead_ne : piperead ≢ pipewrite
    piperead_ne e = cc

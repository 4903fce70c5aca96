-- ===== src/Heap/Malloc.antt =====
-- `malloc` and `free` of libc/malloc.c keep the blocks in order.
use preemptive_unix_os.Base.{
  ℕ, ◌+◌, ◌^◌, ◌≤◌, ◌<◌, ◌≡◌, ◌≢◌, ◌⊎◌, ◌∙◌, refl, sym, inl, inr, true, false, leb, ◌==◌, arith,
  Bool-cases, update, Ensures, Ensures-bind, Ensures-weaken, add64, minus_one,
}
use preemptive_unix_os.Vma.{uheapstart, uheaplimit}
use preemptive_unix_os.Heap.{
  Brk, BrkLaws, Program, num_nodes, choose, clear, find_heap, extend, reuse, malloc,
}
use preemptive_unix_os.Heap.Best.{Fits, choose-Chosen}
use preemptive_unix_os.Heap.Blocks.{
  Blocks-end, Blocks-limit, free_block, Blocks-first, Blocks, size-lt, Blocks-le, Blocks-flags,
  Blocks-extend, Blocks-first, Blocks-end, Blocks-limit, free_block,
}

module _ {b : Brk} (laws : BrkLaws b) where
  -- The heap of a program: its space is one that `brk` takes, and its blocks lie in it.
  pub record IsHeap (s : Program b) : Type 0 where
    pub valid : laws.Valid s.space
    pub blocks : Blocks s.nodes s.index s.heap_end (b.end_of s.space)

  -- A block of `size` bytes at `p` that was not in use before: a new one, or the smallest free one.
  pub record Allocates (s : Program b) (size p : ℕ) (s' : Program b) : Type 0 where
    pub at : ℕ
    pub block :
        ((s'.nodes at).mem_ptr ≡ p) × (size ≤ (s'.nodes at).size) × ((s'.nodes at).is_free ≡ 0)
    pub nonnull : p ≢ 0
    pub idle :
        ((at ≡ s.index) × ((j : ℕ) → j < num_nodes → Fits s.nodes size j → ⊥))
        ⊎ (Fits s.nodes size at
            × ((j : ℕ)
                → j < num_nodes
                → Fits s.nodes size j
                → (s.nodes at).size ≤ (s.nodes j).size))
    pub others : (j : ℕ) → j ≢ at → s'.nodes j ≡ s.nodes j
    pub cleared : (a : ℕ) → s'.bytes a ≡ clear s.bytes p size a

  -- The call keeps the heap in order, and allocates; or it returns NULL, for want of space, and changes no block.
  abbrev pub Outcome : Program b → ℕ → ℕ × Program b → Type 0
  Outcome s size (p, s') =
      IsHeap s'
      × (Allocates s size p s'
          ⊎ ((p ≡ 0)
              × (uheaplimit < s'.heap_end + size)
              × (s'.nodes ≡ s.nodes)
              × (s'.index ≡ s.index)
              × (s'.bytes ≡ s.bytes)))

  find_heap-IsHeap :
      (s : Program b)
      → IsHeap s
      → Ensures
          (λ s'.
            IsHeap s'
            × (uheapstart ≤ s'.heap_end)
            × (s'.nodes ≡ s.nodes)
            × (s'.index ≡ s.index)
            × (s'.bytes ≡ s.bytes))
          (find_heap s)
  unfolding find_heap
  find_heap-IsHeap s h = elim (Bool-cases (s.heap_end == 0)) [
    | inl first ↦ rw first (
        Ensures-bind _ (b.brk s.space 0) _ (laws.grants s.space 0 h.valid) (λ r g.
          let (e, still) = g.1.2 refl in
          let low : uheapstart ≤ r.0 = omega (arith, g.1.0) in
          (
            record {
              valid = g.0;
              blocks =
                  Blocks-first h.blocks r.0 (b.end_of r.1) (ground arith) low (omega arith)
                    (g.1.0.1);
            },
            low,
            refl,
            refl,
            refl,
          )))
    | inr later ↦ rw later (h, Blocks-end h.blocks (ground arith), refl, refl, refl)
  ]

  reuse-Outcome :
      (s : Program b) (size i : ℕ)
      → IsHeap s
      → Fits s.nodes size i
      → ((j : ℕ) → j < num_nodes → Fits s.nodes size j → (s.nodes i).size ≤ (s.nodes j).size)
      → Outcome s size (reuse size i s)
  unfolding reuse
  reuse-Outcome s size i h f least =
      let (used, ne) = free_block h.blocks i f.0 in
      let here : (i == i) ≡ true = ground arith in
      (
        record {
          valid = h.valid;
          blocks =
              Blocks-flags h.blocks (update s.nodes i (record (s.nodes i) { is_free = 0 }))
                (λ j. elim (Bool-cases (j == i)) [
                  | inl same ↦ let e : j ≡ i = ground arith in rw (e, here) (refl, refl)
                  | inr other ↦ rw other (refl, refl)
                ])
                (λ j l. let other : (j == i) ≡ false = ground arith in rw other refl);
        },
        inl record {
          at = i;
          block = rw here (refl, f.1, refl);
          nonnull = ne;
          idle = inr (f, least);
          others = λ j n. let other : (j == i) ≡ false = ground arith in rw other refl;
          cleared = λ a. refl;
        },
      )

  extend-Outcome :
      (s : Program b) (size : ℕ)
      → IsHeap s
      → s.index < num_nodes
      → uheapstart ≤ s.heap_end
      → size < 2 ^ 39
      → ((j : ℕ) → j < num_nodes → Fits s.nodes size j → ⊥)
      → Ensures (Outcome s size) (extend size s)
  unfolding extend
  extend-Outcome s size h room low small misses =
      let bound : s.heap_end ≤ uheaplimit = Blocks-limit h.blocks in
      let exact : add64 s.heap_end size ≡ s.heap_end + size = omega arith in
      let free_node : leb num_nodes s.index ≡ false = ground arith in
      let here : (s.index == s.index) ≡ true = ground arith in
      Ensures-bind (Outcome s size) (b.brk s.space (add64 s.heap_end size)) _
        (laws.grants s.space (add64 s.heap_end size) h.valid)
        (λ r g. elim (Bool-cases (leb (add64 s.heap_end size) uheaplimit)) [
          | inl fits ↦
              let (zero_ret, reach) = g.1.3 (omega arith) (ground arith) in
              rw (zero_ret, free_node)
                (
                  record {
                    valid = g.0;
                    blocks = rw exact (
                        Blocks-extend (Blocks-le h.blocks (b.end_of r.1) g.1.1 g.1.0.1) size room
                          low (omega arith) g.1.0.1);
                  },
                  inl record {
                    at = s.index;
                    block = rw here (refl, omega arith, refl);
                    nonnull = λ e. absurd (omega arith);
                    idle = inl (refl, misses);
                    others =
                        λ j n. let other : (j == s.index) ≡ false = ground arith in rw other refl;
                    cleared = λ a. refl;
                  },
                )
          | inr beyond ↦
              let failed : r.0 ≡ minus_one =
                g.1.4 (λ e. absurd (omega arith)) (inr (ground arith)) in
              rw failed (
                record { valid = g.0; blocks = Blocks-le h.blocks (b.end_of r.1) g.1.1 g.1.0.1 },
                inr (refl, ground arith, refl, refl, refl),
              )
        ])

  Outcome-from :
      (s s' : Program b) (size : ℕ) (r : ℕ × Program b)
      → s'.nodes ≡ s.nodes
      → s'.index ≡ s.index
      → s'.bytes ≡ s.bytes
      → Outcome s' size r
      → Outcome s size r
  Outcome-from s s' size r en ei eb (h, inl a) = (
    h,
    inl record {
      at = a.at;
      block = a.block;
      nonnull = a.nonnull;
      idle = rw (sym en, sym ei) a.idle;
      others = λ j n. rw (sym en) (a.others j n);
      cleared = λ x. rw (sym eb) (a.cleared x);
    },
  )
  Outcome-from s s' size r en ei eb (h, inr (z, l, n, i, y)) =
      (h, inr (z, l, n ∙ en, i ∙ ei, y ∙ eb))

  -- `malloc` of less than 2^39 bytes, with a node left, keeps the heap in order. It returns a block of that size that
  -- was not in use, cleared, the smallest of the free ones that are large enough where there is one, and touches no other
  -- block; or NULL, where the new block would pass the limit of the heap, and then no block changes.
  pub malloc-Outcome :
      (s : Program b) (size : ℕ)
      → IsHeap s
      → s.index < num_nodes
      → size < 2 ^ 39
      → Ensures (Outcome s size) (malloc size s)
  unfolding malloc
  malloc-Outcome s size h room small = elim (choose-Chosen s.nodes size (size-lt h.blocks)) [
    | inr (found, l, f, e, least) ↦
        rw found (reuse-Outcome s size (choose s.nodes size).bestindex h f least)
    | inl (none, e, misses) ↦ rw none (
        Ensures-bind (Outcome s size) (find_heap s) (λ s'. extend size s') (find_heap-IsHeap s h)
          (λ s' (h', low, en, ei, eb).
            Ensures-weaken (extend size s') (λ r o. Outcome-from s s' size r en ei eb o)
              (extend-Outcome s' size h' (rw ei room) low small (rw en misses))))
  ]

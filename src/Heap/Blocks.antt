-- ===== src/Heap/Blocks.antt =====
-- The blocks that the nodes of libc/malloc.c record: they lie in the heap, one behind the other.
use preemptive_unix_os.Base.{
  ℕ, suc, ◌+◌, ◌≤◌, ◌<◌, ◌≡◌, ◌≢◌, ◌⊎◌, inl, inr, false, ltb, ◌==◌, arith, Bool-cases, update,
}
use preemptive_unix_os.Vma.{uheapstart, uheaplimit}
use preemptive_unix_os.Heap.{Node, num_nodes}

-- The blocks `nodes` from 0 to `index`, with the heap up to `heap_end` in use; 0 is no end yet.
pub record Blocks (nodes : ℕ → Node) (index heap_end limit : ℕ) : Type 0 where
  pub count : index ≤ num_nodes
  pub in_use :
      ((heap_end ≡ 0) × (index ≡ 0))
      ⊎ ((uheapstart ≤ heap_end) × (heap_end ≤ limit) × (limit ≤ uheaplimit))
  pub placed :
      (i : ℕ)
      → i < index
      → (uheapstart ≤ (nodes i).mem_ptr) × ((nodes i).mem_ptr + (nodes i).size ≤ heap_end)
  pub apart : (i j : ℕ) → i < j → j < index → (nodes i).mem_ptr + (nodes i).size ≤ (nodes j).mem_ptr
  pub unused :
      (i : ℕ) → index ≤ i → ((nodes i).mem_ptr ≡ 0) × ((nodes i).size ≡ 0) × ((nodes i).is_free ≡ 0)

module _ {nodes : ℕ → Node} {index heap_end limit : ℕ} (w : Blocks nodes index heap_end limit) where
  pub size-lt : (i : ℕ) → (nodes i).size < 100000000
  size-lt i = elim (Bool-cases (ltb i index)) [
    | inl used ↦
        let p = w.placed i (ground arith) in
        elim w.in_use [
          | inl none ↦ absurd (ground (arith, none.1))
          | inr some_end ↦ omega (arith, p, some_end)
        ]
    | inr out ↦ omega (arith, (w.unused i (ground arith)).1)
  ]

  -- The heap may end later.
  pub Blocks-le :
      (limit' : ℕ) → limit ≤ limit' → limit' ≤ uheaplimit → Blocks nodes index heap_end limit'
  Blocks-le limit' l m = record {
    count = w.count;
    in_use = elim w.in_use [ inl none ↦ inl none | inr (a, b, c) ↦ inr (a, omega arith, m) ];
    placed = w.placed;
    apart = w.apart;
    unused = w.unused;
  }

  -- A change of `is_free` of blocks in use.
  pub Blocks-flags :
      (nodes' : ℕ → Node)
      → ((i : ℕ) → ((nodes' i).mem_ptr ≡ (nodes i).mem_ptr) × ((nodes' i).size ≡ (nodes i).size))
      → ((i : ℕ) → index ≤ i → nodes' i ≡ nodes i)
      → Blocks nodes' index heap_end limit
  Blocks-flags nodes' same out = record {
    count = w.count;
    in_use = w.in_use;
    placed = λ i l. rw ((same i).0, (same i).1) (w.placed i l);
    apart = λ i j l m. rw ((same i).0, (same i).1, (same j).0) (w.apart i j l m);
    unused = λ i l. rw (out i l) (w.unused i l);
  }

  -- A new block on top.
  pub Blocks-extend :
      (size : ℕ)
      → index < num_nodes
      → uheapstart ≤ heap_end
      → heap_end + size ≤ limit
      → limit ≤ uheaplimit
      → Blocks
          (update nodes index (record { size = size; mem_ptr = heap_end; is_free = 0 }))
          (suc index)
          (heap_end + size)
          limit
  Blocks-extend size room l m top = record {
    count = room;
    in_use = inr (omega arith, m, top);
    placed = λ i h. elim (Bool-cases (i == index)) [
      | inl new ↦ rw new (l, omega arith)
      | inr old ↦ let p = w.placed i (ground arith) in rw old (p.0, omega (arith, p.1))
    ];
    apart = λ i j h k.
        let old : (i == index) ≡ false = ground arith in
        elim (Bool-cases (j == index)) [
          | inl new ↦ let p = w.placed i (ground arith) in rw (old, new) p.1
          | inr other ↦ rw (old, other) (w.apart i j h (ground arith))
        ];
    unused =
        λ i h. let old : (i == index) ≡ false = ground arith in rw old (w.unused i (omega arith));
  }

  -- The heap has no block before its end is known.
  pub Blocks-first :
      (top limit' : ℕ)
      → heap_end ≡ 0
      → uheapstart ≤ top
      → top ≤ limit'
      → limit' ≤ uheaplimit
      → Blocks nodes index top limit'
  Blocks-first top limit' e l m n =
      let none_yet : index ≡ 0 = elim w.in_use [
        | inl none ↦ none.1
        | inr some_end ↦ absurd (omega (arith, some_end.0))
      ] in
      record {
        count = w.count;
        in_use = inr (l, m, n);
        placed = λ i h. absurd (omega arith);
        apart = λ i j h k. absurd (omega arith);
        unused = w.unused;
      }

  pub Blocks-end : heap_end ≢ 0 → uheapstart ≤ heap_end
  Blocks-end ne = elim w.in_use [ inl none ↦ absurd (ne none.0) | inr some_end ↦ some_end.0 ]

  -- A free block is in use, and is no NULL.
  pub free_block : (i : ℕ) → (nodes i).is_free ≡ 1 → (i < index) × ((nodes i).mem_ptr ≢ 0)
  free_block i f = elim (Bool-cases (ltb i index)) [
    | inl used ↦
        let p = w.placed i (ground arith) in (ground arith, λ e. absurd (omega (arith, p.0)))
    | inr out ↦ let u = w.unused i (ground arith) in absurd (omega (arith, u.2))
  ]

  pub Blocks-limit : heap_end ≤ uheaplimit
  Blocks-limit = elim w.in_use [
    | inl none ↦ omega (arith, none.0)
    | inr some_end ↦ omega (arith, some_end)
  ]

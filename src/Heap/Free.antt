-- ===== src/Heap/Free.antt =====
-- `free` of libc/malloc.c gives the block back.
use preemptive_unix_os.Base.{
  ℕ, zero, suc, ◌+◌, ◌≤◌, ◌<◌, ◌≡◌, ◌≢◌, ◌⊎◌, ◌∙◌, refl, sym, ap, inl, inr, true, false, ◌&&◌, ltb,
  ◌==◌, arith, Bool-cases, update,
}
use preemptive_unix_os.Heap.{Brk, BrkLaws, Node, Program, num_nodes, free, free_from}
use preemptive_unix_os.Heap.Blocks.{Blocks-flags}
use preemptive_unix_os.Heap.Malloc.{IsHeap}

abbrev pub freed : Node → Node
freed node = record node { is_free = 1 }

-- A node outside the loop's range, or of another block.
free_from_miss :
    (k : ℕ) (nodes : ℕ → Node) (p i j : ℕ)
    → (j < i) ⊎ ((nodes j).mem_ptr ≢ p)
    → free_from k nodes p i j ≡ nodes j
unfolding free_from
free_from_miss zero nodes p i j o = refl
free_from_miss (suc k) nodes p i j o = elim (Bool-cases ((nodes i).mem_ptr == p)) [
  | inl hit ↦
      let other : (j == i) ≡ false = elim o [
        | inl l ↦ ground arith
        | inr ne ↦ elim (Bool-cases (j == i)) [
          | inl e ↦
              let f : j ≡ i = ground arith in
              absurd (ne (ap (λ (x : ℕ). (nodes x).mem_ptr) f ∙ ground arith))
          | inr n ↦ n
        ]
      ] in
      rw hit (
        free_from_miss k (update nodes i (freed (nodes i))) p (suc i) j
          (rw other (elim o [ inl l ↦ inl (omega arith) | inr ne ↦ inr ne ]))
        ∙ rw other refl)
  | inr miss ↦
      rw miss (
        free_from_miss k nodes p (suc i) j (elim o [ inl l ↦ inl (omega arith) | inr ne ↦ inr ne ]))
]

free_from_out :
    (k : ℕ) (nodes : ℕ → Node) (p i j : ℕ) → k + i ≤ j → free_from k nodes p i j ≡ nodes j
unfolding free_from
free_from_out zero nodes p i j l = refl
free_from_out (suc k) nodes p i j l =
    let other : (j == i) ≡ false = ground arith in
    elim (Bool-cases ((nodes i).mem_ptr == p)) [
      | inl hit ↦ rw hit (
          free_from_out k (update nodes i (freed (nodes i))) p (suc i) j (omega arith)
          ∙ rw other refl)
      | inr miss ↦ rw miss (free_from_out k nodes p (suc i) j (omega arith))
    ]

free_from_hit :
    (k : ℕ) (nodes : ℕ → Node) (p i j : ℕ)
    → i ≤ j
    → j < k + i
    → (nodes j).mem_ptr ≡ p
    → free_from k nodes p i j ≡ freed (nodes j)
unfolding free_from
free_from_hit zero nodes p i j l m e = absurd (omega arith)
free_from_hit (suc k) nodes p i j l m e = elim (Bool-cases (j == i)) [
  | inl same ↦
      let f : i ≡ j = ground arith in
      let hit : ((nodes j).mem_ptr == p) ≡ true = ground arith in
      let jj : (j == j) ≡ true = ground arith in
      rw (f, hit)
        (free_from_miss k (update nodes j (freed (nodes j))) p (suc j) j (inl (omega arith))
          ∙ rw jj refl)
  | inr other ↦ elim (Bool-cases ((nodes i).mem_ptr == p)) [
    | inl hit ↦ rw hit (
        free_from_hit k (update nodes i (freed (nodes i))) p (suc i) j (ground arith) (omega arith)
          (rw other e)
        ∙ rw other refl)
    | inr miss ↦ rw miss (free_from_hit k nodes p (suc i) j (ground arith) (omega arith) e)
  ]
]

same_block :
    (nodes : ℕ → Node) (p i : ℕ)
    → ((free_from num_nodes nodes p 0 i).mem_ptr ≡ (nodes i).mem_ptr)
      × ((free_from num_nodes nodes p 0 i).size ≡ (nodes i).size)
same_block nodes p i = elim (Bool-cases ((nodes i).mem_ptr == p && ltb i num_nodes)) [
  | inl hit ↦
      let e = free_from_hit num_nodes nodes p 0 i (omega arith) (ground arith) (ground arith) in
      rw e (refl, refl)
  | inr other ↦ elim (Bool-cases ((nodes i).mem_ptr == p)) [
    | inl e ↦ rw (free_from_out num_nodes nodes p 0 i (ground arith)) (refl, refl)
    | inr n ↦ rw (free_from_miss num_nodes nodes p 0 i (inr (ground arith))) (refl, refl)
  ]
]

-- What `free` of the block at `p` leaves: the heap is in order, the nodes of the block are free, no other node and
-- no byte has changed.
abbrev pub Frees : {b : Brk} → BrkLaws b → Program b → ℕ → Program b → Type 0
Frees laws s p s' =
    IsHeap laws s'
    × ((j : ℕ) → j < num_nodes → (s.nodes j).mem_ptr ≡ p → s'.nodes j ≡ freed (s.nodes j))
    × ((j : ℕ) → (s.nodes j).mem_ptr ≢ p → s'.nodes j ≡ s.nodes j)
    × (s'.bytes ≡ s.bytes)

-- `free` of any address but NULL gives back the block that starts there, and nothing else.
pub free-Frees :
    {b : Brk} (laws : BrkLaws b) (s : Program b) (p : ℕ)
    → IsHeap laws s
    → p ≢ 0
    → Frees laws s p (free p s)
unfolding free
free-Frees laws s p h ne =
    let nonnull : (p == 0) ≡ false = ground arith in
    let hit = λ (j : ℕ) (l : j < num_nodes) (e : (s.nodes j).mem_ptr ≡ p).
      free_from_hit num_nodes s.nodes p 0 j (omega arith) (omega arith) e in
    let miss =
      λ (j : ℕ) (n : (s.nodes j).mem_ptr ≢ p). free_from_miss num_nodes s.nodes p 0 j (inr n) in
    rw nonnull (
      record {
        valid = h.valid;
        blocks =
            Blocks-flags h.blocks (free_from num_nodes s.nodes p 0) (λ i. same_block s.nodes p i)
              (λ j l. miss j (λ e. absurd (ne (sym e ∙ (h.blocks.unused j l).0))));
      },
      hit,
      miss,
      refl,
    )

-- ===== src/Heap/Break.antt =====
-- The system call `brk` of sys/syscall.c keeps the promises that the library needs.
use preemptive_unix_os.Base.{
  ℕ, ◌≤◌, ◌≡◌, ◌∙◌, refl, ap, inl, inr, List, [], ◌∷◌, arith, Bool-cases, ok, Ensures,
  Ensures-weaken, Ensures-and, update, ◌==◌, true, false, ltb, ◌||◌,
}
use preemptive_unix_os.Page.Align.{align_up, align_up_least}
use preemptive_unix_os.Vma.Chain.{Grown, Links-Grown}
use preemptive_unix_os.Vma.{
  Vma, get_heap_vma, heap_from, rounds, Areas, sys_brk, uheapstart, uheaplimit,
}
use preemptive_unix_os.Vma.Brk.{heap_of, heap_from_lem, HasHeap, sys_brk-Breaks}
use preemptive_unix_os.Heap.{Brk, BrkLaws, Grants}

-- The kernel's `brk`, for a process whose heap is the area at `heap`.
abbrev pub kernel_brk : ℕ → Brk
kernel_brk heap = record {
  Space = Areas;
  brk = λ s top. sys_brk s top;
  end_of = λ s. (s.areas heap).end;
}

heap_of-Grown : (a a' : ℕ → Vma) (ps : List ℕ) → Grown a a' → heap_of a' ps ≡ heap_of a ps
unfolding heap_of
heap_of-Grown a a' [] g = refl
heap_of-Grown a a' (p ∷ ps) g = rw ((g p).0, heap_of-Grown a a' ps g) refl

HasHeap-Grown :
    (s : Areas) (ps : List ℕ) (h : ℕ) (a : ℕ → Vma)
    → HasHeap s ps h
    → Grown s.areas a
    → (a h).end ≤ uheaplimit
    → HasHeap (record s { areas = a }) ps h
HasHeap-Grown s ps h a v g l = record {
  chain = Links-Grown s.areas a s.first_vma ps g v.chain;
  few = v.few;
  heap = heap_of-Grown s.areas a ps g ∙ v.heap;
  nonnull = v.nonnull;
  bounds = (omega (arith, v.bounds, (g h).1), l);
}

Grown-end :
    (a : ℕ → Vma) (h top : ℕ) → (a h).end ≤ top → Grown a (update a h (record (a h) { end = top }))
Grown-end a h top l p = elim (Bool-cases (p == h)) [
  | inl same ↦ let e : p ≡ h = ground arith in rw same (rw e (refl, l, refl))
  | inr other ↦ rw other (refl, omega arith, refl)
]

pub sys_brk-HasHeap :
    (s : Areas) (ps : List ℕ) (h top : ℕ)
    → HasHeap s ps h
    → Ensures (λ r. HasHeap r.1 ps h) (sys_brk s top)
unfolding sys_brk get_heap_vma
sys_brk-HasHeap s ps h top v =
    let found : heap_from rounds s.areas s.first_vma ≡ ok h =
      heap_from_lem rounds s.areas s.first_vma ps v.chain v.few ∙ ap ok v.heap in
    let hn : (h == 0) ≡ false = ground (arith, v.nonnull) in
    elim (Bool-cases (top == 0)) [
      | inl z ↦ rw (found, z, hn) v
      | inr nz ↦ elim (Bool-cases (ltb uheaplimit top || ltb top uheapstart)) [
        | inl bad ↦ rw (found, nz, bad) v
        | inr good ↦ elim (Bool-cases (ltb (s.areas h).end top)) [
          | inr stays ↦ rw (found, nz, good, hn, stays) v
          | inl grows ↦
              let up = align_up_least top (ground arith) in
              let below : top ≤ uheaplimit = ground arith in
              let hh : (h == h) ≡ true = ground arith in
              rw (found, nz, good, hn, grows)
                (HasHeap-Grown s ps h _ v
                  (Grown-end s.areas h (align_up top) (ground (arith, up.0)))
                  (rw hh (up.2 uheaplimit (omega arith) below)))
        ]
      ]
    ]

-- `SYS_brk` of a process with a heap keeps the promises that `malloc` relies on.
unfoldable pub kernel_brk-laws : (ps : List ℕ) (heap : ℕ) → BrkLaws (kernel_brk heap)
kernel_brk-laws ps heap = record {
  Valid = λ s. HasHeap s ps heap;
  grants = λ s a h.
      Ensures-and (λ r. HasHeap r.1 ps heap) (Grants (kernel_brk heap) s a) (sys_brk s a)
        (sys_brk-HasHeap s ps heap a h)
        (Ensures-weaken (sys_brk s a)
          (λ r (bounds, grows, others, zero_top, inside, outside). (
            bounds,
            grows,
            λ e. ((zero_top e).0, ap (λ (t : Areas). (t.areas heap).end) (zero_top e).1),
            inside,
            λ n o. (outside n o).0,
          ))
          (sys_brk-Breaks s ps heap a h));
}

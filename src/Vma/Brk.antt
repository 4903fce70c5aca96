-- ===== src/Vma/Brk.antt =====
-- `getHeapVMA` and `SYS_brk` of sys/syscall.c: the end of a process's heap.
use preemptive_unix_os.Base.{
  ℕ, suc, zero, ◌≤◌, ◌<◌, ◌≡◌, ◌≢◌, ◌⊎◌, ◌∙◌, inl, inr, refl, ap, List, [], ◌∷◌, length, arith,
  Bool-cases, ◌==◌, ltb, ◌||◌, true, false, if◌then◌else◌, ok, Ensures, minus_one,
}
use preemptive_unix_os.Page.Align.{align_up, align_up_least}
use preemptive_unix_os.Vma.{
  Vma, Areas, heap_from, get_heap_vma, sys_brk, uheapstart, uheaplimit, rounds,
}
use preemptive_unix_os.Vma.Chain.{Links}

-- The first area that starts where the heap starts, or 0.
unfoldable pub heap_of : (ℕ → Vma) → List ℕ → ℕ
heap_of a [] = 0
heap_of a (p ∷ ps) = if (a p).start == uheapstart then p else heap_of a ps

pub heap_from_lem :
    (n : ℕ) (a : ℕ → Vma) (p : ℕ) (ps : List ℕ)
    → Links a p ps
    → length ps < n
    → heap_from n a p ≡ ok (heap_of a ps)
unfolding heap_from heap_of
heap_from_lem zero a p ps l h = absurd (omega arith)
heap_from_lem (suc n) a p [] l h = let e : (p == 0) ≡ true = ground arith in rw e refl
heap_from_lem (suc n) a p (q ∷ qs) (e, ne, l) h =
    let f : (p == 0) ≡ false = ground arith in
    elim (Bool-cases ((a q).start == uheapstart)) [
      | inl here ↦ rw (f, e, here) refl
      | inr there ↦ rw (f, e, there) (heap_from_lem n a (a q).next qs l (omega arith))
    ]

-- The process has the areas `ps`, and among them the heap's at `h`, which ends in the range for heaps.
pub record HasHeap (s : Areas) (ps : List ℕ) (h : ℕ) : Type 0 where
  pub chain : Links s.areas s.first_vma ps
  pub few : length ps < rounds
  pub heap : heap_of s.areas ps ≡ h
  pub nonnull : h ≢ 0
  pub bounds : (uheapstart ≤ (s.areas h).end) × ((s.areas h).end ≤ uheaplimit)

-- What `brk` of an address promises. The heap's end stays in its range and does not fall, and no other area
-- changes. 0 asks for the end; an address in the range is covered by the heap afterwards; any other one fails
-- and changes nothing.
abbrev pub Breaks : Areas → ℕ → ℕ → ℕ × Areas → Type 0
Breaks s h top (ret, s') =
    ((uheapstart ≤ (s'.areas h).end) × ((s'.areas h).end ≤ uheaplimit))
    × ((s.areas h).end ≤ (s'.areas h).end)
    × ((p : ℕ) → p ≢ h → s'.areas p ≡ s.areas p)
    × (top ≡ 0 → (ret ≡ (s.areas h).end) × (s' ≡ s))
    × (uheapstart ≤ top → top ≤ uheaplimit → (ret ≡ 0) × (top ≤ (s'.areas h).end))
    × (top ≢ 0 → (top < uheapstart) ⊎ (uheaplimit < top) → (ret ≡ minus_one) × (s' ≡ s))

-- `SYS_brk` of a process with a heap keeps the promises of `Breaks`.
pub sys_brk-Breaks :
    (s : Areas) (ps : List ℕ) (h top : ℕ)
    → HasHeap s ps h
    → Ensures (Breaks s h top) (sys_brk s top)
unfolding sys_brk get_heap_vma
sys_brk-Breaks s ps h top v =
    let found : heap_from rounds s.areas s.first_vma ≡ ok h =
      heap_from_lem rounds s.areas s.first_vma ps v.chain v.few ∙ ap ok v.heap in
    let hn : (h == 0) ≡ false = ground (arith, v.nonnull) in
    let hh : (h == h) ≡ true = ground arith in
    elim (Bool-cases (top == 0)) [
      | inl z ↦
          rw (found, z, hn)
            (
              v.bounds,
              omega arith,
              λ p ne. refl,
              λ e. (refl, refl),
              λ a b. absurd (ground arith),
              λ n o. absurd (ground arith),
            )
      | inr nz ↦ elim (Bool-cases (ltb uheaplimit top || ltb top uheapstart)) [
        | inl bad ↦
            rw (found, nz, bad)
              (
                v.bounds,
                omega arith,
                λ p ne. refl,
                λ e. absurd (ground arith),
                λ a b. absurd (ground arith),
                λ n o. (refl, refl),
              )
        | inr good ↦
            let up = align_up_least top (ground arith) in
            elim (Bool-cases (ltb (s.areas h).end top)) [
              | inl grows ↦
                  let below : top ≤ uheaplimit = ground arith in
                  let more : (s.areas h).end ≤ align_up top = ground (arith, up.0) in
                  let limit : align_up top ≤ uheaplimit = up.2 uheaplimit (omega arith) below in
                  rw (found, nz, good, hn, grows)
                    (
                      (rw hh (omega (arith, more, v.bounds)), rw hh limit),
                      rw hh more,
                      λ p ne. ground arith,
                      λ e. absurd (ground arith),
                      λ a b. (refl, rw hh up.0),
                      λ n o. absurd (ground arith),
                    )
              | inr stays ↦
                  rw (found, nz, good, hn, stays)
                    (
                      v.bounds,
                      omega arith,
                      λ p ne. refl,
                      λ e. absurd (ground arith),
                      λ a b. (refl, ground arith),
                      λ n o. absurd (ground arith),
                    )
            ]
      ]
    ]

-- ===== src/Vma/Check.antt =====
-- `check_vma` of sys/elf.c: an area that contains a section's address grows over the section.
use preemptive_unix_os.Base.{
  Ensures-weaken, ℕ, suc, zero, ◌+◌, ◌-◌, ◌^◌, ◌≤◌, ◌<◌, ◌≡◌, ◌⊎◌, inl, inr, refl, sym, ap, List,
  [], ◌∷◌, length, arith, Bool, Bool-cases, ◌==◌, ltb, true, false, Ensures, add64,
}
use preemptive_unix_os.Page.Align.{page_size, align_up_least}
use preemptive_unix_os.Vma.{Areas, contains, grow_vma, check_from, check_vma, rounds}
use preemptive_unix_os.Vma.Chain.{Links, Outside, Covers, Grown}

-- What `check_vma` finds: an area that contains the address, grown over the section, or none, and then
-- nothing changes.
abbrev pub Checks : Areas → List ℕ → ℕ → ℕ → Bool × Areas → Type 0
Checks s ps addr size (found, s') =
    (found ≡ true)
      × Grown s.areas s'.areas
      × (s'.first_vma ≡ s.first_vma)
      × (s'.vma_free_list ≡ s.vma_free_list)
      × Covers s'.areas ps addr (addr + size)
    ⊎ (found ≡ false) × (s' ≡ s) × Outside s.areas ps addr

grow_vma-Grown :
    (s : Areas) (p addr size : ℕ)
    → addr + size ≤ 2 ^ 64 - page_size
    → Grown s.areas (grow_vma s p addr size).areas
unfolding grow_vma
grow_vma-Grown s p addr size small q = elim (Bool-cases (ltb (s.areas p).end (add64 addr size))) [
  | inl e ↦
      let up = align_up_least (add64 addr size) (omega arith) in
      rw e (elim (Bool-cases (q == p)) [
        | inl same ↦ rw same (
            let eq : q ≡ p = ground arith in
            (
              ap (λ x. (s.areas x).start) (sym eq),
              rw eq (ground (arith, up.0)),
              ap (λ x. (s.areas x).next) (sym eq),
            ))
        | inr other ↦ rw other (refl, omega arith, refl)
      ])
  | inr e ↦ rw e (refl, omega arith, refl)
]

grow_vma-keeps :
    (s : Areas) (p addr size : ℕ)
    → ((grow_vma s p addr size).first_vma ≡ s.first_vma)
      × ((grow_vma s p addr size).vma_free_list ≡ s.vma_free_list)
unfolding grow_vma
grow_vma-keeps s p addr size = elim (Bool-cases (ltb (s.areas p).end (add64 addr size))) [
  | inl e ↦ rw e (refl, refl)
  | inr e ↦ rw e (refl, refl)
]

grow_vma-end :
    (s : Areas) (p addr size : ℕ)
    → addr + size ≤ 2 ^ 64 - page_size
    → addr + size ≤ ((grow_vma s p addr size).areas p).end
unfolding grow_vma
grow_vma-end s p addr size small = elim (Bool-cases (ltb (s.areas p).end (add64 addr size))) [
  | inl e ↦
      let up = align_up_least (add64 addr size) (omega arith) in
      let same : (p == p) ≡ true = ground arith in rw (e, same) (omega (arith, up.0))
  | inr e ↦ rw e (ground arith)
]

Checks-cons :
    (s : Areas) (q : ℕ) (qs : List ℕ) (addr size : ℕ) (found : Bool) (s' : Areas)
    → (addr < (s.areas q).start) ⊎ ((s.areas q).end < addr)
    → Checks s qs addr size (found, s')
    → Checks s (q ∷ qs) addr size (found, s')
Checks-cons s q qs addr size found s' out (inl (f, g, a, b, c)) = inl (f, g, a, b, inr c)
Checks-cons s q qs addr size found s' out (inr (f, e, o)) = inr (f, e, (out, o))

check_from-Checks :
    (n : ℕ) (s : Areas) (p : ℕ) (ps : List ℕ) (addr size : ℕ)
    → Links s.areas p ps
    → length ps < n
    → addr + size ≤ 2 ^ 64 - page_size
    → Ensures (Checks s ps addr size) (check_from n s p addr size)
unfolding check_from
check_from-Checks zero s p ps addr size l h small = absurd (omega arith)
check_from-Checks (suc n) s p [] addr size l h small =
    let e : (p == 0) ≡ true = ground arith in rw e (inr (refl, refl, tt))
check_from-Checks (suc n) s p (q ∷ qs) addr size (e, ne, l) h small =
    let f : (p == 0) ≡ false = ground arith in
    elim (Bool-cases (contains (s.areas q) addr)) [
      | inl inside ↦
          let g = grow_vma-Grown s q addr size small in
          let kept = grow_vma-keeps s q addr size in
          rw (f, e, inside)
            (inl (
              refl,
              g,
              kept.0,
              kept.1,
              inl (ground (arith, g q), grow_vma-end s q addr size small),
            ))
      | inr outside ↦
          rw (f, e, outside)
            (Ensures-weaken (check_from n s (s.areas q).next addr size)
              (λ (found, s') o. Checks-cons s q qs addr size found s' (ground arith) o)
              (check_from-Checks n s (s.areas q).next qs addr size l (omega arith) small))
    ]

-- `check_vma` of a process with the areas `ps` ends and keeps the promises of `Checks`.
pub check_vma-Checks :
    (s : Areas) (ps : List ℕ) (addr size : ℕ)
    → Links s.areas s.first_vma ps
    → length ps < rounds
    → addr + size ≤ 2 ^ 64 - page_size
    → Ensures (Checks s ps addr size) (check_vma s addr size)
unfolding check_vma
check_vma-Checks s ps addr size l h small =
    check_from-Checks rounds s s.first_vma ps addr size l h small

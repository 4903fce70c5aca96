-- ===== src/Vma/Find.antt =====
-- `findVMA` of sys/isr.c: which area a faulting address belongs to.
use preemptive_unix_os.Base.{
  ◌↔◌, ℕ, suc, zero, ◌+◌, ◌-◌, ◌/◌, ◌%◌, ◌^◌, ◌≤◌, ◌<◌, ◌≡◌, ◌≢◌, ◌⊎◌, ◌∙◌, inl, inr, refl, sym,
  List, [], ◌∷◌, length, arith, Bool-cases, leb, ◌==◌, true, false, Ensures, Ensures-weaken,
}
use preemptive_unix_os.Page.Align.{page_size}
use preemptive_unix_os.Vma.{Vma, Areas, admits, find_from, find_vma, ustacklimit, ustacktop, rounds}
use preemptive_unix_os.Vma.Chain.{Links}

-- The fault lies in the area, or the area starts a page or more above the stack's limit and the fault lies no
-- more than 8 bytes below its start; and a fault by a write needs an area for writing.
abbrev pub Allowed : Vma → ℕ → ℕ → Type 0
Allowed v addr errno =
    (((v.start ≤ addr) × (addr ≤ v.end))
      ⊎ ((ustacklimit + page_size ≤ v.start) × (v.start ≤ addr + 8)))
    × (errno / 2 % 2 ≡ 1 → v.flags_vma / 2 % 2 ≡ 1)

admits-Allowed :
    (v : Vma) (addr errno : ℕ)
    → v.start < 2 ^ 64
    → (admits v addr errno ≡ true) ↔ Allowed v addr errno
unfolding admits
admits-Allowed v addr errno h = (λ e. ground arith, λ e. ground arith)

-- Every area of `ps` starts at a 64-bit address.
abbrev pub Words : (ℕ → Vma) → List ℕ → Type 0
Words a [] = Unit {0}
Words a (p ∷ ps) = ((a p).start < 2 ^ 64) × Words a ps

-- The areas before `p` in `ps` do not allow the fault, and `p` does; or `p` is 0 and none does.
abbrev pub FirstAllowed : (ℕ → Vma) → List ℕ → ℕ → ℕ → ℕ → Type 0
FirstAllowed a [] addr errno p = p ≡ 0
FirstAllowed a (q ∷ qs) addr errno p =
    (p ≡ q) × Allowed (a q) addr errno ⊎ ¬ Allowed (a q) addr errno × FirstAllowed a qs addr errno p

find_from-FirstAllowed :
    (n : ℕ) (a : ℕ → Vma) (p : ℕ) (ps : List ℕ) (addr errno : ℕ)
    → Links a p ps
    → Words a ps
    → length ps < n
    → Ensures (FirstAllowed a ps addr errno) (find_from n a p addr errno)
unfolding find_from
find_from-FirstAllowed zero a p ps addr errno l w h = absurd (omega arith)
find_from-FirstAllowed (suc n) a p [] addr errno l w h =
    let e : (p == 0) ≡ true = ground arith in rw e refl
find_from-FirstAllowed (suc n) a p (q ∷ qs) addr errno (e, ne, l) (small, w) h =
    let f : (p == 0) ≡ false = ground arith in
    let means = admits-Allowed (a q) addr errno small in
    elim (Bool-cases (admits (a q) addr errno)) [
      | inl fits ↦ rw (f, e, fits) (inl (refl, means.0 fits))
      | inr bars ↦
          rw (f, e, bars)
            (Ensures-weaken (find_from n a (a q).next addr errno)
              (λ r o. inr (λ y. absurd (true_ne (sym (means.1 y) ∙ bars)), o))
              (find_from-FirstAllowed n a (a q).next qs addr errno l w (omega arith)))
    ]
  where
    true_ne : true ≢ false
    true_ne z = cc

-- What the test of the code comes to.
find_vma-FirstAllowed :
    (s : Areas) (ps : List ℕ) (addr errno : ℕ)
    → Links s.areas s.first_vma ps
    → Words s.areas ps
    → length ps < rounds
    → Ensures (FirstAllowed s.areas ps addr errno) (find_vma s addr errno)
unfolding find_vma
find_vma-FirstAllowed s ps addr errno l w h =
    find_from-FirstAllowed rounds s.areas s.first_vma ps addr errno l w h

-- As the comment on `findVMA` has it: the fault lies in the area, or up to 8 bytes below one of the stack, which starts a page
-- or more above the stack's limit; and a fault by a write needs an area for writing.
abbrev pub Belongs : Vma → ℕ → ℕ → Type 0
Belongs v addr errno =
    (((v.start ≤ addr) × (addr ≤ v.end))
      ⊎ ((ustacklimit + page_size ≤ v.start) × (addr < v.start) × (v.start ≤ addr + 8)))
    × (errno / 2 % 2 ≡ 1 → v.flags_vma / 2 % 2 ≡ 1)

-- The address lies above no area of the stack.
abbrev pub NotAbove : (ℕ → Vma) → List ℕ → ℕ → Type 0
NotAbove a [] addr = Unit {0}
NotAbove a (p ∷ ps) addr =
    (ustacklimit + page_size ≤ (a p).start → addr ≤ (a p).end) × NotAbove a ps addr

-- The fault belongs to `p` and to no area before it in `ps`; or `p` is 0 and it belongs to none.
abbrev pub FirstOwner : (ℕ → Vma) → List ℕ → ℕ → ℕ → ℕ → Type 0
FirstOwner a [] addr errno p = p ≡ 0
FirstOwner a (q ∷ qs) addr errno p =
    (p ≡ q) × Belongs (a q) addr errno ⊎ ¬ Belongs (a q) addr errno × FirstOwner a qs addr errno p

Allowed-Belongs :
    (v : Vma) (addr errno : ℕ)
    → (ustacklimit + page_size ≤ v.start → addr ≤ v.end)
    → Allowed v addr errno ↔ Belongs v addr errno
Allowed-Belongs v addr errno below =
    (λ (place, write). (to place, write), λ (place, write). (back place, write))
  where
    to :
        ((v.start ≤ addr) × (addr ≤ v.end))
          ⊎ ((ustacklimit + page_size ≤ v.start) × (v.start ≤ addr + 8))
        → ((v.start ≤ addr) × (addr ≤ v.end))
          ⊎ ((ustacklimit + page_size ≤ v.start) × (addr < v.start) × (v.start ≤ addr + 8))
    to (inl inside) = inl inside
    to (inr (stack, near)) = elim (Bool-cases (leb v.start addr)) [
      | inl over ↦ inl (ground arith, below stack)
      | inr under ↦ inr (stack, ground arith, near)
    ]

    back :
        ((v.start ≤ addr) × (addr ≤ v.end))
          ⊎ ((ustacklimit + page_size ≤ v.start) × (addr < v.start) × (v.start ≤ addr + 8))
        → ((v.start ≤ addr) × (addr ≤ v.end))
          ⊎ ((ustacklimit + page_size ≤ v.start) × (v.start ≤ addr + 8))
    back (inl inside) = inl inside
    back (inr (stack, _, near)) = inr (stack, near)

FirstAllowed-FirstOwner :
    (a : ℕ → Vma) (ps : List ℕ) (addr errno p : ℕ)
    → NotAbove a ps addr
    → FirstAllowed a ps addr errno p
    → FirstOwner a ps addr errno p
FirstAllowed-FirstOwner a [] addr errno p n f = f
FirstAllowed-FirstOwner a (q ∷ qs) addr errno p (below, n) (inl (e, owns)) =
    inl (e, (Allowed-Belongs (a q) addr errno below).0 owns)
FirstAllowed-FirstOwner a (q ∷ qs) addr errno p (below, n) (inr (bars, f)) = inr (
  λ b. bars ((Allowed-Belongs (a q) addr errno below).1 b),
  FirstAllowed-FirstOwner a qs addr errno p n f,
)

-- `findVMA`, for an address that lies above no area of the stack, in a process with at most a hundred areas: it returns the
-- first area that the fault belongs to, as the comment on it in the code says, or NULL where the fault belongs to none.
pub find_vma-FirstOwner :
    (s : Areas) (ps : List ℕ) (addr errno : ℕ)
    → Links s.areas s.first_vma ps
    → Words s.areas ps
    → length ps < rounds
    → NotAbove s.areas ps addr
    → Ensures (FirstOwner s.areas ps addr errno) (find_vma s addr errno)
find_vma-FirstOwner s ps addr errno l w h below =
    Ensures-weaken (find_vma s addr errno)
      (λ p f. FirstAllowed-FirstOwner s.areas ps addr errno p below f)
      (find_vma-FirstAllowed s ps addr errno l w h)

-- Some area of `ps` starts at `start` and allows writes.
abbrev pub HasWritable : (ℕ → Vma) → List ℕ → ℕ → Type 0
HasWritable a [] start = ⊥
HasWritable a (p ∷ ps) start =
    (p ≢ 0) × ((a p).start ≡ start) × ((a p).flags_vma / 2 % 2 ≡ 1)
    ⊎ (p ≢ 0) × HasWritable a ps start

above_allowed :
    (a : ℕ → Vma) (ps : List ℕ) (addr errno p : ℕ)
    → HasWritable a ps (ustacktop - page_size)
    → ustacktop - page_size ≤ addr + 8
    → FirstAllowed a ps addr errno p
    → p ≢ 0
above_allowed a [] addr errno p w h f = absurd w
above_allowed a (q ∷ qs) addr errno p (inl w) h (inl f) = λ z. w.0 (sym f.0 ∙ z)
above_allowed a (q ∷ qs) addr errno p (inl w) h (inr f) =
    absurd (f.0 (inr (omega (arith, w.1), omega (arith, w.1)), λ _. w.2))
above_allowed a (q ∷ qs) addr errno p (inr w) h (inl f) = λ z. w.0 (sym f.0 ∙ z)
above_allowed a (q ∷ qs) addr errno p (inr w) h (inr f) = above_allowed a qs addr errno p w.1 h f.1

-- In a process with a stack area, `findVMA` takes every address from 8 bytes below the area's start on, also one that
-- lies far above its end, for an address of an area.
pub find_vma-above :
    (s : Areas) (ps : List ℕ) (addr errno : ℕ)
    → Links s.areas s.first_vma ps
    → Words s.areas ps
    → length ps < rounds
    → HasWritable s.areas ps (ustacktop - page_size)
    → ustacktop - page_size ≤ addr + 8
    → Ensures (λ p. p ≢ 0) (find_vma s addr errno)
find_vma-above s ps addr errno l w h stack above =
    Ensures-weaken (find_vma s addr errno)
      (λ p f. above_allowed s.areas ps addr errno p stack above f)
      (find_vma-FirstAllowed s ps addr errno l w h)

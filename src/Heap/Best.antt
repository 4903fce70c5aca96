-- ===== src/Heap/Best.antt =====
-- The loop of `malloc` in libc/malloc.c finds the best fit.
use preemptive_unix_os.Base.{
  ℕ, zero, suc, ◌+◌, ◌≤◌, ◌<◌, ◌≡◌, ◌⊎◌, refl, inl, inr, true, false, ◌&&◌, ltb, leb, ◌==◌, arith,
  Bool-cases,
}
use preemptive_unix_os.Heap.{Node, Choice, consider, choose_from, choose, num_nodes}

-- The node `i` is free and holds `size` bytes.
abbrev pub Fits : (ℕ → Node) → ℕ → ℕ → Type 0
Fits nodes size i = ((nodes i).is_free ≡ 1) × (size ≤ (nodes i).size)

-- What is known of the nodes before `top`: no node fits, or the choice does and is the smallest one.
abbrev pub Chosen : (ℕ → Node) → ℕ → ℕ → Choice → Type 0
Chosen nodes size top c =
    ((c.flag ≡ false) × (c.bestfit ≡ 100000000) × ((j : ℕ) → j < top → Fits nodes size j → ⊥))
    ⊎ ((c.flag ≡ true)
        × (c.bestindex < top)
        × Fits nodes size c.bestindex
        × (c.bestfit ≡ (nodes c.bestindex).size)
        × ((j : ℕ) → j < top → Fits nodes size j → (nodes c.bestindex).size ≤ (nodes j).size))

-- A property of all numbers below `i`, and of `i`, is one of all numbers below `i + 1`.
pub below_suc : (P : ℕ → Type 0) (i : ℕ) → ((j : ℕ) → j < i → P j) → P i → (j : ℕ) → j < suc i → P j
below_suc P i h p j l = elim (Bool-cases (j == i)) [
  | inl here ↦ let e : j ≡ i = ground arith in rw e p
  | inr before ↦ h j (ground arith)
]

consider-Chosen :
    (nodes : ℕ → Node) (size i : ℕ) (c : Choice)
    → (nodes i).size < 100000000
    → Chosen nodes size i c
    → Chosen nodes size (suc i) (consider nodes size i c)
unfolding consider
consider-Chosen nodes size i c small h =
    elim (Bool-cases ((nodes i).is_free == 1 && leb size (nodes i).size)) [
      | inr other ↦
          let misses : Fits nodes size i → ⊥ = λ f. absurd (ground (arith, f.0, f.1)) in
          rw other (elim h [
            | inl (e, b, none) ↦ inl (e, b, below_suc (λ j. Fits nodes size j → ⊥) i none misses)
            | inr (e, l, f, b, least) ↦ inr (
              e,
              omega arith,
              f,
              b,
              below_suc (λ j. Fits nodes size j → (nodes c.bestindex).size ≤ (nodes j).size) i least
                  (λ f. absurd (misses f)),
            )
          ])
      | inl fits ↦
          let f : Fits nodes size i = (ground arith, ground arith) in
          elim h [
            | inl (e, b, none) ↦
                let less : ltb (nodes i).size c.bestfit ≡ true = ground arith in
                rw (fits, less)
                  (inr (
                    refl,
                    omega arith,
                    f,
                    refl,
                    below_suc (λ j. Fits nodes size j → (nodes i).size ≤ (nodes j).size) i
                        (λ j l g. absurd (none j l g)) (λ g. omega arith),
                  ))
            | inr (e, l, g, b, least) ↦ elim (Bool-cases (ltb (nodes i).size c.bestfit)) [
              | inl less ↦
                  let lt : (nodes i).size < (nodes c.bestindex).size = ground arith in
                  rw (fits, less)
                    (inr (
                      refl,
                      omega arith,
                      f,
                      refl,
                      below_suc (λ j. Fits nodes size j → (nodes i).size ≤ (nodes j).size) i
                          (λ j m w. let le = least j m w in omega arith) (λ w. omega arith),
                    ))
              | inr more ↦
                  let le : (nodes c.bestindex).size ≤ (nodes i).size = ground arith in
                  rw (fits, more)
                    (inr (
                      refl,
                      omega arith,
                      g,
                      b,
                      below_suc (λ j. Fits nodes size j → (nodes c.bestindex).size ≤ (nodes j).size)
                          i least (λ w. le),
                    ))
            ]
          ]
    ]

choose_from-Chosen :
    (k : ℕ) (nodes : ℕ → Node) (size i : ℕ) (c : Choice)
    → ((j : ℕ) → (nodes j).size < 100000000)
    → Chosen nodes size i c
    → Chosen nodes size (k + i) (choose_from k nodes size i c)
unfolding choose_from
choose_from-Chosen zero nodes size i c small h = let e : 0 + i ≡ i = omega arith in rw e h
choose_from-Chosen (suc k) nodes size i c small h =
    let e : suc k + i ≡ k + suc i = omega arith in
    rw e (
      choose_from-Chosen k nodes size (suc i) (consider nodes size i c) small
        (consider-Chosen nodes size i c (small i) h))

-- Among blocks below 100000000 bytes, the loop of `malloc` finds the smallest free one that is large enough, and none
-- only where there is none.
pub choose-Chosen :
    (nodes : ℕ → Node) (size : ℕ)
    → ((j : ℕ) → (nodes j).size < 100000000)
    → Chosen nodes size num_nodes (choose nodes size)
unfolding choose
choose-Chosen nodes size small =
    choose_from-Chosen num_nodes nodes size 0
      (record { flag = false; bestfit = 100000000; bestindex = 0 }) small
      (inl (refl, refl, λ j l f. absurd (omega arith)))

-- ===== src/Vma/Insert.antt =====
-- `insert_vma` of sys/elf.c for an address that no area contains: the new area goes to the end.
use preemptive_unix_os.Base.{
  length-append, Ensures-weaken, ℕ, suc, zero, ◌+◌, ◌-◌, ◌^◌, ◌≤◌, ◌<◌, ◌≡◌, ◌≢◌, ◌∙◌, inl, refl,
  sym, ap, List, [], ◌∷◌, ◌++◌, length, arith, ◌==◌, true, false, Ensures, add64,
}
use preemptive_unix_os.Page.Align.{
  page_size, align_up, align_down, align_up_least, align_down_greatest,
}
use preemptive_unix_os.Vma.{
  num_vm_areas, Vma, Areas, vma_alloc, contains, set_vma, insert_from, insert_vma, get_vma_flags,
  rounds,
}
use preemptive_unix_os.Vma.Chain.{
  Covers-append_left, Covers-append_right, Links, Outside, Covers, last_of, Linked, Links-Linked,
  Covers-Linked, Links-append, last_of-ne,
}
use preemptive_unix_os.Base.{Misses-append, Misses, Distinct}

insert_from-last :
    (n : ℕ) (s : Areas) (p : ℕ) (ps : List ℕ) (curr addr start end flags : ℕ)
    → Links s.areas (s.areas p).next ps
    → Outside s.areas (p ∷ ps) addr
    → length ps < n
    → insert_from n s p curr addr start end flags ≡ set_vma s curr (last_of p ps) 0 start end flags
unfolding insert_from last_of
insert_from-last zero s p ps curr addr start end flags l out h = absurd (omega arith)
insert_from-last (suc n) s p [] curr addr start end flags l out h =
    let e : ((s.areas p).next == 0) ≡ true = ground arith in rw e refl
insert_from-last (suc n) s p (q ∷ qs) curr addr start end flags (e, ne, l) (here, out) h =
    let f : ((s.areas p).next == 0) ≡ false = ground arith in
    let g : contains (s.areas p) addr ≡ false = ground arith in
    rw (f, g)
      (ap (λ x. insert_from n s x curr addr start end flags) e
        ∙ insert_from-last n s q qs curr addr start end flags l out (omega arith))

-- What `set_vma` does with the area `curr`, behind `last`.
abbrev pub Placed : Areas → ℕ → ℕ → ℕ → ℕ → Areas → Type 0
Placed s curr last start end s' =
    Linked s.areas s'.areas last curr
    × ((s'.areas curr).start ≡ start)
    × ((s'.areas curr).end ≡ end)
    × (s'.first_vma ≡ s.first_vma)
    × (s'.vma_free_list ≡ s.vma_free_list)

set_vma-Placed :
    (s : Areas) (curr last start end flags : ℕ)
    → curr ≢ 0
    → last ≢ 0
    → curr ≢ last
    → Ensures (Placed s curr last start end) (set_vma s curr last 0 start end flags)
unfolding set_vma
set_vma-Placed s curr last start end flags cn ln ne =
    let e1 : (curr == 0) ≡ false = ground arith in
    let e2 : (last == 0) ≡ false = ground arith in
    let cc : (curr == curr) ≡ true = ground arith in
    let ll : (last == last) ≡ true = ground arith in
    let cl : (curr == last) ≡ false = ground arith in
    let lc : (last == curr) ≡ false = ground arith in
    rw (e1, e2)
      (
        record {
          tail = rw (cc, cl);
          link = rw (lc, ll);
          bounds = (rw (lc, ll), rw (lc, ll));
          others = λ y yc yl.
              let f1 : (y == curr) ≡ false = ground arith in
              let f2 : (y == last) ≡ false = ground arith in rw (f1, f2);
        },
        rw (cc, cl),
        rw (cc, cl),
        refl,
        refl,
      )

-- What `set_vma` does with the first area of a process.
abbrev pub First : Areas → ℕ → ℕ → ℕ → Areas → Type 0
First s curr start end s' =
    ((s'.areas curr).next ≡ 0)
    × ((s'.areas curr).start ≡ start)
    × ((s'.areas curr).end ≡ end)
    × (s'.first_vma ≡ curr)
    × (s'.vma_free_list ≡ s.vma_free_list)
    × ((y : ℕ) → y ≢ curr → s'.areas y ≡ s.areas y)

set_vma-First :
    (s : Areas) (curr start end flags : ℕ)
    → curr ≢ 0
    → Ensures (First s curr start end) (set_vma s curr 0 0 start end flags)
unfolding set_vma
set_vma-First s curr start end flags cn =
    let e1 : (curr == 0) ≡ false = ground arith in
    let cc : (curr == curr) ≡ true = ground arith in
    rw e1
      (rw cc, rw cc, rw cc, refl, refl, λ y ne. let f : (y == curr) ≡ false = ground arith in rw f)

-- Every area of `fs` is none of `ps`.
abbrev pub Apart : List ℕ → List ℕ → Type 0
Apart [] ps = Unit {0}
Apart (f ∷ fs) ps = Misses f ps × Apart fs ps

-- The process has the areas `ps`, and the areas `fs` are free, all of the `num_vm_areas` areas of the kernel.
pub record IsLoaded (s : Areas) (ps fs : List ℕ) : Type 0 where
  pub chain : Links s.areas s.first_vma ps
  pub distinct : Distinct ps
  pub free : Links s.areas s.vma_free_list fs
  pub free_distinct : Distinct fs
  pub apart : Apart fs ps
  pub few : length ps + length fs ≤ num_vm_areas

Apart-append : (f : ℕ) (fs ps : List ℕ) → Misses f fs → Apart fs ps → Apart fs (ps ++ (f ∷ []))
Apart-append f [] ps m a = tt
Apart-append f (g ∷ gs) ps (ne, m) (out, a) =
    (Misses-append g ps (f ∷ []) out (λ e. ne (sym e), tt), Apart-append f gs ps m a)

Distinct-append : (f : ℕ) (ps : List ℕ) → Misses f ps → Distinct ps → Distinct (ps ++ (f ∷ []))
Distinct-append f [] m d = (tt, tt)
Distinct-append f (p ∷ ps) (ne, m) (out, d) =
    (Misses-append p ps (f ∷ []) out (λ e. ne (sym e), tt), Distinct-append f ps m d)

last_of-Misses : (p : ℕ) (ps fs : List ℕ) → Apart fs (p ∷ ps) → Misses (last_of p ps) fs
last_of-Misses p ps [] a = tt
last_of-Misses p ps (f ∷ fs) ((ne, out), a) =
    (λ e. last_of-ne f p ps ne out (sym e), last_of-Misses p ps fs a)

last_of-nonnull :
    (a : ℕ → Vma) (p : ℕ) (ps : List ℕ) → p ≢ 0 → Links a (a p).next ps → last_of p ps ≢ 0
unfolding last_of
last_of-nonnull a p [] ne l = ne
last_of-nonnull a p (q ∷ qs) ne (e, qn, l) = last_of-nonnull a q qs qn l

Links-others :
    (a b : ℕ → Vma) (x p : ℕ) (ps : List ℕ)
    → ((y : ℕ) → y ≢ x → b y ≡ a y)
    → Misses x ps
    → Links a p ps
    → Links b p ps
Links-others a b x p [] o m l = l
Links-others a b x p (q ∷ qs) o (ne, m) (e, nn, l) =
    (e, nn, rw (o q (λ z. ne (sym z))) (Links-others a b x (a q).next qs o m l))

-- What `insert_vma` promises: the free area `f` is now the last one of the process, it covers the section, and what
-- was covered still is.
abbrev pub Inserts : Areas → List ℕ → ℕ → List ℕ → ℕ → ℕ → Areas → Type 0
Inserts s ps f fs addr size s' =
    IsLoaded s' (ps ++ (f ∷ [])) fs
    × Covers s'.areas (ps ++ (f ∷ [])) addr (addr + size)
    × ((x y : ℕ) → Covers s.areas ps x y → Covers s'.areas (ps ++ (f ∷ [])) x y)

covering :
    (b : ℕ → Vma) (ps : List ℕ) (f addr size : ℕ)
    → addr + size ≤ 2 ^ 64 - page_size
    → (b f).start ≡ align_down addr
    → (b f).end ≡ align_up (add64 addr size)
    → Covers b (ps ++ (f ∷ [])) addr (addr + size)
covering b ps f addr size small es ee =
    let down = align_down_greatest addr in
    let up = align_up_least (add64 addr size) (omega arith) in
    Covers-append_right b ps (f ∷ []) addr (addr + size)
      (inl (omega (arith, down.0), omega (arith, up.0)))

module _ (s : Areas) (f : ℕ) (fs : List ℕ) (addr size flags : ℕ)
    (small : addr + size ≤ 2 ^ 64 - page_size) where
  -- The areas after `vma_alloc`.
  abbrev taken : Areas
  taken = record s { vma_free_list = (s.areas f).next }

  vma_alloc-taken : s.vma_free_list ≡ f → f ≢ 0 → vma_alloc s ≡ (f, taken)
  unfolding vma_alloc
  vma_alloc-taken e ne = let g : (f == 0) ≡ false = ground arith in rw (e, g) refl

  insert_vma-first :
      IsLoaded s [] (f ∷ fs) → Ensures (Inserts s [] f fs addr size) (insert_vma s addr size flags)
  unfolding insert_vma
  insert_vma-first v =
      let e : (s.first_vma == 0) ≡ true = ground (arith, v.chain) in
      rw (vma_alloc-taken v.free.0 v.free.1, e)
        (Ensures-weaken
          (set_vma taken f 0 0 (align_down addr) (align_up (add64 addr size)) (get_vma_flags flags))
          (λ s' (next, start, end, first, free, others). (
            record {
              chain = (first, v.free.1, next);
              distinct = (tt, tt);
              free = rw free (
                  Links-others s.areas s'.areas f (s.areas f).next fs others v.free_distinct.0
                    v.free.2);
              free_distinct = v.free_distinct.1;
              apart = Apart-append f fs [] v.free_distinct.0 v.apart.1;
              few = omega (arith, v.few);
            },
            covering s'.areas [] f addr size small start end,
            λ x y c. absurd c,
          ))
          (set_vma-First taken f (align_down addr) (align_up (add64 addr size))
            (get_vma_flags flags) v.free.1))

  insert_vma-last :
      (p : ℕ) (ps : List ℕ)
      → IsLoaded s (p ∷ ps) (f ∷ fs)
      → Outside s.areas (p ∷ ps) addr
      → Ensures (Inserts s (p ∷ ps) f fs addr size) (insert_vma s addr size flags)
  unfolding insert_vma
  insert_vma-last p ps v out =
      let e : (s.first_vma == 0) ≡ false = ground (arith, v.chain) in
      let last = last_of p ps in
      let start = align_down addr in
      let end = align_up (add64 addr size) in
      let ln : last ≢ 0 = last_of-nonnull s.areas p ps v.chain.1 v.chain.2 in
      let ne : f ≢ last = last_of-ne f p ps v.apart.0.0 v.apart.0.1 in
      let step =
        ap (λ x. insert_from rounds taken x f addr start end (get_vma_flags flags)) v.chain.0
        ∙ insert_from-last rounds taken p ps f addr start end (get_vma_flags flags) v.chain.2 out
            (omega (arith, v.few)) in
      rw (vma_alloc-taken v.free.0 v.free.1, e, step)
        (Ensures-weaken (set_vma taken f last 0 start end (get_vma_flags flags))
          (λ s' (linked, es, ee, first, free). (
            record {
              chain =
                  rw (first, v.chain.0)
                    (Links-append s.areas s'.areas p f ps v.chain.1 v.distinct.0 v.distinct.1
                      v.chain.2 v.free.1 v.apart.0 linked);
              distinct = Distinct-append f (p ∷ ps) v.apart.0 v.distinct;
              free = rw free (
                  Links-Linked s.areas s'.areas last f (s.areas f).next fs linked v.free_distinct.0
                    (last_of-Misses p ps fs v.apart.1) v.free.2);
              free_distinct = v.free_distinct.1;
              apart = Apart-append f fs (p ∷ ps) v.free_distinct.0 v.apart.1;
              few = omega (arith, v.few, length-append (p ∷ ps) (f ∷ []));
            },
            covering s'.areas (p ∷ ps) f addr size small es ee,
            λ x y c.
                Covers-append_left s'.areas (p ∷ ps) (f ∷ []) x y
                  (Covers-Linked s.areas s'.areas last f (p ∷ ps) x y linked v.apart.0 c),
          ))
          (set_vma-Placed taken f last start end (get_vma_flags flags) v.free.1 ln ne))

  -- `insert_vma` of a section whose address is in no area, while an area is free, keeps the promises of
  -- `Inserts`.
  pub insert_vma-Inserts :
      (ps : List ℕ)
      → IsLoaded s ps (f ∷ fs)
      → Outside s.areas ps addr
      → Ensures (Inserts s ps f fs addr size) (insert_vma s addr size flags)
  insert_vma-Inserts [] v out = insert_vma-first v
  insert_vma-Inserts (p ∷ ps) v out = insert_vma-last p ps v out

-- ===== src/Vma/Remove/Freed.antt =====
-- The areas of a process that goes are those in no use afterwards.
use preemptive_unix_os.Base.{
  ◌>>=◌, update, ℕ, zero, suc, ◌≤◌, ◌<◌, ◌≡◌, ◌≢◌, ◌==◌, false, refl, sym, List, [], ◌∷◌, ◌++◌,
  length, ok, arith, Run, bind-cong, bind-then, ap, true, ◌∙◌, Misses, Distinct, Misses-left,
  Misses-right,
}
use preemptive_unix_os.Page.Frames.{Memory}
use preemptive_unix_os.Vma.{Vma, Areas, rounds}
use preemptive_unix_os.Vma.Chain.{Links}
use preemptive_unix_os.Vma.Remove.{release_vma, unmap_area, remove_from, vma_remove_for_process}

-- The areas `ps`, each put before those in front of which it comes to stand.
abbrev pub put_onto : List ℕ → List ℕ → List ℕ
put_onto [] qs = qs
put_onto (p ∷ ps) qs = put_onto ps (p ∷ qs)

Links-next :
    (a b : ℕ → Vma) (x p : ℕ) (ps : List ℕ)
    → ((y : ℕ) → y ≢ x → (b y).next ≡ (a y).next)
    → Misses x ps
    → Links a p ps
    → Links b p ps
Links-next a b x p [] k out l = l
Links-next a b x p (y ∷ ys) k (ne, out) (e, nz, l) =
    (e, nz, rw (k y (λ same. ne (sym same))) (Links-next a b x (a y).next ys k out l))

Misses-insert : (x p : ℕ) (ps qs : List ℕ) → x ≢ p → Misses x (ps ++ qs) → Misses x (ps ++ (p ∷ qs))
Misses-insert x p [] qs ne m = (ne, m)
Misses-insert x p (y ∷ ps) qs ne (xy, m) = (xy, Misses-insert x p ps qs ne m)

Distinct-insert :
    (p : ℕ) (ps qs : List ℕ) → Misses p (ps ++ qs) → Distinct (ps ++ qs) → Distinct (ps ++ (p ∷ qs))
Distinct-insert p [] qs m d = (m, d)
Distinct-insert p (y ∷ ps) qs (ne, m) (out, d) =
    (Misses-insert y p ps qs (λ same. ne (sym same)) out, Distinct-insert p ps qs m d)

-- The areas `s'` after `p` was put before the head of those in no use.
record Released (s : Areas) (p : ℕ) (s' : Areas) : Type 0 where
  link : (s'.areas p).next ≡ s.vma_free_list
  head : s'.vma_free_list ≡ p
  cleared : ((s'.areas p).start ≡ 0) × ((s'.areas p).end ≡ 0) × ((s'.areas p).flags_vma ≡ 0)
  others : (y : ℕ) → y ≢ p → (s'.areas y).next ≡ (s.areas y).next
  bounds :
      (y : ℕ)
      → y ≢ p
      → ((s'.areas y).start ≡ (s.areas y).start) × ((s'.areas y).end ≡ (s.areas y).end)

release_vma-Released :
    (s : Areas) (p : ℕ)
    → s.vma_free_list ≢ 0
    → (s' : Areas) × (release_vma s p ≡ ok s') × Released s p s'
unfolding release_vma
release_vma-Released s p some_free =
    let f : (s.vma_free_list == 0) ≡ false = ground arith in
    let a = update s.areas s.vma_free_list (record (s.areas s.vma_free_list) { prev = p }) in
    (
      record s {
        areas =
            update a p
              (record { next = s.vma_free_list; prev = 0; start = 0; end = 0; flags_vma = 0 });
        vma_free_list = p;
      },
      rw f refl,
      record {
        link = ground arith;
        head = refl;
        cleared = (ground arith, ground arith, ground arith);
        others = λ y ne. ground arith;
        bounds = λ y ne. (ground arith, ground arith);
      },
    )

-- The areas in no use are `qs`, with those of the process before them.
abbrev pub Freed : List ℕ → List ℕ → Areas → Type 0
Freed ps qs s' = Links s'.areas s'.vma_free_list (put_onto ps qs)

-- The pages of the areas go, one area after the other.
unfoldable pub unmap_all : Memory → ℕ → (ℕ → Vma) → List ℕ → Run Memory
unmap_all m pml4 areas [] = ok m
unmap_all m pml4 areas (p ∷ ps) = unmap_area m pml4 (areas p) >>= λ m'. unmap_all m' pml4 areas ps

unmap_area-same :
    (m : Memory) (pml4 : ℕ) (a b : Vma)
    → a.start ≡ b.start
    → a.end ≡ b.end
    → unmap_area m pml4 a ≡ unmap_area m pml4 b
unfolding unmap_area
unmap_area-same m pml4 a b e f = rw (e, f) refl

unmap_all-same :
    (m : Memory) (pml4 : ℕ) (a b : ℕ → Vma) (x : ℕ) (ps : List ℕ)
    → Misses x ps
    → ((y : ℕ) → y ≢ x → ((a y).start ≡ (b y).start) × ((a y).end ≡ (b y).end))
    → unmap_all m pml4 a ps ≡ unmap_all m pml4 b ps
unfolding unmap_all
unmap_all-same m pml4 a b x [] out k = refl
unmap_all-same m pml4 a b x (p ∷ ps) (ne, out) k =
    let same = k p (λ e. ne (sym e)) in
    rw (unmap_area-same m pml4 (a p) (b p) same.0 same.1) (
      bind-cong (unmap_area m pml4 (b p)) (λ m'. unmap_all m' pml4 a ps)
        (λ m'. unmap_all m' pml4 b ps) (λ m'. unmap_all-same m' pml4 a b x ps out k))

remove_from-Freed :
    (n : ℕ) (s : Areas) (pml4 p : ℕ) (ps qs : List ℕ)
    → s.vma_free_list ≢ 0
    → Links s.areas p ps
    → Links s.areas s.vma_free_list qs
    → Distinct (ps ++ qs)
    → length ps < n
    → (s' : Areas) × Freed ps qs s'
      × ((m : Memory)
          → remove_from n s m pml4 p ≡ (unmap_all m pml4 s.areas ps >>= λ m'. ok (s', m')))
unfolding remove_from unmap_all
remove_from-Freed zero s pml4 p ps qs some_free l k d h = absurd (omega arith)
remove_from-Freed (suc n) s pml4 p [] qs some_free l k d h =
    let e : (p == 0) ≡ true = ground arith in (s, k, λ m. rw e refl)
remove_from-Freed (suc n) s pml4 p (x ∷ ps) qs some_free (e, nz, l) k (out, d) h =
    let f : (x == 0) ≡ false = ground arith in
    let (s1, released, r) = release_vma-Released s x some_free in
    let (s', freed, rest) =
      remove_from-Freed n s1 pml4 (s.areas x).next ps (x ∷ qs) (λ none. nz (sym r.head ∙ none))
        (Links-next s.areas s1.areas x (s.areas x).next ps r.others (Misses-left x ps qs out) l)
        (
          r.head,
          nz,
          rw r.link (
              Links-next s.areas s1.areas x s.vma_free_list qs r.others (Misses-right x ps qs out)
                k),
        )
        (Distinct-insert x ps qs out d) (omega arith) in
    (
      s',
      freed,
      λ m.
          rw (e, f)
            (bind-cong (unmap_area m pml4 (s.areas x))
                (λ m'. release_vma s x >>= λ s2. remove_from n s2 m' pml4 (s.areas x).next)
                (λ m'. unmap_all m' pml4 s.areas ps >>= λ m''. ok (s', m''))
                (λ m'. rw released (
                  rest m'
                  ∙ ap (λ (u : Run Memory). u >>= λ m''. ok (s', m''))
                      (unmap_all-same m' pml4 s1.areas s.areas x ps (Misses-left x ps qs out)
                        r.bounds)))
              ∙ sym (
                  bind-then (unmap_area m pml4 (s.areas x)) (λ m'. unmap_all m' pml4 s.areas ps)
                    (λ m''. ok (s', m''))
                    (λ m'. unmap_all m' pml4 s.areas ps >>= λ m''. ok (s', m'')) (λ m'. refl))),
    )

-- `vma_remove_for_process`, where at least one area is in no use and the process has at most a hundred: whatever the page tables
-- hold, the code comes to what the removal of the pages of all its areas in their order comes to, and after that all of the
-- areas are in no use, the last one first and before those that were, and the process has none.
pub vma_remove_for_process-Freed :
    (s : Areas) (m : Memory) (pml4 : ℕ) (ps qs : List ℕ)
    → s.vma_free_list ≢ 0
    → Links s.areas s.first_vma ps
    → Links s.areas s.vma_free_list qs
    → Distinct (ps ++ qs)
    → length ps ≤ 100
    → (s' : Areas) × Freed ps qs s'
      × (s'.first_vma ≡ 0)
      × (vma_remove_for_process s m pml4 ≡ (unmap_all m pml4 s.areas ps >>= λ m'. ok (s', m')))
unfolding vma_remove_for_process
vma_remove_for_process-Freed s m pml4 ps qs some_free l k d h =
    let (s', freed, same) =
      remove_from-Freed rounds s pml4 s.first_vma ps qs some_free l k d (omega arith) in
    let last : Areas = record s' { first_vma = 0 } in
    (
      last,
      freed,
      refl,
      rw (same m) (
          bind-then (unmap_all m pml4 s.areas ps) (λ m'. ok (s', m'))
            (λ (s2, m'). ok (record s2 { first_vma = 0 }, m')) (λ m'. ok (last, m')) (λ m'. refl)),
    )

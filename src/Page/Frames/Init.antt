-- ===== src/Page/Frames/Init.antt =====
-- `page_free_init` of sys/page.c: which pages it puts on the free list, and in which order.
use preemptive_unix_os.Base.{
  ℕ, zero, suc, ◌≤◌, ◌<◌, ◌≡◌, ◌≢◌, ◌⊎◌, ◌↔◌, inl, inr, refl, none, some, List, [], ◌∷◌, arith,
  update, if◌then◌else◌, true, false, Bool-cases,
}
use preemptive_unix_os.Page.Frames.{
  Page, Memory, is_reserved, page_free_step, page_free_rounds, page_free_init, num_pages,
}
use preemptive_unix_os.Page.Frames.FreeList.{IsFree, Chain-put_back}
use preemptive_unix_os.Base.{Misses}

-- The pages below `n` that are not reserved, the last one first.
unfoldable pub available : ℕ → List Page
available zero = []
available (suc n) = if is_reserved n then available n else n ∷ available n

above-Misses : (n k : ℕ) → n ≤ k → Misses k (available n)
unfolding available
above-Misses zero k h = tt
above-Misses (suc n) k h = elim (Bool-cases (is_reserved n)) [
  | inl r ↦ rw r (above-Misses n k (omega arith))
  | inr u ↦ rw u (omega arith, above-Misses n k (omega arith))
]

-- What the loop has done after `n` rounds.
record Built (n : ℕ) (m : Memory) : Type 0 where
  free : IsFree m (available n)
  clear : (x : Page) → n ≤ x → m.prev x ≡ none
  held : (x : Page) → x < n → is_reserved x ≡ true → m.ref_count x ≡ 1

step-reserved :
    (n : ℕ) (m : Memory)
    → is_reserved n ≡ true
    → page_free_step n m ≡ record m { ref_count = update m.ref_count n 1 }
unfolding page_free_step
step-reserved n m r = rw r

step-first :
    (n : ℕ) (m : Memory)
    → is_reserved n ≡ false
    → m.page_free_list ≡ none
    → page_free_step n m ≡ record m { page_free_list = some n; next = update m.next n none }
unfolding page_free_step
step-first n m u e = ground arith

step-next :
    (n q : ℕ) (m : Memory)
    → is_reserved n ≡ false
    → m.page_free_list ≡ some q
    → page_free_step n m ≡ record m {
      next = update m.next q (some n);
      prev = update m.prev n (some q);
      page_free_list = some n;
      ref_count = update m.ref_count n 0;
    }
unfolding page_free_step
step-next n q m u e = ground arith

step-IsFree_next :
    (n : ℕ) (m : Memory) (ps : List Page)
    → is_reserved n ≡ false
    → Misses n ps
    → IsFree m ps
    → ((x : Page) → n ≤ x → m.prev x ≡ none)
    → IsFree (page_free_step n m) (n ∷ ps)
step-IsFree_next n m [] u out free clear =
    rw (step-first n m u free.chain)
      (record { chain = (refl, clear n (omega arith)); distinct = (tt, tt) })
step-IsFree_next n m (q ∷ qs) u out free clear = rw (step-next n q m u free.chain.0) (record {
  chain = (refl, Chain-put_back m.prev n q qs out free.chain.1);
  distinct = (out, free.distinct);
})

step-clear :
    (n : ℕ) (m : Memory)
    → ((x : Page) → n ≤ x → m.prev x ≡ none)
    → (x : Page) → suc n ≤ x
    → (page_free_step n m).prev x ≡ none
unfolding page_free_step
step-clear n m clear x h = ground (arith, clear x)

step-held :
    (n : ℕ) (m : Memory)
    → ((x : Page) → x < n → is_reserved x ≡ true → m.ref_count x ≡ 1)
    → (x : Page) → x < suc n
    → is_reserved x ≡ true
    → (page_free_step n m).ref_count x ≡ 1
unfolding page_free_step
step-held n m held x h r = elim (Bool-cases (is_reserved n)) [
  | inl s ↦ rw s (ground (arith, held x))
  | inr s ↦ let ne : x ≢ n = ground arith in ground (arith, held x, ne)
]

step-IsFree : (n : ℕ) (m : Memory) → Built n m → IsFree (page_free_step n m) (available (suc n))
unfolding available
step-IsFree n m b = elim (Bool-cases (is_reserved n)) [
  | inl r ↦
      rw (r, step-reserved n m r) (record { chain = b.free.chain; distinct = b.free.distinct })
  | inr u ↦
      rw u (step-IsFree_next n m (available n) u (above-Misses n n (omega arith)) b.free b.clear)
]

rounds-Built :
    (n : ℕ) (m : Memory)
    → m.page_free_list ≡ none
    → ((x : Page) → m.prev x ≡ none)
    → Built n (page_free_rounds n m)
unfolding page_free_rounds available
rounds-Built zero m empty zeroed = record {
  free = record { chain = empty; distinct = tt };
  clear = λ x h. zeroed x;
  held = λ x h. absurd (omega arith);
}
rounds-Built (suc n) m empty zeroed =
    let b = rounds-Built n m empty zeroed in
    let before : Memory = page_free_rounds n m in
    record {
      free = step-IsFree n before b;
      clear = step-clear n before b.clear;
      held = step-held n before b.held;
    }

-- `page_free_init`, run on descriptors whose `prev` is NULL with no free list yet, leaves a free list
-- of exactly the pages that are not reserved, each once and the last one at the head, and one
-- reference on each reserved page.
pub page_free_init-IsFree :
    (m : Memory)
    → m.page_free_list ≡ none
    → ((x : Page) → m.prev x ≡ none)
    → IsFree (page_free_init m) (available num_pages)
      × ((x : Page) → x < num_pages → is_reserved x ≡ true → (page_free_init m).ref_count x ≡ 1)
unfolding page_free_init
page_free_init-IsFree m empty zeroed =
    let b = rounds-Built num_pages m empty zeroed in (b.free, b.held)

-- Of all pages of physical memory exactly 0 to 158 and 257 to 511 are not reserved: none above two
-- megabytes is, since the upper end of the test is a virtual address.
pub is_reserved_iff :
    (x : Page) → x < num_pages → (is_reserved x ≡ false) ↔ ((x < 159) ⊎ ((256 < x) × (x < 512)))
unfolding is_reserved
is_reserved_iff x h = (λ e. ground arith, λ e. ground arith)

-- ===== src/Page/Frames/FreeList.antt =====
-- The free list of sys/page.c as the list of pages that `prev` leads through from its head.
use preemptive_unix_os.Base.{
  Misses, Distinct, ℕ, ◌≡◌, ◌≢◌, refl, Option, none, some, List, [], ◌∷◌, ok, fault, arith, update,
  Ensures, ◌==◌, true, false,
}
use preemptive_unix_os.Page.Frames.{Page, Memory, page_alloc, page_release}

abbrev pub Chain : (Page → Option Page) → Option Page → List Page → Type 0
Chain prev head [] = head ≡ none
Chain prev head (p ∷ ps) = (head ≡ some p) × Chain prev (prev p) ps

-- The free list holds exactly the pages `ps`, in this order, each once.
pub record IsFree (m : Memory) (ps : List Page) : Type 0 where
  pub chain : Chain m.prev m.page_free_list ps
  pub distinct : Distinct ps

-- A chain does not depend on the links of pages that it misses.
pub Chain-update :
    (prev : Page → Option Page) (x : Page) (v : Option Page) (head : Option Page) (ps : List Page)
    → Misses x ps
    → Chain prev head ps
    → Chain (update prev x v) head ps
Chain-update prev x v head [] out c = c
Chain-update prev x v head (p ∷ ps) out c =
    (c.0, ground (arith, Chain-update prev x v (prev p) ps out.1 c.1))

-- The memory after `page_alloc` took `p` from the list, with `q` behind it.
abbrev pub taken : Memory → Page → Page → Memory
taken m p q = record m {
  page_free_list = some q;
  prev = update m.prev p none;
  next = update m.next q none;
  frame = update m.frame p (λ _. 0);
}

pub page_alloc-taken :
    (m : Memory) (p q : Page)
    → m.page_free_list ≡ some p
    → m.prev p ≡ some q
    → page_alloc m ≡ ok (some p, taken m p q)
unfolding page_alloc
page_alloc-taken m p q h k = ground arith

-- What `page_alloc` promises of the page `p`: it returns `p` with its contents zero, takes it off the
-- free list, and leaves the other pages' contents and all reference counts as they were.
abbrev pub Allocates : Memory → Page → List Page → Option Page × Memory → Type 0
Allocates m p ps (page, m') =
    (page ≡ some p)
    × IsFree m' ps
    × ((i : ℕ) → m'.frame p i ≡ 0)
    × ((x : Page) (i : ℕ) → x ≢ p → m'.frame x i ≡ m.frame x i)
    × (m'.ref_count ≡ m.ref_count)

pub Chain-taken :
    (prev : Page → Option Page) (p q : Page) (ps : List Page)
    → p ≢ q
    → Misses p ps
    → Chain prev (prev q) ps
    → Chain (update prev p none) (some q) (q ∷ ps)
Chain-taken prev p q ps ne out c =
    let other : (q == p) ≡ false = ground arith in
    (refl, rw other (Chain-update prev p none (prev q) ps out c))

-- With two free pages or more `page_alloc` takes the head of the free list (`Allocates`).
pub page_alloc-Allocates :
    {m : Memory} (p q : Page) (ps : List Page)
    → IsFree m (p ∷ q ∷ ps)
    → Ensures (Allocates m p (q ∷ ps)) (page_alloc m)
page_alloc-Allocates {m} p q ps free = rw (page_alloc-taken m p q free.chain.0 free.chain.1.0) (
  refl,
  record {
    chain = Chain-taken m.prev p q ps free.distinct.0.0 free.distinct.0.1 free.chain.1.1;
    distinct = free.distinct.1;
  },
  λ i. ground arith,
  λ x i ne. ground arith,
  refl,
)

-- With one free page left `page_alloc` writes through NULL.
pub page_alloc-last : {m : Memory} (p : Page) → IsFree m (p ∷ []) → page_alloc m ≡ fault
unfolding page_alloc
page_alloc-last {m} p free = ground (arith, free.chain)

-- The memory after `page_release` put `p` before the head `q`.
abbrev put_back : Memory → Page → Page → Memory
put_back m p q = record m {
  frame = update m.frame p (λ _. 0);
  ref_count = update m.ref_count p 0;
  prev = update m.prev p (some q);
  next = update (update m.next p none) q (some p);
  page_free_list = some p;
}

page_release-put_back :
    (m : Memory) (p q : Page) → m.page_free_list ≡ some q → page_release p m ≡ ok (put_back m p q)
unfolding page_release
page_release-put_back m p q h = ground arith

-- What `page_release` promises: the page is at the head of the free list with its contents zero and
-- no reference, and the other pages keep their contents and reference counts.
abbrev pub Releases : Memory → Page → List Page → Memory → Type 0
Releases m p ps m' =
    IsFree m' (p ∷ ps)
    × ((i : ℕ) → m'.frame p i ≡ 0)
    × (m'.ref_count p ≡ 0)
    × ((x : Page) (i : ℕ) → x ≢ p → m'.frame x i ≡ m.frame x i)
    × ((x : Page) → x ≢ p → m'.ref_count x ≡ m.ref_count x)

pub Chain-put_back :
    (prev : Page → Option Page) (p q : Page) (ps : List Page)
    → Misses p (q ∷ ps)
    → Chain prev (prev q) ps
    → Chain (update prev p (some q)) (update prev p (some q) p) (q ∷ ps)
Chain-put_back prev p q ps out c =
    let same : (p == p) ≡ true = ground arith in
    let other : (q == p) ≡ false = ground (arith, out.0) in
    (rw same, rw other (Chain-update prev p (some q) (prev q) ps out.1 c))

-- A page that is not free and is released while another is free goes back (`Releases`).
pub page_release-Releases :
    {m : Memory} (p q : Page) (ps : List Page)
    → IsFree m (q ∷ ps)
    → Misses p (q ∷ ps)
    → Ensures (Releases m p (q ∷ ps)) (page_release p m)
page_release-Releases {m} p q ps free out = rw (page_release-put_back m p q free.chain.0) (
  record {
    chain = (refl, Chain-put_back m.prev p q ps out free.chain.1);
    distinct = (out, free.distinct);
  },
  λ i. ground arith,
  ground arith,
  λ x i ne. ground arith,
  λ x ne. ground arith,
)

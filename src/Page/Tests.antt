-- ===== src/Page/Tests.antt =====
-- Runs of the page frames, page tables and heap of sys/page.c on a small memory.
use preemptive_unix_os.Base.{
  ℕ, ◌+◌, ◌*◌, ◌<◌, ◌≡◌, ◌≢◌, ◌⊎◌, inl, refl, [], ◌∷◌, none, some, ok, arith, Ensures, ◌==◌,
  if◌then◌else◌, true,
}
use preemptive_unix_os.Page.Align.{page_size}
use preemptive_unix_os.Page.Frames.{
  Page, Memory, page_alloc, page_release, page_free_init, num_pages, is_reserved,
}
use preemptive_unix_os.Page.Frames.FreeList.{
  IsFree, Allocates, Releases, page_alloc-Allocates, page_release-Releases,
}
use preemptive_unix_os.Page.Frames.Init.{page_free_init-IsFree, available}
use preemptive_unix_os.Page.Kmalloc.{kmalloc, kmalloc-Grants, Grants}
use preemptive_unix_os.Page.Walk.{page_insert, page_remove, get_mapping}
use preemptive_unix_os.Page.Walk.Mapping.{Path4, LeafApart, table_of}
use preemptive_unix_os.Page.Walk.Insert.{page_insert-get_mapping, OthersKept}
use preemptive_unix_os.Page.Walk.Remove.{page_remove-get_mapping}

-- The tables in the frames 1 to 4 lead from address 0 to an entry `e`; frame 9 has two references.
abbrev tables : ℕ → Memory
tables e = record {
  page_free_list = none;
  prev = λ _. none;
  next = λ _. none;
  ref_count = λ p. if p == 9 then 2 else 0;
  frame = λ p i.
      if i == 0 then (if p == 4 then e else if p == 0 then 0 else (p + 1) * page_size + 7) else 0;
}

tables-Path4 : (e : ℕ) → Path4 (tables e) 0 1 2 3 4
tables-Path4 e = record {
  root = omega arith;
  level1 = (refl, refl, omega arith);
  level2 = (refl, refl, omega arith);
  level3 = (refl, refl, omega arith);
}

tables-LeafApart : LeafApart 1 2 3 4
tables-LeafApart = (λ e. omega (arith, e), λ e. omega (arith, e), λ e. omega (arith, e))

page_insert-get_mapping_example :
    Ensures
      (λ m'.
        (get_mapping m' 0 (table_of 1) ≡ ok (9 * page_size + 7, m'))
        × (m'.ref_count 9 ≡ 3)
        × OthersKept (tables-Path4 0) tables-LeafApart 9 6 (omega arith) (omega arith) m')
      (page_insert (tables 0) (table_of 1) 0 9 6)
page_insert-get_mapping_example =
    page_insert-get_mapping (tables-Path4 0) tables-LeafApart 9 6 (omega arith) (omega arith) refl

page_remove-get_mapping_example :
    Ensures
      (λ m'.
        (get_mapping m' 0 (table_of 1) ≡ ok (0, m'))
        × (m'.ref_count 9 + 1 ≡ 2)
        × ((t off : ℕ)
            → (t ≢ 4) ⊎ (off ≢ 0)
            → m'.frame t off ≡ (tables (9 * page_size + 7)).frame t off))
      (page_remove (tables (9 * page_size + 7)) (table_of 1) 0)
page_remove-get_mapping_example =
    page_remove-get_mapping (tables-Path4 (9 * page_size + 7)) tables-LeafApart
      (λ e. omega (arith, e)) (omega arith) (omega arith)

-- The free list holds the pages 5, 7 and 8.
abbrev free_pages : Memory
free_pages = record {
  page_free_list = some 5;
  prev = λ p. if p == 5 then some 7 else if p == 7 then some 8 else none;
  next = λ p. if p == 7 then some 5 else if p == 8 then some 7 else none;
  ref_count = λ _. 0;
  frame = λ p i. p + i;
}

apart : (a b : ℕ) → a < b → a ≢ b
apart a b h e = omega arith

free_pages-IsFree : IsFree free_pages (5 ∷ 7 ∷ 8 ∷ [])
free_pages-IsFree = record {
  chain = (refl, (refl, (refl, refl)));
  distinct = (
    (apart 5 7 (omega arith), (apart 5 8 (omega arith), tt)),
    ((apart 7 8 (omega arith), tt), (tt, tt)),
  );
}

page_alloc-Allocates_example : Ensures (Allocates free_pages 5 (7 ∷ 8 ∷ [])) (page_alloc free_pages)
page_alloc-Allocates_example = page_alloc-Allocates 5 7 (8 ∷ []) free_pages-IsFree

page_release-Releases_example :
    Ensures (Releases free_pages 4 (5 ∷ 7 ∷ 8 ∷ [])) (page_release 4 free_pages)
page_release-Releases_example =
    page_release-Releases 4 5 (7 ∷ 8 ∷ []) free_pages-IsFree
      (apart 4 5 (omega arith), (apart 4 7 (omega arith), (apart 4 8 (omega arith), tt)))

-- The descriptors as the loader leaves them.
abbrev at_boot : Memory
at_boot = record {
  page_free_list = none;
  prev = λ _. none;
  next = λ _. none;
  ref_count = λ _. 0;
  frame = λ _ _. 0;
}

page_free_init-IsFree_example :
    IsFree (page_free_init at_boot) (available num_pages)
    × ((x : Page) → x < num_pages → is_reserved x ≡ true → (page_free_init at_boot).ref_count x ≡ 1)
page_free_init-IsFree_example = page_free_init-IsFree at_boot refl (λ _. refl)

kmalloc-Grants_example : Grants 0 5000 (kmalloc 0 5000)
kmalloc-Grants_example = kmalloc-Grants 0 5000 (inl refl) (omega arith)

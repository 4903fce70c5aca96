-- ===== src/Page/Walk/Mapping.antt =====
-- Walks of sys/page.c that find every table in place: the address that they compute, and that
-- `page_insert`, `page_remove` and `get_mapping` agree on it.
use preemptive_unix_os.Base.{
  false, ◌==◌, ◌≢◌, ℕ, ◌*◌, ◌/◌, ◌%◌, ◌<◌, ◌≡◌, some, ok, arith, update, true, ap, ap₂,
}
use preemptive_unix_os.Page.Align.{page_size, align_down}
use preemptive_unix_os.Page.Frames.{Page, Memory, kaddr, paddr, num_pages}
use preemptive_unix_os.Page.Walk.{
  get_mapping, load, store, entry_addr, pml4off, pdpeoff, pdeoff, pteoff, check_present,
  entry_or_alloc, pde_walk, pdpe_walk, pml4_walk,
}

-- The kernel address of the page frame `p`.
abbrev pub table_of : Page → ℕ
table_of p = kaddr (p * page_size)

-- The entry `off` of the table in the frame `p`.
abbrev pub entry : Memory → Page → ℕ → ℕ
entry m p off = m.frame p off

pub load-entry :
    (m : Memory) (p off : ℕ)
    → p < num_pages
    → off < 512
    → load m (entry_addr (table_of p) off) ≡ entry m p off
unfolding load
load-entry m p off h k =
    let page : paddr (entry_addr (table_of p) off) / page_size ≡ p = omega arith in
    let slot : paddr (entry_addr (table_of p) off) % page_size / 8 ≡ off = omega arith in
    ap₂ m.frame page slot

pub store-entry :
    (m : Memory) (p off v : ℕ)
    → p < num_pages
    → off < 512
    → store m (entry_addr (table_of p) off) v
      ≡ record m { frame = update m.frame p (update (m.frame p) off v) }
unfolding store
store-entry m p off v h k =
    let page : paddr (entry_addr (table_of p) off) / page_size ≡ p = omega arith in
    let slot : paddr (entry_addr (table_of p) off) % page_size / 8 ≡ off = omega arith in
    rw (page, slot)

-- The entry is present and points to the page frame `q`.
abbrev pub PointsTo : Memory → Page → ℕ → Page → Type 0
PointsTo m p off q =
    (check_present (entry m p off) ≡ true) × (entry m p off / page_size ≡ q) × (q < num_pages)

-- The four tables on the path of `v_addr` are in place, in the frames `t1` to `t4`.
pub record Path4 (m : Memory) (v_addr t1 t2 t3 t4 : ℕ) : Type 0 where
  pub root : t1 < num_pages
  pub level1 : PointsTo m t1 (pml4off v_addr) t2
  pub level2 : PointsTo m t2 (pdpeoff v_addr) t3
  pub level3 : PointsTo m t3 (pdeoff v_addr) t4

entry_or_alloc-present :
    (m : Memory) (p off q : ℕ)
    → p < num_pages
    → off < 512
    → PointsTo m p off q
    → entry_or_alloc m (entry_addr (table_of p) off) ≡ ok (some (entry m p off), m)
unfolding entry_or_alloc
entry_or_alloc-present m p off q h k pt =
    let at = load-entry m p off h k in
    let present : check_present (load m (entry_addr (table_of p) off)) ≡ true = rw at pt.0 in
    rw present (ap (λ e. ok (some e, m)) at)

align_down-page : (e q : ℕ) → e / page_size ≡ q → align_down e ≡ q * page_size
unfolding align_down
align_down-page e q h = omega arith

module _ {m : Memory} {v_addr t1 t2 t3 t4 : ℕ} (path : Path4 m v_addr t1 t2 t3 t4) where
  pde_walk-present :
      pde_walk m (table_of t3) v_addr ≡ ok (some (entry_addr (table_of t4) (pteoff v_addr)), m)
  unfolding pde_walk
  pde_walk-present = rw (
    entry_or_alloc-present m t3 (pdeoff v_addr) t4 path.level2.2 (omega arith) path.level3,
    align_down-page (entry m t3 (pdeoff v_addr)) t4 path.level3.1,
  )

  pdpe_walk-present :
      pdpe_walk m (table_of t2) v_addr ≡ ok (some (entry_addr (table_of t4) (pteoff v_addr)), m)
  unfolding pdpe_walk
  pdpe_walk-present =
      rw
        (
          entry_or_alloc-present m t2 (pdpeoff v_addr) t3 path.level1.2 (omega arith) path.level2,
          align_down-page (entry m t2 (pdpeoff v_addr)) t3 path.level2.1,
        )
        pde_walk-present

  -- A walk that finds its tables in place allocates nothing and returns the address of the entry that
  -- the processor would use: number `pteoff` of the table that the three entries above lead to.
  pub pml4_walk-present :
      pml4_walk m (table_of t1) v_addr ≡ ok (some (entry_addr (table_of t4) (pteoff v_addr)), m)
  unfolding pml4_walk
  pml4_walk-present =
      rw
        (
          entry_or_alloc-present m t1 (pml4off v_addr) t2 path.root (omega arith) path.level1,
          align_down-page (entry m t1 (pml4off v_addr)) t2 path.level1.1,
        )
        pdpe_walk-present

pub offs-align_down :
    (v : ℕ)
    → (pml4off (align_down v) ≡ pml4off v)
      × (pdpeoff (align_down v) ≡ pdpeoff v)
      × (pdeoff (align_down v) ≡ pdeoff v)
      × (pteoff (align_down v) ≡ pteoff v)
unfolding align_down
offs-align_down v = omega arith

pub Path4-align_down :
    {m : Memory} {v t1 t2 t3 t4 : ℕ} → Path4 m v t1 t2 t3 t4 → Path4 m (align_down v) t1 t2 t3 t4
Path4-align_down {v} path =
    let off = offs-align_down v in
    record {
      root = path.root;
      level1 = rw off.0 path.level1;
      level2 = rw off.1 path.level2;
      level3 = rw off.2 path.level3;
    }

-- The leaf table is none of the tables above it.
abbrev pub LeafApart : ℕ → ℕ → ℕ → ℕ → Type 0
LeafApart t1 t2 t3 t4 = (t1 ≢ t4) × (t2 ≢ t4) × (t3 ≢ t4)

-- Physical memory with the entry `off` of the leaf table `t4` changed.
abbrev pub with_entry : Memory → Page → ℕ → ℕ → Memory
with_entry m t4 off v = record m { frame = update m.frame t4 (update (m.frame t4) off v) }

pub entry-with_entry_ne :
    (m : Memory) (t t4 off off' v : ℕ)
    → t ≢ t4
    → entry (with_entry m t4 off v) t off' ≡ entry m t off'
entry-with_entry_ne m t t4 off off' v ne = let other : (t == t4) ≡ false = ground arith in rw other

pub entry-with_entry : (m : Memory) (t4 off v : ℕ) → entry (with_entry m t4 off v) t4 off ≡ v
entry-with_entry m t4 off v =
    let same : (t4 == t4) ≡ true = ground arith in
    let same_off : (off == off) ≡ true = ground arith in rw (same, same_off)

-- A change of the leaf table leaves the path to it in place.
pub Path4-with_entry :
    (m : Memory) (v t1 t2 t3 t4 off e : ℕ)
    → Path4 m v t1 t2 t3 t4
    → LeafApart t1 t2 t3 t4
    → Path4 (with_entry m t4 off e) v t1 t2 t3 t4
Path4-with_entry m v t1 t2 t3 t4 off e path apart = record {
  root = path.root;
  level1 = rw (entry-with_entry_ne m t1 t4 off (pml4off v) e apart.0) path.level1;
  level2 = rw (entry-with_entry_ne m t2 t4 off (pdpeoff v) e apart.1) path.level2;
  level3 = rw (entry-with_entry_ne m t3 t4 off (pdeoff v) e apart.2) path.level3;
}

pub Path4-ref_count :
    (m : Memory) (v t1 t2 t3 t4 : ℕ) (counts : Page → ℕ)
    → Path4 m v t1 t2 t3 t4
    → Path4 (record m { ref_count = counts }) v t1 t2 t3 t4
Path4-ref_count m v t1 t2 t3 t4 counts path = record {
  root = path.root;
  level1 = path.level1;
  level2 = path.level2;
  level3 = path.level3;
}

pub get_mapping-present :
    {m : Memory} {v t1 t2 t3 t4 : ℕ}
    → Path4 m v t1 t2 t3 t4
    → get_mapping m v (table_of t1) ≡ ok (entry m t4 (pteoff v), m)
unfolding get_mapping
get_mapping-present {m} {v} {t4} path =
    rw (pml4_walk-present path)
      (ap (λ e. ok (e, m)) (load-entry m t4 (pteoff v) path.level3.2 (omega arith)))

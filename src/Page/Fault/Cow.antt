-- ===== src/Page/Fault/Cow.antt =====
-- The copy of a page that two processes share, where the tables are in place.
use preemptive_unix_os.Base.{
  false, sym, ℕ, ◌+◌, ◌*◌, ◌/◌, ◌%◌, ◌<◌, ◌≡◌, ◌≢◌, ◌⊎◌, ◌==◌, true, refl, List, ◌∷◌, ok, arith,
  update, ap, Ensures, inc32, ◌∙◌,
}
use preemptive_unix_os.Page.Align.{page_size, align_down}
use preemptive_unix_os.Page.Frames.{Page, Memory, paddr, get_str_ptr_from_pa, num_pages}
use preemptive_unix_os.Page.Frames.FreeList.{IsFree, taken, page_alloc-taken, Chain-taken}
use preemptive_unix_os.Page.Walk.{check_present, pml4off, pdpeoff, pdeoff, pteoff, get_mapping}
use preemptive_unix_os.Page.Walk.Mapping.{
  Path4, LeafApart, PointsTo, table_of, entry, load-entry, pml4_walk-present, offs-align_down,
  get_mapping-present,
}
use preemptive_unix_os.Page.Walk.Insert.{inserted, inserted-Path4, page_insert-inserted}
use preemptive_unix_os.Page.Walk.Remove.{removed, removed-Path4, page_remove-removed}
use preemptive_unix_os.Page.Kmalloc.{kmalloc}
use preemptive_unix_os.Page.Fault.{
  check_cow, follow, frame_at, write_page, kernel_frame, copy_page, copy_on_write_handler,
}

follow-present : (m : Memory) (t off q : ℕ) → PointsTo m t off q → follow m t off ≡ ok q
unfolding follow
follow-present m t off q p = rw (p.0, p.1) refl

-- The processor reaches the frame that the entry points to.
frame_at-present :
    {m : Memory} {v t1 t2 t3 t4 : ℕ}
    → Path4 m v t1 t2 t3 t4
    → check_present (entry m t4 (pteoff v)) ≡ true
    → frame_at m t1 (align_down v) ≡ ok (entry m t4 (pteoff v) / page_size)
unfolding frame_at follow
frame_at-present {m} {v} {t1} {t2} {t3} {t4} path here =
    let off = offs-align_down v in
    rw
      (
        off.0, off.1, off.2, off.3, path.level1.0, path.level1.1, path.level2.0, path.level2.1,
        path.level3.0, path.level3.1, here,
      )
      refl

paddr-table_of : (t : ℕ) → t < num_pages → paddr (table_of t) / page_size ≡ t
paddr-table_of t h = omega arith

-- Memory in which the tables above the leaf kept their words.
pub Path4-kept :
    {m m' : Memory} {v t1 t2 t3 t4 : ℕ}
    → Path4 m v t1 t2 t3 t4
    → ((off : ℕ) → m'.frame t1 off ≡ m.frame t1 off)
    → ((off : ℕ) → m'.frame t2 off ≡ m.frame t2 off)
    → ((off : ℕ) → m'.frame t3 off ≡ m.frame t3 off)
    → Path4 m' v t1 t2 t3 t4
Path4-kept {v} path k1 k2 k3 = record {
  root = path.root;
  level1 = rw (k1 (pml4off v)) path.level1;
  level2 = rw (k2 (pdpeoff v)) path.level2;
  level3 = rw (k3 (pdeoff v)) path.level3;
}

-- The frame is none of the tables.
abbrev pub Outside : Page → ℕ → ℕ → ℕ → ℕ → Type 0
Outside p t1 t2 t3 t4 = (t1 ≢ p) × (t2 ≢ p) × (t3 ≢ p) × (t4 ≢ p)

Path4-taken :
    {m : Memory} {v t1 t2 t3 t4 : ℕ} (p q : Page)
    → Path4 m v t1 t2 t3 t4
    → Outside p t1 t2 t3 t4
    → Path4 (taken m p q) v t1 t2 t3 t4
Path4-taken p q path out =
    Path4-kept path (λ off. ground arith) (λ off. ground arith) (λ off. ground arith)

-- The buffer that `kmalloc` gives for a page, and the frame that it is.
abbrev pub buffer_at : ℕ → ℕ
buffer_at heap = (kmalloc heap page_size).0

abbrev pub buffer_frame : ℕ → Page
buffer_frame heap = kernel_frame (buffer_at heap)

-- The page of the fault is shared by two, the free list starts with `p` and `q`, and the kernel heap has a page for the buffer,
-- which is none of the tables and frames.
pub record Shared (heap : ℕ) (m : Memory) (v t1 t2 t3 t4 : ℕ) (p q : Page) (ps : List Page)
    : Type 0 where
  pub path : Path4 m v t1 t2 t3 t4
  pub apart : LeafApart t1 t2 t3 t4
  pub here : check_present (entry m t4 (pteoff v)) ≡ true
  pub cow : check_cow (entry m t4 (pteoff v)) ≡ true
  pub two : m.ref_count (entry m t4 (pteoff v) / page_size) ≡ 2
  pub free : IsFree m (p ∷ q ∷ ps)
  pub granted : buffer_at heap ≢ 0
  pub buffer_Outside : Outside (buffer_frame heap) t1 t2 t3 t4
  pub buffer_apart :
      (entry m t4 (pteoff v) / page_size ≢ buffer_frame heap) × (p ≢ buffer_frame heap)
  pub new : p < num_pages
  pub new_Outside : Outside p t1 t2 t3 t4
  pub old_apart : (entry m t4 (pteoff v) / page_size ≢ t4) × (entry m t4 (pteoff v) / page_size ≢ p)

-- The process has a frame of its own with the bytes of the shared one, which it may write; the shared frame keeps its bytes
-- and has one reference left; the new frame is off the free list; no other word changes but those of the buffer.
pub record Owns (heap : ℕ) (m : Memory) (v t1 t4 : ℕ) (p q : Page) (ps : List Page) (m' : Memory)
    : Type 0 where
  pub mapping : get_mapping m' v (table_of t1) ≡ ok (p * page_size + 7, m')
  pub same_bytes : (i : ℕ) → m'.frame p i ≡ m.frame (entry m t4 (pteoff v) / page_size) i
  pub shared_kept :
      (i : ℕ)
      → m'.frame (entry m t4 (pteoff v) / page_size) i
        ≡ m.frame (entry m t4 (pteoff v) / page_size) i
  pub one_left : m'.ref_count (entry m t4 (pteoff v) / page_size) ≡ 1
  pub counted : m'.ref_count p ≡ inc32 (m.ref_count p)
  pub free_left : IsFree m' (q ∷ ps)
  pub others_kept :
      (t off : ℕ)
      → t ≢ p
      → t ≢ buffer_frame heap
      → (t ≢ t4) ⊎ (off ≢ pteoff v)
      → m'.frame t off ≡ m.frame t off

pub page_of : (e : ℕ) → get_str_ptr_from_pa e ≡ e / page_size
unfolding get_str_ptr_from_pa align_down
page_of e = omega arith

module _ {m : Memory} {v t1 t2 t3 t4 : ℕ} {p q : Page} {ps : List Page} {heap : ℕ}
    (w : Shared heap m v t1 t2 t3 t4 p q ps) where
  abbrev e : ℕ
  e = entry m t4 (pteoff v)

  mapped : e ≢ 0
  mapped none_here = let bit : (e % 2 == 1) ≡ true = w.here in ground arith

  -- With the page in the buffer too.
  abbrev m0 : Memory
  m0 = record m { frame = update m.frame (buffer_frame heap) (m.frame (e / page_size)) }

  m0-Path4 : Path4 m0 v t1 t2 t3 t4
  m0-Path4 =
      let out = w.buffer_Outside in
      Path4-kept w.path (λ off. ground arith) (λ off. ground arith) (λ off. ground arith)

  m0-entry : entry m0 t4 (pteoff v) ≡ e
  m0-entry = let out = w.buffer_Outside in ground arith

  m0-mapped : entry m0 t4 (pteoff v) ≢ 0
  m0-mapped none_here = mapped (sym m0-entry ∙ none_here)

  abbrev m1 : Memory
  m1 = removed m0-Path4 w.apart m0-mapped

  abbrev m2 : Memory
  m2 = taken m1 p q

  m2-Path4 : Path4 m2 v t1 t2 t3 t4
  m2-Path4 = Path4-taken p q (removed-Path4 m0-Path4 w.apart m0-mapped) w.new_Outside

  abbrev m3 : Memory
  m3 = inserted m2-Path4 w.apart p 7 w.new (omega arith)

  m3-Path4 : Path4 m3 v t1 t2 t3 t4
  m3-Path4 = inserted-Path4 m2-Path4 w.apart p 7 w.new (omega arith)

  abbrev copied : Memory
  copied = record m3 { frame = update m3.frame p (m.frame (e / page_size)) }

  copied-Path4 : Path4 copied v t1 t2 t3 t4
  copied-Path4 =
      let out = w.new_Outside in
      Path4-kept m3-Path4 (λ off. ground arith) (λ off. ground arith) (λ off. ground arith)

  m2-entry : entry m2 t4 (pteoff v) ≡ 0
  m2-entry = let out = w.new_Outside in ground arith

  m3-entry : entry m3 t4 (pteoff v) ≡ p * page_size + 7
  m3-entry = ground arith

  m3-frame_at : frame_at m3 t1 (align_down v) ≡ ok p
  m3-frame_at =
      frame_at-present m3-Path4
        (rw m3-entry (let bit : (p * page_size + 7) % 2 ≡ 1 = omega arith in rw bit refl))
      ∙ ap ok (rw m3-entry (omega arith))

  m3-buffer : m3.frame (buffer_frame heap) ≡ m.frame (e / page_size)
  m3-buffer =
      let out = w.buffer_Outside in
      let apart = w.buffer_apart in
      let f : (buffer_frame heap == t4) ≡ false = ground arith in
      let g : (buffer_frame heap == p) ≡ false = ground arith in
      let h : (buffer_frame heap == buffer_frame heap) ≡ true = ground arith in rw (f, g, h) refl

  m0-two : m0.ref_count (entry m0 t4 (pteoff v) / page_size) ≡ 2
  m0-two = ap (λ (x : ℕ). m.ref_count (x / page_size)) m0-entry ∙ w.two

  copy_page-copied : copy_page m (buffer_at heap) (table_of t1) v ≡ ok copied
  unfolding copy_page write_page
  copy_page-copied =
      let some_buffer : (buffer_at heap == 0) ≡ false = ground (arith, w.granted) in
      rw
        (
          some_buffer,
          paddr-table_of t1 w.path.root,
          frame_at-present w.path w.here,
          page_remove-removed m0-Path4 w.apart m0-mapped (omega (arith, m0-two))
              (omega (arith, m0-two)),
          page_alloc-taken m1 p q w.free.chain.0 w.free.chain.1.0,
          page_insert-inserted m2-Path4 w.apart p 7 w.new (omega arith) m2-entry,
          paddr-table_of t1 w.path.root,
          m3-frame_at,
          m3-buffer,
        )
        refl

  copied-Owns : Owns heap m v t1 t4 p q ps copied
  copied-Owns =
      let out = w.new_Outside in
      let old = w.old_apart in
      let outb = w.buffer_Outside in
      let oldb = w.buffer_apart in
      record {
        mapping = get_mapping-present copied-Path4 ∙ ap (λ x. ok (x, copied)) (ground arith);
        same_bytes = λ i. ground arith;
        shared_kept = λ i. ground arith;
        one_left = (ground (arith, w.two));
        counted = (ground arith);
        free_left = record {
          chain =
              Chain-taken m.prev p q ps w.free.distinct.0.0 w.free.distinct.0.1 w.free.chain.1.1;
          distinct = w.free.distinct.1;
        };
        others_kept = λ t off ne neb other. ground arith;
      }

  -- A write to a page that two processes share, with its tables in place, `BIT_COW` set, two free frames or more and room in
  -- the kernel heap for a page, where tables, page, new frame and buffer are different frames: it gives the writer a frame of
  -- its own as `Owns` says, and does not fault.
  pub copy_on_write_handler-Owns :
      Ensures
        (λ (_, m'). Owns heap m v t1 t4 p q ps m')
        (copy_on_write_handler heap m (table_of t1) v)
  unfolding copy_on_write_handler
  copy_on_write_handler-Owns =
      let at = load-entry m t4 (pteoff v) w.path.level3.2 (omega arith) in
      rw (pml4_walk-present w.path, at, w.cow, page_of e, w.two, copy_page-copied) copied-Owns

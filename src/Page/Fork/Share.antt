-- ===== src/Page/Fork/Share.antt =====
-- A page that `fork` shares, and what the first write to it does.
use preemptive_unix_os.Base.{
  ℕ, ◌+◌, ◌-◌, ◌*◌, ◌/◌, ◌%◌, ◌<◌, ◌≡◌, ◌≢◌, ◌==◌, if◌then◌else◌, true, false, refl, sym, inl, List,
  ◌∷◌, ok, arith, ap, Ensures, Ensures-weaken, ◌>>=◌, bit_or, bit_or_block, bit_or-lt, ◌∙◌,
}
use preemptive_unix_os.Page.Align.{page_size}
use preemptive_unix_os.Page.Frames.{Page, Memory, get_str_ptr_from_pa, num_pages}
use preemptive_unix_os.Page.Frames.FreeList.{IsFree}
use preemptive_unix_os.Page.Walk.{check_present, pteoff, get_mapping, bit_rw}
use preemptive_unix_os.Page.Walk.Mapping.{
  Path4, LeafApart, table_of, entry, with_entry, load-entry, store-entry, pml4_walk-present,
}
use preemptive_unix_os.Page.Walk.Insert.{inserted, inserted-Path4, page_insert-inserted}
use preemptive_unix_os.Page.Fault.{bit_cow, copy_on_write_handler}
use preemptive_unix_os.Page.Fault.Cow.{
  Shared, Owns, Outside, buffer_at, buffer_frame, Path4-kept, page_of, copy_on_write_handler-Owns,
}
use preemptive_unix_os.Page.Fork.{as_cow, share_page}

-- `BIT_COW` and the write bit lie below the frame's address.
or_cow-frame : (r : ℕ) → bit_or r bit_cow / page_size ≡ r / page_size
or_cow-frame r =
    let split : r ≡ r / page_size * page_size + r % page_size = omega arith in
    omega (
      arith,
      ap (λ (x : ℕ). bit_or x bit_cow) split,
      bit_or_block 12 (r / page_size) (r % page_size) bit_cow (omega arith) (omega arith),
      bit_or-lt 12 (r % page_size) bit_cow (omega arith) (omega arith),
    )

without_rw-frame :
    (e : ℕ) → (if e / bit_rw % 2 == 1 then e - bit_rw else e) / page_size ≡ e / page_size
without_rw-frame e = ground arith

as_cow-frame : (e : ℕ) → as_cow e / page_size ≡ e / page_size
as_cow-frame e = or_cow-frame (if e / bit_rw % 2 == 1 then e - bit_rw else e) ∙ without_rw-frame e

-- The parent maps a frame that nobody else has, the tables of the child are in place, two frames are free, and the kernel heap
-- has a page for the buffer. The leaf tables, the frame, the first free frame and the buffer are apart from each other and
-- from the tables.
pub record Forking (heap : ℕ) (m : Memory) (v t1 t2 t3 t4 u1 u2 u3 u4 : ℕ) (p q : Page)
    (ps : List Page) : Type 0 where
  pub parent : Path4 m v t1 t2 t3 t4
  pub child : Path4 m v u1 u2 u3 u4
  pub child_apart : LeafApart u1 u2 u3 u4
  pub leaf_Outside : Outside t4 u1 u2 u3 u4
  pub here : check_present (entry m t4 (pteoff v)) ≡ true
  pub in_memory : entry m t4 (pteoff v) / page_size < num_pages
  pub fresh : entry m u4 (pteoff v) ≡ 0
  pub one : m.ref_count (entry m t4 (pteoff v) / page_size) ≡ 1
  pub free : IsFree m (p ∷ q ∷ ps)
  pub new : p < num_pages
  pub new_Outside : Outside p u1 u2 u3 u4
  pub granted : buffer_at heap ≢ 0
  pub buffer_Outside : Outside (buffer_frame heap) u1 u2 u3 u4
  pub buffer_apart :
      (entry m t4 (pteoff v) / page_size ≢ buffer_frame heap)
      × (p ≢ buffer_frame heap)
      × (t4 ≢ buffer_frame heap)
  pub new_apart : t4 ≢ p
  pub frame_apart :
      (entry m t4 (pteoff v) / page_size ≢ t4)
      × (entry m t4 (pteoff v) / page_size ≢ u4)
      × (entry m t4 (pteoff v) / page_size ≢ p)

-- The child has a copy of the page that it may write; the parent still maps the old frame, which has its bytes and one
-- reference, as a page to be copied on a write.
pub record Apart (m : Memory) (v t4 u1 : ℕ) (p : Page) (m' : Memory) : Type 0 where
  pub child_mapping : get_mapping m' v (table_of u1) ≡ ok (p * page_size + 7, m')
  pub child_bytes : (i : ℕ) → m'.frame p i ≡ m.frame (entry m t4 (pteoff v) / page_size) i
  pub parent_entry : entry m' t4 (pteoff v) ≡ as_cow (entry m t4 (pteoff v))
  pub parent_frame : as_cow (entry m t4 (pteoff v)) / page_size ≡ entry m t4 (pteoff v) / page_size
  pub parent_bytes :
      (i : ℕ)
      → m'.frame (entry m t4 (pteoff v) / page_size) i
        ≡ m.frame (entry m t4 (pteoff v) / page_size) i
  pub one_left : m'.ref_count (entry m t4 (pteoff v) / page_size) ≡ 1

module _ {m : Memory} {v t1 t2 t3 t4 u1 u2 u3 u4 : ℕ} {p q : Page} {ps : List Page} {heap : ℕ}
    (w : Forking heap m v t1 t2 t3 t4 u1 u2 u3 u4 p q ps) where
  abbrev e : ℕ
  e = entry m t4 (pteoff v)

  abbrev m1 : Memory
  m1 = with_entry m t4 (pteoff v) (as_cow e)

  m1-Path4 : Path4 m1 v u1 u2 u3 u4
  m1-Path4 =
      let out = w.leaf_Outside in
      Path4-kept w.child (λ off. ground arith) (λ off. ground arith) (λ off. ground arith)

  abbrev m2 : Memory
  m2 = inserted m1-Path4 w.child_apart (e / page_size) 261 w.in_memory (omega arith)

  m2-Path4 : Path4 m2 v u1 u2 u3 u4
  m2-Path4 = inserted-Path4 m1-Path4 w.child_apart (e / page_size) 261 w.in_memory (omega arith)

  m1-fresh : entry m1 u4 (pteoff v) ≡ 0
  m1-fresh = let out = w.leaf_Outside in let f = w.fresh in ground arith

  page_of_cow : get_str_ptr_from_pa (as_cow e) ≡ e / page_size
  page_of_cow = page_of (as_cow e) ∙ as_cow-frame e

  share_page-shared : share_page m (table_of t1) (table_of u1) v true ≡ ok m2
  unfolding share_page
  share_page-shared =
      let at = load-entry m t4 (pteoff v) w.parent.level3.2 (omega arith) in
      let set_bit : (e == 0) ≡ false = let bit : (e % 2 == 1) ≡ true = w.here in ground arith in
      rw
        (
          pml4_walk-present w.parent,
          at,
          set_bit,
          page_of_cow,
          store-entry m t4 (pteoff v) (as_cow e) w.parent.level3.2 (omega arith),
        )
        (page_insert-inserted m1-Path4 w.child_apart (e / page_size) 261 w.in_memory (omega arith)
          m1-fresh)

  m2-entry : entry m2 u4 (pteoff v) ≡ e / page_size * page_size + 261
  m2-entry = ground arith

  m2-frame : entry m2 u4 (pteoff v) / page_size ≡ e / page_size
  m2-frame = omega (arith, m2-entry)

  m2-Shared : Shared heap m2 v u1 u2 u3 u4 p q ps
  m2-Shared = record {
    path = m2-Path4;
    apart = w.child_apart;
    here =
        let bit : (e / page_size * page_size + 261) % 2 ≡ 1 = omega arith in
        rw (m2-entry, bit) refl;
    cow =
        let bit : (e / page_size * page_size + 261) / 256 % 2 ≡ 1 = omega arith in
        rw (m2-entry, bit) refl;
    two = rw m2-frame (ground (arith, w.one));
    free = record { chain = w.free.chain; distinct = w.free.distinct };
    new = w.new;
    new_Outside = w.new_Outside;
    granted = w.granted;
    buffer_Outside = w.buffer_Outside;
    buffer_apart = rw m2-frame (w.buffer_apart.0, w.buffer_apart.1);
    old_apart = rw m2-frame (w.frame_apart.1, w.frame_apart.2);
  }

  leaves_apart : t4 ≢ u4
  leaves_apart same = w.leaf_Outside.3 (sym same)

  m2-frame_kept : (i : ℕ) → m2.frame (e / page_size) i ≡ m.frame (e / page_size) i
  m2-frame_kept i = let apart = w.frame_apart in ground arith

  m2-parent_entry : entry m2 t4 (pteoff v) ≡ as_cow e
  m2-parent_entry = let apart = leaves_apart in ground arith

  Apart-Owns : (m' : Memory) → Owns heap m2 v u1 u4 p q ps m' → Apart m v t4 u1 p m'
  Apart-Owns m' o = record {
    child_mapping = o.mapping;
    child_bytes = λ i. o.same_bytes i ∙ ap (λ f. m2.frame f i) m2-frame ∙ m2-frame_kept i;
    parent_entry =
        o.others_kept t4 (pteoff v) w.new_apart w.buffer_apart.2 (inl leaves_apart)
        ∙ m2-parent_entry;
    parent_frame = as_cow-frame e;
    parent_bytes = λ i.
        o.others_kept (e / page_size) i w.frame_apart.2 w.buffer_apart.0 (inl w.frame_apart.1)
        ∙ m2-frame_kept i;
    one_left = ap m'.ref_count (sym m2-frame) ∙ o.one_left;
  }

  -- `fork` of a page that the parent may write and shares with nobody, and then a write by the child, with the tables of both
  -- in place, two free frames or more and room in the kernel heap for a page, where leaf tables, page, new frame and buffer
  -- are different frames and none of the child's tables: the two then stand apart as `Apart` says, without a fault.
  pub share_page-copy_on_write_handler :
      Ensures
        (λ (_, m'). Apart m v t4 u1 p m')
        (share_page m (table_of t1) (table_of u1) v true >>= λ m'.
          copy_on_write_handler heap m' (table_of u1) v)
  share_page-copy_on_write_handler = rw share_page-shared (
      Ensures-weaken (copy_on_write_handler heap m2 (table_of u1) v) (λ (_, m') o. Apart-Owns m' o)
        (copy_on_write_handler-Owns m2-Shared))

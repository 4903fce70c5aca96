-- ===== src/Page/Walk/Insert.antt =====
-- `page_insert` of sys/page.c, where the tables are in place.
use preemptive_unix_os.Base.{refl}
use preemptive_unix_os.Page.Walk.Mapping.{
  Path4, LeafApart, with_entry, entry, table_of, load-entry, store-entry, offs-align_down,
  Path4-align_down, entry-with_entry, Path4-with_entry, Path4-ref_count, get_mapping-present,
  pml4_walk-present,
}
use preemptive_unix_os.Base.{
  bit_or_block, ◌^◌, Ensures, ◌⊎◌, ◌+◌, ◌∙◌, bit_or, inc32, ◌≢◌, ℕ, ◌*◌, ◌%◌, ◌<◌, ◌≡◌, ok, arith,
  update, ap,
}
use preemptive_unix_os.Page.Align.{page_size}
use preemptive_unix_os.Page.Frames.{get_pa, Memory, num_pages}
use preemptive_unix_os.Page.Walk.{get_mapping, bit_present, page_insert, load, entry_addr, pteoff}

-- The entry for a page with its permissions: the frame's address with the flags below it.
insert_value :
    (page perms : ℕ)
    → page < num_pages
    → perms < page_size
    → bit_or (bit_or (get_pa page) bit_present) perms ≡ page * page_size + bit_or bit_present perms
unfolding get_pa
insert_value page perms h k =
    let pa : page * page_size % 2 ^ 64 ≡ page * page_size + 0 = omega arith in
    let one : bit_or 0 1 ≡ 1 = refl in
    rw (pa, bit_or_block 12 page 0 1 (omega arith) (omega arith), one)
      (bit_or_block 12 page 1 perms (omega arith) k)

module _ {m : Memory} {v t1 t2 t3 t4 : ℕ} (path : Path4 m v t1 t2 t3 t4)
    (apart : LeafApart t1 t2 t3 t4) (page perms : ℕ) (here : page < num_pages)
    (low : perms < page_size) where
  -- What is written into the entry.
  abbrev pub mapped_to : ℕ
  mapped_to = page * page_size + bit_or bit_present perms

  abbrev pub inserted : Memory
  inserted = record (with_entry m t4 (pteoff v) mapped_to) {
    ref_count = update m.ref_count page (inc32 (m.ref_count page));
  }

  leaf_in : t4 < num_pages
  leaf_in = path.level3.2

  pub page_insert-inserted :
      entry m t4 (pteoff v) ≡ 0 → page_insert m (table_of t1) v page perms ≡ ok inserted
  unfolding page_insert
  page_insert-inserted free =
      let off = offs-align_down v in
      let at : load m (entry_addr (table_of t4) (pteoff v)) ≡ 0 =
        load-entry m t4 (pteoff v) leaf_in (omega arith) ∙ free in
      rw (
        pml4_walk-present (Path4-align_down path),
        off.3,
        at,
        insert_value page perms here low,
        store-entry m t4 (pteoff v) mapped_to leaf_in (omega arith),
      )

  pub inserted-Path4 : Path4 inserted v t1 t2 t3 t4
  inserted-Path4 =
      Path4-ref_count (with_entry m t4 (pteoff v) mapped_to) v t1 t2 t3 t4
        (update m.ref_count page (inc32 (m.ref_count page)))
        (Path4-with_entry m v t1 t2 t3 t4 (pteoff v) mapped_to path apart)

  -- The entries other than the one of `v`.
  abbrev pub OthersKept : Memory → Type 0
  OthersKept m' = (t off : ℕ) → (t ≢ t4) ⊎ (off ≢ pteoff v) → entry m' t off ≡ entry m t off

  -- `page_insert` at an address whose tables are in place and whose entry is zero: a walk then finds the page
  -- with its permissions and the present bit, the page has one reference more, and no other word of physical
  -- memory changed. The leaf table is none of the tables above it.
  pub page_insert-get_mapping :
      entry m t4 (pteoff v) ≡ 0
      → Ensures
          (λ m'.
            (get_mapping m' v (table_of t1) ≡ ok (mapped_to, m'))
            × (m'.ref_count page ≡ inc32 (m.ref_count page))
            × OthersKept m')
          (page_insert m (table_of t1) v page perms)
  page_insert-get_mapping free =
      rw (page_insert-inserted free) (read, ground arith, λ t off other. ground arith)
    where
      read : get_mapping inserted v (table_of t1) ≡ ok (mapped_to, inserted)
      read =
          get_mapping-present inserted-Path4
          ∙ ap (λ e. ok (e, inserted)) (entry-with_entry m t4 (pteoff v) mapped_to)

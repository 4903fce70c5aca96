-- ===== src/Page/Walk/Remove.antt =====
-- `page_remove` of sys/page.c, where the tables are in place.
use preemptive_unix_os.Page.Walk.Mapping.{
  Path4, LeafApart, with_entry, entry, table_of, load-entry, store-entry, entry-with_entry,
  Path4-with_entry, Path4-ref_count, get_mapping-present, pml4_walk-present,
}
use preemptive_unix_os.Page.Walk.{page_remove, drop_reference}
use preemptive_unix_os.Page.Frames.{get_str_ptr_from_pa}
use preemptive_unix_os.Base.{
  dec32, ◌-◌, ◌^◌, Ensures, ◌⊎◌, ◌+◌, ◌∙◌, false, ◌==◌, ◌≢◌, ℕ, ◌/◌, ◌<◌, ◌≡◌, ok, arith, update,
  ap,
}
use preemptive_unix_os.Page.Align.{page_size, align_down}
use preemptive_unix_os.Page.Frames.{Page, Memory}
use preemptive_unix_os.Page.Walk.{get_mapping, load, entry_addr, pteoff}

page_of : (e : ℕ) → get_str_ptr_from_pa (align_down e) ≡ e / page_size
unfolding get_str_ptr_from_pa
page_of e = omega arith

drop_reference-shared :
    (m : Memory) (q : Page)
    → 1 < m.ref_count q
    → m.ref_count q < 2 ^ 32
    → drop_reference m q ≡ ok (record m { ref_count = update m.ref_count q (m.ref_count q - 1) })
unfolding drop_reference
drop_reference-shared m q h k =
    let less : dec32 (m.ref_count q) ≡ m.ref_count q - 1 = omega arith in rw less (ground arith)

module _ {m : Memory} {v t1 t2 t3 t4 : ℕ} (path : Path4 m v t1 t2 t3 t4)
    (apart : LeafApart t1 t2 t3 t4) (mapped : entry m t4 (pteoff v) ≢ 0) where
  -- The page that the entry of `v` points to.
  abbrev pub target : Page
  target = entry m t4 (pteoff v) / page_size

  abbrev pub removed : Memory
  removed =
      with_entry (record m { ref_count = update m.ref_count target (m.ref_count target - 1) }) t4
        (pteoff v) 0

  pub removed-Path4 : Path4 removed v t1 t2 t3 t4
  removed-Path4 =
      let counts = update m.ref_count target (m.ref_count target - 1) in
      Path4-with_entry (record m { ref_count = counts }) v t1 t2 t3 t4 (pteoff v) 0
        (Path4-ref_count m v t1 t2 t3 t4 counts path) apart

  pub page_remove-removed :
      1 < m.ref_count target
      → m.ref_count target < 2 ^ 32
      → page_remove m (table_of t1) v ≡ ok removed
  unfolding page_remove
  page_remove-removed shared bounded =
      let at : load m (entry_addr (table_of t4) (pteoff v)) ≡ entry m t4 (pteoff v) =
        load-entry m t4 (pteoff v) path.level3.2 (omega arith) in
      let set_bit : (entry m t4 (pteoff v) == 0) ≡ false = ground arith in
      rw
        (
          pml4_walk-present path,
          at,
          set_bit,
          page_of (entry m t4 (pteoff v)),
          drop_reference-shared m target shared bounded,
        )
        (ap ok (
          store-entry (record m { ref_count = update m.ref_count target (m.ref_count target - 1) })
            t4 (pteoff v) 0 path.level3.2 (omega arith)))

  -- `page_remove` of a mapped address whose tables are in place and whose page has another reference:
  -- the address is then not mapped, the page has one reference less, and no other word of physical memory changed.
  pub page_remove-get_mapping :
      1 < m.ref_count target
      → m.ref_count target < 2 ^ 32
      → Ensures
          (λ m'.
            (get_mapping m' v (table_of t1) ≡ ok (0, m'))
            × (m'.ref_count target + 1 ≡ m.ref_count target)
            × ((t off : ℕ) → (t ≢ t4) ⊎ (off ≢ pteoff v) → entry m' t off ≡ entry m t off))
          (page_remove m (table_of t1) v)
  page_remove-get_mapping shared bounded =
      rw (page_remove-removed shared bounded) (read, ground arith, λ t off other. ground arith)
    where
      read : get_mapping removed v (table_of t1) ≡ ok (0, removed)
      read =
          get_mapping-present removed-Path4
          ∙ ap (λ e. ok (e, removed))
              (entry-with_entry
                (record m { ref_count = update m.ref_count target (m.ref_count target - 1) }) t4
                (pteoff v) 0)

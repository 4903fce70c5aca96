-- ===== src/Page/Fault/InPlace.antt =====
-- The write to a page that does not have two references.
use preemptive_unix_os.Base.{
  ◌⊎◌, ℕ, ◌+◌, ◌-◌, ◌*◌, ◌/◌, ◌%◌, ◌≡◌, ◌≢◌, ◌==◌, true, false, refl, arith, ap, Ensures, bit_or,
  bit_or_block, bit_or-lt, bit_or-mod_two, bit_or_split, ◌∙◌,
}
use preemptive_unix_os.Page.Align.{page_size}
use preemptive_unix_os.Page.Frames.{Memory}
use preemptive_unix_os.Page.Walk.{bit_rw, pteoff}
use preemptive_unix_os.Page.Walk.Mapping.{
  Path4, table_of, entry, with_entry, load-entry, store-entry, pml4_walk-present,
}
use preemptive_unix_os.Page.Fault.{bit_cow, check_cow, copy_on_write_handler}
use preemptive_unix_os.Page.Fault.Cow.{page_of}

or_rw-frame : (r : ℕ) → bit_or r bit_rw / page_size ≡ r / page_size
or_rw-frame r =
    let split : r ≡ r / page_size * page_size + r % page_size = omega arith in
    omega (
      arith,
      ap (λ (x : ℕ). bit_or x bit_rw) split,
      bit_or_block 12 (r / page_size) (r % page_size) bit_rw (omega arith) (omega arith),
      bit_or-lt 12 (r % page_size) bit_rw (omega arith) (omega arith),
    )

or_rw-set : (r : ℕ) → bit_or r bit_rw / 2 % 2 ≡ 1
or_rw-set r = omega (arith, bit_or_split r bit_rw, bit_or-mod_two (r / 2) 1)

-- The entry maps the frame that it mapped before and allows the write; the frame has as many references as before, and no
-- other word changes.
pub record InPlace (m : Memory) (v t4 : ℕ) (m' : Memory) : Type 0 where
  pub same_frame : entry m' t4 (pteoff v) / page_size ≡ entry m t4 (pteoff v) / page_size
  pub writeable : entry m' t4 (pteoff v) / bit_rw % 2 ≡ 1
  pub references : m'.ref_count ≡ m.ref_count
  pub others_kept : (t off : ℕ) → (t ≢ t4) ⊎ (off ≢ pteoff v) → m'.frame t off ≡ m.frame t off

module _ {m : Memory} {v t1 t2 t3 t4 : ℕ} (path : Path4 m v t1 t2 t3 t4)
    (cow : check_cow (entry m t4 (pteoff v)) ≡ true) where
  abbrev e : ℕ
  e = entry m t4 (pteoff v)

  abbrev writeable : ℕ
  writeable = bit_or (e - bit_cow) bit_rw

  entry-writeable : entry (with_entry m t4 (pteoff v) writeable) t4 (pteoff v) ≡ writeable
  entry-writeable = ground arith

  cow-frame : (e - bit_cow) / page_size ≡ e / page_size
  cow-frame = let bit : (e / bit_cow % 2 == 1) ≡ true = cow in ground arith

  -- A write to a page with `BIT_COW` set and any number of references but two, also more than two, lets the process write to
  -- the frame itself, as `InPlace` says: those that still share it see the write.
  pub copy_on_write_handler-InPlace :
      m.ref_count (e / page_size) ≢ 2
      → (kernel_heap_end : ℕ)
      → Ensures
          (λ (_, m'). InPlace m v t4 m')
          (copy_on_write_handler kernel_heap_end m (table_of t1) v)
  unfolding copy_on_write_handler
  copy_on_write_handler-InPlace other kernel_heap_end =
      let at = load-entry m t4 (pteoff v) path.level3.2 (omega arith) in
      let not_two : (m.ref_count (e / page_size) == 2) ≡ false = ground arith in
      rw
        (
          pml4_walk-present path,
          at,
          cow,
          page_of e,
          not_two,
          store-entry m t4 (pteoff v) writeable path.level3.2 (omega arith),
        )
        record {
          same_frame =
              ap (λ x. x / page_size) entry-writeable ∙ or_rw-frame (e - bit_cow) ∙ cow-frame;
          writeable = ap (λ x. x / bit_rw % 2) entry-writeable ∙ or_rw-set (e - bit_cow);
          references = refl;
          others_kept = λ t off ne. ground arith;
        }

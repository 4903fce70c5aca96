-- ===== src/Page/Walk.antt =====
-- The page tables of sys/page.c. A table is known by its kernel virtual address, as in the source,
-- and is read and written through physical memory. An entry is a `uint64_t` whose bit 0 says that
-- it is present.
pub mod Mapping
pub mod Insert
pub mod Remove
use preemptive_unix_os.Base.{
  ℕ, zero, suc, ◌+◌, ◌-◌, ◌*◌, ◌/◌, ◌%◌, ◌^◌, Bool, true, false, Option, none, some, if◌then◌else◌,
  ltb, ◌==◌, Run, ok, fault, hang, ◌>>=◌, update, add64, sub64, bit_or, inc32, dec32,
}
use preemptive_unix_os.Page.Align.{page_size, align_down}
use preemptive_unix_os.Page.Frames.{
  Page, Memory, kaddr, paddr, get_pa, get_str_ptr_from_pa, page_alloc, page_release,
}

-- `*p` and `*p = v` for a kernel virtual address `p` of a `uint64_t`.
unfoldable pub load : Memory → ℕ → ℕ
load m p = m.frame (paddr p / page_size) (paddr p % page_size / 8)

unfoldable pub store : Memory → ℕ → ℕ → Memory
store m p v =
    let page = paddr p / page_size in
    record m { frame = update m.frame page (update (m.frame page) (paddr p % page_size / 8) v) }

abbrev pub bit_present : ℕ
bit_present = 1

abbrev pub bit_rw : ℕ
bit_rw = 2

abbrev pub bit_user : ℕ
bit_user = 4

-- `CHECK_PRESENT`
abbrev pub check_present : ℕ → Bool
check_present e = e % 2 == 1

abbrev pub pml4off : ℕ → ℕ
pml4off v_addr = v_addr / 2 ^ 39 % 512

abbrev pub pdpeoff : ℕ → ℕ
pdpeoff v_addr = v_addr / 2 ^ 30 % 512

abbrev pub pdeoff : ℕ → ℕ
pdeoff v_addr = v_addr / 2 ^ 21 % 512

abbrev pub pteoff : ℕ → ℕ
pteoff v_addr = v_addr / 2 ^ 12 % 512

-- The address of the entry `off` of a table of `uint64_t`.
abbrev pub entry_addr : ℕ → ℕ → ℕ
entry_addr table off = add64 table (8 * off)

-- `newPage->ref_count++`, and the entry that points to the new page.
unfoldable pub link_page : Memory → ℕ → Page → ℕ × Memory
link_page m at p =
    let e = bit_or (bit_or (bit_or (get_pa p) bit_present) bit_rw) bit_user in
    (e, store (record m { ref_count = update m.ref_count p (inc32 (m.ref_count p)) }) at e)

-- The entry at `at`: the one that is present, or one that points to a page allocated for it.
unfoldable pub entry_or_alloc : Memory → ℕ → Run (Option ℕ × Memory)
entry_or_alloc m at =
    if check_present (load m at)
    then ok (some (load m at), m)
    else (page_alloc m >>= λ (new_page, m'). elim new_page [
      | none ↦ ok (none, m')
      | some p ↦ let (e, m'') = link_page m' at p in ok (some e, m'')
    ])

-- The address of the page table entry of `v_addr`, below a page directory.
unfoldable pub pde_walk : Memory → ℕ → ℕ → Run (Option ℕ × Memory)
pde_walk m pde v_addr = entry_or_alloc m (entry_addr pde (pdeoff v_addr)) >>= λ (found, m').
    elim found [
      | none ↦ ok (none, m')
      | some e ↦ ok (some (entry_addr (kaddr (align_down e)) (pteoff v_addr)), m')
    ]

unfoldable pub pdpe_walk : Memory → ℕ → ℕ → Run (Option ℕ × Memory)
pdpe_walk m pdpe v_addr = entry_or_alloc m (entry_addr pdpe (pdpeoff v_addr)) >>= λ (found, m').
    elim found [ none ↦ ok (none, m') | some e ↦ pde_walk m' (kaddr (align_down e)) v_addr ]

unfoldable pub pml4_walk : Memory → ℕ → ℕ → Run (Option ℕ × Memory)
pml4_walk m pml4e v_addr = entry_or_alloc m (entry_addr pml4e (pml4off v_addr)) >>= λ (found, m').
    elim found [ none ↦ ok (none, m') | some e ↦ pdpe_walk m' (kaddr (align_down e)) v_addr ]

-- The entry itself, which the source returns as an address. A failed walk is dereferenced.
unfoldable pub get_mapping : Memory → ℕ → ℕ → Run (ℕ × Memory)
get_mapping m virt_addr pml4e = pml4_walk m pml4e virt_addr >>= λ (found, m'). elim found [
  | none ↦ fault
  | some pte ↦ ok (load m' pte, m')
]

-- A page that is mapped already makes the kernel spin.
unfoldable pub page_insert : Memory → ℕ → ℕ → Page → ℕ → Run Memory
page_insert m pml4e virt_addr page permissions =
    pml4_walk m pml4e (align_down virt_addr) >>= λ (found, m'). elim found [
      | none ↦ fault
      | some pte ↦
          (if load m' pte == 0
            then (let m'' = store m' pte (bit_or (bit_or (get_pa page) bit_present) permissions) in
                ok (record m'' {
                  ref_count = update m''.ref_count page (inc32 (m''.ref_count page));
                }))
            else hang)
    ]

unfoldable pub drop_reference : Memory → Page → Run Memory
drop_reference m page =
    let m' = record m { ref_count = update m.ref_count page (dec32 (m.ref_count page)) } in
    if m'.ref_count page == 0 then page_release page m' else ok m'

unfoldable pub page_remove : Memory → ℕ → ℕ → Run Memory
page_remove m pml4e virt_addr = pml4_walk m pml4e virt_addr >>= λ (found, m'). elim found [
  | none ↦ ok m'
  | some pte ↦
      (if load m' pte == 0
        then ok m'
        else (drop_reference m' (get_str_ptr_from_pa (align_down (load m' pte))) >>= λ m''.
            ok (store m'' pte 0)))
]

-- The loop of `region_mapping` with the rounds that are left; `hang` when they run out. A virtual
-- page that is mapped already is reported and left as it is.
unfoldable pub region_mapping_loop : ℕ → Memory → ℕ → ℕ → ℕ → ℕ → ℕ → ℕ → Run Memory
region_mapping_loop zero m virt_addr phy_addr pml4e size permissions temp = hang
region_mapping_loop (suc k) m virt_addr phy_addr pml4e size permissions temp =
    elim (ltb temp size) [
      | false ↦ ok m
      | true ↦ pml4_walk m pml4e (add64 virt_addr temp) >>= λ (found, m'). elim found [
        | none ↦ fault
        | some pte ↦
            (let m'' =
                if load m' pte == 0
                then store m' pte (bit_or (bit_or (add64 phy_addr temp) bit_present) permissions)
                else m' in
              region_mapping_loop k m'' virt_addr phy_addr pml4e size permissions
                (temp + page_size))
      ]
    ]

unfoldable pub region_mapping : Memory → ℕ → ℕ → ℕ → ℕ → ℕ → Run Memory
region_mapping m virt_addr phy_addr pml4e size permissions =
    region_mapping_loop (size / page_size + 2) m virt_addr phy_addr pml4e size permissions 0

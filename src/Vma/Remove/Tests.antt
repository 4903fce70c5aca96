-- ===== src/Vma/Remove/Tests.antt =====
-- Runs of the areas that come to be in no use.
use preemptive_unix_os.Base.{
  ◌*◌, ok, ◌+◌, ◌>>=◌, none, ◌≡◌, refl, [], ◌∷◌, arith, ◌==◌, if◌then◌else◌,
}
use preemptive_unix_os.Page.Align.{page_size}
use preemptive_unix_os.Page.Frames.{Memory}
use preemptive_unix_os.Page.Walk.Mapping.{table_of}
use preemptive_unix_os.Vma.{Areas}
use preemptive_unix_os.Vma.Chain.{Links}
use preemptive_unix_os.Vma.Remove.{free_first, vma_free_from, vma_remove_for_process}
use preemptive_unix_os.Vma.Remove.Freed.{Freed, unmap_all, vma_remove_for_process-Freed}

-- The process has the areas 30 and 40; 50 is in no use.
abbrev two_areas : Areas
two_areas = record {
  areas = λ a. record {
    next = if a == 30 then 40 else 0;
    prev = if a == 40 then 30 else 0;
    start = a;
    end = a;
    flags_vma = 1;
  };
  first_vma = 30;
  vma_free_list = 50;
}

-- Tables in which nothing is mapped and no table can be added.
abbrev no_tables : Memory
no_tables = record {
  page_free_list = none;
  prev = λ _. none;
  next = λ _. none;
  ref_count = λ _. 0;
  frame = λ p i. if i == 0 then (p + 1) * page_size + 7 else 0;
}

vma_remove_for_process-Freed_example :
    (s' : Areas) × Freed (30 ∷ 40 ∷ []) (50 ∷ []) s'
    × (s'.first_vma ≡ 0)
    × (vma_remove_for_process two_areas no_tables (table_of 1)
        ≡ (unmap_all no_tables (table_of 1) two_areas.areas (30 ∷ 40 ∷ []) >>= λ m'. ok (s', m')))
vma_remove_for_process-Freed_example =
    vma_remove_for_process-Freed two_areas no_tables (table_of 1) (30 ∷ 40 ∷ []) (50 ∷ [])
      (λ e. omega (arith, e)) (refl, λ e. omega (arith, e), (refl, λ e. omega (arith, e), refl))
      (refl, λ e. omega (arith, e), refl)
      (
        (λ e. omega (arith, e), (λ e. omega (arith, e), tt)),
        ((λ e. omega (arith, e), tt), (tt, tt)),
      )
      (omega arith)

-- An array of three areas at 100.
three_areas :
    Links
      (vma_free_from 3 100 40 (record two_areas { vma_free_list = 0 })).areas
      (vma_free_from 3 100 40 (record two_areas { vma_free_list = 0 })).vma_free_list
      (100 ∷ 140 ∷ 180 ∷ [])
unfolding vma_free_from free_first
three_areas = (
  refl,
  λ e. omega (arith, e),
  (refl, λ e. omega (arith, e), (refl, λ e. omega (arith, e), refl)),
)

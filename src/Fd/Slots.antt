-- ===== src/Fd/Slots.antt =====
-- Which slots of the descriptor table the calls of sys/syscall.c use and change.
use native.Mathlib.Decide.{ℕ_discrete}
use preemptive_unix_os.Base.{
  ℕ, zero, suc, ◌+◌, ◌≤◌, ◌<◌, ◌≡◌, ◌≢◌, ◌∙◌, refl, ap, none, some, List, [], ◌∷◌, ok, fault, arith,
  get_elem?, length,
}
use preemptive_unix_os.Fd.{Kernel, slot, find_slot, max_file_descriptors}

-- `fileDescriptors` has 15 elements.
abbrev pub HasTable : Kernel → Type 0
HasTable k = length k.table ≡ max_file_descriptors

-- Slot `i` is the first NULL one from `from` on.
pub record FirstFree (k : Kernel) (from i : ℕ) : Type 0 where
  pub after : from ≤ i
  pub inside : i < max_file_descriptors
  pub free : get_elem? k.table i ≡ some 0
  pub used : (j : ℕ) → from ≤ j → j < i → get_elem? k.table j ≢ some 0

pub slot-some : (k : Kernel) (i p : ℕ) → get_elem? k.table i ≡ some p → slot k i ≡ ok p
unfolding slot
slot-some k i p h = ground arith

get_elem?-lt : (xs : List ℕ) (i : ℕ) → i < length xs → (p : ℕ) × (get_elem? xs i ≡ some p)
get_elem?-lt [] i h = absurd (omega arith)
get_elem?-lt (x ∷ xs) zero h = (x, refl)
get_elem?-lt (x ∷ xs) (suc i) h = get_elem?-lt xs i (omega arith)

get_elem?-none : (xs : List ℕ) (i : ℕ) → length xs ≤ i → get_elem? xs i ≡ none
get_elem?-none [] i h = refl
get_elem?-none (x ∷ xs) zero h = absurd (omega arith)
get_elem?-none (x ∷ xs) (suc i) h = get_elem?-none xs i (omega arith)

pub slot-in :
    (k : Kernel) (i : ℕ)
    → HasTable k
    → i < max_file_descriptors
    → (p : ℕ) × (get_elem? k.table i ≡ some p)
slot-in k i t h = get_elem?-lt k.table i (omega arith)

find_slot-step :
    (n : ℕ) (k : Kernel) (from p : ℕ)
    → get_elem? k.table from ≡ some p
    → p ≢ 0
    → find_slot (suc n) k from ≡ find_slot n k (from + 1)
unfolding find_slot
find_slot-step n k from p h ne = rw (slot-some k from p h) (ground arith)

find_slot-here :
    (n : ℕ) (k : Kernel) (from : ℕ)
    → get_elem? k.table from ≡ some 0
    → find_slot (suc n) k from ≡ ok from
unfolding find_slot
find_slot-here n k from h = rw (slot-some k from 0 h)

find_slot-outside :
    (n : ℕ) (k : Kernel) (from : ℕ)
    → get_elem? k.table from ≡ none
    → find_slot (suc n) k from ≡ fault
unfolding find_slot slot
find_slot-outside n k from h = ground arith

-- The search ends at the first NULL slot, where there is one in the array.
pub find_slot-FirstFree :
    (n : ℕ) (k : Kernel) (from i : ℕ)
    → HasTable k
    → i < from + n
    → FirstFree k from i
    → find_slot n k from ≡ ok i
find_slot-FirstFree zero k from i t h f = absurd (omega (arith, f.after))
find_slot-FirstFree (suc n) k from i t h f = elim (ℕ_discrete from i) [
  | yes e ↦ find_slot-here n k from (rw e f.free) ∙ ap ok e
  | no ne ↦
      let (p, hp) = slot-in k from t (omega (arith, f.after, f.inside)) in
      let used : p ≢ 0 = λ z. f.used from (omega arith) (omega (arith, f.after)) (hp ∙ ap some z) in
      find_slot-step n k from p hp used
      ∙ find_slot-FirstFree n k (from + 1) i t (omega arith) (record {
        after = omega (arith, f.after);
        inside = f.inside;
        free = f.free;
        used = λ j a b. f.used j (omega arith) b;
      })
]

-- The search runs off the end of the array where no slot is NULL.
pub find_slot-full :
    (n : ℕ) (k : Kernel) (from : ℕ)
    → HasTable k
    → from ≤ max_file_descriptors
    → max_file_descriptors < from + n
    → ((j : ℕ) → from ≤ j → j < max_file_descriptors → get_elem? k.table j ≢ some 0)
    → find_slot n k from ≡ fault
find_slot-full zero k from t le h used = absurd (omega arith)
find_slot-full (suc n) k from t le h used = elim (ℕ_discrete from max_file_descriptors) [
  | yes e ↦ find_slot-outside n k from (get_elem?-none k.table from (omega arith))
  | no ne ↦
      let (p, hp) = slot-in k from t (omega arith) in
      let nonnull : p ≢ 0 = λ z. used from (omega arith) (omega arith) (hp ∙ ap some z) in
      find_slot-step n k from p hp nonnull
      ∙ find_slot-full n k (from + 1) t (omega arith) (omega arith)
          (λ j a b. used j (omega arith) b)
]

-- ===== src/Vma/Load.antt =====
-- The loop of `getELF` of sys/elf.c over the sections of a program.
use preemptive_unix_os.Base.{
  ℕ, ◌+◌, ◌-◌, ◌^◌, ◌≤◌, ◌≡◌, inl, inr, List, [], ◌∷◌, ◌++◌, length, arith, Bool, Bool-cases, true,
  if◌then◌else◌, ok, Ensures, Ensures-bind, Ensures-weaken,
}
use preemptive_unix_os.Page.Align.{page_size}
use preemptive_unix_os.Vma.{Areas, Section, is_alloc, check_vma, insert_vma, load_section, get_elf}
use preemptive_unix_os.Vma.Chain.{Covers, Covers-Grown, Links-Grown, Grown}
use preemptive_unix_os.Vma.Check.{Checks, check_vma-Checks}
use preemptive_unix_os.Vma.Insert.{IsLoaded, insert_vma-Inserts}

-- The section lies below the last page of the address space.
abbrev pub Fits : Section → Type 0
Fits sec = sec.sh_addr + sec.sh_size ≤ 2 ^ 64 - page_size

abbrev pub AllFit : List Section → Type 0
AllFit [] = Unit {0}
AllFit (sec ∷ sections) = Fits sec × AllFit sections

-- An area of `ps` holds the section, if it takes memory.
abbrev pub Holds : Areas → List ℕ → Section → Type 0
Holds s ps sec = is_alloc sec ≡ true → Covers s.areas ps sec.sh_addr (sec.sh_addr + sec.sh_size)

abbrev pub AllHeld : Areas → List ℕ → List Section → Type 0
AllHeld s ps [] = Unit {0}
AllHeld s ps (sec ∷ sections) = Holds s ps sec × AllHeld s ps sections

-- What was covered in `s` by `ps` is covered in `s'` by `ps'`.
abbrev pub Keeps : Areas → List ℕ → Areas → List ℕ → Type 0
Keeps s ps s' ps' = (x y : ℕ) → Covers s.areas ps x y → Covers s'.areas ps' x y

-- What one section does: the process has good areas again, one less is free at most, the section is held, and what
-- was covered still is.
pub record Loads (s : Areas) (ps fs : List ℕ) (sec : Section) (s' : Areas) : Type 0 where
  pub ps' : List ℕ
  pub fs' : List ℕ
  pub loaded : IsLoaded s' ps' fs'
  pub left : length fs ≤ length fs' + 1
  pub holds : Holds s' ps' sec
  pub keeps : Keeps s ps s' ps'

IsLoaded-Grown :
    (s s' : Areas) (ps fs : List ℕ)
    → Grown s.areas s'.areas
    → s'.first_vma ≡ s.first_vma
    → s'.vma_free_list ≡ s.vma_free_list
    → IsLoaded s ps fs
    → IsLoaded s' ps fs
IsLoaded-Grown s s' ps fs g e f v = record {
  chain = rw e (Links-Grown s.areas s'.areas s.first_vma ps g v.chain);
  distinct = v.distinct;
  free = rw f (Links-Grown s.areas s'.areas s.vma_free_list fs g v.free);
  free_distinct = v.free_distinct;
  apart = v.apart;
  few = v.few;
}

module _ (s : Areas) (ps : List ℕ) (f : ℕ) (fs : List ℕ) (v : IsLoaded s ps (f ∷ fs))
    (sec : Section) (fits : Fits sec) where
  after_check :
      (r : Bool × Areas)
      → Checks s ps sec.sh_addr sec.sh_size r
      → Ensures
          (Loads s ps (f ∷ fs) sec)
          (if r.0 then ok r.1 else insert_vma r.1 sec.sh_addr sec.sh_size sec.sh_flags)
  after_check (found, s') (inl (e, g, first, free, c)) = rw e (record {
    ps' = ps;
    fs' = f ∷ fs;
    loaded = IsLoaded-Grown s s' ps (f ∷ fs) g first free v;
    left = omega arith;
    holds = λ _. c;
    keeps = λ x y. Covers-Grown s.areas s'.areas ps x y g;
  })
  after_check (found, s') (inr (e, same, out)) =
      rw (e, same)
        (Ensures-weaken (insert_vma s sec.sh_addr sec.sh_size sec.sh_flags)
          (λ s'' (loaded, c, kept). record {
            ps' = ps ++ (f ∷ []);
            fs' = fs;
            loaded = loaded;
            left = omega arith;
            holds = λ _. c;
            keeps = kept;
          })
          (insert_vma-Inserts s f fs sec.sh_addr sec.sh_size sec.sh_flags fits ps v out))

  load_section-Loads : Ensures (Loads s ps (f ∷ fs) sec) (load_section s sec)
  unfolding load_section
  load_section-Loads = elim (Bool-cases (is_alloc sec)) [
    | inl e ↦ rw e (
        Ensures-bind (Loads s ps (f ∷ fs) sec) (check_vma s sec.sh_addr sec.sh_size)
          (λ (found, s').
            if found then ok s' else insert_vma s' sec.sh_addr sec.sh_size sec.sh_flags)
          (check_vma-Checks s ps sec.sh_addr sec.sh_size v.chain (omega (arith, v.few)) fits)
          (λ r o. after_check r o))
    | inr e ↦ rw e (record {
      ps' = ps;
      fs' = f ∷ fs;
      loaded = v;
      left = omega arith;
      holds = λ t. absurd (ground arith);
      keeps = λ x y c. c;
    })
  ]

-- What loading promises: the process has areas `ps'` again, they hold every section that takes memory, and what was
-- covered before still is.
pub record LoadsAll (s : Areas) (ps : List ℕ) (sections : List Section) (s' : Areas) : Type 0 where
  pub ps' : List ℕ
  pub fs' : List ℕ
  pub loaded : IsLoaded s' ps' fs'
  pub held : AllHeld s' ps' sections
  pub keeps : Keeps s ps s' ps'

-- The loop of `getELF`, with a free area for each section and every section below the last page of the address
-- space, ends without a fault and keeps the promises of `LoadsAll`.
pub get_elf-LoadsAll :
    (s : Areas) (ps fs : List ℕ) (sections : List Section)
    → IsLoaded s ps fs
    → length sections ≤ length fs
    → AllFit sections
    → Ensures (LoadsAll s ps sections) (get_elf s sections)
unfolding get_elf
get_elf-LoadsAll s ps fs [] v h fit = record {
  ps' = ps;
  fs' = fs;
  loaded = v;
  held = tt;
  keeps = λ x y c. c;
}
get_elf-LoadsAll s ps [] (sec ∷ sections) v h fit = absurd (omega arith)
get_elf-LoadsAll s ps (f ∷ fs) (sec ∷ sections) v h (fits, fit) =
    Ensures-bind (LoadsAll s ps (sec ∷ sections)) (load_section s sec) (λ s'. get_elf s' sections)
      (load_section-Loads s ps f fs v sec fits)
      (λ s1 one.
        Ensures-weaken (get_elf s1 sections)
          (λ s2 all. record {
            ps' = all.ps';
            fs' = all.fs';
            loaded = all.loaded;
            held = (λ e. all.keeps sec.sh_addr (sec.sh_addr + sec.sh_size) (one.holds e), all.held);
            keeps = λ x y c. all.keeps x y (one.keeps x y c);
          })
          (get_elf-LoadsAll s1 one.ps' one.fs' sections one.loaded (omega (arith, one.left)) fit))

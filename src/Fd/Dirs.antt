-- ===== src/Fd/Dirs.antt =====
-- `sys_getdents` of sys/syscall.c: reading a directory to its end.

use preemptive_unix_os.Base.{
  inl, inr, Bool-cases, ltb, length-take, ℕ, suc, zero, ◌+◌, ◌-◌, ◌≤◌, ◌<◌, ◌≡◌, ◌≢◌, ◌^◌, refl,
  List, [], ◌∷◌, none, some, true, false, arith, ◌==◌, length, take, Ensures,
}
use preemptive_unix_os.Tarfs.Node.{TarFile, dirtype}
use preemptive_unix_os.Fd.{Kernel}
use preemptive_unix_os.Fd.Calls.{sys_getdents, nth_sibling}
use preemptive_unix_os.Fd.Slots.{slot-some}
use preemptive_unix_os.Fd.Files.{OpenFile, file_of}

-- From `p` on, the `next` pointers lead through the entries `ps` to NULL.
unfoldable pub Siblings : (ℕ → TarFile) → ℕ → List ℕ → Type 0
Siblings files p [] = p ≡ 0
Siblings files p (q ∷ qs) = (p ≡ q) × (q ≢ 0) × Siblings files (files q).next qs

-- The entry at a place, NULL behind the last one.
unfoldable pub entry : List ℕ → ℕ → ℕ
entry [] n = 0
entry (q ∷ qs) zero = q
entry (q ∷ qs) (suc n) = entry qs n

nth_sibling-entry :
    (files : ℕ → TarFile) (p : ℕ) (ps : List ℕ) (n : ℕ)
    → Siblings files p ps
    → nth_sibling n files p ≡ entry ps n
unfolding Siblings entry nth_sibling
nth_sibling-entry files p [] zero s = s
nth_sibling-entry files p [] (suc n) s = let e : (p == 0) ≡ true = ground arith in rw e refl
nth_sibling-entry files p (q ∷ qs) zero (e, ne, s) = e
nth_sibling-entry files p (q ∷ qs) (suc n) (e, ne, s) =
    let f : (p == 0) ≡ false = ground arith in
    rw (f, e) (nth_sibling-entry files (files q).next qs n s)

entry-inside :
    (files : ℕ → TarFile) (p : ℕ) (ps : List ℕ) (n : ℕ)
    → Siblings files p ps
    → n < length ps
    → entry ps n ≢ 0
unfolding Siblings entry
entry-inside files p [] n s h = absurd (omega arith)
entry-inside files p (q ∷ qs) zero (e, ne, s) h = ne
entry-inside files p (q ∷ qs) (suc n) (e, ne, s) h =
    entry-inside files (files q).next qs n s (omega arith)

entry-outside : (ps : List ℕ) (n : ℕ) → length ps ≤ n → entry ps n ≡ 0
unfolding entry
entry-outside [] n h = refl
entry-outside (q ∷ qs) zero h = absurd (omega arith)
entry-outside (q ∷ qs) (suc n) h = entry-outside qs n (omega arith)

module _ (k : Kernel) (fd p : ℕ) (ps : List ℕ) (opened : OpenFile k fd p)
    (directory : (file_of k p).file_type ≡ dirtype)
    (children : Siblings k.files (file_of k p).child ps) where
  -- `sys_getdents` of a directory whose children are `ps` returns the name of the child at the descriptor's
  -- offset and moves the offset to the next child; behind the last child it returns 0 and starts again.
  pub sys_getdents_lem :
      (k.descriptors p).offset < 2 ^ 64 - 1
      → Ensures
          (λ (ret, name, k').
            ((k.descriptors p).offset < length ps
              → (name ≡ some (take 256 (k.files (entry ps (k.descriptors p).offset)).file_name))
                × (18 ≤ ret)
                × ((k'.descriptors p).offset ≡ (k.descriptors p).offset + 1))
            × (length ps ≤ (k.descriptors p).offset
                → (ret ≡ 0) × (name ≡ none) × ((k'.descriptors p).offset ≡ 0)))
          (sys_getdents k fd)
  unfolding sys_getdents
  sys_getdents_lem small =
      let at = (k.descriptors p).offset in
      let e1 : (p == 0) ≡ false = ground (arith, opened.nonnull) in
      let e2 : ((k.descriptors p).file_ptr == 0) ≡ false = ground (arith, opened.has_file) in
      let e3 : ((file_of k p).file_type == dirtype) ≡ true = ground arith in
      let walk = nth_sibling-entry k.files (file_of k p).child ps at children in
      rw (slot-some k fd p opened.in_table, e1, e2, e3, walk)
        (elim (Bool-cases (ltb at (length ps))) [
          | inl inside ↦
              let f : (entry ps at == 0) ≡ false =
                ground
                  (arith, entry-inside k.files (file_of k p).child ps at children (ground arith)) in
              rw f (
                λ _. (
                  refl,
                  ground (arith, length-take 256 (k.files (entry ps at)).file_name),
                  ground arith,
                ),
                λ l. absurd (ground arith),
              )
          | inr outside ↦
              let f : (entry ps at == 0) ≡ true =
                ground (arith, entry-outside ps at (ground arith)) in
              rw f (λ l. absurd (ground arith), λ _. (refl, refl, ground arith))
        ])

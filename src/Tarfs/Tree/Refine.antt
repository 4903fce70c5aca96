-- ===== src/Tarfs/Tree/Refine.antt =====
-- The pointers of sys/tarfs.c stand for a tree of names, and the search for a file is the search in that tree.
use native.Mathlib.Decide.{ℕ_discrete}
use mathlib.Core.List.{List-discrete}
use preemptive_unix_os.Base.{
  not, ◌&&◌, ℕ, zero, suc, ◌<◌, ◌≡◌, ◌≢◌, ◌∙◌, refl, ap, inl, inr, Bool, true, false, List, [], ◌∷◌,
  Option, none, some, Run, ok, if◌then◌else◌, ◌==◌, arith, Bool-cases, Ensures, Ensures-bind,
}
use preemptive_unix_os.Strings.{char_diff, IsText, terminated, strcmp}
use preemptive_unix_os.Strings.Compare.{strcmp-zero_iff}
use preemptive_unix_os.Tarfs.Node.{TarFile}
use preemptive_unix_os.Tarfs.Tree.{find_sibling, descend}

-- A file or directory, and those that lie in a directory, in their order.
mutual
  pub data Tree : Type 0 where
    node : List ℕ → Forest → Tree

  pub data Forest : Type 0 where
    empty : Forest
    before : Tree → Forest → Forest

-- The `struct tar_file` at `p` stands for a tree, and the ones from `p` on through `next` for a forest.
unfoldable mutual
  pub Stands : (ℕ → TarFile) → ℕ → Tree → Type 0
  Stands files p (node name kids) =
      (p ≢ 0)
      × IsText name
      × ((rest : List ℕ) × ((files p).file_name ≡ terminated name rest))
      × StandAll files (files p).child kids

  pub StandAll : (ℕ → TarFile) → ℕ → Forest → Type 0
  StandAll files p empty = p ≡ 0
  StandAll files p (before t ts) = Stands files p t × StandAll files (files p).next ts

abbrev pub found_or : {P : Type 0} → Dec P → Tree → Option Tree → Option Tree
found_or (yes e) t rest = some t
found_or (no ne) t rest = rest

-- The first tree with the name.
unfoldable pub pick : List ℕ → Forest → Option Tree
pick name empty = none
pick name (before (node m kids) ts) =
    found_or (List-discrete ℕ_discrete m name) (node m kids) (pick name ts)

-- The tree at a path, from a directory on.
unfoldable pub at_path : Option Tree → List (List ℕ) → Option Tree
at_path none names = none
at_path (some t) [] = some t
at_path (some (node m kids)) (name ∷ names) = at_path (pick name kids) names

abbrev pub width : Forest → ℕ
width empty = 0
width (before t ts) = suc (width ts)

-- No directory has `bound` children or more.
unfoldable mutual
  pub Narrow : ℕ → Tree → Type 0
  Narrow bound (node name kids) = (width kids < bound) × AllNarrow bound kids

  pub AllNarrow : ℕ → Forest → Type 0
  AllNarrow bound empty = Unit {0}
  AllNarrow bound (before t ts) = Narrow bound t × AllNarrow bound ts

-- The search found the file of the tree, or NULL where there is none.
abbrev pub Finds : ℕ → (ℕ → TarFile) → Option Tree → ℕ → Type 0
Finds bound files none p = p ≡ 0
Finds bound files (some t) p = Stands files p t × Narrow bound t

if_ok : (b : Bool) (m : Run ℕ) (d y : ℕ) → m ≡ ok d → (x : ℕ) × ((if b then m else ok y) ≡ ok x)
if_ok true m d y e = (d, e)
if_ok false m d y e = (y, refl)

-- A comparison of two texts gives a number.
strcmp-ok :
    (s t r q : List ℕ)
    → IsText s
    → IsText t
    → (d : ℕ) × (strcmp (terminated s r) (terminated t q) ≡ ok d)
unfolding strcmp
strcmp-ok [] [] r q hs ht = (_, refl)
strcmp-ok [] (b ∷ t) r q hs ht = (_, refl)
strcmp-ok (a ∷ s) [] r q hs ht =
    let ends : (not (a == 0) && not (0 == 0) && a == 0) ≡ false = ground arith in
    (char_diff a 0, rw ends refl)
strcmp-ok (a ∷ s) (b ∷ t) r q hs ht =
    let (d, e) = strcmp-ok s t r q hs.2 ht.2 in
    if_ok (not (a == 0) && not (b == 0) && a == b) (strcmp (terminated s r) (terminated t q)) d
      (char_diff a b) e

find_sibling-Finds :
    (n bound : ℕ) (files : ℕ → TarFile) (p : ℕ) (ts : Forest) (name : List ℕ)
    → StandAll files p ts
    → AllNarrow bound ts
    → width ts < n
    → IsText name
    → Ensures (Finds bound files (pick name ts)) (find_sibling n files p name)
unfolding find_sibling pick Stands StandAll Narrow AllNarrow
find_sibling-Finds zero bound files p ts name w narrow h t = absurd (omega arith)
find_sibling-Finds (suc n) bound files p empty name w narrow h t =
    let z : (p == 0) ≡ true = ground arith in rw z refl
find_sibling-Finds (suc n) bound files p (before (node m kids) ts) name
      ((ne, text, (rest, e), inner), w) (thin, narrow) h t =
    let nz : (p == 0) ≡ false = ground arith in
    let (d, compared) = strcmp-ok m name rest [] text t in
    let iff = strcmp-zero_iff m name rest [] text t in
    elim (List-discrete ℕ_discrete m name)
      as (λ c.
        Ensures (Finds bound files (found_or c (node m kids) (pick name ts)))
          (find_sibling (suc n) files p name)) [
            | yes same ↦
                let zero_diff : strcmp (terminated m rest) (terminated name []) ≡ ok 0 =
                  iff.1 same in
                rw (nz, e, zero_diff) ((ne, text, (rest, e), inner), thin)
            | no other ↦
                let differ : (d == 0) ≡ false = elim (Bool-cases (d == 0)) [
                  | inl same ↦
                      let z : d ≡ 0 = ground arith in absurd (other (iff.0 (compared ∙ ap ok z)))
                  | inr n ↦ n
                ] in
                rw (nz, e, compared, differ)
                  (find_sibling-Finds n bound files (files p).next ts name w narrow (omega arith) t)
          ]

abbrev pub AllTexts : List (List ℕ) → Type 0
AllTexts [] = Unit {0}
AllTexts (name ∷ names) = IsText name × AllTexts names

Stands-nonnull : (files : ℕ → TarFile) (p : ℕ) (t : Tree) → Stands files p t → p ≢ 0
unfolding Stands
Stands-nonnull files p (node m kids) s = s.0

-- After a step that found `o`, the rest of the path is looked up.
next-Finds :
    (rounds : ℕ) (files : ℕ → TarFile) (names : List (List ℕ)) (o : Option Tree) (q : ℕ)
    → ((t : Tree)
        → Finds rounds files (some t) q
        → Ensures (Finds rounds files (at_path (some t) names)) (descend rounds files q names))
    → Finds rounds files o q
    → Ensures
        (Finds rounds files (at_path o names))
        (if q == 0 then ok 0 else descend rounds files q names)
unfolding at_path
next-Finds rounds files names none q ih f = let z : (q == 0) ≡ true = ground arith in rw z refl
next-Finds rounds files names (some t) q ih f =
    let ne = Stands-nonnull files q t f.0 in
    let nz : (q == 0) ≡ false = ground arith in rw nz (ih t f)

-- The loops of `lookUpForFile` over a path find the file that the path names in the tree, from the directory on where they
-- start, and NULL where the tree has none; no directory has as many files as the loops have rounds.
pub descend-Finds :
    (rounds : ℕ) (files : ℕ → TarFile) (p : ℕ) (t : Tree) (names : List (List ℕ))
    → Stands files p t
    → Narrow rounds t
    → AllTexts names
    → Ensures (Finds rounds files (at_path (some t) names)) (descend rounds files p names)
unfolding descend at_path Stands Narrow
descend-Finds rounds files p t [] s w a = (s, w)
descend-Finds rounds files p (node m kids) (name ∷ names) (ne, text, e, inner) (few, w) a =
    Ensures-bind (Finds rounds files (at_path (pick name kids) names))
      (find_sibling rounds files (files p).child name) _
      (find_sibling-Finds rounds rounds files (files p).child kids name inner w few a.0)
      (λ q f.
        next-Finds rounds files names (pick name kids) q
          (λ t g. descend-Finds rounds files q t names g.0 g.1 a.1) f)

-- ===== src/Tarfs/Archive/Ends.antt =====
-- The search of `getFile` of sys/tarfs.c through the archive.
use preemptive_unix_os.Base.{
  ℕ, zero, suc, ◌+◌, ◌-◌, ◌/◌, ◌%◌, ◌^◌, ◌≤◌, ◌<◌, ◌≡◌, ◌≢◌, ◌⊎◌, inl, inr, true, false, not, ◌&&◌,
  List, [], ◌∷◌, ok, leb, ◌==◌, refl, ap, ◌∙◌, add64, arith, Bool-cases, Ensures,
}
use preemptive_unix_os.Page.Align.{align_file_up}
use preemptive_unix_os.Strings.{strcmp, char_diff}
use preemptive_unix_os.Tarfs.Archive.{Archive, octal_number, next_header, find_file, archive_rounds}

-- There is a NUL in the object.
abbrev pub HasNul : List ℕ → Type 0
HasNul [] = ⊥
HasNul (c ∷ s) = (c ≡ 0) ⊎ HasNul s

-- Two strings can be compared.
strcmp-ends : (s t : List ℕ) → HasNul s → HasNul t → (d : ℕ) × (strcmp s t ≡ ok d)
unfolding strcmp
strcmp-ends [] t h k = absurd h
strcmp-ends (a ∷ s) [] h k = absurd k
strcmp-ends (a ∷ s) (b ∷ t) h k = elim (Bool-cases (not (a == 0) && not (b == 0) && a == b)) [
  | inr differ ↦ (char_diff a b, rw differ refl)
  | inl same ↦
      let (d, e) = strcmp-ends s t (rest a s h (ground arith)) (rest b t k (ground arith)) in
      (d, rw same e)
]
  where
    rest : (c : ℕ) (u : List ℕ) → (c ≡ 0) ⊎ HasNul u → c ≢ 0 → HasNul u
    rest c u (inl z) ne = absurd (ne z)
    rest c u (inr n) ne = n

-- The header at `p` has a name that ends. The name is empty, or the size is a number that does not carry a pointer past 2^64,
-- and the next header is one of those that `Reached` holds for.
abbrev pub IsHeader : Archive → (ℕ → Type 0) → ℕ → Type 0
IsHeader a Reached p =
    HasNul (a.headers p).name
    × ((strcmp (a.headers p).name (0 ∷ []) ≡ ok 0)
        ⊎ ((n : ℕ) × (octal_number (a.headers p).size ≡ ok n)
            × (p + n + 1536 < 2 ^ 64)
            × Reached (next_header p n)))

-- NULL, or the address behind a header of the archive with the name.
abbrev pub Located : Archive → List ℕ → ℕ → Type 0
Located a str r =
    (r ≡ 0) ⊎ ((p : ℕ) × (p < a.tarfs_end) × (r ≡ p + 512) × (strcmp str (a.headers p).name ≡ ok 0))

-- The next header is 512 bytes on at least.
next_header-forward : (p n : ℕ) → p + n + 1536 < 2 ^ 64 → p + 512 ≤ next_header p n
unfolding next_header align_file_up
next_header-forward p n h = elim (Bool-cases (n == 0)) [
  | inl z ↦ rw z (omega arith)
  | inr nz ↦ elim (Bool-cases (512 - n % 512 == 512)) [
    | inl whole ↦ rw (nz, whole) (omega arith)
    | inr part ↦ rw (nz, part) (omega arith)
  ]
]

module _ (a : Archive) (str : List ℕ) (named : HasNul str) (Reached : ℕ → Type 0)
    (headers : (p : ℕ) → Reached p → p < a.tarfs_end → IsHeader a Reached p) where
  -- A header with a name: it is the one looked for, or the search goes on.
  find_file-header :
      (n p d size : ℕ)
      → p < a.tarfs_end
      → HasNul (a.headers p).name
      → strcmp (a.headers p).name (0 ∷ []) ≡ ok d
      → d ≢ 0
      → octal_number (a.headers p).size ≡ ok size
      → p + size + 1536 < 2 ^ 64
      → Ensures (Located a str) (find_file n a (next_header p size) str)
      → Ensures (Located a str) (find_file (suc n) a p str)
  unfolding find_file
  find_file-header n p d size inside ends first nonempty number small behind =
      let more : leb a.tarfs_end p ≡ false = ground arith in
      let some_name : (d == 0) ≡ false = ground arith in
      let (k, found) = strcmp-ends str (a.headers p).name named ends in
      elim (Bool-cases (k == 0)) [
        | inl same ↦
            let z : k ≡ 0 = ground arith in
            let at : add64 p 512 ≡ p + 512 = omega arith in
            rw (more, first, some_name, number, found, same, at)
              (inr (p, inside, refl, found ∙ ap ok z))
        | inr other ↦ rw (more, first, some_name, number, found, other) behind
      ]

  find_file-empty :
      (n p : ℕ)
      → p < a.tarfs_end
      → strcmp (a.headers p).name (0 ∷ []) ≡ ok 0
      → find_file (suc n) a p str ≡ ok 0
  unfolding find_file
  find_file-empty n p inside empty =
      let more : leb a.tarfs_end p ≡ false = ground arith in rw (more, empty) refl

  find_file-end : (n p : ℕ) → a.tarfs_end ≤ p → find_file (suc n) a p str ≡ ok 0
  unfolding find_file
  find_file-end n p past = let done : leb a.tarfs_end p ≡ true = ground arith in rw done refl

  find_file-Located_from :
      (n p : ℕ)
      → Reached p
      → (a.tarfs_end - p + 511) / 512 < n
      → Ensures (Located a str) (find_file n a p str)
  find_file-Located_from zero p reached h = absurd (omega arith)
  find_file-Located_from (suc n) p reached h = elim (Bool-cases (leb a.tarfs_end p)) [
    | inl done ↦ rw (find_file-end n p (ground arith)) (inl refl)
    | inr more ↦
        let inside : p < a.tarfs_end = ground arith in
        let (ends, rest) = headers p reached inside in
        elim rest [
          | inl empty ↦ rw (find_file-empty n p inside empty) (inl refl)
          | inr (size, number, small, next) ↦
              let forward = next_header-forward p size small in
              let (d, first) = strcmp-ends (a.headers p).name (0 ∷ []) ends (inl refl) in
              elim (Bool-cases (d == 0)) [
                | inl none ↦
                    let z : d ≡ 0 = ground arith in
                    rw (find_file-empty n p inside (first ∙ ap ok z)) (inl refl)
                | inr some ↦
                    find_file-header n p d size inside ends first (ground arith) number small
                      (find_file-Located_from n (next_header p size) next (omega arith))
              ]
        ]
  ]

  -- The search of `getFile` for a name in an archive in which each header up to the first empty one, each behind the file of
  -- the one before, has a name that ends in a NUL and a number for its size that does not carry a pointer past 2^64: it ends,
  -- after one round for each 512 bytes of the archive and one more at most, without a fault, with NULL or with the address
  -- behind a header that has the name.
  pub find_file-Located :
      Reached a.tarfs_start
      → Ensures (Located a str) (find_file (archive_rounds a) a a.tarfs_start str)
  find_file-Located start =
      find_file-Located_from (archive_rounds a) a.tarfs_start start (omega arith)

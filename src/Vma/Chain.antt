-- ===== src/Vma/Chain.antt =====
-- The list of areas of sys/elf.c that `next` leads through, and what it covers.
use native.Mathlib.Decide.{ℕ_discrete}
use preemptive_unix_os.Base.{
  Misses, Distinct, ap, ℕ, ◌≤◌, ◌<◌, ◌≡◌, ◌≢◌, ◌⊎◌, ◌∙◌, inl, inr, refl, sym, List, [], ◌∷◌, ◌++◌,
  arith,
}
use preemptive_unix_os.Vma.{Vma}

-- From `p` on, `next` leads through the areas `ps` to NULL.
abbrev pub Links : (ℕ → Vma) → ℕ → List ℕ → Type 0
Links areas p [] = p ≡ 0
Links areas p (q ∷ qs) = (p ≡ q) × (q ≢ 0) × Links areas (areas q).next qs

-- No area of `ps` contains the address.
abbrev pub Outside : (ℕ → Vma) → List ℕ → ℕ → Type 0
Outside areas [] a = Unit {0}
Outside areas (p ∷ ps) a = ((a < (areas p).start) ⊎ ((areas p).end < a)) × Outside areas ps a

-- One area of `ps` holds all addresses from `a` to `b`.
abbrev pub Covers : (ℕ → Vma) → List ℕ → ℕ → ℕ → Type 0
Covers areas [] a b = ⊥
Covers areas (p ∷ ps) a b = (((areas p).start ≤ a) × (b ≤ (areas p).end)) ⊎ Covers areas ps a b

-- The areas have grown at their ends, and lead where they led.
abbrev pub Grown : (ℕ → Vma) → (ℕ → Vma) → Type 0
Grown areas areas' =
    (p : ℕ)
    → ((areas' p).start ≡ (areas p).start)
      × ((areas p).end ≤ (areas' p).end)
      × ((areas' p).next ≡ (areas p).next)

pub Links-Grown : (a a' : ℕ → Vma) (p : ℕ) (ps : List ℕ) → Grown a a' → Links a p ps → Links a' p ps
Links-Grown a a' p [] g l = l
Links-Grown a a' p (q ∷ qs) g (e, ne, l) = (e, ne, rw (g q).2 (Links-Grown a a' (a q).next qs g l))

pub Covers-Grown :
    (a a' : ℕ → Vma) (ps : List ℕ) (x y : ℕ) → Grown a a' → Covers a ps x y → Covers a' ps x y
Covers-Grown a a' [] x y g c = c
Covers-Grown a a' (p ∷ ps) x y g (inl c) = inl (omega (arith, g p), omega (arith, g p))
Covers-Grown a a' (p ∷ ps) x y g (inr c) = inr (Covers-Grown a a' ps x y g c)

-- The area in which the loop of the loader ends up: the last of `p` and `ps`.
unfoldable pub last_of : ℕ → List ℕ → ℕ
last_of p [] = p
last_of p (q ∷ qs) = last_of q qs

pub last_of-ne : (p q : ℕ) (qs : List ℕ) → p ≢ q → Misses p qs → p ≢ last_of q qs
unfolding last_of
last_of-ne p q [] ne out = ne
last_of-ne p q (r ∷ rs) ne (pr, out) = last_of-ne p r rs pr out

-- The areas `b` after the area `x` was linked behind the area `last` of `a`.
pub record Linked (a b : ℕ → Vma) (last x : ℕ) : Type 0 where
  pub tail : (b x).next ≡ 0
  pub link : (b last).next ≡ x
  pub bounds : ((b last).start ≡ (a last).start) × ((b last).end ≡ (a last).end)
  pub others : (y : ℕ) → y ≢ x → y ≢ last → b y ≡ a y

pub Links-append :
    (a b : ℕ → Vma) (p x : ℕ) (ps : List ℕ)
    → p ≢ 0
    → Misses p ps
    → Distinct ps
    → Links a (a p).next ps
    → x ≢ 0
    → Misses x (p ∷ ps)
    → Linked a b (last_of p ps) x
    → Links b p (p ∷ ps ++ (x ∷ []))
unfolding last_of
Links-append a b p x [] nonnull out d l xn (ne, _) linked =
    (refl, nonnull, (linked.link, xn, linked.tail))
Links-append a b p x (q ∷ qs) nonnull (pq, out) (dq, d) (e, qn, l) xn (ne, xout) linked =
    let same = linked.others p (λ z. ne (sym z)) (last_of-ne p q qs pq out) in
    let ih = Links-append a b q x qs qn dq d l xn xout linked in
    (refl, nonnull, (ap (λ v. v.next) same ∙ e, qn, ih.2))

pub Links-Linked :
    (a b : ℕ → Vma) (last x p : ℕ) (ps : List ℕ)
    → Linked a b last x
    → Misses x ps
    → Misses last ps
    → Links a p ps
    → Links b p ps
Links-Linked a b last x p [] linked m n l = l
Links-Linked a b last x p (q ∷ qs) linked (xq, m) (lq, n) (e, ne, l) =
    let same = linked.others q (λ z. xq (sym z)) (λ z. lq (sym z)) in
    (e, ne, rw same (Links-Linked a b last x (a q).next qs linked m n l))

pub Covers-Linked :
    (a b : ℕ → Vma) (last x : ℕ) (ps : List ℕ) (s e : ℕ)
    → Linked a b last x
    → Misses x ps
    → Covers a ps s e
    → Covers b ps s e
Covers-Linked a b last x [] s e linked m c = c
Covers-Linked a b last x (p ∷ ps) s e linked (ne, m) (inl c) = elim (ℕ_discrete p last) [
  | yes same ↦
      let start = linked.bounds.0 in
      let end = linked.bounds.1 in
      inl (
        omega (arith, ap (λ y. (b y).start) same, ap (λ y. (a y).start) same),
        omega (arith, ap (λ y. (b y).end) same, ap (λ y. (a y).end) same),
      )
  | no other ↦ inl (rw (linked.others p (λ z. ne (sym z)) other) c)
]
Covers-Linked a b last x (p ∷ ps) s e linked (ne, m) (inr c) =
    inr (Covers-Linked a b last x ps s e linked m c)

pub Covers-append_left :
    (a : ℕ → Vma) (ps qs : List ℕ) (x y : ℕ) → Covers a ps x y → Covers a (ps ++ qs) x y
Covers-append_left a [] qs x y c = absurd c
Covers-append_left a (p ∷ ps) qs x y (inl c) = inl c
Covers-append_left a (p ∷ ps) qs x y (inr c) = inr (Covers-append_left a ps qs x y c)

pub Covers-append_right :
    (a : ℕ → Vma) (ps qs : List ℕ) (x y : ℕ) → Covers a qs x y → Covers a (ps ++ qs) x y
Covers-append_right a [] qs x y c = c
Covers-append_right a (p ∷ ps) qs x y c = inr (Covers-append_right a ps qs x y c)

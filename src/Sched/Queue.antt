-- ===== src/Sched/Queue.antt =====
-- The queues of sys/syscall.c as doubly linked lists: taking a process out of one.
use preemptive_unix_os.Base.{
  Bool-cases, inl, inr, Misses, Distinct, Misses-left, Misses-right, Distinct-right, ℕ, ◌≡◌, ◌≢◌,
  ◌∙◌, refl, sym, ap, List, [], ◌∷◌, ◌++◌, arith, update, ◌==◌, true, false, if◌then◌else◌,
}
use preemptive_unix_os.Sched.{Pcb, unlink}

-- From `p` on, `next` leads through the processes `ps` to NULL, and `prev` back to `pr`.
abbrev pub DLinks : (ℕ → Pcb) → ℕ → ℕ → List ℕ → Type 0
DLinks a pr p [] = p ≡ 0
DLinks a pr p (q ∷ qs) = (p ≡ q) × (q ≢ 0) × ((a q).prev ≡ pr) × DLinks a q (a q).next qs

-- The first process of a queue, or 0.
unfoldable pub first_of : List ℕ → ℕ
first_of [] = 0
first_of (p ∷ ps) = p

-- The last process of a queue, or `pr`.
unfoldable pub last_or : ℕ → List ℕ → ℕ
last_or pr [] = pr
last_or pr (p ∷ ps) = last_or p ps

pub DLinks-prev :
    (a : ℕ → Pcb) (pr p c : ℕ) (xs ys : List ℕ)
    → DLinks a pr p (xs ++ (c ∷ ys))
    → (a c).prev ≡ last_or pr xs
unfolding last_or
DLinks-prev a pr p c [] ys (e, ne, v, l) = v
DLinks-prev a pr p c (x ∷ xs) ys (e, ne, v, l) = DLinks-prev a x (a x).next c xs ys l

pub DLinks-next :
    (a : ℕ → Pcb) (pr p c : ℕ) (xs ys : List ℕ)
    → DLinks a pr p (xs ++ (c ∷ ys))
    → ((a c).next ≡ first_of ys) × (c ≢ 0)
unfolding first_of
DLinks-next a pr p c [] [] (e, ne, v, l) = (l, ne)
DLinks-next a pr p c [] (y ∷ ys) (e, ne, v, l) = (l.0, ne)
DLinks-next a pr p c (x ∷ xs) ys (e, ne, v, l) = DLinks-next a x (a x).next c xs ys l

pub DLinks-nonnull : (a : ℕ → Pcb) (pr p : ℕ) (ps : List ℕ) → DLinks a pr p ps → Misses 0 ps
DLinks-nonnull a pr p [] l = tt
DLinks-nonnull a pr p (q ∷ qs) (e, ne, v, l) = (λ z. ne (sym z), DLinks-nonnull a q (a q).next qs l)

pub last_or-ne : (x pr : ℕ) (xs : List ℕ) → x ≢ pr → Misses x xs → x ≢ last_or pr xs
unfolding last_or
last_or-ne x pr [] ne m = ne
last_or-ne x pr (y ∷ ys) ne (xy, m) = last_or-ne x y ys xy m

pub first_of-ne : (x : ℕ) (ys : List ℕ) → x ≢ 0 → Misses x ys → x ≢ first_of ys
unfolding first_of
first_of-ne x [] ne m = ne
first_of-ne x (y ∷ ys) ne (xy, m) = xy

pub first_of-ne_some : (x : ℕ) (ys : List ℕ) → Misses x ys → first_of ys ≢ 0 → x ≢ first_of ys
unfolding first_of
first_of-ne_some x [] m ne = absurd (ne refl)
first_of-ne_some x (y ∷ ys) (xy, m) ne = xy

pub last_or-Misses :
    (pr c : ℕ) (xs ys : List ℕ)
    → Distinct (xs ++ (c ∷ ys))
    → Misses pr ys
    → Misses (last_or pr xs) ys
unfolding last_or
last_or-Misses pr c [] ys d m = m
last_or-Misses pr c (x ∷ xs) ys (out, d) m =
    last_or-Misses x c xs ys d (Misses-right x xs (c ∷ ys) out).1

-- The process before the one taken out is none of those before.
pub last_or-apart :
    (pr c : ℕ) (xs ys : List ℕ) → Distinct (xs ++ (c ∷ ys)) → c ≢ pr → c ≢ last_or pr xs
unfolding last_or
last_or-apart pr c [] ys d ne = ne
last_or-apart pr c (x ∷ xs) ys (out, d) ne =
    last_or-apart x c xs ys d (λ e. (Misses-right x xs (c ∷ ys) out).0 (sym e))

-- The processes `b` after `c`, between `v` and `n`, was taken out of the queue in `a`.
pub record Unlinked (a b : ℕ → Pcb) (v n : ℕ) : Type 0 where
  pub others : (y : ℕ) → y ≢ n → y ≢ v → b y ≡ a y
  pub at_next : n ≢ 0 → ((b n).prev ≡ v) × ((b n).next ≡ (a n).next)
  pub at_prev : v ≢ 0 → ((b v).next ≡ n) × ((b v).prev ≡ (a v).prev)

-- `unlink`, with the two neighbours given.
abbrev relinked : (ℕ → Pcb) → ℕ → ℕ → ℕ → Pcb
relinked a v n =
    let a1 = if n == 0 then a else update a n (record (a n) { prev = v }) in
    if v == 0 then a1 else update a1 v (record (a1 v) { next = n })

pub unlink-relinked :
    (a : ℕ → Pcb) (c v n : ℕ)
    → (a c).prev ≡ v
    → (a c).next ≡ n
    → c ≢ n
    → unlink a c ≡ relinked a v n
unfolding unlink
unlink-relinked a c v n ev en cn =
    let f : (c == n) ≡ false = ground arith in
    elim (Bool-cases (n == 0)) [
      | inl z ↦ rw (en, z, ev, en) refl
      | inr nz ↦ rw (en, nz, f, ev, en) refl
    ]

pub relinked-Unlinked : (a : ℕ → Pcb) (v n : ℕ) → (n ≢ 0 → v ≢ n) → Unlinked a (relinked a v n) v n
relinked-Unlinked a v n vn = elim (Bool-cases (n == 0)) [
  | inl nz ↦ elim (Bool-cases (v == 0)) [
    | inl vz ↦
        rw (nz, vz)
          (record {
            others = λ y p q. refl;
            at_next = λ ne. absurd (ground arith);
            at_prev = λ ne. absurd (ground arith);
          })
    | inr vs ↦
        let vv : (v == v) ≡ true = ground arith in
        rw (nz, vs)
          (record {
            others = λ y p q. let f : (y == v) ≡ false = ground arith in rw f refl;
            at_next = λ ne. absurd (ground arith);
            at_prev = λ ne. (rw vv refl, rw vv refl);
          })
  ]
  | inr ns ↦
      let nn : (n == n) ≡ true = ground arith in
      elim (Bool-cases (v == 0)) [
        | inl vz ↦
            rw (ns, vz)
              (record {
                others = λ y p q. let f : (y == n) ≡ false = ground arith in rw f refl;
                at_next = λ ne. (rw nn refl, rw nn refl);
                at_prev = λ ne. absurd (ground arith);
              })
        | inr vs ↦
            let vv : (v == v) ≡ true = ground arith in
            let apart : v ≢ n = vn (ground arith) in
            let vnf : (v == n) ≡ false = ground arith in
            let nvf : (n == v) ≡ false = ground arith in
            rw (ns, vs)
              (record {
                others = λ y p q.
                    let f : (y == n) ≡ false = ground arith in
                    let g : (y == v) ≡ false = ground arith in rw (g, f) refl;
                at_next = λ ne. (rw (nvf, nn) refl, rw (nvf, nn) refl);
                at_prev = λ ne. (rw vv refl, rw (vv, vnf) refl);
              })
      ]
]

pub DLinks-others :
    (a b : ℕ → Pcb) (v n pr p : ℕ) (ps : List ℕ)
    → ((y : ℕ) → y ≢ n → y ≢ v → b y ≡ a y)
    → Misses n ps
    → Misses v ps
    → DLinks a pr p ps
    → DLinks b pr p ps
DLinks-others a b v n pr p [] u m w l = l
DLinks-others a b v n pr p (q ∷ qs) u (nq, m) (vq, w) (e, ne, back, l) =
    let same = u q (λ z. nq (sym z)) (λ z. vq (sym z)) in
    (e, ne, ap (λ x. x.prev) same ∙ back, rw same (DLinks-others a b v n q (a q).next qs u m w l))

-- The head of a queue after its process `c` was taken out, with `n` behind it.
unfoldable pub head_without : List ℕ → ℕ → ℕ → ℕ
head_without [] p n = n
head_without (x ∷ xs) p n = p

without_first_links :
    (a b : ℕ → Pcb) (pr n : ℕ) (c : ℕ) (ys : List ℕ)
    → Unlinked a b pr n
    → Distinct ys
    → Misses pr ys
    → DLinks a c n ys
    → DLinks b pr n ys
without_first_links a b pr n c [] u d m l = l
without_first_links a b pr n c (y ∷ ys) u (out, d) (py, m) (e, ne, back, l) =
    let at = u.at_next (λ z. ne (sym e ∙ z)) in
    let next : (b y).next ≡ (a y).next =
      ap (λ x. (b x).next) (sym e) ∙ at.1 ∙ ap (λ x. (a x).next) e in
    (
      e,
      ne,
      ap (λ x. (b x).prev) (sym e) ∙ at.0,
      rw next (DLinks-others a b pr n y (a y).next ys u.others (rw e out) m l),
    )

pub without_links :
    (a b : ℕ → Pcb) (pr p c n : ℕ) (xs ys : List ℕ)
    → Unlinked a b (last_or pr xs) n
    → (a c).next ≡ n
    → n ≡ first_of ys
    → Distinct (xs ++ (c ∷ ys))
    → Misses pr ys
    → DLinks a pr p (xs ++ (c ∷ ys))
    → DLinks b pr (head_without xs p n) (xs ++ ys)
unfolding last_or head_without
without_links a b pr p c n [] ys u en fn (out, d) m (e, ne, back, l) =
    without_first_links a b pr n c ys u d m (rw en at l)
without_links a b pr p c n (x ∷ []) ys u en fn (out, d) m (e, ne, back, l) =
    let at = u.at_prev ne in
    (e, ne, at.1 ∙ back, rw at.0 (without_links a b x (a x).next c n [] ys u en fn d out.1 l))
without_links a b pr p c n (x ∷ x2 ∷ xs) ys u en fn (out, d) m (e, ne, back, l) =
    let x_last : x ≢ last_or x2 xs = last_or-ne x x2 xs out.0 (Misses-left x xs (c ∷ ys) out.1) in
    let x_next : x ≢ n = λ z. first_of-ne x ys ne (Misses-right x xs (c ∷ ys) out.1).1 (z ∙ fn) in
    let same = u.others x x_next x_last in
    let ys_out : Misses x ys = (Misses-right x xs (c ∷ ys) out.1).1 in
    (
      e,
      ne,
      ap (λ y. y.prev) same ∙ back,
      rw same (without_links a b x (a x).next c n (x2 ∷ xs) ys u en fn d ys_out l),
    )

-- What `unlink` of the process `c` between `xs` and `ys` does.
pub unlink-Unlinked :
    (a : ℕ → Pcb) (p c : ℕ) (xs ys : List ℕ)
    → DLinks a 0 p (xs ++ (c ∷ ys))
    → Distinct (xs ++ (c ∷ ys))
    → Unlinked a (unlink a c) (last_or 0 xs) (a c).next
unlink-Unlinked a p c xs ys l d =
    let next = DLinks-next a 0 p c xs ys l in
    let ys_apart = Distinct-right xs (c ∷ ys) d in
    let cn : c ≢ (a c).next = λ z. first_of-ne c ys next.1 ys_apart.0 (z ∙ next.0) in
    let zero_out = Misses-right 0 xs (c ∷ ys) (DLinks-nonnull a 0 p (xs ++ (c ∷ ys)) l) in
    let v_out = last_or-Misses 0 c xs ys d zero_out.1 in
    let vn : (a c).next ≢ 0 → last_or 0 xs ≢ (a c).next =
      λ ne z. first_of-ne_some (last_or 0 xs) ys v_out (λ k. ne (next.0 ∙ k)) (z ∙ next.0) in
    rw (unlink-relinked a c (last_or 0 xs) (a c).next (DLinks-prev a 0 p c xs ys l) refl cn)
      (relinked-Unlinked a (last_or 0 xs) (a c).next vn)

-- A process `c` of a queue is taken out of it by `unlink`: the others stay in their order, linked both ways.
pub unlink-DLinks :
    (a : ℕ → Pcb) (p c : ℕ) (xs ys : List ℕ)
    → DLinks a 0 p (xs ++ (c ∷ ys))
    → Distinct (xs ++ (c ∷ ys))
    → DLinks (unlink a c) 0 (head_without xs p (a c).next) (xs ++ ys)
unlink-DLinks a p c xs ys l d =
    let zero_out = Misses-right 0 xs (c ∷ ys) (DLinks-nonnull a 0 p (xs ++ (c ∷ ys)) l) in
    without_links a (unlink a c) 0 p c (a c).next xs ys (unlink-Unlinked a p c xs ys l d) refl
      (DLinks-next a 0 p c xs ys l).0 d zero_out.1 l

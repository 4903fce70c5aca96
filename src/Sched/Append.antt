-- ===== src/Sched/Append.antt =====
-- The queues of sys/syscall.c as doubly linked lists: putting a process behind the last one.
use preemptive_unix_os.Base.{
  Misses, Distinct, ℕ, suc, zero, ◌<◌, ◌≡◌, ◌≢◌, ◌∙◌, inl, inr, refl, sym, ap, List, [], ◌∷◌, ◌++◌,
  length, arith, Bool-cases, ◌==◌, true, false, if◌then◌else◌, ok,
}
use preemptive_unix_os.Sched.{Pcb, put_last, last_from}
use preemptive_unix_os.Sched.Queue.{DLinks, last_or, last_or-ne}

-- The processes `b` after `c` was put behind `last` in `a`.
pub record Put (a b : ℕ → Pcb) (last c : ℕ) : Type 0 where
  pub new : ((b c).prev ≡ last) × ((b c).next ≡ 0)
  pub link : last ≢ 0 → ((b last).next ≡ c) × ((b last).prev ≡ (a last).prev)
  pub others : (y : ℕ) → y ≢ c → y ≢ last → b y ≡ a y

pub put_last-Put : (a : ℕ → Pcb) (last c : ℕ) → c ≢ last → Put a (put_last a last c) last c
unfolding put_last
put_last-Put a last c ne =
    let cc : (c == c) ≡ true = ground arith in
    let ll : (last == last) ≡ true = ground arith in
    let lc : (last == c) ≡ false = ground arith in
    elim (Bool-cases (last == 0)) [
      | inl z ↦ rw z (record {
        new = (rw cc refl, rw cc refl);
        link = λ n. absurd (ground arith);
        others = λ y p q. let f : (y == c) ≡ false = ground arith in rw f refl;
      })
      | inr nz ↦ rw nz (record {
        new = (rw cc refl, rw cc refl);
        link = λ n. (rw (lc, ll) refl, rw (lc, ll) refl);
        others = λ y p q.
            let f : (y == c) ≡ false = ground arith in
            let g : (y == last) ≡ false = ground arith in rw (f, g) refl;
      })
    ]

-- The head of a queue with `c` behind its processes.
unfoldable pub head_with : List ℕ → ℕ → ℕ → ℕ
head_with [] p c = c
head_with (z ∷ zs) p c = p

pub head_with_lem :
    (a : ℕ → Pcb) (p c : ℕ) (zs : List ℕ)
    → DLinks a 0 p zs
    → head_with zs p c ≡ (if p == 0 then c else p)
unfolding head_with
head_with_lem a p c [] l = let f : (p == 0) ≡ true = ground arith in rw f refl
head_with_lem a p c (z ∷ zs) (e, ne, _, _) = let f : (p == 0) ≡ false = ground arith in rw f refl

-- A process that is in no queue goes behind the last one of a queue, linked both ways.
pub with_last_links :
    (a b : ℕ → Pcb) (pr p c : ℕ) (zs : List ℕ)
    → Put a b (last_or pr zs) c
    → c ≢ 0
    → Misses c zs
    → Distinct zs
    → DLinks a pr p zs
    → DLinks b pr (head_with zs p c) (zs ++ (c ∷ []))
unfolding last_or head_with
with_last_links a b pr p c [] u cn m d l = (refl, cn, u.new.0, u.new.1)
with_last_links a b pr p c (z ∷ []) u cn m d (e, ne, back, l) =
    let at = u.link ne in (e, ne, at.1 ∙ back, (at.0, cn, u.new.0, u.new.1))
with_last_links a b pr p c (z ∷ z2 ∷ zs) u cn (cz, m) (out, d) (e, ne, back, l) =
    let same = u.others z (λ k. cz (sym k)) (last_or-ne z z2 zs out.0 out.1) in
    (
      e,
      ne,
      ap (λ y. y.prev) same ∙ back,
      rw same (with_last_links a b z (a z).next c (z2 ∷ zs) u cn m d l),
    )

pub last_from_lem :
    (n : ℕ) (a : ℕ → Pcb) (pr p : ℕ) (zs : List ℕ)
    → DLinks a pr p zs
    → length zs < n
    → last_from n a p ≡ ok (last_or 0 zs)
unfolding last_from last_or
last_from_lem zero a pr p zs l h = absurd (omega arith)
last_from_lem (suc n) a pr p [] l h = let f : (p == 0) ≡ true = ground arith in rw f refl
last_from_lem (suc n) a pr p (z ∷ []) (e, ne, back, l) h =
    let f : (p == 0) ≡ false = ground arith in
    let g : ((a z).next == 0) ≡ true = ground arith in rw (f, e, g) refl
last_from_lem (suc n) a pr p (z ∷ z2 ∷ zs) (e, ne, back, l) h =
    let f : (p == 0) ≡ false = ground arith in
    let g : ((a z).next == 0) ≡ false = ground (arith, l.0, l.1) in
    rw (f, e, g) (last_from_lem n a z (a z).next (z2 ∷ zs) l (omega arith))

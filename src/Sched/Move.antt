-- ===== src/Sched/Move.antt =====
-- The links of sys/timer.c and sys/syscall.c, where a process leaves one queue and goes to the end of another one.
use preemptive_unix_os.Base.{
  Bool, Misses, Distinct, Misses-append, Misses-right, ℕ, ◌≡◌, ◌≢◌, ◌∙◌, refl, sym, ap, inl, inr,
  List, [], ◌∷◌, ◌++◌, arith, Bool-cases, update, ◌==◌, true, false, if◌then◌else◌,
}
use preemptive_unix_os.Sched.{Pcb, unlink_back, put_last}
use preemptive_unix_os.Sched.Queue.{
  DLinks, last_or, last_or-ne, last_or-apart, last_or-Misses, first_of-ne_some, DLinks-next,
  DLinks-prev, DLinks-nonnull, DLinks-others, Unlinked, head_without, without_links,
}
use preemptive_unix_os.Sched.Running.{
  Apart, SameLinks, DLinks-SameLinks, Misses-skip, self-Misses, c-Misses, before-Misses,
  after-Misses, last-Misses,
}
use preemptive_unix_os.Sched.Append.{put_last-Put, head_with, with_last_links}

-- `unlink_back`, with the two neighbours given.
abbrev relinked_back : (ℕ → Pcb) → ℕ → ℕ → ℕ → Pcb
relinked_back a v n =
    let a1 = if v == 0 then a else update a v (record (a v) { next = n }) in
    if n == 0 then a1 else update a1 n (record (a1 n) { prev = v })

unlink_back-relinked :
    (a : ℕ → Pcb) (c v n : ℕ)
    → (a c).prev ≡ v
    → (a c).next ≡ n
    → c ≢ v
    → unlink_back a c ≡ relinked_back a v n
unfolding unlink_back
unlink_back-relinked a c v n ev en cv =
    let f : (c == v) ≡ false = ground arith in
    elim (Bool-cases (v == 0)) [
      | inl z ↦ rw (ev, z, en, ev) refl
      | inr nz ↦ rw (ev, nz, f, en, ev) refl
    ]

relinked_back-Unlinked :
    (a : ℕ → Pcb) (v n : ℕ) → (n ≢ 0 → v ≢ n) → Unlinked a (relinked_back a v n) v n
relinked_back-Unlinked a v n vn = elim (Bool-cases (v == 0)) [
  | inl vz ↦ elim (Bool-cases (n == 0)) [
    | inl nz ↦
        rw (vz, nz)
          (record {
            others = λ y p q. refl;
            at_next = λ ne. absurd (ground arith);
            at_prev = λ ne. absurd (ground arith);
          })
    | inr ns ↦
        let nn : (n == n) ≡ true = ground arith in
        rw (vz, ns)
          (record {
            others = λ y p q. let f : (y == n) ≡ false = ground arith in rw f refl;
            at_next = λ ne. (rw nn refl, rw nn refl);
            at_prev = λ ne. absurd (ground arith);
          })
  ]
  | inr vs ↦
      let vv : (v == v) ≡ true = ground arith in
      elim (Bool-cases (n == 0)) [
        | inl nz ↦
            rw (vs, nz)
              (record {
                others = λ y p q. let f : (y == v) ≡ false = ground arith in rw f refl;
                at_next = λ ne. absurd (ground arith);
                at_prev = λ ne. (rw vv refl, rw vv refl);
              })
        | inr ns ↦
            let nn : (n == n) ≡ true = ground arith in
            let apart : v ≢ n = vn (ground arith) in
            let vnf : (v == n) ≡ false = ground arith in
            let nvf : (n == v) ≡ false = ground arith in
            rw (vs, ns)
              (record {
                others = λ y p q.
                    let f : (y == n) ≡ false = ground arith in
                    let g : (y == v) ≡ false = ground arith in rw (f, g) refl;
                at_next = λ ne. (rw nn refl, rw (nn, nvf) refl);
                at_prev = λ ne. (rw (vnf, vv) refl, rw (vnf, vv) refl);
              })
      ]
]

module _ (a : ℕ → Pcb) (p c : ℕ) (xs ys : List ℕ) (l : DLinks a 0 p (xs ++ (c ∷ ys)))
    (d : Distinct (xs ++ (c ∷ ys))) where
  -- What `unlink_back` of the process `c` between `xs` and `ys` does.
  pub unlink_back-Unlinked : Unlinked a (unlink_back a c) (last_or 0 xs) (a c).next
  unlink_back-Unlinked =
      let next = DLinks-next a 0 p c xs ys l in
      let zero_out = Misses-right 0 xs (c ∷ ys) (DLinks-nonnull a 0 p (xs ++ (c ∷ ys)) l) in
      let v_out = last_or-Misses 0 c xs ys d zero_out.1 in
      let vn : (a c).next ≢ 0 → last_or 0 xs ≢ (a c).next =
        λ ne z. first_of-ne_some (last_or 0 xs) ys v_out (λ k. ne (next.0 ∙ k)) (z ∙ next.0) in
      rw
        (unlink_back-relinked a c (last_or 0 xs) (a c).next (DLinks-prev a 0 p c xs ys l) refl
          (last_or-apart 0 c xs ys d next.1))
        (relinked_back-Unlinked a (last_or 0 xs) (a c).next vn)

  -- The others stay in their order, linked both ways.
  pub unlink_back-DLinks : DLinks (unlink_back a c) 0 (head_without xs p (a c).next) (xs ++ ys)
  unlink_back-DLinks =
      let zero_out = Misses-right 0 xs (c ∷ ys) (DLinks-nonnull a 0 p (xs ++ (c ∷ ys)) l) in
      without_links a (unlink_back a c) 0 p c (a c).next xs ys unlink_back-Unlinked refl
        (DLinks-next a 0 p c xs ys l).0 d zero_out.1 l

-- The queue `zs` from `h` and the queue `rs` from `q` share no process.
pub record Both (a : ℕ → Pcb) (h : ℕ) (zs : List ℕ) (q : ℕ) (rs : List ℕ) : Type 0 where
  pub one : DLinks a 0 h zs
  pub other : DLinks a 0 q rs
  pub one_distinct : Distinct zs
  pub other_distinct : Distinct rs
  pub apart : Apart rs zs

Distinct-skip :
    (xs : List ℕ) (c : ℕ) (ys : List ℕ) → Distinct (xs ++ (c ∷ ys)) → Distinct (xs ++ ys)
Distinct-skip [] c ys d = d.1
Distinct-skip (x ∷ xs) c ys (out, d) = (Misses-skip x c xs ys out, Distinct-skip xs c ys d)

Distinct-last : (rs : List ℕ) (c : ℕ) → Distinct rs → Misses c rs → Distinct (rs ++ (c ∷ []))
Distinct-last [] c d m = (tt, tt)
Distinct-last (r ∷ rs) c (out, d) (ne, m) =
    (Misses-append r rs (c ∷ []) out (λ e. ne (sym e), tt), Distinct-last rs c d m)

Apart-moved :
    (rs xs : List ℕ) (c : ℕ) (ys : List ℕ)
    → Apart rs (xs ++ (c ∷ ys))
    → Misses c (xs ++ ys)
    → Apart (rs ++ (c ∷ [])) (xs ++ ys)
Apart-moved [] xs c ys a m = (m, tt)
Apart-moved (r ∷ rs) xs c ys (out, a) m = (Misses-skip r c xs ys out, Apart-moved rs xs c ys a m)

-- Another queue keeps its links.
pub unlink_back-other :
    (a : ℕ → Pcb) (h : ℕ) (xs : List ℕ) (c : ℕ) (ys : List ℕ) (q : ℕ) (rs : List ℕ)
    → DLinks a 0 h (xs ++ (c ∷ ys))
    → Distinct (xs ++ (c ∷ ys))
    → DLinks a 0 q rs
    → Apart rs (xs ++ (c ∷ ys))
    → DLinks (unlink_back a c) 0 q rs
unlink_back-other a h xs c ys q rs l d k apart =
    let out = DLinks-nonnull a 0 q rs k in
    let next = DLinks-next a 0 h c xs ys l in
    DLinks-others a (unlink_back a c) (last_or 0 xs) (a c).next 0 q rs
      (unlink_back-Unlinked a h c xs ys l d).others (rw next.0 (after-Misses xs c ys rs out apart))
      (before-Misses xs c ys rs out apart) k

-- `c` leaves its queue and goes to the end of the other one; both keep their order and their links.
pub move-Both :
    (a : ℕ → Pcb) (h : ℕ) (xs : List ℕ) (c : ℕ) (ys : List ℕ) (q : ℕ) (rs : List ℕ)
    → Both a h (xs ++ (c ∷ ys)) q rs
    → Both
        (put_last (unlink_back a c) (last_or 0 rs) c)
        (head_without xs h (a c).next)
        (xs ++ ys)
        (head_with rs q c)
        (rs ++ (c ∷ []))
move-Both a h xs c ys q rs w =
    let next = DLinks-next a 0 h c xs ys w.one in
    let cm = c-Misses xs c ys rs w.apart in
    let b = unlink_back a c in
    let put = put_last-Put b (last_or 0 rs) c (last_or-ne c 0 rs next.1 cm) in
    let kept = unlink_back-other a h xs c ys q rs w.one w.one_distinct w.other w.apart in
    let zero_out = DLinks-nonnull a 0 h (xs ++ (c ∷ ys)) w.one in
    record {
      one =
          DLinks-others b (put_last b (last_or 0 rs) c) (last_or 0 rs) c 0
            (head_without xs h (a c).next) (xs ++ ys) put.others
            (self-Misses xs c ys w.one_distinct)
            (Misses-skip (last_or 0 rs) c xs ys (last-Misses xs c ys 0 rs zero_out w.apart))
            (unlink_back-DLinks a h c xs ys w.one w.one_distinct);
      other =
          with_last_links b (put_last b (last_or 0 rs) c) 0 q c rs put next.1 cm w.other_distinct
            kept;
      one_distinct = Distinct-skip xs c ys w.one_distinct;
      other_distinct = Distinct-last rs c w.other_distinct cm;
      apart = Apart-moved rs xs c ys w.apart (self-Misses xs c ys w.one_distinct);
    }

pub Both-SameLinks :
    (a b : ℕ → Pcb) (h : ℕ) (zs : List ℕ) (q : ℕ) (rs : List ℕ)
    → SameLinks a b
    → Both a h zs q rs
    → Both b h zs q rs
Both-SameLinks a b h zs q rs s w = record {
  one = DLinks-SameLinks a b 0 h zs s w.one;
  other = DLinks-SameLinks a b 0 q rs s w.other;
  one_distinct = w.one_distinct;
  other_distinct = w.other_distinct;
  apart = w.apart;
}

-- A change that leaves the time that is left alone.
update_time :
    (a : ℕ → Pcb) (x : ℕ) (v : Pcb) (y : ℕ)
    → v.sleep_time_left ≡ (a x).sleep_time_left
    → (update a x v y).sleep_time_left ≡ (a y).sleep_time_left
update_time a x v y k = elim (Bool-cases (y == x)) [
  | inl same ↦ let e : x ≡ y = ground arith in rw same (k ∙ ap (λ z. (a z).sleep_time_left) e)
  | inr other ↦ rw other refl
]

if_time :
    (b : Bool) (a : ℕ → Pcb) (x : ℕ) (v : Pcb) (y : ℕ)
    → v.sleep_time_left ≡ (a x).sleep_time_left
    → ((if b then a else update a x v) y).sleep_time_left ≡ (a y).sleep_time_left
if_time true a x v y k = refl
if_time false a x v y k = update_time a x v y k

put_last_time :
    (a : ℕ → Pcb) (last c y : ℕ) → (put_last a last c y).sleep_time_left ≡ (a y).sleep_time_left
unfolding put_last
put_last_time a last c y =
    update_time (if last == 0 then a else update a last (record (a last) { next = c })) c _ y refl
    ∙ if_time (last == 0) a last (record (a last) { next = c }) y refl

unlink_back_time :
    (a : ℕ → Pcb) (c y : ℕ) → (unlink_back a c y).sleep_time_left ≡ (a y).sleep_time_left
unfolding unlink_back
unlink_back_time a c y =
    let prev = (a c).prev in
    let a1 = if prev == 0 then a else update a prev (record (a prev) { next = (a c).next }) in
    let next = (a1 c).next in
    if_time (next == 0) a1 next (record (a1 next) { prev = (a1 c).prev }) y refl
    ∙ if_time (prev == 0) a prev (record (a prev) { next = (a c).next }) y refl

-- The moves change links only.
pub move_time :
    (a : ℕ → Pcb) (c last y : ℕ)
    → (put_last (unlink_back a c) last c y).sleep_time_left ≡ (a y).sleep_time_left
move_time a c last y = put_last_time (unlink_back a c) last c y ∙ unlink_back_time a c y

-- ===== src/Sched/Running.antt =====
-- The queues of sys/syscall.c around the running process, and what a dispatch by `SchNext` leaves alone.
use preemptive_unix_os.Base.{
  ◌^◌, leb, true, Misses, Distinct, Misses-append, Misses-left, Misses-right, ℕ, ◌<◌, ◌≡◌, ◌≢◌, ◌∙◌,
  inl, inr, refl, sym, ap, List, [], ◌∷◌, ◌++◌, length, arith, Bool-cases, update, ◌==◌, false,
  Ensures,
}
use preemptive_unix_os.Sched.{first_run, Pcb, Sched, sch_next, rounds}
use preemptive_unix_os.Sched.Queue.{DLinks, first_of, last_or, last_or-ne, first_of-ne}

-- Every process of `zs` is none of `ps`.
abbrev pub Apart : List ℕ → List ℕ → Type 0
Apart [] ps = Unit {0}
Apart (z ∷ zs) ps = Misses z ps × Apart zs ps

-- The process `c` runs, between `xs` and `ys` in the queue of those that can run, and `zs` sleep.
pub record Running (s : Sched) (xs : List ℕ) (c : ℕ) (ys zs : List ℕ) : Type 0 where
  pub current : s.current_pcb ≡ c
  pub run : DLinks s.pcbs 0 s.pcb_head (xs ++ (c ∷ ys))
  pub run_distinct : Distinct (xs ++ (c ∷ ys))
  pub sleeping : DLinks s.pcbs 0 s.sleep_pcb_head zs
  pub sleep_distinct : Distinct zs
  pub apart : Apart zs (xs ++ (c ∷ ys))
  pub few : length zs < rounds

-- Two states of the processes whose links agree.
abbrev pub SameLinks : (ℕ → Pcb) → (ℕ → Pcb) → Type 0
SameLinks a b = (y : ℕ) → ((b y).next ≡ (a y).next) × ((b y).prev ≡ (a y).prev)

pub DLinks-SameLinks :
    (a b : ℕ → Pcb) (pr p : ℕ) (ps : List ℕ) → SameLinks a b → DLinks a pr p ps → DLinks b pr p ps
DLinks-SameLinks a b pr p [] s l = l
DLinks-SameLinks a b pr p (q ∷ qs) s (e, ne, back, l) =
    (e, ne, (s q).1 ∙ back, rw (s q).0 (DLinks-SameLinks a b q (a q).next qs s l))

pub update-SameLinks :
    (a : ℕ → Pcb) (x : ℕ) (v : Pcb)
    → v.next ≡ (a x).next
    → v.prev ≡ (a x).prev
    → SameLinks a (update a x v)
update-SameLinks a x v en ep y = elim (Bool-cases (y == x)) [
  | inl same ↦
      let eq : y ≡ x = ground arith in
      rw same (en ∙ ap (λ z. (a z).next) (sym eq), ep ∙ ap (λ z. (a z).prev) (sym eq))
  | inr other ↦ rw other (refl, refl)
]

pub Misses-skip : (x c : ℕ) (xs ys : List ℕ) → Misses x (xs ++ (c ∷ ys)) → Misses x (xs ++ ys)
Misses-skip x c xs ys m =
    Misses-append x xs ys (Misses-left x xs (c ∷ ys) m) (Misses-right x xs (c ∷ ys) m).1

-- The links around `c` are in none of the sleeping processes.
module _ (xs : List ℕ) (c : ℕ) (ys : List ℕ) where
  pub c-Misses : (zs : List ℕ) → Apart zs (xs ++ (c ∷ ys)) → Misses c zs
  c-Misses [] a = tt
  c-Misses (z ∷ zs) (out, a) = (λ e. (Misses-right z xs (c ∷ ys) out).0 (sym e), c-Misses zs a)

  pub before-Misses :
      (zs : List ℕ) → Misses 0 zs → Apart zs (xs ++ (c ∷ ys)) → Misses (last_or 0 xs) zs
  before-Misses [] n a = tt
  before-Misses (z ∷ zs) (nz, n) (out, a) = (
    λ e. last_or-ne z 0 xs (λ k. nz (sym k)) (Misses-left z xs (c ∷ ys) out) (sym e),
    before-Misses zs n a,
  )

  pub after-Misses :
      (zs : List ℕ) → Misses 0 zs → Apart zs (xs ++ (c ∷ ys)) → Misses (first_of ys) zs
  after-Misses [] n a = tt
  after-Misses (z ∷ zs) (nz, n) (out, a) = (
    λ e. first_of-ne z ys (λ k. nz (sym k)) (Misses-right z xs (c ∷ ys) out).1 (sym e),
    after-Misses zs n a,
  )

  pub last-Misses :
      (pr : ℕ) (zs : List ℕ)
      → Misses pr (xs ++ (c ∷ ys))
      → Apart zs (xs ++ (c ∷ ys))
      → Misses (last_or pr zs) (xs ++ (c ∷ ys))
  unfolding last_or
  last-Misses pr [] m a = m
  last-Misses pr (z ∷ zs) m (out, a) = last-Misses z zs out a

pub self-Misses :
    (xs : List ℕ) (c : ℕ) (ys : List ℕ) → Distinct (xs ++ (c ∷ ys)) → Misses c (xs ++ ys)
self-Misses [] c ys d = d.0
self-Misses (x ∷ xs) c ys (out, d) =
    (λ e. (Misses-right x xs (c ∷ ys) out).0 (sym e), self-Misses xs c ys d)

-- The program of the process can be loaded, if it never ran.
abbrev pub Ready : Sched → ℕ → Type 0
Ready s p = s.loads p ≡ true

-- What `SchNext` leaves alone: all links, the heads of the two queues, how long a process
-- sleeps, and the numbers of the processes that do not run.
pub record Dispatched (s s' : Sched) : Type 0 where
  pub links : SameLinks s.pcbs s'.pcbs
  pub head : s'.pcb_head ≡ s.pcb_head
  pub sleep_head : s'.sleep_pcb_head ≡ s.sleep_pcb_head
  pub current : s'.current_pcb ≡ s.current_pcb
  pub time_left : (y : ℕ) → (s'.pcbs y).sleep_time_left ≡ (s.pcbs y).sleep_time_left
  pub number : (y : ℕ) → y ≢ s.current_pcb → (s'.pcbs y).process_id ≡ (s.pcbs y).process_id

-- A change of the running process that leaves its links and the time that it sleeps.
Dispatched-update :
    (s : Sched) (v : Pcb) (num counter : ℕ)
    → v.next ≡ (s.pcbs s.current_pcb).next
    → v.prev ≡ (s.pcbs s.current_pcb).prev
    → v.sleep_time_left ≡ (s.pcbs s.current_pcb).sleep_time_left
    → Dispatched s (record s {
      pcbs = update s.pcbs s.current_pcb v;
      num_processes = num;
      global_counter = counter;
    })
Dispatched-update s v num counter n p t = record {
  links = update-SameLinks s.pcbs s.current_pcb v n p;
  head = refl;
  sleep_head = refl;
  current = refl;
  time_left = λ y. elim (Bool-cases (y == s.current_pcb)) [
    | inl same ↦
        let eq : y ≡ s.current_pcb = ground arith in
        rw same (t ∙ ap (λ z. (s.pcbs z).sleep_time_left) (sym eq))
    | inr other ↦ rw other refl
  ];
  number = λ y ne. let other : (y == s.current_pcb) ≡ false = ground arith in rw other refl;
}

first_run-Dispatched : (s : Sched) → Dispatched s (first_run s s.current_pcb)
unfolding first_run
first_run-Dispatched s = elim (Bool-cases (leb (2 ^ 31) (s.pcbs s.current_pcb).process_id)) [
  | inl none ↦ rw none (Dispatched-update s _ _ _ refl refl refl)
  | inr some ↦ rw some (Dispatched-update s _ s.num_processes s.global_counter refl refl refl)
]

pub sch_next-Dispatched :
    (s : Sched) → s.current_pcb ≢ 0 → Ready s s.current_pcb → Ensures (Dispatched s) (sch_next s)
unfolding sch_next
sch_next-Dispatched s ne ready =
    let e : (s.current_pcb == 0) ≡ false = ground arith in
    elim (Bool-cases ((s.pcbs s.current_pcb).has_ran == 0)) [
      | inr ran ↦
          rw (e, ran) (Dispatched-update s _ s.num_processes s.global_counter refl refl refl)
      | inl never ↦ rw (e, never, ready) (first_run-Dispatched s)
    ]

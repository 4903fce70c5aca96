-- ===== src/Sched/Exit/Delete.antt =====
-- What `deleteNode` of sys/syscall.c does to a queue.
use preemptive_unix_os.Base.{
  Misses, Misses-right, Distinct, ℕ, zero, suc, ◌<◌, ◌≡◌, ◌≢◌, ◌∙◌, refl, ap, inl, inr, List, [],
  ◌∷◌, ◌++◌, length, arith, Bool-cases, ◌==◌, true, false, if◌then◌else◌, ok,
}
use preemptive_unix_os.Sched.{Pcb, Sched, rounds, unlink_back}
use preemptive_unix_os.Sched.Exit.{unlink_from, delete_node}
use preemptive_unix_os.Sched.Queue.{DLinks, first_of, DLinks-next}

-- A process that is in the queue is found and unlinked.
unlink_from-found :
    (n : ℕ) (a : ℕ → Pcb) (pr p : ℕ) (xs : List ℕ) (c : ℕ) (ys : List ℕ)
    → DLinks a pr p (xs ++ (c ∷ ys))
    → Distinct (xs ++ (c ∷ ys))
    → length xs < n
    → unlink_from n a p c ≡ ok (unlink_back a c)
unfolding unlink_from
unlink_from-found zero a pr p xs c ys l d h = absurd (omega arith)
unlink_from-found (suc n) a pr p [] c ys (e, ne, back, l) d h =
    let f : (p == 0) ≡ false = ground arith in
    let g : (p == c) ≡ true = ground arith in rw (f, g) (ap (λ x. ok (unlink_back a x)) e)
unlink_from-found (suc n) a pr p (x ∷ xs) c ys (e, ne, back, l) (out, d) h =
    let f : (p == 0) ≡ false = ground arith in
    let other : x ≢ c = (Misses-right x xs (c ∷ ys) out).0 in
    let g : (p == c) ≡ false = ground arith in
    rw (f, g, e) (unlink_from-found n a x (a x).next xs c ys l d (omega arith))

-- A process that is not in the queue is not found, and nothing changes.
unlink_from-missing :
    (n : ℕ) (a : ℕ → Pcb) (pr p c : ℕ) (zs : List ℕ)
    → DLinks a pr p zs
    → Misses c zs
    → length zs < n
    → unlink_from n a p c ≡ ok a
unfolding unlink_from
unlink_from-missing zero a pr p c zs l m h = absurd (omega arith)
unlink_from-missing (suc n) a pr p c [] l m h = let f : (p == 0) ≡ true = ground arith in rw f refl
unlink_from-missing (suc n) a pr p c (z ∷ zs) (e, ne, back, l) (cz, m) h =
    let f : (p == 0) ≡ false = ground arith in
    let g : (p == c) ≡ false = ground arith in
    rw (f, g, e) (unlink_from-missing n a z (a z).next c zs l m (omega arith))

-- Who runs once the process `c`, with `next` behind it, is taken out.
abbrev pub successor : Sched → ℕ → ℕ → ℕ
successor s c next =
    if c == s.current_pcb then (if next == 0 then s.pcb_head else next) else s.current_pcb

abbrev pub deleted : Sched → ℕ → ℕ → Sched
deleted s c next = record s { pcbs = unlink_back s.pcbs c; current_pcb = successor s c next }

-- `deleteNode` of a process behind the head of its queue.
pub delete_node-found :
    (s : Sched) (head x : ℕ) (xs : List ℕ) (c : ℕ) (ys : List ℕ)
    → DLinks s.pcbs 0 head ((x ∷ xs) ++ (c ∷ ys))
    → Distinct ((x ∷ xs) ++ (c ∷ ys))
    → length (x ∷ xs) < rounds
    → delete_node s head c ≡ ok (deleted s c (first_of ys))
unfolding delete_node
delete_node-found s head x xs c ys l d h =
    let other : x ≢ c = (Misses-right x xs (c ∷ ys) d.0).0 in
    let f : (head == c) ≡ false = ground (arith, l.0) in
    let found = unlink_from-found rounds s.pcbs 0 head (x ∷ xs) c ys l d h in
    let next = DLinks-next s.pcbs 0 head c (x ∷ xs) ys l in
    elim (Bool-cases (c == s.current_pcb)) [
      | inl runs ↦
          let e : (s.pcbs s.current_pcb).next ≡ first_of ys =
            ap (λ (p : ℕ). (s.pcbs p).next) (ground arith) ∙ next.0 in
          rw (f, found, runs, e) refl
      | inr waits ↦ rw (f, found, waits) refl
    ]

head_ne :
    (a : ℕ → Pcb) (head c : ℕ) (zs : List ℕ)
    → DLinks a 0 head zs
    → Misses c zs
    → c ≢ 0
    → (head == c) ≡ false
head_ne a head c [] l m ne = ground arith
head_ne a head c (z ∷ zs) l m ne = ground (arith, l.0, m.0)

-- `deleteNode` on a queue that the process is not in changes no link, and no other process gets the processor.
pub delete_node-missing :
    (s : Sched) (head c : ℕ) (zs : List ℕ)
    → DLinks s.pcbs 0 head zs
    → Misses c zs
    → c ≢ 0
    → s.current_pcb ≢ c
    → length zs < rounds
    → delete_node s head c ≡ ok s
unfolding delete_node
delete_node-missing s head c zs l m ne run h =
    let f : (c == s.current_pcb) ≡ false = ground arith in
    rw (head_ne s.pcbs head c zs l m ne, unlink_from-missing rounds s.pcbs 0 head c zs l m h, f)
      refl

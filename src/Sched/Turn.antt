-- ===== src/Sched/Turn.antt =====
-- The turns that the timer of sys/timer.c gives to the processes that can run.
use preemptive_unix_os.Base.{
  ◌⊎◌, leb, add64, ℕ, suc, zero, ◌-◌, ◌^◌, ◌≤◌, ◌<◌, ◌≡◌, ◌≢◌, ◌∙◌, inl, inr, refl, sym, ap, List,
  [], ◌∷◌, length, arith, Bool-cases, update, ◌==◌, true, false, fault, Ensures, Ensures-weaken,
}
use preemptive_unix_os.Sched.{Pcb, Sched, sch_next, sys_yield, next_turn, timer_turn, first_run}

-- From `p` on, `next` leads through the processes `ps` to NULL.
abbrev pub Links : (ℕ → Pcb) → ℕ → List ℕ → Type 0
Links pcbs p [] = p ≡ 0
Links pcbs p (q ∷ qs) = (p ≡ q) × (q ≢ 0) × Links pcbs (pcbs q).next qs

-- The process at a place of the queue, 0 behind its end.
unfoldable pub entry : List ℕ → ℕ → ℕ
entry [] n = 0
entry (q ∷ qs) zero = q
entry (q ∷ qs) (suc n) = entry qs n

entry-inside :
    (a : ℕ → Pcb) (p : ℕ) (ps : List ℕ) (n : ℕ) → Links a p ps → n < length ps → entry ps n ≢ 0
unfolding entry
entry-inside a p [] n l h = absurd (omega arith)
entry-inside a p (q ∷ qs) zero (e, ne, l) h = ne
entry-inside a p (q ∷ qs) (suc n) (e, ne, l) h = entry-inside a (a q).next qs n l (omega arith)

entry-outside : (ps : List ℕ) (n : ℕ) → length ps ≤ n → entry ps n ≡ 0
unfolding entry
entry-outside [] n h = refl
entry-outside (q ∷ qs) zero h = absurd (omega arith)
entry-outside (q ∷ qs) (suc n) h = entry-outside qs n (omega arith)

entry-head : (a : ℕ → Pcb) (p : ℕ) (ps : List ℕ) → Links a p ps → entry ps 0 ≡ p
unfolding entry
entry-head a p [] l = sym l
entry-head a p (q ∷ qs) (e, ne, l) = sym e

entry-next :
    (a : ℕ → Pcb) (p : ℕ) (ps : List ℕ) (n : ℕ)
    → Links a p ps
    → n < length ps
    → (a (entry ps n)).next ≡ entry ps (suc n)
unfolding entry
entry-next a p [] n l h = absurd (omega arith)
entry-next a p (q ∷ qs) zero (e, ne, l) h = sym (entry-head a (a q).next qs l)
entry-next a p (q ∷ qs) (suc n) (e, ne, l) h = entry-next a (a q).next qs n l (omega arith)

-- The queue of `s'` is that of `s`, its processes have the same numbers, and nobody else waits or sleeps.
pub record SameQueue (s s' : Sched) : Type 0 where
  pub next : (p : ℕ) → (s'.pcbs p).next ≡ (s.pcbs p).next
  pub number : (p : ℕ) → (s'.pcbs p).process_id ≡ (s.pcbs p).process_id
  pub head : s'.pcb_head ≡ s.pcb_head
  pub count : s'.num_processes ≡ s.num_processes
  pub waiting : s'.wait_pcb_head ≡ s.wait_pcb_head
  pub sleeping : s'.sleep_pcb_head ≡ s.sleep_pcb_head
  pub loads : s'.loads ≡ s.loads

SameQueue-trans : (s s1 s2 : Sched) → SameQueue s s1 → SameQueue s1 s2 → SameQueue s s2
SameQueue-trans s s1 s2 a b = record {
  next = λ p. b.next p ∙ a.next p;
  number = λ p. b.number p ∙ a.number p;
  head = b.head ∙ a.head;
  count = b.count ∙ a.count;
  waiting = b.waiting ∙ a.waiting;
  sleeping = b.sleeping ∙ a.sleeping;
  loads = b.loads ∙ a.loads;
}

-- The process has its number, and its program can be loaded if it never ran.
abbrev pub Numbered : Sched → ℕ → Type 0
Numbered s p = (s.loads p ≡ true) × ((s.pcbs p).process_id < 2 ^ 31)

update_next :
    (a : ℕ → Pcb) (x : ℕ) (v : Pcb) (p : ℕ)
    → v.next ≡ (a x).next
    → (update a x v p).next ≡ (a p).next
update_next a x v p e = elim (Bool-cases (p == x)) [
  | inl same ↦ let eq : p ≡ x = ground arith in rw same (e ∙ ap (λ y. (a y).next) (sym eq))
  | inr other ↦ rw other refl
]

update_number :
    (a : ℕ → Pcb) (x : ℕ) (v : Pcb) (p : ℕ)
    → v.process_id ≡ (a x).process_id
    → (update a x v p).process_id ≡ (a p).process_id
update_number a x v p e = elim (Bool-cases (p == x)) [
  | inl same ↦ let eq : p ≡ x = ground arith in rw same (e ∙ ap (λ y. (a y).process_id) (sym eq))
  | inr other ↦ rw other refl
]

SameQueue-update :
    (s : Sched) (v : Pcb)
    → v.next ≡ (s.pcbs s.current_pcb).next
    → v.process_id ≡ (s.pcbs s.current_pcb).process_id
    → SameQueue s (record s { pcbs = update s.pcbs s.current_pcb v })
SameQueue-update s v n e = record {
  next = λ p. update_next s.pcbs s.current_pcb v p n;
  number = λ p. update_number s.pcbs s.current_pcb v p e;
  head = refl;
  count = refl;
  waiting = refl;
  sleeping = refl;
  loads = refl;
}

sch_next-SameQueue :
    (s : Sched)
    → s.current_pcb ≢ 0
    → Numbered s s.current_pcb
    → Ensures (λ s'. SameQueue s s' × (s'.current_pcb ≡ s.current_pcb)) (sch_next s)
unfolding sch_next first_run
sch_next-SameQueue s ne (ready, numbered) =
    let e : (s.current_pcb == 0) ≡ false = ground arith in
    let some : leb (2 ^ 31) (s.pcbs s.current_pcb).process_id ≡ false = ground arith in
    elim (Bool-cases ((s.pcbs s.current_pcb).has_ran == 0)) [
      | inr ran ↦ rw (e, ran) (SameQueue-update s _ refl refl, refl)
      | inl never ↦ rw (e, never, ready, some) (SameQueue-update s _ refl refl, refl)
    ]

-- The state once the running process was charged with a turn.
abbrev pub charged : Sched → Sched
charged s = record s {
  pcbs =
      update s.pcbs s.current_pcb
        (record (s.pcbs s.current_pcb) { time = add64 (s.pcbs s.current_pcb).time 1 });
}

pub next_turn-charged : (s : Sched) → next_turn (charged s) ≡ next_turn s
unfolding next_turn
next_turn-charged s =
    let e : ((charged s).pcbs s.current_pcb).next ≡ (s.pcbs s.current_pcb).next =
      update_next s.pcbs s.current_pcb _ s.current_pcb refl in
    rw e refl

pub next_turn-nonnull : (s : Sched) → s.pcb_head ≢ 0 → next_turn s ≢ 0
unfolding next_turn
next_turn-nonnull s ne z = ground arith

timer_turn-SameQueue :
    (s : Sched)
    → s.current_pcb ≢ 0
    → s.pcb_head ≢ 0
    → s.num_processes ≢ 2 ^ 32 - 1
    → s.wait_pcb_head ≡ 0
    → Numbered s (next_turn s)
    → Ensures (λ s'. SameQueue s s' × (s'.current_pcb ≡ next_turn s)) (timer_turn s)
unfolding timer_turn
timer_turn-SameQueue s cn hn nn none_waits (ready, numbered) =
    let e4 : (s.wait_pcb_head == 0) ≡ true = ground arith in
    let e1 : (s.current_pcb == 0) ≡ false = ground arith in
    let e2 : (s.pcb_head == 0) ≡ false = ground arith in
    let e3 : (s.num_processes == 2 ^ 32 - 1) ≡ false = ground arith in
    let s2 : Sched = record (charged s) { current_pcb = next_turn s } in
    let same : SameQueue s (charged s) = SameQueue-update s _ refl refl in
    let same2 : SameQueue s s2 = record {
      next = same.next;
      number = same.number;
      head = refl;
      count = refl;
      waiting = refl;
      sleeping = refl;
      loads = refl;
    } in
    rw (e1, e2, e3, next_turn-charged s, e4)
      (Ensures-weaken (sch_next s2) (λ s' (kept, now). (SameQueue-trans s s2 s' same2 kept, now))
        (sch_next-SameQueue s2 (next_turn-nonnull s hn)
          (ready, rw (same.number (next_turn s)) numbered)))

lt_or_eq : (a b : ℕ) → a ≤ b → (a < b) ⊎ (a ≡ b)
lt_or_eq a b h = ground arith

module _ (s : Sched) (ps : List ℕ) (queue : Links s.pcbs s.pcb_head ps)
    (some_process : s.pcb_head ≢ 0) (started : s.num_processes ≢ 2 ^ 32 - 1)
    (none_waits : s.wait_pcb_head ≡ 0)
    (numbered : (i : ℕ) → i < length ps → Numbered s (entry ps i)) where
  -- After `n` turns, no more than there are processes.
  abbrev pub At : ℕ → Sched → Type 0
  At n s' =
      SameQueue s s'
      × (n < length ps → s'.current_pcb ≡ entry ps n)
      × (n ≡ length ps → s'.current_pcb ≡ s.pcb_head)

  next_turn-entry :
      (n : ℕ) (s' : Sched)
      → SameQueue s s'
      → n < length ps
      → s'.current_pcb ≡ entry ps n
      → (suc n < length ps → next_turn s' ≡ entry ps (suc n))
        × (suc n ≡ length ps → next_turn s' ≡ s.pcb_head)
  unfolding next_turn
  next_turn-entry n s' same h now =
      let e : (s'.pcbs s'.current_pcb).next ≡ entry ps (suc n) =
        ap (λ x. (s'.pcbs x).next) now
        ∙ same.next (entry ps n)
        ∙ entry-next s.pcbs s.pcb_head ps n queue h in
      (
        λ more.
            let f : (entry ps (suc n) == 0) ≡ false =
              ground (arith, entry-inside s.pcbs s.pcb_head ps (suc n) queue more) in
            rw (e, f) refl,
        λ done.
            let f : (entry ps (suc n) == 0) ≡ true =
              ground (arith, entry-outside ps (suc n) (omega arith)) in
            rw (e, f) same.head,
      )

  head_entry : entry ps 0 ≡ s.pcb_head
  head_entry = entry-head s.pcbs s.pcb_head ps queue

  some_entry : 0 < length ps
  some_entry =
      elim ps as (λ qs. Links s.pcbs s.pcb_head qs → 0 < length qs) [
        | [] ↦ λ l. absurd (some_process l)
        | q ∷ qs ↦ λ l. omega arith
      ]
        queue

  next-Numbered : (n : ℕ) (s' : Sched) → At n s' → n < length ps → Numbered s' (next_turn s')
  next-Numbered n s' (same, now, _) h =
      let step = next_turn-entry n s' same h (now h) in
      let kept : (i : ℕ) → i < length ps → Numbered s' (entry ps i) = λ i l.
        let ok_i = numbered i l in (rw same.loads ok_i.0, rw (same.number (entry ps i)) ok_i.1) in
      elim (lt_or_eq (suc n) (length ps) (omega arith)) [
        | inl more ↦ rw (step.0 more) (kept (suc n) more)
        | inr done ↦ rw (step.1 done, ← head_entry) (kept 0 some_entry)
      ]

  -- A turn of the timer.
  pub turn-At :
      (n : ℕ) (s1 : Sched) → At n s1 → n < length ps → Ensures (At (suc n)) (timer_turn s1)
  turn-At n s1 (same, now, back) h =
      let here = now h in
      let step = next_turn-entry n s1 same h here in
      let cn : s1.current_pcb ≢ 0 =
        λ z. entry-inside s.pcbs s.pcb_head ps n queue h (sym here ∙ z) in
      Ensures-weaken (timer_turn s1)
        (λ s2 (same2, now2).
          (SameQueue-trans s s1 s2 same same2, λ l. now2 ∙ step.0 l, λ e. now2 ∙ step.1 e))
        (timer_turn-SameQueue s1 cn (λ z. some_process (sym same.head ∙ z))
          (λ z. started (sym same.count ∙ z)) (same.waiting ∙ none_waits)
          (next-Numbered n s1 (same, now, back) h))

  pub start-At : s.current_pcb ≡ s.pcb_head → At 0 s
  start-At first = (
    record {
      next = λ p. refl;
      number = λ p. refl;
      head = refl;
      count = refl;
      waiting = refl;
      sleeping = refl;
      loads = refl;
    },
    λ l. first ∙ sym head_entry,
    λ e. first,
  )

sch_next-null : (s : Sched) → sch_next (record s { current_pcb = 0 }) ≡ fault
unfolding sch_next
sch_next-null s = refl

-- `sys_yield` switches to the head of the queue, which has its number, where another process is behind the caller, and follows NULL where
-- none is.
pub sys_yield_lem :
    (s : Sched)
    → s.current_pcb ≢ 0
    → s.pcb_head ≢ 0
    → Numbered s s.pcb_head
    → ((s.pcbs s.current_pcb).next ≢ 0 → Ensures (λ s'. s'.current_pcb ≡ s.pcb_head) (sys_yield s))
      × ((s.pcbs s.current_pcb).next ≡ 0 → sys_yield s ≡ fault)
unfolding sys_yield
sys_yield_lem s cn hn numbered =
    let e : (s.current_pcb == 0) ≡ false = ground arith in
    (
      λ more.
          let f : ((s.pcbs s.current_pcb).next == 0) ≡ false = ground arith in
          let s1 : Sched = record s { current_pcb = s.pcb_head } in
          rw (e, f)
            (Ensures-weaken (sch_next s1) (λ s' o. o.1) (sch_next-SameQueue s1 hn numbered)),
      λ last.
          let f : ((s.pcbs s.current_pcb).next == 0) ≡ true = ground arith in
          rw (e, f) (ap (λ x. sch_next (record s { current_pcb = x })) last ∙ sch_next-null s),
    )

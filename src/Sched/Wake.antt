-- ===== src/Sched/Wake.antt =====
-- The end of a wait in `timer_handler` of sys/timer.c.
use preemptive_unix_os.Base.{
  Misses, Distinct, ℕ, suc, ◌-◌, ◌^◌, ◌<◌, ◌≡◌, ◌≢◌, ◌∙◌, inl, inr, refl, sym, ap, List, [], ◌∷◌,
  ◌++◌, length, arith, Bool-cases, update, ◌==◌, true, false, if◌then◌else◌, ok, Ensures,
  Ensures-weaken,
}
use preemptive_unix_os.Sched.{
  Pcb, Sched, put_last, unlink_back, wake_waiting, timer_turn, next_turn, sch_next, rounds,
}
use preemptive_unix_os.Sched.Queue.{DLinks, last_or, last_or-ne}
use preemptive_unix_os.Sched.Append.{
  put_last-Put, head_with, head_with_lem, with_last_links, last_from_lem,
}
use preemptive_unix_os.Sched.Turn.{charged, next_turn-charged, next_turn-nonnull}
use preemptive_unix_os.Sched.Running.{
  SameLinks, DLinks-SameLinks, update-SameLinks, sch_next-Dispatched,
}

-- The state once the only waiting process `w` stands behind `last`.
abbrev woken : Sched → ℕ → ℕ → Sched
woken s w last =
    let a = put_last s.pcbs last w in
    record s { pcbs = update a w (record (a w) { sleep_time_left = 0 }); wait_pcb_head = 0 }

unlink_back-alone : (a : ℕ → Pcb) (w : ℕ) → (a w).next ≡ 0 → (a w).prev ≡ 0 → unlink_back a w ≡ a
unfolding unlink_back
unlink_back-alone a w n p = rw (p, n) refl

wake_waiting-alone :
    (n : ℕ) (s : Sched) (w last pid : ℕ)
    → w ≢ 0
    → (s.pcbs w).next ≡ 0
    → (s.pcbs w).prev ≡ 0
    → (s.pcbs w).wait_pid ≡ pid
    → wake_waiting (suc (suc n)) s w last pid ≡ ok (woken s w last)
unfolding wake_waiting
wake_waiting-alone n s w last pid wn next prev waits =
    let e : (w == 0) ≡ false = ground arith in
    let f : ((s.pcbs w).wait_pid == pid) ≡ true = ground arith in
    rw (e, f, unlink_back-alone s.pcbs w next prev, next, prev) refl

-- A process waits alone, for the number of the process that gets the next turn.
pub record Waits (s : Sched) (rs : List ℕ) (w : ℕ) : Type 0 where
  pub run : DLinks s.pcbs 0 s.pcb_head rs
  pub distinct : Distinct rs
  pub few : length rs < rounds
  pub apart : Misses w rs
  pub nonnull : (w ≢ 0) × (s.pcb_head ≢ 0) × (s.current_pcb ≢ 0)
  pub ready : s.loads (next_turn s) ≡ true
  pub started : s.num_processes ≢ 2 ^ 32 - 1
  pub head : s.wait_pcb_head ≡ w
  pub alone : ((s.pcbs w).next ≡ 0) × ((s.pcbs w).prev ≡ 0)
  pub waits : (s.pcbs w).wait_pid ≡ (s.pcbs (next_turn s)).process_id

charged-fields :
    (s : Sched) (y : ℕ)
    → (((charged s).pcbs y).wait_pid ≡ (s.pcbs y).wait_pid)
      × (((charged s).pcbs y).process_id ≡ (s.pcbs y).process_id)
charged-fields s y = elim (Bool-cases (y == s.current_pcb)) [
  | inl same ↦
      let eq : s.current_pcb ≡ y = ground arith in
      rw same (ap (λ z. (s.pcbs z).wait_pid) eq, ap (λ z. (s.pcbs z).process_id) eq)
  | inr other ↦ rw other (refl, refl)
]

-- A process that waits alone, for the process that gets the next turn of the timer, can run again behind those that can as
-- soon as the turn begins.
pub timer_turn-wakes :
    (s : Sched) (rs : List ℕ) (w : ℕ)
    → Waits s rs w
    → Ensures
        (λ s'. DLinks s'.pcbs 0 s'.pcb_head (rs ++ (w ∷ [])) × (s'.current_pcb ≡ next_turn s))
        (timer_turn s)
unfolding timer_turn
timer_turn-wakes s rs w v =
    let e1 : (s.current_pcb == 0) ≡ false = ground (arith, v.nonnull.2) in
    let e2 : (s.pcb_head == 0) ≡ false = ground (arith, v.nonnull.1) in
    let e3 : (s.num_processes == 2 ^ 32 - 1) ≡ false = ground (arith, v.started) in
    let e4 : (s.wait_pcb_head == 0) ≡ false = ground (arith, v.head, v.nonnull.0) in
    let s2 : Sched = record (charged s) { current_pcb = next_turn s } in
    let links : SameLinks s.pcbs s2.pcbs = update-SameLinks s.pcbs s.current_pcb _ refl refl in
    let run = DLinks-SameLinks s.pcbs s2.pcbs 0 s.pcb_head rs links v.run in
    let last = last_or 0 rs in
    let found = last_from_lem rounds s2.pcbs 0 s.pcb_head rs run v.few in
    let pid = (s2.pcbs (next_turn s)).process_id in
    let wakes : wake_waiting rounds s2 s.wait_pcb_head last pid ≡ ok (woken s2 w last) =
      ap (λ x. wake_waiting rounds s2 x last pid) v.head
      ∙ wake_waiting-alone 999 s2 w last pid v.nonnull.0 ((links w).0 ∙ v.alone.0)
          ((links w).1 ∙ v.alone.1)
          ((charged-fields s w).0 ∙ v.waits ∙ sym (charged-fields s (next_turn s)).1) in
    let out = put_last-Put s2.pcbs last w (last_or-ne w 0 rs v.nonnull.0 v.apart) in
    let queue =
      with_last_links s2.pcbs (put_last s2.pcbs last w) 0 s.pcb_head w rs out v.nonnull.0 v.apart
        v.distinct run in
    let same_head : head_with rs s.pcb_head w ≡ s.pcb_head =
      head_with_lem s2.pcbs s.pcb_head w rs run ∙ ap (λ b. if b then w else s.pcb_head) e2 in
    rw (e1, e2, e3, next_turn-charged s, e4, found, wakes)
      (Ensures-weaken (sch_next (woken s2 w last))
        (λ s' d. (
          rw (d.head, ← same_head)
              (DLinks-SameLinks (woken s2 w last).pcbs s'.pcbs 0 (head_with rs s.pcb_head w)
                (rs ++ (w ∷ [])) d.links
                (DLinks-SameLinks (put_last s2.pcbs last w) (woken s2 w last).pcbs 0
                  (head_with rs s.pcb_head w) (rs ++ (w ∷ []))
                  (update-SameLinks (put_last s2.pcbs last w) w _ refl refl) queue)),
          d.current,
        ))
        (sch_next-Dispatched (woken s2 w last) (next_turn-nonnull s v.nonnull.1) v.ready))

-- ===== src/Sched/Exit/Exits.antt =====
-- `sys_exit` of sys/syscall.c.
use preemptive_unix_os.Base.{
  Ensures-weaken, Misses-right, Distinct, ℕ, ◌<◌, ◌≡◌, ◌≢◌, ◌∙◌, refl, sym, inl, inr, List, [], ◌∷◌,
  ◌++◌, length, arith, Bool-cases, ◌==◌, true, false, Ensures,
}
use preemptive_unix_os.Sched.{Sched, rounds}
use preemptive_unix_os.Sched.Queue.{DLinks, first_of, head_without, DLinks-next}
use preemptive_unix_os.Sched.Move.{unlink_back-DLinks}
use preemptive_unix_os.Sched.Queue.{first_of-ne, DLinks-others}
use preemptive_unix_os.Sched.Running.{
  Apart, c-Misses, self-Misses, DLinks-SameLinks, Ready, sch_next-Dispatched,
}
use preemptive_unix_os.Sched.Move.{unlink_back-other}
use preemptive_unix_os.Sched.{sch_next, any_child}
use preemptive_unix_os.Sched.Exit.{delete_process, reset_process, wake_waiting_for, sys_exit}
use preemptive_unix_os.Sched.Exit.Delete.{
  deleted, successor, delete_node-found, delete_node-missing,
}

-- The process `c` can run, behind `x` and `xs`; `zs` sleep, `bs` wait for the keyboard, and nobody waits for a
-- process. The clean-up behind the process table gets through, and the process that runs next can be loaded if it never ran.
pub record Ending (s : Sched) (x : ℕ) (xs : List ℕ) (c : ℕ) (ys zs bs : List ℕ) : Type 0 where
  pub run : DLinks s.pcbs 0 s.pcb_head ((x ∷ xs) ++ (c ∷ ys))
  pub distinct : Distinct ((x ∷ xs) ++ (c ∷ ys))
  pub sleeping : DLinks s.pcbs 0 s.sleep_pcb_head zs
  pub blocked : DLinks s.pcbs 0 s.block_pcb_head bs
  pub apart : Apart zs ((x ∷ xs) ++ (c ∷ ys)) × Apart bs ((x ∷ xs) ++ (c ∷ ys))
  pub none_waits : s.wait_pcb_head ≡ 0
  pub some_runs : s.current_pcb ≢ 0
  pub released : s.releases c ≡ true
  pub ready : Ready s (successor s c (first_of ys))
  pub few : (length (x ∷ xs) < rounds) × (length zs < rounds) × (length bs < rounds)

-- The process `c` is out of the queue, and its entry is reset; the others can run in their order, and the one behind
-- `c` runs in its place, or the head where none is.
pub record Ended (s : Sched) (x : ℕ) (xs : List ℕ) (c : ℕ) (ys : List ℕ) (s' : Sched) : Type 0 where
  pub run : DLinks s'.pcbs 0 s'.pcb_head ((x ∷ xs) ++ ys)
  pub reset : ((s'.pcbs c).process_id ≡ any_child) × ((s'.pcbs c).next ≡ 0) × ((s'.pcbs c).prev ≡ 0)
  pub current : s'.current_pcb ≡ successor s c (first_of ys)

module _ (s : Sched) (x : ℕ) (xs : List ℕ) (c : ℕ) (ys zs bs : List ℕ)
    (w : Ending s x xs c ys zs bs) where
  abbrev gone : Sched
  gone = deleted s c (first_of ys)

  c-nonnull : c ≢ 0
  c-nonnull = (DLinks-next s.pcbs 0 s.pcb_head c (x ∷ xs) ys w.run).1

  successor-other : (successor s c (first_of ys) ≢ c) × (successor s c (first_of ys) ≢ 0)
  successor-other =
      let out = self-Misses (x ∷ xs) c ys w.distinct in
      let apart = first_of-ne c ys c-nonnull (Misses-right c (x ∷ xs) ys out) in
      elim (Bool-cases (c == s.current_pcb)) [
        | inr waits ↦ rw waits (ground arith, w.some_runs)
        | inl runs ↦ elim (Bool-cases (first_of ys == 0)) [
          | inl last ↦
              rw (runs, last) (λ e. out.0 (sym e ∙ w.run.0), λ e. w.run.1 (sym w.run.0 ∙ e))
          | inr more ↦ rw (runs, more) (λ e. apart (sym e), ground arith)
        ]
      ]

  sys_exit-gone : sys_exit s c ≡ sch_next (reset_process gone c)
  unfolding sys_exit wake_waiting_for delete_process
  sys_exit-gone =
      let f : (c == 0) ≡ false = ground (arith, c-nonnull) in
      let none_waits : (s.wait_pcb_head == 0) ≡ true = ground (arith, w.none_waits) in
      let kept =
        λ (q : ℕ) (qs : List ℕ) (l : DLinks s.pcbs 0 q qs) (a : Apart qs ((x ∷ xs) ++ (c ∷ ys))).
          delete_node-missing gone q c qs
            (unlink_back-other s.pcbs s.pcb_head (x ∷ xs) c ys q qs w.run w.distinct l a)
            (c-Misses (x ∷ xs) c ys qs a) c-nonnull successor-other.0 in
      let waits =
        delete_node-missing gone s.wait_pcb_head c [] w.none_waits tt c-nonnull successor-other.0
          (omega arith) in
      rw
        (
          f,
          none_waits,
          delete_node-found s s.pcb_head x xs c ys w.run w.distinct w.few.0,
          kept s.sleep_pcb_head zs w.sleeping w.apart.0 w.few.1,
          waits,
          kept s.block_pcb_head bs w.blocked w.apart.1 w.few.2,
          w.released,
        )
        refl

  -- `sys_exit` of a process that can run and is not the head of its queue, while nobody waits for a process, the release of
  -- what it holds outside the process table gets through, and the process that runs next can be loaded if it never ran: it
  -- ends the process as `Ended` says, and does not fault.
  pub sys_exit-Ended : Ensures (Ended s x xs c ys) (sys_exit s c)
  unfolding reset_process head_without
  sys_exit-Ended =
      let out = self-Misses (x ∷ xs) c ys w.distinct in
      let cc : (c == c) ≡ true = ground arith in
      let queue : DLinks (reset_process gone c).pcbs 0 s.pcb_head ((x ∷ xs) ++ ys) =
        DLinks-others gone.pcbs (reset_process gone c).pcbs c c 0 s.pcb_head ((x ∷ xs) ++ ys)
          (λ y n m. let f : (y == c) ≡ false = ground arith in rw f refl) out out
          (unlink_back-DLinks s.pcbs s.pcb_head c (x ∷ xs) ys w.run w.distinct) in
      rw sys_exit-gone (
        Ensures-weaken (sch_next (reset_process gone c))
          (λ s' d. record {
            run = rw d.head (
                DLinks-SameLinks (reset_process gone c).pcbs s'.pcbs 0 s.pcb_head ((x ∷ xs) ++ ys)
                  d.links queue);
            reset = (
              d.number c (λ e. successor-other.0 (sym e)) ∙ rw cc refl,
              (d.links c).0 ∙ rw cc refl,
              (d.links c).1 ∙ rw cc refl,
            );
            current = d.current;
          })
          (sch_next-Dispatched (reset_process gone c) successor-other.1 w.ready))

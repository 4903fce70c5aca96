-- ===== src/Sched/Timer/Fair.antt =====
-- Round robin by the interrupts of the timer in sys/timer.c.
use preemptive_unix_os.Base.{ℕ, ◌+◌, ◌-◌, ◌*◌, ◌/◌, ◌%◌, ◌^◌, ◌<◌, ◌≡◌, ◌≢◌, List, length}
use preemptive_unix_os.Sched.{Sched}
use preemptive_unix_os.Sched.Turn.{Links, entry, Numbered, At}

module _ (s : Sched) (ps : List ℕ) (queue : Links s.pcbs s.pcb_head ps)
    (some_process : s.pcb_head ≢ 0) (started : s.num_processes ≢ 2 ^ 32 - 1)
    (none_waits : s.wait_pcb_head ≡ 0)
    (numbered : (i : ℕ) → i < length ps → Numbered s (entry ps i))
    (none_sleeps : s.sleep_pcb_head ≡ 0) (ticks : ℕ) (whole : ticks % 240 ≡ 0)
    (small : ticks + 240 * length ps < 2 ^ 64) where
  -- After `j` interrupts.
  abbrev After : ℕ → ℕ × Sched → Type 0
  After j (now, s') =
      (now ≡ ticks + j) × At s ps queue some_process started none_waits numbered (j / 240) s'

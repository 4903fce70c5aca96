-- ===== src/Sched/Exit/Tests.antt =====
-- Runs of `sys_exit` of sys/syscall.c.
use preemptive_unix_os.Base.{
  true, ◌≡◌, refl, [], ◌∷◌, arith, ok, ◌>>=◌, Ensures, if◌then◌else◌, ◌==◌,
}
use preemptive_unix_os.Sched.{Sched, sch_next}
use preemptive_unix_os.Sched.Exit.{
  unlink_from, delete_node, wake_waiting_for, delete_process, reset_process, sys_exit,
}
use preemptive_unix_os.Sched.Exit.Exits.{Ending, Ended, sys_exit-Ended}

-- 10, 20 and 30 can run, and 20 runs.
abbrev three : Sched
three = record {
  pcbs = λ p. record {
    next = if p == 10 then 20 else if p == 20 then 30 else 0;
    prev = if p == 20 then 10 else if p == 30 then 20 else 0;
    process_id = p;
    parent_process_id = 0;
    has_ran = 1;
    sleep_time_left = 0;
    time = 0;
    wait_pid = 0;
  };
  current_pcb = 20;
  pcb_head = 10;
  sleep_pcb_head = 0;
  wait_pcb_head = 0;
  block_pcb_head = 0;
  num_processes = 3;
  global_counter = 50;
  loads = λ _. true;
  releases = λ _. true;
}

three-Ending : Ending three 10 [] 20 (30 ∷ []) [] []
three-Ending = record {
  run = (
    refl,
    λ e. ground arith,
    refl,
    (refl, λ e. ground arith, refl, (refl, λ e. ground arith, refl, refl)),
  );
  distinct = ((λ e. ground arith, (λ e. ground arith, tt)), ((λ e. ground arith, tt), (tt, tt)));
  sleeping = refl;
  blocked = refl;
  apart = (tt, tt);
  none_waits = refl;
  some_runs = λ e. ground arith;
  released = refl;
  ready = refl;
  few = (omega arith, omega arith, omega arith);
}

sys_exit-Ended_example : Ensures (Ended three 10 [] 20 (30 ∷ [])) (sys_exit three 20)
sys_exit-Ended_example = sys_exit-Ended three 10 [] 20 (30 ∷ []) [] [] three-Ending

-- The head of those that can run stays the head after its end, and the others are out of reach.
head_stays : (sys_exit three 10 >>= λ s. ok (s.pcb_head ∷ (s.pcbs 10).next ∷ [])) ≡ ok (10 ∷ 0 ∷ [])
unfolding sys_exit wake_waiting_for delete_node unlink_from delete_process reset_process sch_next
head_stays = refl

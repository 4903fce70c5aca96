-- ===== src/Sched/Tests.antt =====
-- Runs of the scheduler of sys/syscall.c on three processes that can run and one that sleeps.
use preemptive_unix_os.Base.{true, ℕ, refl, [], ◌∷◌, arith, Ensures, if◌then◌else◌, ◌==◌}
use preemptive_unix_os.Sched.Wake.{Waits}
use preemptive_unix_os.Sched.{next_turn, Pcb, Sched, sleep_please}
use preemptive_unix_os.Sched.Turn.{Links}
use preemptive_unix_os.Sched.Present.{HasPid, Queues}
use preemptive_unix_os.Sched.Running.{Running}
use preemptive_unix_os.Sched.Sleep.{Sleeps, sleep_please-Sleeps}

-- 10, 20 and 30 can run, and 40 sleeps. Each has its address as its number.
abbrev pcbs : ℕ → Pcb
pcbs p = record {
  next = if p == 10 then 20 else if p == 20 then 30 else 0;
  prev = if p == 20 then 10 else if p == 30 then 20 else 0;
  process_id = p;
  parent_process_id = 0;
  has_ran = 1;
  sleep_time_left = if p == 40 then 5 else 0;
  time = 0;
  wait_pid = 0;
}

abbrev with_current : ℕ → Sched
with_current p = record {
  pcbs = pcbs;
  current_pcb = p;
  pcb_head = 10;
  sleep_pcb_head = 40;
  wait_pcb_head = 0;
  block_pcb_head = 0;
  num_processes = 4;
  global_counter = 50;
  loads = λ _. true;
  releases = λ _. true;
}

can_run-Links : Links pcbs 10 (10 ∷ 20 ∷ 30 ∷ [])
can_run-Links =
    (refl, λ e. ground arith, (refl, λ e. ground arith, (refl, λ e. ground arith, refl)))

-- The same with none asleep.
abbrev none_asleep : Sched
none_asleep = record (with_current 10) { sleep_pcb_head = 0 }

queues : Queues (with_current 20) (10 ∷ 20 ∷ 30 ∷ []) (40 ∷ []) [] []
queues = record {
  run_links = can_run-Links;
  sleep_links = (refl, λ e. ground arith, refl);
  wait_links = refl;
  block_links = refl;
  few = omega arith;
}

run_without : ¬ HasPid pcbs (10 ∷ 20 ∷ 30 ∷ []) 7
run_without h = ground (arith, h)

running : Running (with_current 20) (10 ∷ []) 20 (30 ∷ []) (40 ∷ [])
running = record {
  current = refl;
  run = (
    refl,
    λ e. ground arith,
    refl,
    (refl, λ e. ground arith, refl, (refl, λ e. ground arith, refl, refl)),
  );
  run_distinct =
      ((λ e. ground arith, (λ e. ground arith, tt)), ((λ e. ground arith, tt), (tt, tt)));
  sleeping = (refl, λ e. ground arith, refl, refl);
  sleep_distinct = (tt, tt);
  apart = ((λ e. ground arith, (λ e. ground arith, (λ e. ground arith, tt))), tt);
  few = omega arith;
}

sleep_please-Sleeps_example :
    Ensures (Sleeps (10 ∷ []) 20 (30 ∷ []) (40 ∷ []) 3) (sleep_please (with_current 20) 3)
sleep_please-Sleeps_example =
    sleep_please-Sleeps (with_current 20) 20 (40 ∷ []) 3 (10 ∷ []) (30 ∷ []) running (omega arith)
      refl

-- 50 waits for 30, which comes after 20.
abbrev one_waits : Sched
one_waits = record (with_current 20) {
  pcbs = λ p. record (pcbs p) { wait_pid = if p == 50 then 30 else 0 };
  wait_pcb_head = 50;
}

one_waits-Waits : Waits one_waits (10 ∷ 20 ∷ 30 ∷ []) 50
unfolding next_turn
one_waits-Waits = record {
  run = (
    refl,
    λ e. ground arith,
    refl,
    (refl, λ e. ground arith, refl, (refl, λ e. ground arith, refl, refl)),
  );
  distinct = ((λ e. ground arith, (λ e. ground arith, tt)), ((λ e. ground arith, tt), (tt, tt)));
  few = omega arith;
  apart = (λ e. ground arith, (λ e. ground arith, (λ e. ground arith, tt)));
  nonnull = (λ e. ground arith, λ e. ground arith, λ e. ground arith);
  ready = refl;
  started = λ e. ground arith;
  head = refl;
  alone = (refl, refl);
  waits = refl;
}

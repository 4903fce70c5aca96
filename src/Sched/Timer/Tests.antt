-- ===== src/Sched/Timer/Tests.antt =====
-- Runs of `timer_handler` of sys/timer.c.
use preemptive_unix_os.Base.{
  true, ℕ, ◌≡◌, refl, [], ◌∷◌, arith, ok, ◌>>=◌, Ensures, if◌then◌else◌, ◌==◌,
}
use preemptive_unix_os.Sched.{Sched, last_from, put_last, unlink_back}
use preemptive_unix_os.Sched.Move.{Both}
use preemptive_unix_os.Sched.Timer.{tick_down, wake_sleeper, wake_sleeping, every_second}
use preemptive_unix_os.Sched.Timer.Sleepers.{Done, every_second-Done}

-- 10 can run, 20 sleeps for `n` seconds, and 30 behind it for `m`.
abbrev sleepers : ℕ → ℕ → Sched
sleepers n m = record {
  pcbs = λ p. record {
    next = if p == 20 then 30 else 0;
    prev = if p == 30 then 20 else 0;
    process_id = p;
    parent_process_id = 0;
    has_ran = 1;
    sleep_time_left = if p == 20 then n else if p == 30 then m else 0;
    time = 0;
    wait_pid = 0;
  };
  current_pcb = 10;
  pcb_head = 10;
  sleep_pcb_head = 20;
  wait_pcb_head = 0;
  block_pcb_head = 0;
  num_processes = 3;
  global_counter = 50;
  loads = λ _. true;
  releases = λ _. true;
}

sleepers-Both : Both (sleepers 3 1).pcbs 20 (20 ∷ 30 ∷ []) 10 (10 ∷ [])
sleepers-Both = record {
  one = (refl, λ e. ground arith, refl, (refl, λ e. ground arith, refl, refl));
  other = (refl, λ e. ground arith, refl, refl);
  one_distinct = ((λ e. ground arith, tt), (tt, tt));
  other_distinct = (tt, tt);
  apart = ((λ e. ground arith, (λ e. ground arith, tt)), tt);
}

every_second-Done_example :
    Ensures (Done (sleepers 3 1) (10 ∷ []) [] (20 ∷ 30 ∷ [])) (every_second (sleepers 3 1))
every_second-Done_example =
    every_second-Done (sleepers 3 1) 10 [] 20 (30 ∷ []) sleepers-Both (omega arith) (omega arith)
      refl

-- The first sleeping process wakes up, and is still the head of those that sleep: 30, behind it, is out of reach.
head_stays :
    (every_second (sleepers 1 5) >>= λ s. ok (s.sleep_pcb_head ∷ (s.pcbs 10).next ∷ []))
    ≡ ok (20 ∷ 20 ∷ [])
unfolding every_second wake_sleeping wake_sleeper tick_down last_from put_last unlink_back
head_stays = refl

-- A sleep of no seconds lasts 2^64 - 1 seconds more.
no_sleep :
    (every_second (sleepers 0 5) >>= λ s. ok (s.pcbs 20).sleep_time_left) ≡ ok 18446744073709551615
unfolding every_second wake_sleeping wake_sleeper tick_down last_from put_last unlink_back
no_sleep = refl

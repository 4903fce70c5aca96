-- ===== src/Sched/Timer.antt =====
-- The clock of `timer_handler` in sys/timer.c: the ticks, the time of day, and the sleeping processes.
pub mod Sleepers
pub mod Clock
pub mod Fair
pub mod Tests
use preemptive_unix_os.Base.{
  ℕ, zero, suc, ◌+◌, ◌-◌, ◌*◌, ◌/◌, ◌%◌, ◌^◌, Bool, true, false, ◌&&◌, Run, ok, fault, hang, ◌>>=◌,
  if◌then◌else◌, leb, ltb, ◌==◌, update, add64, sub64,
}
use preemptive_unix_os.Sched.{Pcb, Sched, rounds, unlink_back, put_last, last_from, timer_turn}

-- Hours, minutes and seconds, below 2^31 seconds, which an `int` holds.
unfoldable pub time_of_day : ℕ → ℕ × ℕ × ℕ
time_of_day ticks =
    let s = ticks / 100 in
    let m = if leb 60 s then s / 60 else 0 in
    let h = if leb 60 m then m / 60 else 0 in
    (if leb 24 h then h % 24 else h, if leb 60 m then m % 60 else m, if leb 60 s then s % 60 else s)

-- The time that is left for the process `p`: one less, as a 64-bit number.
unfoldable pub tick_down : (ℕ → Pcb) → ℕ → ℕ → Pcb
tick_down pcbs p =
    update pcbs p (record (pcbs p) { sleep_time_left = sub64 (pcbs p).sleep_time_left 1 })

-- A process that slept, behind the last one that can run. The head of the sleeping ones changes only where it is alone.
unfoldable pub wake_sleeper : Sched → ℕ → ℕ → Sched
wake_sleeper s temp temp1 =
    let t = s.pcbs temp in
    let alone = t.next == 0 && t.prev == 0 in
    let a = put_last (unlink_back s.pcbs temp) temp1 temp in
    record s {
      pcbs = update a temp (record (a temp) { sleep_time_left = 0 });
      sleep_pcb_head = if alone then 0 else s.sleep_pcb_head;
    }

-- The loop over the sleeping processes, from `temp` on; `temp1` is the last one that can run.
unfoldable pub wake_sleeping : ℕ → Sched → ℕ → ℕ → Run Sched
wake_sleeping zero s temp temp1 = hang
wake_sleeping (suc n) s temp temp1 =
    let s1 = record s { pcbs = tick_down s.pcbs temp } in
    let due = (s1.pcbs temp).sleep_time_left == 0 in
    let rest =
      wake_sleeping n (if due then wake_sleeper s1 temp temp1 else s1) (s.pcbs temp).next
        (if due then temp else temp1) in
    if temp == 0 then ok s else rest

-- Once a second: with no process that can run, NULL is read through.
unfoldable pub every_second : Sched → Run Sched
every_second s =
    if s.sleep_pcb_head == 0
    then ok s
    else if s.pcb_head == 0
    then fault
    else (last_from rounds s.pcbs s.pcb_head >>= λ temp1.
        wake_sleeping rounds s s.sleep_pcb_head temp1)

abbrev pub ticks_per_turn : ℕ
ticks_per_turn = 240

-- `timer_handler`: the count of the ticks, and the state after the interrupt.
unfoldable pub timer_handler : ℕ → Sched → Run (ℕ × Sched)
timer_handler ticks s =
    let now = add64 ticks 1 in
    (if now % 100 == 0 then every_second s else ok s) >>= λ s1.
    (if now % ticks_per_turn == 0 then timer_turn s1 else ok s1) >>= λ s2. ok (now, s2)

-- `n` interrupts.
unfoldable pub interrupts : ℕ → ℕ → Sched → Run (ℕ × Sched)
interrupts zero ticks s = ok (ticks, s)
interrupts (suc n) ticks s = interrupts n ticks s >>= λ (now, s'). timer_handler now s'

-- ===== src/Sched.antt =====
-- The scheduler of sys/syscall.c and sys/timer.c: the queues of processes, which run through `next` and
-- `prev` of `struct PCB`. A `struct PCB *` is an address, 0 for NULL. Registers, stacks and address spaces are not
-- part of the state. A loop over a queue gets one round more than there are processes.
pub mod Queue
pub mod Append
pub mod Running
pub mod Sleep
pub mod Turn
pub mod Move
pub mod Wake
pub mod Present
pub mod Timer
pub mod Exit
pub mod Tests
use preemptive_unix_os.Base.{
  ℕ, zero, suc, ◌+◌, ◌-◌, ◌%◌, ◌^◌, Bool, true, false, ◌&&◌, ◌||◌, not, Run, ok, fault, hang, ◌>>=◌,
  if◌then◌else◌, leb, ltb, ◌==◌, minus_one, update, add64, sub64, inc32,
}

-- The fields of `struct PCB` that the scheduler reads and writes. `process_id`, `parent_process_id`, `wait_pid` and `has_ran`
-- are `int`s, kept as their bit patterns.
pub record Pcb : Type 0 where
  pub next : ℕ
  pub prev : ℕ
  pub process_id : ℕ
  pub parent_process_id : ℕ
  pub has_ran : ℕ
  pub sleep_time_left : ℕ
  pub time : ℕ
  pub wait_pid : ℕ

-- The processes at their addresses, the one that runs, and the heads of the four queues. `global_counter` is the last number
-- given to a process. Of the work on files, frames, page tables and areas only the outcome is known: `loads p` says that
-- `build_process_address_space` gets through for the process at `p`, `releases p` that `delete_process` does.
pub record Sched : Type 0 where
  pub pcbs : ℕ → Pcb
  pub current_pcb : ℕ
  pub pcb_head : ℕ
  pub sleep_pcb_head : ℕ
  pub wait_pcb_head : ℕ
  pub block_pcb_head : ℕ
  pub num_processes : ℕ
  pub global_counter : ℕ
  pub loads : ℕ → Bool
  pub releases : ℕ → Bool

abbrev pub num_pcbs : ℕ
num_pcbs = 1000

abbrev pub rounds : ℕ
rounds = 1001

-- `build_process_address_space` and the second count of `SchNext`, for a process whose first run was counted: one without a
-- number gets the next one, and its count starts again.
unfoldable pub first_run : Sched → ℕ → Sched
first_run s p =
    let c = s.pcbs p in
    let number = inc32 s.global_counter in
    if leb (2 ^ 31) c.process_id
    then record s {
      pcbs = update s.pcbs p (record c { process_id = number; has_ran = 1 });
      num_processes = inc32 s.num_processes;
      global_counter = number;
    }
    else record s { pcbs = update s.pcbs p (record c { has_ran = 2 }) }

-- `SchNext`, up to the switch: a process that never ran is loaded first. NULL is written through.
unfoldable pub sch_next : Sched → Run Sched
sch_next s =
    let c = s.pcbs s.current_pcb in
    if s.current_pcb == 0
    then fault
    else if not (c.has_ran == 0)
    then ok
        (record s { pcbs = update s.pcbs s.current_pcb (record c { has_ran = inc32 c.has_ran }) })
    else if s.loads s.current_pcb
    then ok (first_run s s.current_pcb)
    else fault

-- `sys_yield`: a process with one behind it yields to the head of the queue.
unfoldable pub sys_yield : Sched → Run Sched
sys_yield s =
    if s.current_pcb == 0
    then fault
    else (let temp = (s.pcbs s.current_pcb).next in
        sch_next (record s { current_pcb = if temp == 0 then temp else s.pcb_head }))

-- The process that the timer switches to, in the queue of those that can run.
unfoldable pub next_turn : Sched → ℕ
next_turn s = if (s.pcbs s.current_pcb).next == 0 then s.pcb_head else (s.pcbs s.current_pcb).next

-- `while (temp != NULL) { if (!temp -> next) break; temp = temp -> next; }`
unfoldable pub last_from : ℕ → (ℕ → Pcb) → ℕ → Run ℕ
last_from zero pcbs temp = hang
last_from (suc n) pcbs temp =
    let rest = last_from n pcbs (pcbs temp).next in
    if temp == 0 then ok 0 else if (pcbs temp).next == 0 then ok temp else rest

-- The neighbours of the process `p` are linked to each other.
unfoldable pub unlink : (ℕ → Pcb) → ℕ → ℕ → Pcb
unlink pcbs p =
    let next = (pcbs p).next in
    let a1 =
      if next == 0 then pcbs else update pcbs next (record (pcbs next) { prev = (pcbs p).prev }) in
    let prev = (a1 p).prev in
    if prev == 0 then a1 else update a1 prev (record (a1 prev) { next = (a1 p).next })

-- The process `p` behind `last`, or alone where `last` is NULL.
unfoldable pub put_last : (ℕ → Pcb) → ℕ → ℕ → ℕ → Pcb
put_last pcbs last p =
    let a1 = if last == 0 then pcbs else update pcbs last (record (pcbs last) { next = p }) in
    update a1 p (record (a1 p) { prev = last; next = 0 })

-- `unlink` with the two writes in the order of `timer_handler`.
unfoldable pub unlink_back : (ℕ → Pcb) → ℕ → ℕ → Pcb
unlink_back pcbs p =
    let prev = (pcbs p).prev in
    let a1 =
      if prev == 0 then pcbs else update pcbs prev (record (pcbs prev) { next = (pcbs p).next }) in
    let next = (a1 p).next in
    if next == 0 then a1 else update a1 next (record (a1 next) { prev = (a1 p).prev })

-- The loop of `timer_handler` over the waiting processes, from `wtemp` on: one that waits for `wpid` goes behind `temp1`,
-- the last one that can run. The head of the waiting ones changes only where it is alone.
unfoldable pub wake_waiting : ℕ → Sched → ℕ → ℕ → ℕ → Run Sched
wake_waiting zero s wtemp temp1 wpid = hang
wake_waiting (suc n) s wtemp temp1 wpid =
    let w = s.pcbs wtemp in
    let alone = w.next == 0 && w.prev == 0 in
    let a = put_last (unlink_back s.pcbs wtemp) temp1 wtemp in
    let woken = record s {
      pcbs = update a wtemp (record (a wtemp) { sleep_time_left = 0 });
      wait_pcb_head = if alone then 0 else s.wait_pcb_head;
    } in
    let done = w.wait_pid == wpid in
    let rest =
      wake_waiting n (if done then woken else s) w.next (if done then wtemp else temp1) wpid in
    if wtemp == 0 then ok s else rest

-- The part of `timer_handler` that switches processes. -1 as `numProcesses` is the state before the first process. Those
-- that wait for the process that gets the turn can run again.
unfoldable pub timer_turn : Sched → Run Sched
timer_turn s =
    let c = s.pcbs s.current_pcb in
    let s1 =
      if s.current_pcb == 0
      then s
      else record s { pcbs = update s.pcbs s.current_pcb (record c { time = add64 c.time 1 }) } in
    if s.pcb_head == 0
    then ok s1
    else if s.current_pcb == 0
    then fault
    else (let next = if s.num_processes == 2 ^ 32 - 1 then s.pcb_head else next_turn s1 in
        let s2 = record s1 { current_pcb = next } in
        if s.wait_pcb_head == 0
        then sch_next s2
        else (last_from rounds s2.pcbs s2.pcb_head >>= λ temp1.
            wake_waiting rounds s2 s2.wait_pcb_head temp1 (s2.pcbs next).process_id >>= λ s3.
            sch_next s3))

-- The head of the queue and the next process, once the current process leaves the queue.
unfoldable pub leave_head : Sched → ℕ
leave_head s =
    let next = (s.pcbs s.current_pcb).next in
    if s.current_pcb == s.pcb_head && not (next == 0) then next else s.pcb_head

unfoldable pub leave_next : Sched → ℕ
leave_next s = let next = (s.pcbs s.current_pcb).next in if next == 0 then leave_head s else next

-- `sleepPlease`
unfoldable pub sleep_please : Sched → ℕ → Run Sched
sleep_please s time_sec =
    let p = s.current_pcb in
    if p == 0
    then fault
    else (last_from rounds s.pcbs s.sleep_pcb_head >>= λ last.
        let a = put_last (unlink s.pcbs p) last p in
        sch_next (record s {
          pcbs = update a p (record (a p) { sleep_time_left = time_sec });
          pcb_head = leave_head s;
          sleep_pcb_head = if s.sleep_pcb_head == 0 then p else s.sleep_pcb_head;
          current_pcb = leave_next s;
        }))

unfoldable pub is_present_from : ℕ → (ℕ → Pcb) → ℕ → ℕ → Run Bool
is_present_from zero pcbs temp pid = hang
is_present_from (suc n) pcbs temp pid =
    let rest = is_present_from n pcbs (pcbs temp).next pid in
    if temp == 0 then ok false else if (pcbs temp).process_id == pid then ok true else rest

unfoldable pub is_present : Sched → ℕ → ℕ → Run Bool
is_present s head pid = is_present_from rounds s.pcbs head pid

unfoldable pub is_child_present_from : ℕ → (ℕ → Pcb) → ℕ → ℕ → Run Bool
is_child_present_from zero pcbs temp pid = hang
is_child_present_from (suc n) pcbs temp pid =
    let rest = is_child_present_from n pcbs (pcbs temp).next pid in
    if temp == 0 then ok false else if (pcbs temp).parent_process_id == pid then ok true else rest

unfoldable pub is_child_present : Sched → ℕ → Run Bool
is_child_present s head =
    if s.current_pcb == 0
    then fault
    else is_child_present_from rounds s.pcbs head (s.pcbs s.current_pcb).process_id

-- `||` of two calls: the second is made where the first returns 0.
unfoldable pub or_else : Run Bool → Run Bool → Run Bool
or_else a b = a >>= λ x. if x then ok true else b

-- `-1` as an `int`
abbrev pub any_child : ℕ
any_child = 2 ^ 32 - 1

-- The test of `waitPlease`: is there something to wait for in one of the four queues?
unfoldable pub can_wait : Sched → ℕ → Run Bool
can_wait s w_pid =
    if w_pid == any_child
    then or_else (is_child_present s s.wait_pcb_head) (
        or_else (is_child_present s s.sleep_pcb_head)
          (or_else (is_child_present s s.pcb_head) (is_child_present s s.block_pcb_head)))
    else or_else (is_present s s.wait_pcb_head w_pid) (
        or_else (is_present s s.sleep_pcb_head w_pid)
          (or_else (is_present s s.pcb_head w_pid) (is_present s s.block_pcb_head w_pid)))

-- `waitPlease`: a process does not wait for itself, nor for what is in no queue.
unfoldable pub wait_please : Sched → ℕ → Run Sched
wait_please s w_pid =
    let p = s.current_pcb in
    if p == 0
    then fault
    else if (s.pcbs p).process_id == w_pid
    then ok s
    else (can_wait s w_pid >>= λ there.
        if not there
        then ok s
        else (last_from rounds s.pcbs s.wait_pcb_head >>= λ last.
            let a = put_last (unlink s.pcbs p) last p in
            sch_next (record s {
              pcbs = update a p (record (a p) { wait_pid = w_pid });
              pcb_head = leave_head s;
              wait_pcb_head = if s.wait_pcb_head == 0 then p else s.wait_pcb_head;
              current_pcb = leave_next s;
            })))

-- ===== src/Sched/Exit.antt =====
-- The end of a process in sys/syscall.c: `deleteNode`, `sys_exit`, `KillisCalled`, with the fields of the process
-- table that `delete_process` of sys/cleanup.c resets.
pub mod Delete
pub mod Exits
pub mod Tests
use preemptive_unix_os.Base.{
  ℕ, zero, suc, ◌+◌, ◌-◌, ◌^◌, Bool, true, false, ◌&&◌, ◌||◌, Run, ok, fault, hang, ◌>>=◌,
  if◌then◌else◌, ◌==◌, update, sign_extend,
}
use preemptive_unix_os.Sched.{
  Pcb, Sched, rounds, unlink_back, put_last, last_from, sch_next, any_child,
}

-- The loop that looks for the process `node`, from `wtemp` on.
unfoldable pub unlink_from : ℕ → (ℕ → Pcb) → ℕ → ℕ → Run (ℕ → Pcb)
unlink_from zero pcbs wtemp node = hang
unlink_from (suc n) pcbs wtemp node =
    let rest = unlink_from n pcbs (pcbs wtemp).next node in
    if wtemp == 0 then ok pcbs else if wtemp == node then ok (unlink_back pcbs wtemp) else rest

-- `deleteNode`: the head of a queue is only changed in the function's own copy.
unfoldable pub delete_node : Sched → ℕ → ℕ → Run Sched
delete_node s head node =
    let c = (s.pcbs s.current_pcb).next in
    let s1 =
      if node == s.current_pcb
      then record s { current_pcb = if c == 0 then s.pcb_head else c }
      else s in
    let next = (s.pcbs head).next in
    if head == node
    then ok (
        if next == 0 then s1 else record s1 {
          pcbs = update s.pcbs next (record (s.pcbs next) { prev = (s.pcbs head).prev });
        })
    else (unlink_from rounds s.pcbs head node >>= λ a. ok (record s1 { pcbs = a }))

-- The process waits for the one that ends, or for any child and is its parent.
unfoldable pub awaits : Pcb → Pcb → Bool
awaits w ended =
    w.wait_pid == ended.process_id
    || (w.wait_pid == any_child && w.process_id == ended.parent_process_id)

-- `-2` as an `int`: waits for nothing.
abbrev pub no_wait : ℕ
no_wait = 2 ^ 32 - 2

-- The loop of `sys_exit` over the waiting processes, from `wtemp` on; `temp1` is the last one that can run.
unfoldable pub wake_parents : ℕ → Sched → ℕ → ℕ → Pcb → Run Sched
wake_parents zero s wtemp temp1 ended = hang
wake_parents (suc n) s wtemp temp1 ended =
    let w = s.pcbs wtemp in
    let alone = w.next == 0 && w.prev == 0 in
    let a = put_last (unlink_back s.pcbs wtemp) temp1 wtemp in
    let woken = record s {
      pcbs = update a wtemp (record (a wtemp) { wait_pid = no_wait });
      wait_pcb_head = if alone then 0 else s.wait_pcb_head;
    } in
    let done = awaits w ended in
    let rest =
      wake_parents n (if done then woken else s) w.next (if done then wtemp else temp1) ended in
    if wtemp == 0 then ok s else rest

unfoldable pub wake_waiting_for : Sched → ℕ → Run Sched
wake_waiting_for s temp =
    if s.wait_pcb_head == 0
    then ok s
    else if s.pcb_head == 0
    then fault
    else (last_from rounds s.pcbs s.pcb_head >>= λ temp1.
        wake_parents rounds s s.wait_pcb_head temp1 (s.pcbs temp))

-- The fields that `delete_process` resets; `-1` as an `int` is `any_child`.
unfoldable pub reset_process : Sched → ℕ → Sched
reset_process s p = record s {
  pcbs = update s.pcbs p (record {
    next = 0;
    prev = 0;
    process_id = any_child;
    parent_process_id = any_child;
    has_ran = any_child;
    sleep_time_left = 0;
    time = 0;
    wait_pid = no_wait;
  });
}

-- Of the release of its areas, pages, tables, strings and descriptors only the outcome is known.
unfoldable pub delete_process : Sched → ℕ → Run Sched
delete_process s p = if s.releases p then ok (reset_process s p) else fault

unfoldable pub sys_exit : Sched → ℕ → Run Sched
sys_exit s temp =
    if temp == 0
    then fault
    else (wake_waiting_for s temp >>= λ s1. delete_node s1 s1.pcb_head temp >>= λ s2.
        delete_node s2 s2.sleep_pcb_head temp >>= λ s3.
        delete_node s3 s3.wait_pcb_head temp >>= λ s4.
        delete_node s4 s4.block_pcb_head temp >>= λ s5.
        delete_process s5 temp >>= λ s6. sch_next s6)

-- The loop of `KillisCalled` over a queue; an `int` is compared with a `uint64_t`.
unfoldable pub kill_from : ℕ → Sched → ℕ → ℕ → Run (Bool × Sched)
kill_from zero s temp kill_pid = hang
kill_from (suc n) s temp kill_pid =
    let rest = kill_from n s (s.pcbs temp).next kill_pid in
    if temp == 0
    then ok (false, s)
    else if sign_extend (s.pcbs temp).process_id == kill_pid
    then (sys_exit s temp >>= λ s'. ok (true, s'))
    else rest

unfoldable pub kill_is_called : Sched → ℕ → ℕ → Run (Bool × Sched)
kill_is_called s head kill_pid = kill_from rounds s head kill_pid

-- ===== src/Sched/Sleep.antt =====
-- `sleepPlease` of sys/syscall.c: the running process moves from the queue of those that can run to the end of the
-- queue of those that sleep.
use preemptive_unix_os.Base.{
  Misses-right, ℕ, ◌<◌, ◌≡◌, ◌≢◌, ◌∙◌, refl, sym, ap, List, [], ◌∷◌, ◌++◌, length, arith, update,
  ◌==◌, true, false, if◌then◌else◌, Ensures, Ensures-weaken,
}
use preemptive_unix_os.Sched.{
  Pcb, Sched, unlink, put_last, sch_next, leave_head, leave_next, sleep_please, rounds,
}
use preemptive_unix_os.Sched.Queue.{
  DLinks, first_of, last_or, last_or-ne, DLinks-next, DLinks-nonnull, DLinks-others,
  unlink-Unlinked, unlink-DLinks, head_without,
}
use preemptive_unix_os.Sched.Append.{
  Put, put_last-Put, head_with, head_with_lem, with_last_links, last_from_lem,
}
use preemptive_unix_os.Sched.Running.{
  Running, SameLinks, DLinks-SameLinks, update-SameLinks, Misses-skip, self-Misses, c-Misses,
  before-Misses, after-Misses, last-Misses, Ready, sch_next-Dispatched,
}

-- What `sleepPlease` promises: `c` sleeps at the end of its new queue for the time asked for, the others can run as
-- before, and the one behind `c` runs, or the first one where none is.
pub record Sleeps (xs : List ℕ) (c : ℕ) (ys zs : List ℕ) (time_sec : ℕ) (s' : Sched) : Type 0 where
  pub run : DLinks s'.pcbs 0 s'.pcb_head (xs ++ ys)
  pub sleeping : DLinks s'.pcbs 0 s'.sleep_pcb_head (zs ++ (c ∷ []))
  pub time_left : (s'.pcbs c).sleep_time_left ≡ time_sec
  pub current : s'.current_pcb ≡ first_of (ys ++ xs)

module _ (s : Sched) (c : ℕ) (zs : List ℕ) (time_sec : ℕ) where
  leave_head-without :
      (xs ys : List ℕ)
      → Running s xs c ys zs
      → 0 < length (xs ++ ys)
      → leave_head s ≡ head_without xs s.pcb_head (s.pcbs c).next
  unfolding leave_head head_without first_of
  leave_head-without [] [] r more = absurd (omega arith)
  leave_head-without [] (y ∷ ys) r more =
      let next = DLinks-next s.pcbs 0 s.pcb_head c [] (y ∷ ys) r.run in
      let here : (c == s.pcb_head) ≡ true = ground (arith, r.run.0) in
      let nz : ((s.pcbs c).next == 0) ≡ false = ground (arith, r.run.3.0, r.run.3.1) in
      rw (r.current, here, nz) refl
  leave_head-without (x ∷ xs) ys r more =
      let ne : c ≢ x = λ e. (Misses-right x xs (c ∷ ys) r.run_distinct.0).0 (sym e) in
      let there : (c == s.pcb_head) ≡ false = ground (arith, r.run.0) in rw (r.current, there) refl

  leave_next-first :
      (xs ys : List ℕ)
      → Running s xs c ys zs
      → 0 < length (xs ++ ys)
      → (leave_next s ≡ first_of (ys ++ xs)) × (first_of (ys ++ xs) ≢ 0)
  unfolding leave_next head_without first_of
  leave_next-first [] [] r more = absurd (omega arith)
  leave_next-first (x ∷ xs) [] r more =
      let next = DLinks-next s.pcbs 0 s.pcb_head c (x ∷ xs) [] r.run in
      let here : (s.pcbs s.current_pcb).next ≡ 0 = ap (λ p. (s.pcbs p).next) r.current ∙ next.0 in
      let z : ((s.pcbs s.current_pcb).next == 0) ≡ true = ground arith in
      (rw z (leave_head-without (x ∷ xs) [] r more ∙ r.run.0), r.run.1)
  leave_next-first xs (y ∷ ys) r more =
      let next = DLinks-next s.pcbs 0 s.pcb_head c xs (y ∷ ys) r.run in
      let yn : y ≢ 0 = λ e.
        (Misses-right 0 xs (c ∷ y ∷ ys)
            (DLinks-nonnull s.pcbs 0 s.pcb_head (xs ++ (c ∷ y ∷ ys)) r.run)).1.0
          (sym e) in
      let here : (s.pcbs s.current_pcb).next ≡ y = ap (λ p. (s.pcbs p).next) r.current ∙ next.0 in
      let z : ((s.pcbs s.current_pcb).next == 0) ≡ false = ground arith in (rw z here, yn)

  -- The links after the process left its queue, and after it is in the other one.
  abbrev left : ℕ → Pcb
  left = unlink s.pcbs c

  abbrev moved : ℕ → Pcb
  moved = put_last left (last_or 0 zs) c

  -- The state that is dispatched, once the process `p` sleeps.
  abbrev asleep : ℕ → Sched
  asleep p =
      let a = put_last (unlink s.pcbs p) (last_or 0 zs) p in
      record s {
        pcbs = update a p (record (a p) { sleep_time_left = time_sec });
        pcb_head = leave_head s;
        sleep_pcb_head = if s.sleep_pcb_head == 0 then p else s.sleep_pcb_head;
        current_pcb = leave_next s;
      }

  module _ (xs ys : List ℕ) (r : Running s xs c ys zs) where
    c-nonnull : c ≢ 0
    c-nonnull = (DLinks-next s.pcbs 0 s.pcb_head c xs ys r.run).1

    moved-Put : Put left moved (last_or 0 zs) c
    moved-Put =
        put_last-Put left (last_or 0 zs) c
          (last_or-ne c 0 zs c-nonnull (c-Misses xs c ys zs r.apart))

    moved-run : DLinks moved 0 (head_without xs s.pcb_head (s.pcbs c).next) (xs ++ ys)
    moved-run =
        let zero_out = DLinks-nonnull s.pcbs 0 s.pcb_head (xs ++ (c ∷ ys)) r.run in
        DLinks-others left moved (last_or 0 zs) c 0 (head_without xs s.pcb_head (s.pcbs c).next)
          (xs ++ ys) (moved-Put).others (self-Misses xs c ys r.run_distinct)
          (Misses-skip (last_or 0 zs) c xs ys (last-Misses xs c ys 0 zs zero_out r.apart))
          (unlink-DLinks s.pcbs s.pcb_head c xs ys r.run r.run_distinct)

    moved-sleeping : DLinks moved 0 (head_with zs s.sleep_pcb_head c) (zs ++ (c ∷ []))
    moved-sleeping =
        let out = DLinks-nonnull s.pcbs 0 s.sleep_pcb_head zs r.sleeping in
        let next = DLinks-next s.pcbs 0 s.pcb_head c xs ys r.run in
        let kept : DLinks left 0 s.sleep_pcb_head zs =
          DLinks-others s.pcbs left (last_or 0 xs) (s.pcbs c).next 0 s.sleep_pcb_head zs
            (unlink-Unlinked s.pcbs s.pcb_head c xs ys r.run r.run_distinct).others
            (rw next.0 (after-Misses xs c ys zs out r.apart)) (before-Misses xs c ys zs out r.apart)
            r.sleeping in
        with_last_links left moved 0 s.sleep_pcb_head c zs moved-Put c-nonnull
          (c-Misses xs c ys zs r.apart) r.sleep_distinct kept

    sleep_please-asleep : sleep_please s time_sec ≡ sch_next (asleep c)
    unfolding sleep_please
    sleep_please-asleep =
        let e : (s.current_pcb == 0) ≡ false = ground (arith, r.current, c-nonnull) in
        let found = last_from_lem rounds s.pcbs 0 s.sleep_pcb_head zs r.sleeping r.few in
        rw (e, found) (ap (λ p. sch_next (asleep p)) r.current)

    asleep-time : ((asleep c).pcbs c).sleep_time_left ≡ time_sec
    asleep-time = let cc : (c == c) ≡ true = ground arith in rw cc refl

    asleep-SameLinks : SameLinks moved (asleep c).pcbs
    asleep-SameLinks =
        update-SameLinks moved c (record (moved c) { sleep_time_left = time_sec }) refl refl

  -- `sleepPlease` of the running process, where another process can run, the one that comes next can be loaded if it never
  -- ran, and the queues are shorter than 1001: it keeps the promises of `Sleeps` and does not fault.
  pub sleep_please-Sleeps :
      (xs ys : List ℕ)
      → Running s xs c ys zs
      → 0 < length (xs ++ ys)
      → Ready s (first_of (ys ++ xs))
      → Ensures (Sleeps xs c ys zs time_sec) (sleep_please s time_sec)
  sleep_please-Sleeps xs ys r more ready =
      let next = leave_next-first xs ys r more in
      let head = leave_head-without xs ys r more in
      let links = asleep-SameLinks xs ys r in
      let sleep_head = head_with_lem s.pcbs s.sleep_pcb_head c zs r.sleeping in
      rw (sleep_please-asleep xs ys r) (
        Ensures-weaken (sch_next (asleep c))
          (λ s' d. record {
            run =
                rw (d.head, head)
                  (DLinks-SameLinks (asleep c).pcbs s'.pcbs 0
                    (head_without xs s.pcb_head (s.pcbs c).next) (xs ++ ys) d.links
                    (DLinks-SameLinks moved (asleep c).pcbs 0
                      (head_without xs s.pcb_head (s.pcbs c).next) (xs ++ ys) links
                      (moved-run xs ys r)));
            sleeping =
                rw (d.sleep_head, ← sleep_head)
                  (DLinks-SameLinks (asleep c).pcbs s'.pcbs 0 (head_with zs s.sleep_pcb_head c)
                    (zs ++ (c ∷ [])) d.links
                    (DLinks-SameLinks moved (asleep c).pcbs 0 (head_with zs s.sleep_pcb_head c)
                      (zs ++ (c ∷ [])) links (moved-sleeping xs ys r)));
            time_left = d.time_left c ∙ asleep-time xs ys r;
            current = d.current ∙ next.0;
          })
          (sch_next-Dispatched (asleep c) (λ z. next.1 (sym next.0 ∙ z)) (rw next.0 ready)))

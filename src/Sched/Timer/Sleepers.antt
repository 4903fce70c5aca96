-- ===== src/Sched/Timer/Sleepers.antt =====
-- The end of a sleep in `timer_handler` of sys/timer.c.
use preemptive_unix_os.Base.{
  Misses, Misses-left, ◌&&◌, ℕ, zero, suc, ◌<◌, ◌≡◌, ◌≢◌, ◌∙◌, refl, sym, ap, inl, inr, List, [],
  ◌∷◌, ◌++◌, length, arith, Bool, Bool-cases, ◌==◌, true, false, if◌then◌else◌, Ensures,
  Ensures-weaken, sub64,
}
use preemptive_unix_os.Sched.{Pcb, Sched, rounds, put_last, unlink_back}
use preemptive_unix_os.Sched.Timer.{tick_down, wake_sleeper, wake_sleeping, every_second}
use preemptive_unix_os.Sched.Queue.{
  last_or, last_or-ne, first_of, head_without, DLinks-next, DLinks-prev, DLinks-nonnull,
}
use mathlib.Core.List.{append-nil, append_assoc}
use preemptive_unix_os.Base.{Distinct-right}
use preemptive_unix_os.Sched.Append.{head_with, last_from_lem}
use preemptive_unix_os.Sched.Running.{SameLinks, update-SameLinks}
use preemptive_unix_os.Sched.Move.{Both, move-Both, Both-SameLinks, move_time}

-- The last second of the process has begun.
abbrev pub is_due : (ℕ → Pcb) → ℕ → Bool
is_due a p = sub64 (a p).sleep_time_left 1 == 0

-- The sleeping processes that wake up, and those that sleep on.
abbrev pub due : (ℕ → Pcb) → List ℕ → List ℕ
due a [] = []
due a (p ∷ ps) = if is_due a p then p ∷ due a ps else due a ps

abbrev pub asleep : (ℕ → Pcb) → List ℕ → List ℕ
asleep a [] = []
asleep a (p ∷ ps) = if is_due a p then asleep a ps else p ∷ asleep a ps

-- Each of `ps` has one second less in `b` than in `a`.
abbrev pub Shorter : (ℕ → Pcb) → (ℕ → Pcb) → List ℕ → Type 0
Shorter a b [] = Unit {0}
Shorter a b (p ∷ ps) = ((b p).sleep_time_left ≡ sub64 (a p).sleep_time_left 1) × Shorter a b ps

abbrev KeepsTime : (ℕ → Pcb) → (ℕ → Pcb) → ℕ → Type 0
KeepsTime a b y = (b y).sleep_time_left ≡ (a y).sleep_time_left

-- A process `c` was treated, and the times of `ts`, which it is not one of, are still those of `a`.
module _ (a b : ℕ → Pcb) (c : ℕ) (kept : (y : ℕ) → y ≢ c → KeepsTime a b y) where
  due-kept : (ts : List ℕ) → Misses c ts → due b ts ≡ due a ts
  due-kept [] m = refl
  due-kept (t ∷ ts) (ne, m) = rw (kept t (λ e. ne (sym e)), due-kept ts m) refl

  asleep-kept : (ts : List ℕ) → Misses c ts → asleep b ts ≡ asleep a ts
  asleep-kept [] m = refl
  asleep-kept (t ∷ ts) (ne, m) = rw (kept t (λ e. ne (sym e)), asleep-kept ts m) refl

  Shorter-kept : (d : ℕ → Pcb) (ts : List ℕ) → Misses c ts → Shorter b d ts → Shorter a d ts
  Shorter-kept d [] m h = tt
  Shorter-kept d (t ∷ ts) (ne, m) h =
      (h.0 ∙ ap (λ (x : ℕ). sub64 x 1) (kept t (λ e. ne (sym e))), Shorter-kept d ts m h.1)

tick_down_kept : (a : ℕ → Pcb) (c y : ℕ) → y ≢ c → KeepsTime a (tick_down a c) y
unfolding tick_down
tick_down_kept a c y ne = let f : (y == c) ≡ false = ground arith in rw f refl

tick_down_self :
    (a : ℕ → Pcb) (c : ℕ) → (tick_down a c c).sleep_time_left ≡ sub64 (a c).sleep_time_left 1
unfolding tick_down
tick_down_self a c = let f : (c == c) ≡ true = ground arith in rw f refl

tick_down-SameLinks : (a : ℕ → Pcb) (c : ℕ) → SameLinks a (tick_down a c)
unfolding tick_down
tick_down-SameLinks a c = update-SameLinks a c _ refl refl

wake_sleeper_kept :
    (s : Sched) (c last y : ℕ) → y ≢ c → KeepsTime s.pcbs (wake_sleeper s c last).pcbs y
unfolding wake_sleeper
wake_sleeper_kept s c last y ne =
    let f : (y == c) ≡ false = ground arith in rw f (move_time s.pcbs c last y)

wake_sleeper_self : (s : Sched) (c last : ℕ) → ((wake_sleeper s c last).pcbs c).sleep_time_left ≡ 0
unfolding wake_sleeper
wake_sleeper_self s c last = let f : (c == c) ≡ true = ground arith in rw f refl

-- A process that is due, behind others that sleep on, goes behind those that can run.
wake_sleeper-Both :
    (s : Sched) (r : ℕ) (rs : List ℕ) (k : ℕ) (ks : List ℕ) (c : ℕ) (ts : List ℕ)
    → Both s.pcbs s.sleep_pcb_head ((k ∷ ks) ++ (c ∷ ts)) s.pcb_head (r ∷ rs)
    → (let s' = wake_sleeper s c (last_or 0 (r ∷ rs)) in
        Both s'.pcbs s'.sleep_pcb_head ((k ∷ ks) ++ ts) s'.pcb_head ((r ∷ rs) ++ (c ∷ [])))
unfolding wake_sleeper head_without head_with last_or
wake_sleeper-Both s r rs k ks c ts w =
    let out = DLinks-nonnull s.pcbs 0 s.sleep_pcb_head ((k ∷ ks) ++ (c ∷ ts)) w.one in
    let prev = DLinks-prev s.pcbs 0 s.sleep_pcb_head c (k ∷ ks) ts w.one in
    let some_prev = last_or-ne 0 k ks out.0 (Misses-left 0 ks (c ∷ ts) out.1) in
    let nonzero : (s.pcbs c).prev ≢ 0 = λ e. some_prev (sym e ∙ prev) in
    let company : ((s.pcbs c).prev == 0) ≡ false = ground arith in
    let alone : ((s.pcbs c).next == 0 && (s.pcbs c).prev == 0) ≡ false = ground arith in
    let m = move-Both s.pcbs s.sleep_pcb_head (k ∷ ks) c ts s.pcb_head (r ∷ rs) w in
    rw alone (
      Both-SameLinks (put_last (unlink_back s.pcbs c) (last_or 0 (r ∷ rs)) c) _ s.sleep_pcb_head
        ((k ∷ ks) ++ ts) s.pcb_head ((r ∷ rs) ++ (c ∷ []))
        (update-SameLinks (put_last (unlink_back s.pcbs c) (last_or 0 (r ∷ rs)) c) c _ refl refl) m)

-- What the loop leaves: those that were due can run behind the others, the rest sleeps on in its order, and each
-- has one second less.
pub record Done (s : Sched) (rs kept todo : List ℕ) (s' : Sched) : Type 0 where
  pub both :
      Both s'.pcbs s'.sleep_pcb_head
        (kept ++ asleep s.pcbs todo)
        s'.pcb_head
        (rs ++ due s.pcbs todo)
  pub times : Shorter s.pcbs s'.pcbs todo
  pub untouched : (y : ℕ) → Misses y todo → KeepsTime s.pcbs s'.pcbs y

last_or-append : (p : ℕ) (rs : List ℕ) (c : ℕ) → last_or p (rs ++ (c ∷ [])) ≡ c
unfolding last_or
last_or-append p [] c = refl
last_or-append p (r ∷ rs) c = last_or-append r rs c

-- The process `c` stays, and the loop is done with the rest.
stay_Done :
    (s : Sched) (rs ks : List ℕ) (c : ℕ) (ts : List ℕ) (s' : Sched)
    → is_due s.pcbs c ≡ false
    → Misses c ts
    → (let s1 = record s { pcbs = tick_down s.pcbs c } in Done s1 rs (ks ++ (c ∷ [])) ts s')
    → Done s rs ks (c ∷ ts) s'
stay_Done s rs ks c ts s' late m h =
    let kept = tick_down_kept s.pcbs c in
    record {
      both =
          rw
            (
              late,
              sym (due-kept s.pcbs (tick_down s.pcbs c) c kept ts m),
              sym (asleep-kept s.pcbs (tick_down s.pcbs c) c kept ts m),
              sym (append_assoc ks (c ∷ []) (asleep (tick_down s.pcbs c) ts)),
            )
            h.both;
      times = (
        h.untouched c m ∙ tick_down_self s.pcbs c,
        Shorter-kept s.pcbs (tick_down s.pcbs c) c kept s'.pcbs ts m h.times,
      );
      untouched = λ y n. h.untouched y n.1 ∙ kept y n.0;
    }

module _ (r k : ℕ) where
  -- The process `c` wakes up, and the loop is done with the rest.
  wake_Done :
      (s : Sched) (rs ks : List ℕ) (c : ℕ) (ts : List ℕ) (s' : Sched)
      → is_due s.pcbs c ≡ true
      → Misses c ts
      → (let s1 = record s { pcbs = tick_down s.pcbs c } in
          Done (wake_sleeper s1 c (last_or 0 (r ∷ rs))) ((r ∷ rs) ++ (c ∷ [])) (k ∷ ks) ts s')
      → Done s (r ∷ rs) (k ∷ ks) (c ∷ ts) s'
  wake_Done s rs ks c ts s' now m h =
      let s1 : Sched = record s { pcbs = tick_down s.pcbs c } in
      let b = (wake_sleeper s1 c (last_or 0 (r ∷ rs))).pcbs in
      let kept = λ (y : ℕ) (n : y ≢ c).
        wake_sleeper_kept s1 c (last_or 0 (r ∷ rs)) y n ∙ tick_down_kept s.pcbs c y n in
      let none_left : 0 ≡ sub64 (s.pcbs c).sleep_time_left 1 = ground arith in
      record {
        both =
            rw
              (
                now,
                sym (due-kept s.pcbs b c kept ts m),
                sym (asleep-kept s.pcbs b c kept ts m),
                sym (append_assoc rs (c ∷ []) (due b ts)),
              )
              h.both;
        times = (
          h.untouched c m ∙ wake_sleeper_self s1 c (last_or 0 (r ∷ rs)) ∙ none_left,
          Shorter-kept s.pcbs b c kept s'.pcbs ts m h.times,
        );
        untouched = λ y n. h.untouched y n.1 ∙ kept y n.0;
      }

  at_last : (P : ℕ → Type 0) (rs : List ℕ) (c : ℕ) → P (last_or 0 (r ∷ (rs ++ (c ∷ [])))) → P c
  at_last P rs c h = rw (last_or-append 0 (r ∷ rs) c) at h

  wake_sleeping-Done :
      (n : ℕ) (s : Sched) (rs ks ts : List ℕ)
      → length ts < n
      → Both s.pcbs s.sleep_pcb_head ((k ∷ ks) ++ ts) s.pcb_head (r ∷ rs)
      → Ensures (Done s (r ∷ rs) (k ∷ ks) ts) (wake_sleeping n s (first_of ts) (last_or 0 (r ∷ rs)))
  unfolding wake_sleeping first_of
  wake_sleeping-Done zero s rs ks ts h w = absurd (omega arith)
  wake_sleeping-Done (suc n) s rs ks [] h w = record {
    both = rw (append-nil rs) w;
    times = tt;
    untouched = λ y m. refl;
  }
  wake_sleeping-Done (suc n) s rs ks (c ∷ ts) h w =
      let next = DLinks-next s.pcbs 0 s.sleep_pcb_head c (k ∷ ks) ts w.one in
      let out = Distinct-right (k ∷ ks) (c ∷ ts) w.one_distinct in
      let some_c : (c == 0) ≡ false = ground (arith, next.1) in
      let s1 : Sched = record s { pcbs = tick_down s.pcbs c } in
      let w1 =
        Both-SameLinks s.pcbs s1.pcbs s.sleep_pcb_head ((k ∷ ks) ++ (c ∷ ts)) s.pcb_head (r ∷ rs)
          (tick_down-SameLinks s.pcbs c) w in
      let left = tick_down_self s.pcbs c in
      elim (Bool-cases (is_due s.pcbs c)) [
        | inl now ↦
            let due1 : ((tick_down s.pcbs c c).sleep_time_left == 0) ≡ true =
              ap (λ (x : ℕ). x == 0) left ∙ now in
            let s2 = wake_sleeper s1 c (last_or 0 (r ∷ rs)) in
            rw (some_c, due1, next.0)
              (Ensures-weaken (wake_sleeping n s2 (first_of ts) c)
                (λ s' d. wake_Done s rs ks c ts s' now out.0 d)
                (at_last
                  (λ x.
                    Ensures (Done s2 (r ∷ (rs ++ (c ∷ []))) (k ∷ ks) ts)
                      (wake_sleeping n s2 (first_of ts) x))
                  rs c
                  (wake_sleeping-Done n s2 (rs ++ (c ∷ [])) ks ts (omega arith)
                    (wake_sleeper-Both s1 r rs k ks c ts w1))))
        | inr late ↦
            let due1 : ((tick_down s.pcbs c c).sleep_time_left == 0) ≡ false =
              ap (λ (x : ℕ). x == 0) left ∙ late in
            rw (some_c, due1, next.0)
              (Ensures-weaken (wake_sleeping n s1 (first_of ts) (last_or 0 (r ∷ rs)))
                (λ s' d. stay_Done s (r ∷ rs) (k ∷ ks) c ts s' late out.0 d)
                (wake_sleeping-Done n s1 rs (ks ++ (c ∷ [])) ts (omega arith)
                  (rw (append_assoc ks (c ∷ []) ts) w1)))
      ]

-- The first process that sleeps, where it is not due.
first-Done :
    (n : ℕ) (s : Sched) (r : ℕ) (rs : List ℕ) (z : ℕ) (zs : List ℕ)
    → length zs < n
    → Both s.pcbs s.sleep_pcb_head (z ∷ zs) s.pcb_head (r ∷ rs)
    → is_due s.pcbs z ≡ false
    → Ensures (Done s (r ∷ rs) [] (z ∷ zs)) (wake_sleeping (suc n) s z (last_or 0 (r ∷ rs)))
unfolding wake_sleeping
first-Done n s r rs z zs h w late =
    let next = DLinks-next s.pcbs 0 s.sleep_pcb_head z [] zs w.one in
    let some_z : (z == 0) ≡ false = ground (arith, next.1) in
    let s1 : Sched = record s { pcbs = tick_down s.pcbs z } in
    let w1 =
      Both-SameLinks s.pcbs s1.pcbs s.sleep_pcb_head (z ∷ zs) s.pcb_head (r ∷ rs)
        (tick_down-SameLinks s.pcbs z) w in
    let due1 : ((tick_down s.pcbs z z).sleep_time_left == 0) ≡ false =
      ap (λ (x : ℕ). x == 0) (tick_down_self s.pcbs z) ∙ late in
    rw (some_z, due1, next.0)
      (Ensures-weaken (wake_sleeping n s1 (first_of zs) (last_or 0 (r ∷ rs)))
        (λ s' d. stay_Done s (r ∷ rs) [] z zs s' late w.one_distinct.0 d)
        (wake_sleeping-Done r z n s1 rs [] zs h w1))

-- Once a second, where the first sleeping process `z` is not due: each sleeping process has one second less. Those that
-- are due go behind those that can run, the rest sleeps on in its order, and both queues keep their links.
pub every_second-Done :
    (s : Sched) (r : ℕ) (rs : List ℕ) (z : ℕ) (zs : List ℕ)
    → Both s.pcbs s.sleep_pcb_head (z ∷ zs) s.pcb_head (r ∷ rs)
    → length (r ∷ rs) < rounds
    → length (z ∷ zs) < rounds
    → is_due s.pcbs z ≡ false
    → Ensures (Done s (r ∷ rs) [] (z ∷ zs)) (every_second s)
unfolding every_second
every_second-Done s r rs z zs w h l late =
    let some_z : (s.sleep_pcb_head == 0) ≡ false = ground (arith, w.one.0, w.one.1) in
    let some_r : (s.pcb_head == 0) ≡ false = ground (arith, w.other.0, w.other.1) in
    let from_z = ap (λ (x : ℕ). wake_sleeping rounds s x (last_or 0 (r ∷ rs))) w.one.0 in
    rw (some_z, some_r, last_from_lem rounds s.pcbs 0 s.pcb_head (r ∷ rs) w.other h, from_z)
      (first-Done 1000 s r rs z zs (omega arith) w late)

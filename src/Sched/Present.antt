-- ===== src/Sched/Present.antt =====
-- `isPresent` and `waitPlease` of sys/syscall.c: which processes can be waited for.
use preemptive_unix_os.Base.{
  ◌↔◌, ℕ, suc, zero, ◌+◌, ◌<◌, ◌≡◌, ◌≢◌, ◌⊎◌, inl, inr, refl, List, [], ◌∷◌, length, arith, Bool,
  Bool-cases, ◌==◌, true, false, if◌then◌else◌, ok,
}
use preemptive_unix_os.Sched.{
  Pcb, Sched, is_present_from, is_present, or_else, can_wait, wait_please, rounds, any_child,
}
use preemptive_unix_os.Sched.Turn.{Links}

-- Some process of `ps` has the number `pid`.
abbrev pub HasPid : (ℕ → Pcb) → List ℕ → ℕ → Type 0
HasPid a [] pid = ⊥
HasPid a (p ∷ ps) pid = ((a p).process_id ≡ pid) ⊎ HasPid a ps pid

unfoldable pub has_pid : (ℕ → Pcb) → List ℕ → ℕ → Bool
has_pid a [] pid = false
has_pid a (p ∷ ps) pid = if (a p).process_id == pid then true else has_pid a ps pid

has_pid_iff : (a : ℕ → Pcb) (ps : List ℕ) (pid : ℕ) → (has_pid a ps pid ≡ true) ↔ HasPid a ps pid
unfolding has_pid
has_pid_iff a [] pid = (λ e. cc, λ h. absurd h)
has_pid_iff a (p ∷ ps) pid =
    let ih = has_pid_iff a ps pid in
    elim (Bool-cases ((a p).process_id == pid)) [
      | inl here ↦ rw here (λ e. inl (ground arith), λ h. refl)
      | inr there ↦
          rw there
            (λ e. inr (ih.0 e), λ h. elim h [ inl e ↦ absurd (ground arith) | inr h' ↦ ih.1 h' ])
    ]

is_present_from_lem :
    (n : ℕ) (a : ℕ → Pcb) (p : ℕ) (ps : List ℕ) (pid : ℕ)
    → Links a p ps
    → length ps < n
    → is_present_from n a p pid ≡ ok (has_pid a ps pid)
unfolding is_present_from has_pid
is_present_from_lem zero a p ps pid l h = absurd (omega arith)
is_present_from_lem (suc n) a p [] pid l h = let e : (p == 0) ≡ true = ground arith in rw e refl
is_present_from_lem (suc n) a p (q ∷ qs) pid (e, ne, l) h =
    let f : (p == 0) ≡ false = ground arith in
    elim (Bool-cases ((a q).process_id == pid)) [
      | inl here ↦ rw (f, e, here) refl
      | inr there ↦ rw (f, e, there) (is_present_from_lem n a (a q).next qs pid l (omega arith))
    ]

pub is_present_ok :
    (s : Sched) (head : ℕ) (ps : List ℕ) (pid : ℕ)
    → Links s.pcbs head ps
    → length ps < rounds
    → is_present s head pid ≡ ok (has_pid s.pcbs ps pid)
unfolding is_present
is_present_ok s head ps pid l h = is_present_from_lem rounds s.pcbs head ps pid l h

-- The four queues of processes.
pub record Queues (s : Sched) (run sleeping waiting blocked : List ℕ) : Type 0 where
  pub run_links : Links s.pcbs s.pcb_head run
  pub sleep_links : Links s.pcbs s.sleep_pcb_head sleeping
  pub wait_links : Links s.pcbs s.wait_pcb_head waiting
  pub block_links : Links s.pcbs s.block_pcb_head blocked
  pub few : length run + length sleeping + length waiting + length blocked < rounds

-- `waitPlease` for a number that no process in the four queues has, and that is not -1, returns at once and changes nothing.
pub wait_please-absent :
    (s : Sched) (run sleeping waiting blocked : List ℕ) (pid : ℕ)
    → Queues s run sleeping waiting blocked
    → s.current_pcb ≢ 0
    → pid ≢ any_child
    → ¬ HasPid s.pcbs run pid
    → ¬ HasPid s.pcbs sleeping pid
    → ¬ HasPid s.pcbs waiting pid
    → ¬ HasPid s.pcbs blocked pid
    → wait_please s pid ≡ ok s
unfolding wait_please can_wait or_else
wait_please-absent s run sleeping waiting blocked pid q cn np a b c d =
    let e1 : (s.current_pcb == 0) ≡ false = ground arith in
    let e2 : (pid == any_child) ≡ false = ground arith in
    let absent : (ps : List ℕ) → ¬ HasPid s.pcbs ps pid → has_pid s.pcbs ps pid ≡ false = λ ps no.
      elim (Bool-cases (has_pid s.pcbs ps pid)) [
        | inl e ↦ absurd (no ((has_pid_iff s.pcbs ps pid).0 e))
        | inr e ↦ e
      ] in
    elim (Bool-cases ((s.pcbs s.current_pcb).process_id == pid)) [
      | inl self ↦ rw (e1, self) refl
      | inr other ↦
          rw
            (
              e1,
              other,
              e2,
              is_present_ok s s.wait_pcb_head waiting pid q.wait_links (omega (arith, q.few)),
              absent waiting c,
              is_present_ok s s.sleep_pcb_head sleeping pid q.sleep_links (omega (arith, q.few)),
              absent sleeping b,
              is_present_ok s s.pcb_head run pid q.run_links (omega (arith, q.few)),
              absent run a,
              is_present_ok s s.block_pcb_head blocked pid q.block_links (omega (arith, q.few)),
              absent blocked d,
            )
            refl
    ]

-- ===== src/Keyboard/Line.antt =====
-- The Enter key of sys/kbd.c hands the line to the process that waits.
use preemptive_unix_os.Base.{
  some, Misses, Distinct, ℕ, ◌+◌, ◌≤◌, ◌<◌, ◌≡◌, ◌≢◌, refl, ap, Bool, true, false, List, [], ◌∷◌,
  ◌++◌, Run, ok, if◌then◌else◌, ◌==◌, length, length-append, drop, replicate, get_elem?, arith,
  Ensures, Ensures-bind,
}
use preemptive_unix_os.Strings.{IsText, terminated}
use preemptive_unix_os.Strings.Copy.{strlen_lem, strcpy_lem, memset_lem}
use preemptive_unix_os.Screen.{writek}
use preemptive_unix_os.Screen.Writek.{OnRow, writek-OnRow}
use preemptive_unix_os.Sched.{rounds, put_last}
use preemptive_unix_os.Sched.Queue.{DLinks, last_or, last_or-ne}
use preemptive_unix_os.Sched.Running.{DLinks-SameLinks}
use preemptive_unix_os.Sched.Append.{put_last-Put, head_with, with_last_links, last_from_lem}
use preemptive_unix_os.Keyboard.{
  ascii_shift, ascii_non_shift, Keyboard, scancode_to_ascii, unblock, give_line, key_pressed,
  keyboard_handler,
}

-- The line `text` was typed, the process `b` waits for it with enough room, and `r` and `rs` can run.
pub record Typed (k : Keyboard) (text rest : List ℕ) (b r : ℕ) (rs : List ℕ) : Type 0 where
  pub line : k.read_buff ≡ terminated text rest
  pub is_text : IsText text
  pub room : length text < length k.user_buff
  pub ctrl : k.ctrl_down ≡ false
  pub run : DLinks k.sched.pcbs 0 k.sched.pcb_head (r ∷ rs)
  pub distinct : Distinct (r ∷ rs)
  pub few : length (r ∷ rs) < rounds
  pub waits : k.sched.block_pcb_head ≡ b
  pub nonnull : b ≢ 0
  pub apart : Misses b (r ∷ rs)
  pub on_screen : OnRow 1000 k.screen

-- The process `b` has the line and can run behind the others; the line is cleared, and nobody waits.
pub record Given (k : Keyboard) (text rest : List ℕ) (b r : ℕ) (rs : List ℕ) (k' : Keyboard)
    : Type 0 where
  pub line : k'.user_buff ≡ terminated text (drop (length text + 1) k.user_buff)
  pub cleared : k'.read_buff ≡ replicate (length text) 0 ++ (0 ∷ rest)
  pub run : DLinks k'.sched.pcbs 0 k'.sched.pcb_head ((r ∷ rs) ++ (b ∷ []))
  pub none_waits : k'.sched.block_pcb_head ≡ 0

drop-length : (text rest : List ℕ) → drop (length text) (text ++ rest) ≡ rest
drop-length [] rest = refl
drop-length (c ∷ text) rest = drop-length text rest

module _ (k : Keyboard) (text rest : List ℕ) (b r : ℕ) (rs : List ℕ)
    (w : Typed k text rest b r rs) where
  unblock-run :
      unblock k.sched
      ≡ ok (record k.sched {
        pcbs = put_last k.sched.pcbs (last_or 0 (r ∷ rs)) k.sched.block_pcb_head;
        block_pcb_head = 0;
      })
  unfolding unblock
  unblock-run =
      let some_run : (k.sched.pcb_head == 0) ≡ false = ground (arith, w.run.0, w.run.1) in
      rw (some_run, last_from_lem rounds k.sched.pcbs 0 k.sched.pcb_head (r ∷ rs) w.run w.few) refl

  queue :
      DLinks
        (put_last k.sched.pcbs (last_or 0 (r ∷ rs)) k.sched.block_pcb_head)
        0
        k.sched.pcb_head
        ((r ∷ rs) ++ (b ∷ []))
  unfolding head_with
  queue =
      let put =
        put_last-Put k.sched.pcbs (last_or 0 (r ∷ rs)) b
          (last_or-ne b 0 (r ∷ rs) w.nonnull w.apart) in
      DLinks-SameLinks (put_last k.sched.pcbs (last_or 0 (r ∷ rs)) b)
        (put_last k.sched.pcbs (last_or 0 (r ∷ rs)) k.sched.block_pcb_head) 0 k.sched.pcb_head
        ((r ∷ rs) ++ (b ∷ [])) (λ y. rw w.waits (refl, refl))
        (with_last_links k.sched.pcbs (put_last k.sched.pcbs (last_or 0 (r ∷ rs)) b) 0
          k.sched.pcb_head b (r ∷ rs) put w.nonnull w.apart w.distinct w.run)

  give_line-Given :
      (k1 : Keyboard)
      → k1.read_buff ≡ k.read_buff
      → k1.user_buff ≡ k.user_buff
      → k1.sched ≡ k.sched
      → Ensures (Given k text rest b r rs) (give_line k1)
  unfolding give_line
  give_line-Given k1 er eu es =
      let copied = strcpy_lem k.user_buff text rest w.is_text w.room in
      let whole : length text ≤ length (terminated text rest) =
        omega (arith, length-append text (0 ∷ rest)) in
      rw
        (
          er,
          eu,
          es,
          w.line,
          copied,
          strlen_lem text rest w.is_text,
          memset_lem (terminated text rest) 0 (length text) whole,
          unblock-run,
        )
        (record {
          line = refl;
          cleared =
              ap (λ (l : List ℕ). replicate (length text) 0 ++ l) (drop-length text (0 ∷ rest));
          run = queue;
          none_waits = refl;
        })

Ensures-else :
    (P : Keyboard → Type 0) (c : Bool) (m n : Run Keyboard)
    → c ≡ false
    → Ensures P n
    → Ensures P (if c then m else n)
Ensures-else P true m n e h = absurd (ground arith)
Ensures-else P false m n e h = h

newline_lem : (b : Bool) → get_elem? (if b then ascii_shift else ascii_non_shift) 28 ≡ some 10
newline_lem true = refl
newline_lem false = refl

-- The Enter key, where Ctrl was not pressed before, one process waits for the keyboard, whose buffer has room for the line and
-- its NUL, and another process can run: the line goes to the process that waits, which can run behind the others, and the
-- next line starts empty. Fewer than 1001 processes can run, and the row of the cursor is 1000 at most.
pub keyboard_handler-Given :
    (k : Keyboard) (text rest : List ℕ) (b r : ℕ) (rs : List ℕ)
    → Typed k text rest b r rs
    → Ensures (Given k text rest b r rs) (keyboard_handler 28 k)
unfolding keyboard_handler key_pressed scancode_to_ascii
keyboard_handler-Given k text rest b r rs w =
    let newline : get_elem? (if k.shift_down then ascii_shift else ascii_non_shift) 28 ≡ some 10 =
      newline_lem k.shift_down in
    let waits : (k.sched.block_pcb_head == 0) ≡ false = ground (arith, w.waits, w.nonnull) in
    rw newline (
      Ensures-else (Given k text rest b r rs) k.ctrl_down _ _ w.ctrl (
        Ensures-bind (Given k text rest b r rs) (writek (10 ∷ 0 ∷ 0 ∷ []) k.screen) _
          (writek-OnRow (10 ∷ []) (0 ∷ []) k.screen 1000 (omega arith, omega arith, tt) w.on_screen
            (omega arith) (omega arith))
          (λ screen o. rw waits (
            give_line-Given k text rest b r rs w (record k { shift_down = false; screen = screen })
              refl refl refl))))

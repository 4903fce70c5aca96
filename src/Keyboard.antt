-- ===== src/Keyboard.antt =====
-- The keyboard: `keyboard_handler` of sys/kbd.c. The line that is typed is kept in `readBuff`, the bytes from there to the
-- end of its object; a newline hands it to the process that waits in `block_pcb_head`. Its buffer is `addressOfBuff`.
pub mod Line
pub mod Tests
use preemptive_unix_os.Base.{
  ℕ, zero, suc, ◌+◌, ◌-◌, Bool, true, false, not, ◌||◌, Option, none, some, List, [], ◌∷◌, ◌++◌,
  Run, ok, fault, ◌>>=◌, if◌then◌else◌, leb, ◌==◌, update, or_fault, get_elem?,
}
use preemptive_unix_os.Strings.{strlen, strcpy, memset}
use preemptive_unix_os.Sched.{Pcb, Sched, rounds, last_from, put_last}
use preemptive_unix_os.Screen.{Screen, writek}

-- The characters of the scan codes, without and with the shift key.
abbrev pub ascii_non_shift : List ℕ
ascii_non_shift =
    0 ∷ 27 ∷ 49 ∷ 50 ∷ 51 ∷ 52 ∷ 53 ∷ 54 ∷ 55 ∷ 56 ∷ 57 ∷ 48 ∷ 45 ∷ 61 ∷ 8 ∷ 9 ∷ 113 ∷ 119 ∷ 101
    ∷ 114 ∷ 116 ∷ 121 ∷ 117 ∷ 105 ∷ 111 ∷ 112 ∷ 91 ∷ 93 ∷ 10 ∷ 0 ∷ 97 ∷ 115 ∷ 100 ∷ 102 ∷ 103 ∷ 104
    ∷ 106 ∷ 107 ∷ 108 ∷ 59 ∷ 39 ∷ 96 ∷ 0 ∷ 92 ∷ 122 ∷ 120 ∷ 99 ∷ 118 ∷ 98 ∷ 110 ∷ 109 ∷ 44 ∷ 46 ∷ 47
    ∷ 0 ∷ 0 ∷ 0 ∷ 32 ∷ 0 ∷ 0 ∷ 0 ∷ 0 ∷ 0 ∷ 0 ∷ 0 ∷ 0 ∷ 0 ∷ 0 ∷ 0 ∷ 0 ∷ 0 ∷ 0 ∷ 0 ∷ 0 ∷ 45 ∷ 0 ∷ 53
    ∷ 0 ∷ 43 ∷ 0 ∷ 0 ∷ 0 ∷ 0 ∷ 0 ∷ 0 ∷ 0 ∷ 0 ∷ 0 ∷ 0 ∷ []

abbrev pub ascii_shift : List ℕ
ascii_shift =
    0 ∷ 27 ∷ 33 ∷ 64 ∷ 35 ∷ 36 ∷ 37 ∷ 94 ∷ 38 ∷ 42 ∷ 40 ∷ 41 ∷ 95 ∷ 43 ∷ 8 ∷ 9 ∷ 81 ∷ 87 ∷ 69 ∷ 82
    ∷ 84 ∷ 89 ∷ 85 ∷ 73 ∷ 79 ∷ 80 ∷ 123 ∷ 125 ∷ 10 ∷ 0 ∷ 65 ∷ 83 ∷ 68 ∷ 70 ∷ 71 ∷ 72 ∷ 74 ∷ 75 ∷ 76
    ∷ 58 ∷ 34 ∷ 126 ∷ 0 ∷ 124 ∷ 90 ∷ 88 ∷ 67 ∷ 86 ∷ 66 ∷ 78 ∷ 77 ∷ 60 ∷ 62 ∷ 63 ∷ 0 ∷ 0 ∷ 0 ∷ 32 ∷ 0
    ∷ 0 ∷ 0 ∷ 0 ∷ 0 ∷ 0 ∷ 0 ∷ 0 ∷ 0 ∷ 0 ∷ 0 ∷ 0 ∷ 0 ∷ 0 ∷ 0 ∷ 0 ∷ 45 ∷ 0 ∷ 53 ∷ 0 ∷ 43 ∷ 0 ∷ 0 ∷ 0
    ∷ 0 ∷ 0 ∷ 0 ∷ 0 ∷ 0 ∷ 0 ∷ 0 ∷ []

-- The keys that are down, the line, the buffer of the process that waits, the processes, and the screen.
pub record Keyboard : Type 0 where
  pub shift_down : Bool
  pub ctrl_down : Bool
  pub read_buff : List ℕ
  pub user_buff : List ℕ
  pub sched : Sched
  pub screen : Screen

abbrev pub shift_code : ℕ → Bool
shift_code x = x == 0x2A || x == 0x36

abbrev pub ctrl_code : ℕ → Bool
ctrl_code x = x == 0x1D

-- The shift key counts for one character. A scan code behind the table is undefined.
unfoldable pub scancode_to_ascii : Keyboard → ℕ → Run (ℕ × Keyboard)
scancode_to_ascii k scancode =
    or_fault (get_elem? (if k.shift_down then ascii_shift else ascii_non_shift) scancode) >>= λ c.
    ok (c, record k { shift_down = false })

-- The character goes behind the text, with a NUL.
unfoldable pub append_char : List ℕ → ℕ → Run (List ℕ)
append_char [] c = fault
append_char (b ∷ []) c = fault
append_char (b ∷ next ∷ buff) c =
    if b == 0 then ok (c ∷ 0 ∷ buff) else (append_char (next ∷ buff) c >>= λ rest. ok (b ∷ rest))

unfoldable pub type_char : ℕ → Keyboard → Run Keyboard
type_char c k = append_char k.read_buff c >>= λ buff. ok (record k { read_buff = buff })

-- The first process that waits goes behind those that can run; the ones behind it are lost.
unfoldable pub unblock : Sched → Run Sched
unblock s =
    if s.pcb_head == 0
    then fault
    else (last_from rounds s.pcbs s.pcb_head >>= λ temp1.
        ok (record s { pcbs = put_last s.pcbs temp1 s.block_pcb_head; block_pcb_head = 0 }))

-- A newline for a process that waits: it gets the line, and the line is cleared.
unfoldable pub give_line : Keyboard → Run Keyboard
give_line k = strcpy k.user_buff k.read_buff >>= λ user. strlen k.read_buff >>= λ n.
    memset k.read_buff 0 n >>= λ cleared.
    unblock k.sched >>= λ s. ok (record k { user_buff = user; read_buff = cleared; sched = s })

unfoldable pub key_pressed : ℕ → Keyboard → Run Keyboard
key_pressed scancode k = scancode_to_ascii k scancode >>= λ (scanned, k1).
    if k.ctrl_down
    then ok (record k1 { ctrl_down = false })
    else (writek (scanned ∷ 0 ∷ 0 ∷ []) k1.screen >>= λ screen.
        let k2 = record k1 { screen = screen } in
        if not (scanned == 10)
        then type_char scanned k2
        else if k.sched.block_pcb_head == 0
        then type_char scanned k2
        else give_line k2)

unfoldable pub keyboard_handler : ℕ → Keyboard → Run Keyboard
keyboard_handler scancode k =
    if leb 128 scancode
    then ok (if shift_code (scancode - 128) then record k { shift_down = false } else k)
    else if shift_code scancode
    then ok (record k { shift_down = true })
    else if ctrl_code scancode
    then ok (record k { ctrl_down = true })
    else key_pressed scancode k

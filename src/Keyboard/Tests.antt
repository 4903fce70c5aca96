-- ===== src/Keyboard/Tests.antt =====
-- Runs of `keyboard_handler` of sys/kbd.c.
use preemptive_unix_os.Base.{true, ◌≡◌, refl, false, [], ◌∷◌, ok, ◌>>=◌, replicate, arith, Ensures}
use preemptive_unix_os.Screen.{writek, put_char, next_row, wrap, scroll_screen, set_cell}
use preemptive_unix_os.Keyboard.{
  Keyboard, scancode_to_ascii, append_char, type_char, key_pressed, keyboard_handler,
}
use preemptive_unix_os.Keyboard.Line.{Typed, Given, keyboard_handler-Given}

-- "hi" was typed; 20 waits for a line, and 10 runs.
abbrev typing : Keyboard
typing = record {
  shift_down = false;
  ctrl_down = false;
  read_buff = 104 ∷ 105 ∷ 0 ∷ 0 ∷ 0 ∷ [];
  user_buff = replicate 8 7;
  sched = record {
    pcbs = λ p. record {
      next = 0;
      prev = 0;
      process_id = p;
      parent_process_id = 0;
      has_ran = 1;
      sleep_time_left = 0;
      time = 0;
      wait_pid = 0;
    };
    current_pcb = 10;
    pcb_head = 10;
    sleep_pcb_head = 0;
    wait_pcb_head = 0;
    block_pcb_head = 20;
    num_processes = 2;
    global_counter = 50;
    loads = λ _. true;
    releases = λ _. true;
  };
  screen = record { x_pos = 0; y_pos = 3; cells = λ i. 0 };
}

typing-Typed : Typed typing (104 ∷ 105 ∷ []) (0 ∷ 0 ∷ []) 20 10 []
typing-Typed = record {
  line = refl;
  is_text = (omega arith, omega arith, (omega arith, omega arith, tt));
  room = omega arith;
  ctrl = refl;
  run = (refl, λ e. ground arith, refl, refl);
  distinct = (tt, tt);
  few = omega arith;
  waits = refl;
  nonnull = λ e. ground arith;
  apart = (λ e. ground arith, tt);
  on_screen = (omega arith, omega arith);
}

keyboard_handler-Given_example :
    Ensures (Given typing (104 ∷ 105 ∷ []) (0 ∷ 0 ∷ []) 20 10 []) (keyboard_handler 28 typing)
keyboard_handler-Given_example =
    keyboard_handler-Given typing (104 ∷ 105 ∷ []) (0 ∷ 0 ∷ []) 20 10 [] typing-Typed

-- Shift and "a": an "A" is typed behind the line, and the next key is not shifted.
shifted :
    (keyboard_handler 0x2A typing >>= λ k. keyboard_handler 30 k >>= λ k'. ok (k'.read_buff))
    ≡ ok (104 ∷ 105 ∷ 65 ∷ 0 ∷ 0 ∷ [])
unfolding keyboard_handler key_pressed scancode_to_ascii append_char type_char writek put_char
    next_row wrap scroll_screen set_cell
shifted = refl

-- ===== src/Terminal/Tests.antt =====
-- Runs of the terminal: a console that is fresh, a line that is typed, output in pieces.
use bz_os.Prelude.{
  ℕ, ◌+◌, ◌*◌, ◌%◌, ◌^◌, ◌<◌, ◌≡◌, ◌≢◌, inl, inr, refl, arith, true, [], ◌∷◌, ◌++◌, done, update,
  none,
}
use bz_os.Prelude.Int.{pos}
use bz_os.Kernel.State.{Kernel}
use bz_os.Kernel.Descriptor.{va2la, init_descriptor, ldt_seg_linear}
use bz_os.Terminal.Ring.{Ring, put_key, next_key, drop_key}
use bz_os.Terminal.Ring.Queue.{IsRing, contents, keys_from}
use bz_os.Terminal.Console.{Console, Screen, out_char, out_chars, v_mem_base}
use bz_os.Terminal.Console.Bounds.{IsConsole, Visible, Outside}
use bz_os.Terminal.Console.Output.{out_char-IsConsole, out_char-Visible}
use bz_os.Terminal.Console.Text.{out_chars-Shows, Shows, IsText}
use bz_os.Terminal.Tty.{Driver, resume_proc, syscall_ret, tty_dev_write, tty_do_write, bytes_at}
use bz_os.Terminal.Tty.Line.{Line, Reads, Stored, edit, edits}
use bz_os.Terminal.Tty.Turn.{reply}
use bz_os.Terminal.Tty.Delivery.{Finished, tty_dev_write-edits}
use bz_os.Terminal.Tty.Output.{tty_do_write-out_chars}
use bz_os.Terminal.Keymap.{keymap}
use bz_os.Terminal.Keyboard.{Keyboard, keyboard_read, type_key, init_keyboard}
use bz_os.Terminal.Keyboard.Letters.{keyboard_read-letter}

abbrev no_keys : Ring
no_keys = record { head = 0; tail = 0; count = 0; buf = λ _. 0 }

no_keys-IsRing : IsRing 256 no_keys
no_keys-IsRing = record {
  tail_in = omega arith;
  head_in = omega arith;
  bounded = omega arith;
  apart = inl refl;
}

-- 'a', 'b', backspace and newline
abbrev four_keys : Ring
four_keys = record {
  head = 4;
  tail = 0;
  count = 4;
  buf = update (update (update (update (λ _. 0) 0 97) 1 98) 2 8) 3 10;
}

four_keys-IsRing : IsRing 256 four_keys
four_keys-IsRing = record {
  tail_in = omega arith;
  head_in = omega arith;
  bounded = omega arith;
  apart = inl refl;
}

-- console 1, fresh
abbrev console_one : Console
console_one = record {
  original_addr = 5461;
  current_start_addr = 5461;
  v_mem_limit = 5461;
  cursor = 5461;
}

abbrev screen_one : Screen
screen_one = record {
  console_table = λ _. console_one;
  nr_current_console = 1;
  mem = λ a. a;
  ports = [];
}

console_one-IsConsole : IsConsole 1 console_one
console_one-IsConsole = record {
  number = omega arith;
  begins = refl;
  limit = refl;
  row = 0;
  shown = omega arith;
  shown_in = omega arith;
  cursor_from = omega arith;
  cursor_to = omega arith;
}

out_char-IsConsole_example :
    IsConsole 1 ((out_char screen_one 1 97).console_table 1)
    × ((j : ℕ) → j ≢ 1 → (out_char screen_one 1 97).console_table j ≡ console_one)
    × ((a : ℕ) → Outside 1 a → (out_char screen_one 1 97).mem a ≡ a)
out_char-IsConsole_example = out_char-IsConsole screen_one 1 97 console_one-IsConsole

out_char-Visible_example : Visible ((out_char screen_one 1 10).console_table 1)
out_char-Visible_example =
    out_char-Visible screen_one 1 10 console_one-IsConsole (omega arith, omega arith) (omega arith)

out_chars-Shows_example :
    let s' = out_chars screen_one 1 (104 ∷ 105 ∷ []) in
    ((s'.console_table 1).cursor ≡ 5461 + 2)
    × Shows s'.mem 5461 (104 ∷ 105 ∷ [])
    × ((a : ℕ) → a < v_mem_base + 2 * 5461 → s'.mem a ≡ a)
unfolding IsText
out_chars-Shows_example =
    out_chars-Shows screen_one 1 (104 ∷ 105 ∷ []) console_one-IsConsole
      (omega arith, omega arith, (omega arith, omega arith, tt)) (omega arith)

-- a process that waits for a line of at most 8 characters at the address 4096
abbrev waiting : Driver
waiting = record {
  screen = screen_one;
  tty = record {
    ibuf = four_keys;
    tty_caller = 3;
    tty_procnr = 7;
    tty_req_buf = 4096;
    tty_left_cnt = 8;
    tty_trans_cnt = 0;
    console = 1;
  };
  sent = [];
}

abbrev nothing_typed : Line
nothing_typed = record { typed = []; left = 8 }

waiting-Reads : Reads waiting nothing_typed
unfolding Stored
waiting-Reads = record {
  valid = console_one-IsConsole;
  ring = four_keys-IsRing;
  transferred = refl;
  wanted = refl;
  stored = tt;
  room = λ i lt. inl (omega arith);
  fits = omega arith;
}

-- The backspace takes back the 'b', the newline ends the line: one character, 'a'.
tty_dev_write-edits_example :
    Finished waiting
      (record { typed = 97 ∷ []; left = 0 })
      (record { dest = 3; reply_type = resume_proc; proc_nr = 7; cnt = 1 } ∷ [])
      (tty_dev_write 4 waiting)
unfolding edits edit contents keys_from reply
tty_dev_write-edits_example =
    tty_dev_write-edits 4 waiting nothing_typed waiting-Reads (omega arith) (omega arith)

-- process 9, whose segment begins at 0xa00000
abbrev writer : Kernel
writer = record {
  procs = λ _. record {
    ldt_sel = 0x28;
    ldt_c = init_descriptor 0xa00000 0xff 0xc92;
    ldt_rw = init_descriptor 0xa00000 0xff 0xc92;
    ticks = pos 5;
    priority = pos 5;
    name = [];
    flags = 0;
    p_msg = 0;
    recv_from = 57;
    send_to = 57;
    has_int_msg = 0;
    q_sending = none;
    next_sending = none;
    filp = λ _. none;
    parent = 57;
  };
  p_proc_ready = 0;
  mem = λ a. a;
  k_reenter = 0;
  tick_count = 0;
  key_pressed = 0;
}

writer_address : va2la writer 9 64 ≡ done 0xa00040
unfolding va2la init_descriptor ldt_seg_linear
writer_address = refl

tty_do_write-out_chars_example :
    tty_do_write writer waiting (record { source = 3; proc_nr = 9; buf = 64; cnt = 5 })
    ≡ done (record waiting {
      screen = out_chars screen_one 1 (bytes_at (λ a. a) 0xa00040 5);
      sent = record { dest = 3; reply_type = syscall_ret; proc_nr = 9; cnt = 5 } ∷ [];
    })
tty_do_write-out_chars_example =
    tty_do_write-out_chars writer waiting (record { source = 3; proc_nr = 9; buf = 64; cnt = 5 })
      0xa00040 writer_address console_one-IsConsole (λ j lt. inr (omega arith))

-- scan code 0x1e is 'a'
abbrev one_scan_code : Ring
one_scan_code = record { head = 1; tail = 0; count = 1; buf = λ _. 0x1e }

one_scan_code-IsRing : IsRing 32 one_scan_code
one_scan_code-IsRing = record {
  tail_in = omega arith;
  head_in = omega arith;
  bounded = omega arith;
  apart = inl refl;
}

-- shift is held
abbrev shift_held : Keyboard
shift_held = record (init_keyboard no_keys) { kb_in = one_scan_code; shift_l = true }

keyboard_read-letter_example :
    (key : ℕ) × (keyboard_read shift_held waiting
      ≡ done (record shift_held { kb_in = drop_key 32 one_scan_code }, type_key waiting key))
    × (key % 2 ^ 8 ≡ 65)
    × (contents 256 (put_key 256 four_keys key) ≡ contents 256 four_keys ++ key ∷ [])
unfolding init_keyboard next_key keymap
keyboard_read-letter_example =
    keyboard_read-letter shift_held waiting one_scan_code-IsRing four_keys-IsRing (omega arith)
      (omega arith) (omega arith, omega arith)

-- ===== src/Terminal/Keyboard.antt =====
-- The keyboard driver: kernel/keyboard.c, and in_process of kernel/tty.c, to which it gives the keys.
-- The leds, which set_leds switches, are the device's.
pub mod Letters
use bz_os.Prelude.{
  ℕ, ◌+◌, ◌-◌, ◌*◌, ◌/◌, ◌%◌, Bool, true, false, not, ◌&&◌, ◌||◌, List, [], ◌∷◌, Outcome, done,
  halt, spinning, ◌>>=◌, leb, ◌==◌, if◌then◌else◌, get_or,
}
use bz_os.Terminal.Ring.{Ring, reset, tty_in_bytes, kb_in_bytes, put_key, next_key}
use bz_os.Terminal.Console.{
  is_current_console, scroll_screen, select_console, up, down, newline, backspace,
}
use bz_os.Terminal.Tty.{Driver}
use bz_os.Terminal.Keymap

pub record Keyboard : Type 0 where
  pub kb_in : Ring
  pub shift_l : Bool
  pub shift_r : Bool
  pub alt_l : Bool
  pub alt_r : Bool
  pub ctrl_l : Bool
  pub ctrl_r : Bool
  pub caps_lock : Bool
  pub num_lock : Bool
  pub scroll_lock : Bool

-- The keyboard's interrupt, with the byte that the controller gives; key_pressed is then set.
unfoldable pub keyboard_handler : Ring → ℕ → Ring × ℕ
keyboard_handler kb_in scan_code = (put_key kb_in_bytes kb_in scan_code, 1)

-- With an empty buffer the loop waits for an interrupt.
unfoldable pub get_byte_from_kbuf : Ring → Outcome (ℕ × Ring)
get_byte_from_kbuf r =
    if r.count == 0
    then halt spinning
    else done (
      next_key r,
      record r {
        tail = if leb kb_in_bytes (r.tail + 1) then 0 else r.tail + 1;
        count = r.count - 1;
      },
    )

-- What a sequence of bytes means: a scan code, whether after 0xe0, or one of two special keys.
pub data Scan : Type 0 where
  code : ℕ → Bool → Scan
  pausebreak printscreen : Scan

-- the rest of Pause/Break after 0xe1: up to the first byte that differs
pub read_pausebreak : List ℕ → Ring → Outcome (Scan × Ring)
read_pausebreak [] r = done (pausebreak, r)
read_pausebreak (c ∷ cs) r = do
  b ← get_byte_from_kbuf r
  if b.0 == c then read_pausebreak cs b.1 else done (code 0xe1 false, b.1)

-- the rest of PrintScreen, after 0xe0 and `first`
unfoldable pub read_printscreen : ℕ → ℕ → Ring → Outcome (Scan × Ring)
read_printscreen first last r = do
  b ← get_byte_from_kbuf r
  if b.0 == 0xe0
      then (do
        c ← get_byte_from_kbuf b.1
        done (if c.0 == last then printscreen else code first true, c.1))
      else done (code first true, b.1)

unfoldable pub read_scan : Ring → Outcome (Scan × Ring)
read_scan r = do
  b ← get_byte_from_kbuf r
  if b.0 == 0xe1
      then read_pausebreak (0x1d ∷ 0x45 ∷ 0xe1 ∷ 0x9d ∷ 0xc5 ∷ []) b.1
      else if b.0 == 0xe0
      then (do
        c ← get_byte_from_kbuf b.1
        if c.0 == 0x2a
            then read_printscreen 0x2a 0x37 c.1
            else if c.0 == 0xb7
            then read_printscreen 0xb7 0xaa c.1
            else done (code c.0 true, c.1))
      else done (code b.0 false, b.1)

-- !(scan_code & FLAG_BREAK)
abbrev pub is_make : ℕ → Bool
is_make scan_code = scan_code / Keymap.flag_break % 2 == 0

abbrev pub keyrow : ℕ → ℕ → ℕ
keyrow scan_code column = get_or Keymap.keymap (scan_code % 0x80 * Keymap.map_cols + column) 0

abbrev pub xor : Bool → Bool → Bool
xor a b = if a then not b else b

-- caps_lock counts for letters only
unfoldable pub column : Keyboard → ℕ → Bool → ℕ
column kb scan_code with_e0 =
    let letter : Bool = leb 97 (keyrow scan_code 0) && leb (keyrow scan_code 0) 122 in
    let caps : Bool = xor (kb.caps_lock && letter) (kb.shift_l || kb.shift_r) in
    if with_e0 then 2 else if caps then 1 else 0

-- the switch on shift, ctrl, alt and the lock keys
unfoldable pub set_modifier : Keyboard → ℕ → Bool → Keyboard
set_modifier kb key make =
    if key == Keymap.key_shift_l
    then record kb { shift_l = make }
    else if key == Keymap.key_shift_r
    then record kb { shift_r = make }
    else if key == Keymap.key_ctrl_l
    then record kb { ctrl_l = make }
    else if key == Keymap.key_ctrl_r
    then record kb { ctrl_r = make }
    else if key == Keymap.key_alt_l
    then record kb { alt_l = make }
    else if key == Keymap.key_alt_r
    then record kb { alt_r = make }
    else if key == Keymap.key_caps_lock
    then record kb { caps_lock = xor make kb.caps_lock }
    else if key == Keymap.key_num_lock
    then record kb { num_lock = xor make kb.num_lock }
    else if key == Keymap.key_scroll_lock
    then record kb { scroll_lock = xor make kb.scroll_lock }
    else kb

-- the keys of the pad without num_lock; PAD_PAGEDOWN stays as it is
unfoldable pub pad_function : ℕ → ℕ
pad_function key =
    if key == Keymap.key_pad_home
    then Keymap.key_home
    else if key == Keymap.key_pad_end
    then Keymap.key_end
    else if key == Keymap.key_pad_pageup
    then Keymap.key_pageup
    else if key == Keymap.key_pad_pagedown
    then Keymap.key_pad_pagedown
    else if key == Keymap.key_pad_ins
    then Keymap.key_insert
    else if key == Keymap.key_pad_up
    then Keymap.key_up
    else if key == Keymap.key_pad_down
    then Keymap.key_down
    else if key == Keymap.key_pad_left
    then Keymap.key_left
    else if key == Keymap.key_pad_right
    then Keymap.key_right
    else if key == Keymap.key_pad_dot
    then Keymap.key_delete
    else key

unfoldable pub pad_key : Bool → ℕ → ℕ
pad_key num_lock key =
    if not (leb Keymap.key_pad_slash key && leb key Keymap.key_pad_9)
    then key
    else if key == Keymap.key_pad_slash
    then 47
    else if key == Keymap.key_pad_star
    then 42
    else if key == Keymap.key_pad_minus
    then 45
    else if key == Keymap.key_pad_plus
    then 43
    else if key == Keymap.key_pad_enter
    then Keymap.key_enter
    else if num_lock && leb Keymap.key_pad_0 key && leb key Keymap.key_pad_9
    then key - Keymap.key_pad_0 + 48
    else if num_lock && key == Keymap.key_pad_dot
    then 46
    else pad_function key

-- key |= b ? flag : 0, for a key that has not got the flag: all keys of the map are below 0x200
abbrev pub flagged : Bool → ℕ → ℕ → ℕ
flagged b flag key = if b then key + flag else key

unfoldable pub with_flags : Keyboard → ℕ → ℕ
with_flags kb key = flagged kb.alt_r Keymap.flag_alt_r (
    flagged kb.alt_l Keymap.flag_alt_l (
      flagged kb.ctrl_r Keymap.flag_ctrl_r (
        flagged kb.ctrl_l Keymap.flag_ctrl_l
          (flagged kb.shift_r Keymap.flag_shift_r (flagged kb.shift_l Keymap.flag_shift_l key)))))

-- key & flag
abbrev pub has_flag : ℕ → ℕ → Bool
has_flag key flag = key / flag % 2 == 1

abbrev pub type_key : Driver → ℕ → Driver
type_key d key = record d { tty = record d.tty { ibuf = put_key tty_in_bytes d.tty.ibuf key } }

-- a key that is no character
unfoldable pub function_key : Driver → ℕ → Driver
function_key d key =
    let raw_code : ℕ = key % 0x200 in
    let shift : Bool = has_flag key Keymap.flag_shift_l || has_flag key Keymap.flag_shift_r in
    let ctrl : Bool = has_flag key Keymap.flag_ctrl_l || has_flag key Keymap.flag_ctrl_r in
    if raw_code == Keymap.key_enter
    then type_key d newline
    else if raw_code == Keymap.key_backspace
    then type_key d backspace
    else if raw_code == Keymap.key_up
    then (if shift then record d { screen = scroll_screen d.screen d.tty.console up } else d)
    else if raw_code == Keymap.key_down
    then (if shift then record d { screen = scroll_screen d.screen d.tty.console down } else d)
    else if leb Keymap.key_f1 raw_code && leb raw_code Keymap.key_f12
    then (if ctrl
        then record d { screen = select_console d.screen (raw_code - Keymap.key_f1) }
        else d)
    else d

unfoldable pub in_process : Driver → ℕ → Driver
in_process d key = if has_flag key Keymap.flag_ext then function_key d key else type_key d key

-- what keyboard_read does with a scan code
unfoldable pub press : Keyboard → Driver → ℕ → Bool → Keyboard × Driver
press kb d scan_code with_e0 =
    let key : ℕ = keyrow scan_code (column kb scan_code with_e0) in
    let make : Bool = is_make scan_code in
    let kb' : Keyboard = set_modifier kb key make in
    (kb', if make then in_process d (with_flags kb' (pad_key kb'.num_lock key)) else d)

-- Pause/Break and PrintScreen are read and then ignored.
unfoldable pub keyboard_read : Keyboard → Driver → Outcome (Keyboard × Driver)
keyboard_read kb d = if kb.kb_in.count == 0 then done (kb, d) else (do
  s ← read_scan kb.kb_in
  let kb' : Keyboard = record kb { kb_in = s.1 }
  elim s.0 [
    | code scan_code with_e0 ↦ done (press kb' d scan_code with_e0)
    | pausebreak ↦ done (kb', d)
    | printscreen ↦ done (kb', d)
  ])

-- init_keyboard, without the interrupt controller
unfoldable pub init_keyboard : Ring → Keyboard
init_keyboard r = record {
  kb_in = reset r;
  shift_l = false;
  shift_r = false;
  alt_l = false;
  alt_r = false;
  ctrl_l = false;
  ctrl_r = false;
  caps_lock = false;
  num_lock = true;
  scroll_lock = false;
}

-- The keys go to the console that is shown.
unfoldable pub tty_dev_read : Keyboard → Driver → Outcome (Keyboard × Driver)
tty_dev_read kb d =
    if is_current_console d.screen d.tty.console then keyboard_read kb d else done (kb, d)

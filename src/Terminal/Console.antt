-- ===== src/Terminal/Console.antt =====
-- The consoles: kernel/console.c and include/sys/console.h. Three consoles share the video memory;
-- an address in a console counts cells of two bytes. Arithmetic on u32 wraps.
pub mod Bounds
pub mod Output
pub mod Text
use bz_os.Prelude.{
  ℕ, ◌+◌, ◌-◌, ◌*◌, ◌/◌, ◌%◌, ◌^◌, Bool, List, [], ◌∷◌, ltb, leb, ◌==◌, if◌then◌else◌, update,
}

abbrev pub v_mem_base : ℕ
v_mem_base = 0xb8000

abbrev pub v_mem_size : ℕ
v_mem_size = 0x8000

abbrev pub nr_consoles : ℕ
nr_consoles = 3

abbrev pub screen_width : ℕ
screen_width = 80

abbrev pub screen_size : ℕ
screen_size = 80 * 25

-- MAKE_COLOR(BLACK, WHITE)
abbrev pub default_char_color : ℕ
default_char_color = 0x7

abbrev pub newline : ℕ
newline = 10

abbrev pub backspace : ℕ
backspace = 8

abbrev pub blank : ℕ
blank = 32

abbrev pub crtc_addr_reg : ℕ
crtc_addr_reg = 0x3d4

abbrev pub crtc_data_reg : ℕ
crtc_data_reg = 0x3d5

abbrev pub add_u32 : ℕ → ℕ → ℕ
add_u32 a b = (a + b) % 2 ^ 32

-- for b of at most 2^32
abbrev pub sub_u32 : ℕ → ℕ → ℕ
sub_u32 a b = (a + (2 ^ 32 - b)) % 2 ^ 32

pub record Console : Type 0 where
  pub original_addr : ℕ
  pub current_start_addr : ℕ
  pub v_mem_limit : ℕ
  pub cursor : ℕ

-- What this code reads and writes: the consoles, the memory, and the bytes that out_byte has sent to
-- the ports, the last one first.
pub record Screen : Type 0 where
  pub console_table : ℕ → Console
  pub nr_current_console : ℕ
  pub mem : ℕ → ℕ
  pub ports : List (ℕ × ℕ)

abbrev pub is_current_console : Screen → ℕ → Bool
is_current_console s con = con == s.nr_current_console

-- set_cursor (the registers 0xe and 0xf) and set_video_start_addr (0xc and 0xd)
unfoldable pub set_crtc : ℕ → ℕ → ℕ → Screen → Screen
set_crtc high low value s = record s {
  ports =
      (crtc_data_reg, value % 2 ^ 8)
      ∷ (crtc_addr_reg, low)
      ∷ (crtc_data_reg, value / 2 ^ 8 % 2 ^ 8)
      ∷ (crtc_addr_reg, high)
      ∷ s.ports;
}

abbrev pub set_cursor : ℕ → Screen → Screen
set_cursor = set_crtc 0xe 0xf

abbrev pub set_video_start_addr : ℕ → Screen → Screen
set_video_start_addr = set_crtc 0xc 0xd

unfoldable pub flush : Screen → ℕ → Screen
flush s con =
    if is_current_console s con
    then set_video_start_addr (s.console_table con).current_start_addr
        (set_cursor (s.console_table con).cursor s)
    else s

-- SCR_UP and SCR_DN
pub data Direction : Type 0 where
  up down : Direction

unfoldable pub scrolled : Direction → Console → Console
scrolled up c =
    if ltb c.original_addr c.current_start_addr
    then record c { current_start_addr = sub_u32 c.current_start_addr screen_width }
    else c
scrolled down c =
    if ltb (add_u32 c.current_start_addr (screen_size + screen_width))
      (add_u32 c.original_addr c.v_mem_limit)
    then record c { current_start_addr = add_u32 c.current_start_addr screen_width }
    else c

unfoldable pub scroll_screen : Screen → ℕ → Direction → Screen
scroll_screen s con direction =
    flush
      (record s {
        console_table = update s.console_table con (scrolled direction (s.console_table con));
      })
      con

-- *p and *(p + 1), or *(p - 2) and *(p - 1): a character and its colour
abbrev pub write_cell : (ℕ → ℕ) → ℕ → ℕ → ℕ → ℕ
write_cell mem a ch = update (update mem a ch) (add_u32 a 1) default_char_color

-- the address of the cell at the cursor
abbrev pub p_vmem : Console → ℕ
p_vmem c = (v_mem_base + c.cursor * 2) % 2 ^ 32

-- The three cases of the switch in out_char: the new cursor, and the new memory.
unfoldable pub put_newline : Console → Console
put_newline c =
    if ltb c.cursor (sub_u32 (add_u32 c.original_addr c.v_mem_limit) (screen_width * 2))
    then record c {
      cursor =
          add_u32 c.original_addr
            (screen_width * (sub_u32 c.cursor c.original_addr / screen_width + 1));
    }
    else c

unfoldable pub put_backspace : (ℕ → ℕ) → Console → (ℕ → ℕ) × Console
put_backspace mem c =
    if ltb c.original_addr c.cursor
    then (write_cell mem (sub_u32 (p_vmem c) 2) blank, record c { cursor = c.cursor - 1 })
    else (mem, c)

unfoldable pub put_text : (ℕ → ℕ) → Console → ℕ → (ℕ → ℕ) × Console
put_text mem c ch =
    if ltb c.cursor (sub_u32 (add_u32 c.original_addr c.v_mem_limit) (screen_width + 1))
    then (write_cell mem (p_vmem c) ch, record c { cursor = add_u32 c.cursor 1 })
    else (mem, c)

unfoldable pub put_char : (ℕ → ℕ) → Console → ℕ → (ℕ → ℕ) × Console
put_char mem c ch =
    if ch == newline
    then (mem, put_newline c)
    else if ch == backspace
    then put_backspace mem c
    else put_text mem c ch

unfoldable pub out_char : Screen → ℕ → ℕ → Screen
out_char s con ch =
    let (mem, c) = put_char s.mem (s.console_table con) ch in
    let s' : Screen = record s { mem = mem; console_table = update s.console_table con c } in
    flush
      (if leb (add_u32 c.current_start_addr screen_size) c.cursor
        then scroll_screen s' con down
        else s')
      con

-- nr_console is an int: a negative one, as its pattern, is not below NR_CONSOLES either
unfoldable pub select_console : Screen → ℕ → Screen
select_console s nr_console =
    if leb nr_consoles nr_console
    then s
    else flush (record s { nr_current_console = nr_console }) nr_console

pub out_chars : Screen → ℕ → List ℕ → Screen
out_chars s con [] = s
out_chars s con (ch ∷ chs) = out_chars (out_char s con ch) con chs

-- init_screen for the tty `nr_tty`: `disp_pos` is the position up to which the kernel has written
-- before, in bytes. The prompt is "[tty?]\n" with the number of the console.
unfoldable pub init_screen : Screen → ℕ → ℕ → Screen
init_screen s nr_tty disp_pos =
    let size : ℕ = v_mem_size / 2 / nr_consoles in
    let fresh : Console = record {
      original_addr = size * nr_tty;
      current_start_addr = size * nr_tty;
      v_mem_limit = size;
      cursor = if nr_tty == 0 then disp_pos / 2 else size * nr_tty;
    } in
    let s' : Screen = record s { console_table = update s.console_table nr_tty fresh } in
    let prompted : Screen =
      if nr_tty == 0
      then s'
      else out_chars s' nr_tty (91 ∷ 116 ∷ 116 ∷ 121 ∷ (nr_tty + 48) ∷ 93 ∷ newline ∷ []) in
    set_cursor (prompted.console_table nr_tty).cursor prompted

-- ===== src/Terminal/Console/Bounds.antt =====
-- A console stays in its part of the video memory, and its cursor on the screen.
use mathlib.Core.Path.{subst}
use bz_os.Prelude.{
  ℕ, ◌+◌, ◌-◌, ◌*◌, ◌/◌, ◌≤◌, ◌<◌, ◌≡◌, ◌≢◌, ◌⊎◌, inl, inr, refl, sym, arith, false, ltb, ◌==◌,
  if◌then◌else◌, Bool-cases,
}
use bz_os.Terminal.Console.{
  Console, v_mem_base, v_mem_size, nr_consoles, screen_width, screen_size, newline, backspace,
  blank, add_u32, sub_u32, put_char, put_newline, put_backspace, put_text, scrolled, up, down,
  Direction, write_cell, p_vmem,
}

-- the cells of a console
abbrev pub con_size : ℕ
con_size = v_mem_size / 2 / nr_consoles

-- The console n shows whole lines of its part, and its cursor is before the last line of it.
pub record IsConsole (n : ℕ) (c : Console) : Type 0 where
  pub number : n < nr_consoles
  pub begins : c.original_addr ≡ con_size * n
  pub limit : c.v_mem_limit ≡ con_size
  pub row : ℕ
  pub shown : c.current_start_addr ≡ con_size * n + screen_width * row
  pub shown_in : screen_width * row + screen_size ≤ con_size
  pub cursor_from : con_size * n ≤ c.cursor
  pub cursor_to : c.cursor + screen_width < con_size * n + con_size

-- The cursor is on the part that is shown.
abbrev pub Visible : Console → Type 0
Visible c = (c.current_start_addr ≤ c.cursor) × (c.cursor < c.current_start_addr + screen_size)

-- the addresses that are not in the part of console n
abbrev pub Outside : ℕ → ℕ → Type 0
Outside n a =
    (a < v_mem_base + 2 * (con_size * n)) ⊎ (v_mem_base + 2 * (con_size * n + con_size) ≤ a)

at_top : (c : Console) → ltb c.original_addr c.current_start_addr ≡ false → scrolled up c ≡ c
unfolding scrolled
at_top c h = ground arith

at_bottom :
    (c : Console)
    → ltb
        (add_u32 c.current_start_addr (screen_size + screen_width))
        (add_u32 c.original_addr c.v_mem_limit)
      ≡ false
    → scrolled down c ≡ c
unfolding scrolled
at_bottom c h = ground arith

pub scrolled-IsConsole :
    (n : ℕ) (d : Direction) (c : Console) → IsConsole n c → IsConsole n (scrolled d c)
unfolding scrolled
scrolled-IsConsole n up c i = elim (Bool-cases (ltb c.original_addr c.current_start_addr)) [
  | inl more ↦ record {
    number = i.number;
    begins = ground (arith, i.begins);
    limit = ground (arith, i.limit);
    row = i.row - 1;
    shown = ground (arith, i.shown, i.begins, i.shown_in, i.number);
    shown_in = ground (arith, i.shown_in);
    cursor_from = ground (arith, i.cursor_from);
    cursor_to = ground (arith, i.cursor_to);
  }
  | inr top ↦ subst (IsConsole n) (sym (at_top c top)) i
]
scrolled-IsConsole n down c i =
    elim (Bool-cases (
      ltb (add_u32 c.current_start_addr (screen_size + screen_width))
        (add_u32 c.original_addr c.v_mem_limit))) [
          | inl more ↦ record {
            number = i.number;
            begins = ground (arith, i.begins);
            limit = ground (arith, i.limit);
            row = i.row + 1;
            shown = ground (arith, i.shown, i.begins, i.shown_in, i.number);
            shown_in = ground (arith, i.shown_in, i.shown, i.begins, i.limit, i.number);
            cursor_from = ground (arith, i.cursor_from);
            cursor_to = ground (arith, i.cursor_to);
          }
          | inr bottom ↦ subst (IsConsole n) (sym (at_bottom c bottom)) i
        ]

-- the cursor after put_char, if the console is in its part
moved-IsConsole :
    (n : ℕ) (c : Console) (cur : ℕ)
    → IsConsole n c
    → con_size * n ≤ cur
    → cur + screen_width < con_size * n + con_size
    → IsConsole n (record c { cursor = cur })
moved-IsConsole n c cur i lo hi = record {
  number = i.number;
  begins = i.begins;
  limit = i.limit;
  row = i.row;
  shown = i.shown;
  shown_in = i.shown_in;
  cursor_from = lo;
  cursor_to = hi;
}

-- What out_char does before it scrolls.
pub record Put (n : ℕ) (mem : ℕ → ℕ) (c : Console) (ch : ℕ) (mem' : ℕ → ℕ) (c' : Console)
    : Type 0 where
  pub valid : IsConsole n c'
  pub unmoved : c'.current_start_addr ≡ c.current_start_addr
  pub near : c'.cursor ≤ (
      if ch == newline
      then con_size * n + screen_width * ((c.cursor - con_size * n) / screen_width + 1)
      else c.cursor + 1)
  pub onward : ch ≢ backspace → c.cursor ≤ c'.cursor
  pub apart : (a : ℕ) → Outside n a → mem' a ≡ mem a

-- Nothing happens: the console is full, or the cursor is at its beginning.
stays-Put :
    (n : ℕ) (mem : ℕ → ℕ) (c : Console) (ch : ℕ)
    → IsConsole n c
    → c.cursor ≤ (
        if ch == newline
        then con_size * n + screen_width * ((c.cursor - con_size * n) / screen_width + 1)
        else c.cursor + 1)
    → Put n mem c ch mem c
stays-Put n mem c ch i le = record {
  valid = i;
  unmoved = refl;
  near = le;
  onward = λ _. omega arith;
  apart = λ a o. refl;
}

-- Where the newline leads, by natural arithmetic.
abbrev pub line_after : ℕ → ℕ → ℕ
line_after n cur = con_size * n + screen_width * ((cur - con_size * n) / screen_width + 1)

next_line :
    (n : ℕ) (c : Console)
    → IsConsole n c
    → c.cursor + screen_width * 2 < con_size * n + con_size
    → put_newline c ≡ record c { cursor = line_after n c.cursor }
unfolding put_newline
next_line n c i lt =
    let e : add_u32 c.original_addr
          (screen_width * (sub_u32 c.cursor c.original_addr / screen_width + 1))
        ≡ line_after n c.cursor =
      omega (arith, i.begins, i.number, i.cursor_from, lt) in
    ground (arith, e, i.begins, i.number, i.limit, lt)

last_line :
    (n : ℕ) (c : Console)
    → IsConsole n c
    → con_size * n + con_size ≤ c.cursor + screen_width * 2
    → put_newline c ≡ c
unfolding put_newline
last_line n c i le = ground (arith, i.begins, i.number, i.limit)

put_newline-Put :
    (n : ℕ) (mem : ℕ → ℕ) (c : Console) → IsConsole n c → Put n mem c newline mem (put_newline c)
put_newline-Put n mem c i =
    elim (Bool-cases (ltb (c.cursor + screen_width * 2) (con_size * n + con_size))) [
      | inl room ↦ subst (Put n mem c newline mem) (sym (next_line n c i (ground arith))) (record {
        valid =
            moved-IsConsole n c (line_after n c.cursor) i (omega arith)
              (ground (arith, i.number, i.cursor_from));
        unmoved = refl;
        near = omega arith;
        onward = λ _. omega (arith, i.cursor_from);
        apart = λ a o. refl;
      })
      | inr full ↦
          subst (Put n mem c newline mem) (sym (last_line n c i (ground arith)))
            (stays-Put n mem c newline i (omega (arith, i.cursor_from)))
    ]

-- `Put` of the pair that the two other cases return
abbrev pub PutPair : ℕ → (ℕ → ℕ) → Console → ℕ → (ℕ → ℕ) × Console → Type 0
PutPair n mem c ch w = Put n mem c ch w.0 w.1

erased :
    (n : ℕ) (mem : ℕ → ℕ) (c : Console)
    → IsConsole n c
    → con_size * n < c.cursor
    → put_backspace mem c
      ≡ (write_cell mem (v_mem_base + 2 * c.cursor - 2) blank, record c { cursor = c.cursor - 1 })
unfolding put_backspace
erased n mem c i lt =
    let e : sub_u32 (p_vmem c) 2 ≡ v_mem_base + 2 * c.cursor - 2 =
      omega (arith, i.number, i.cursor_to) in
    ground (arith, e, i.begins)

at_start :
    (n : ℕ) (mem : ℕ → ℕ) (c : Console)
    → IsConsole n c
    → c.cursor ≤ con_size * n
    → put_backspace mem c ≡ (mem, c)
unfolding put_backspace
at_start n mem c i le = ground (arith, i.begins)

put_backspace-Put :
    (n : ℕ) (mem : ℕ → ℕ) (c : Console)
    → IsConsole n c
    → PutPair n mem c backspace (put_backspace mem c)
put_backspace-Put n mem c i = elim (Bool-cases (ltb (con_size * n) c.cursor)) [
  | inl later ↦ subst (PutPair n mem c backspace) (sym (erased n mem c i (ground arith))) (record {
    valid = moved-IsConsole n c (c.cursor - 1) i (ground arith) (omega (arith, i.cursor_to));
    unmoved = refl;
    near = omega arith;
    onward = λ ne. absurd (ne refl);
    apart = λ a o. ground (arith, i.number, i.cursor_from, i.cursor_to);
  })
  | inr first ↦
      subst (PutPair n mem c backspace) (sym (at_start n mem c i (ground arith)))
        (stays-Put n mem c backspace i (omega arith))
]

pub written :
    (n : ℕ) (mem : ℕ → ℕ) (c : Console) (ch : ℕ)
    → IsConsole n c
    → c.cursor + screen_width + 1 < con_size * n + con_size
    → put_text mem c ch
      ≡ (write_cell mem (v_mem_base + 2 * c.cursor) ch, record c { cursor = c.cursor + 1 })
unfolding put_text
written n mem c ch i lt =
    let e : p_vmem c ≡ v_mem_base + 2 * c.cursor = omega (arith, i.number, i.cursor_to) in
    let f : add_u32 c.cursor 1 ≡ c.cursor + 1 = omega (arith, i.number, i.cursor_to) in
    ground (arith, e, f, i.begins, i.limit, i.number)

is_full :
    (n : ℕ) (mem : ℕ → ℕ) (c : Console) (ch : ℕ)
    → IsConsole n c
    → con_size * n + con_size ≤ c.cursor + screen_width + 1
    → put_text mem c ch ≡ (mem, c)
unfolding put_text
is_full n mem c ch i le = ground (arith, i.begins, i.limit, i.number)

put_text-Put :
    (n : ℕ) (mem : ℕ → ℕ) (c : Console) (ch : ℕ)
    → IsConsole n c
    → ch ≢ newline
    → PutPair n mem c ch (put_text mem c ch)
put_text-Put n mem c ch i ne =
    elim (Bool-cases (ltb (c.cursor + screen_width + 1) (con_size * n + con_size))) [
      | inl room ↦ subst (PutPair n mem c ch) (sym (written n mem c ch i (ground arith))) (record {
        valid = moved-IsConsole n c (c.cursor + 1) i (omega (arith, i.cursor_from)) (ground arith);
        unmoved = refl;
        near = ground arith;
        onward = λ _. omega arith;
        apart = λ a o. ground (arith, i.number, i.cursor_from, i.cursor_to);
      })
      | inr full ↦
          subst (PutPair n mem c ch) (sym (is_full n mem c ch i (ground arith)))
            (stays-Put n mem c ch i (ground arith))
    ]

pub put_char-Put :
    (n : ℕ) (mem : ℕ → ℕ) (c : Console) (ch : ℕ)
    → IsConsole n c
    → PutPair n mem c ch (put_char mem c ch)
unfolding put_char
put_char-Put n mem c ch i = elim (Bool-cases (ch == newline)) [
  | inl nl ↦
      let e : ch ≡ newline = ground arith in
      subst (λ w. PutPair n mem c w (put_char mem c w)) (sym e) (put_newline-Put n mem c i)
  | inr text ↦ elim (Bool-cases (ch == backspace)) [
    | inl bs ↦
        let e : ch ≡ backspace = ground arith in
        subst (λ w. PutPair n mem c w (put_char mem c w)) (sym e) (put_backspace-Put n mem c i)
    | inr plain ↦ rw (text, plain) (put_text-Put n mem c ch i (ground arith))
  ]
]

-- ===== src/Terminal/Console/Output.antt =====
-- What out_char and init_screen leave on the screen.
use mathlib.Core.Path.{subst}
use bz_os.Prelude.{
  ℕ, zero, suc, ◌+◌, ◌*◌, ◌/◌, ◌≤◌, ◌<◌, ◌≡◌, ◌≢◌, inl, inr, refl, sym, ap, ◌∙◌, arith, false, List,
  [], ◌∷◌, ◌++◌, leb, ◌==◌, if◌then◌else◌, update, Bool-cases, update_self, update_ne,
}
use bz_os.Terminal.Console.{
  Console, Screen, nr_consoles, screen_width, screen_size, newline, backspace, add_u32, put_char,
  out_char, scrolled, down, scroll_screen, flush, set_crtc, init_screen, out_chars,
}
use bz_os.Terminal.Console.Bounds.{
  con_size, IsConsole, Visible, Outside, put_char-Put, scrolled-IsConsole, line_after,
}

flush_lem :
    (s : Screen) (con : ℕ)
    → ((flush s con).console_table ≡ s.console_table) × ((flush s con).mem ≡ s.mem)
unfolding flush set_crtc
flush_lem s con = elim (Bool-cases (con == s.nr_current_console)) [
  | inl e ↦ rw e (refl, refl)
  | inr e ↦ rw e (refl, refl)
]

-- How a state arises from another: a new console `con`, a new memory, the other consoles kept.
pub record Becomes (con : ℕ) (s : Screen) (c : Console) (mem : ℕ → ℕ) (s' : Screen) : Type 0 where
  pub console : s'.console_table con ≡ c
  pub others : (j : ℕ) → j ≢ con → s'.console_table j ≡ s.console_table j
  pub memory : s'.mem ≡ mem

flush-Becomes :
    (s : Screen) (con : ℕ) (c : Console) (mem : ℕ → ℕ) (s' : Screen)
    → Becomes con s c mem s'
    → Becomes con s c mem (flush s' con)
flush-Becomes s con c mem s' b =
    let (t, m) = flush_lem s' con in
    record {
      console = ap (λ f. f con) t ∙ b.console;
      others = λ j ne. ap (λ f. f j) t ∙ b.others j ne;
      memory = m ∙ b.memory;
    }

scroll_screen-Becomes :
    (s : Screen) (con : ℕ) (c : Console) (mem : ℕ → ℕ) (s' : Screen)
    → Becomes con s c mem s'
    → Becomes con s (scrolled down c) mem (scroll_screen s' con down)
unfolding scroll_screen
scroll_screen-Becomes s con c mem s' b =
    flush-Becomes s con (scrolled down c) mem
      (record s' {
        console_table = update s'.console_table con (scrolled down (s'.console_table con));
      })
      (record {
        console =
            update_self s'.console_table con (scrolled down (s'.console_table con))
            ∙ ap (scrolled down) b.console;
        others = λ j ne.
            update_ne s'.console_table con (scrolled down (s'.console_table con)) j
              (λ e. ne (sym e))
            ∙ b.others j ne;
        memory = b.memory;
      })

-- the console after out_char
abbrev pub scrolled_after : Console → Console
scrolled_after c =
    if leb (add_u32 c.current_start_addr screen_size) c.cursor then scrolled down c else c

pub out_char-Becomes :
    (s : Screen) (con ch : ℕ)
    → Becomes con s
        (scrolled_after (put_char s.mem (s.console_table con) ch).1)
        (put_char s.mem (s.console_table con) ch).0
        (out_char s con ch)
unfolding out_char
out_char-Becomes s con ch =
    let w = put_char s.mem (s.console_table con) ch in
    let s1 : Screen = record s { mem = w.0; console_table = update s.console_table con w.1 } in
    let b : Becomes con s w.1 w.0 s1 = record {
      console = update_self s.console_table con w.1;
      others = λ j ne. update_ne s.console_table con w.1 j (λ e. ne (sym e));
      memory = refl;
    } in
    elim (Bool-cases (leb (add_u32 w.1.current_start_addr screen_size) w.1.cursor)) [
      | inl e ↦ rw e (
          flush-Becomes s con (scrolled down w.1) w.0 (scroll_screen s1 con down)
            (scroll_screen-Becomes s con w.1 w.0 s1 b))
      | inr e ↦ rw e (flush-Becomes s con w.1 w.0 s1 b)
    ]

scrolled_after-IsConsole : (n : ℕ) (c : Console) → IsConsole n c → IsConsole n (scrolled_after c)
scrolled_after-IsConsole n c i =
    elim (Bool-cases (leb (add_u32 c.current_start_addr screen_size) c.cursor)) [
      | inl e ↦ rw e (scrolled-IsConsole n down c i)
      | inr e ↦ rw e i
    ]

-- If console `con` is valid, out_char on it leaves it valid, changes no other console, and writes no
-- byte outside of its part of the video memory.
pub out_char-IsConsole :
    (s : Screen) (con ch : ℕ)
    → IsConsole con (s.console_table con)
    → IsConsole con ((out_char s con ch).console_table con)
      × ((j : ℕ) → j ≢ con → (out_char s con ch).console_table j ≡ s.console_table j)
      × ((a : ℕ) → Outside con a → (out_char s con ch).mem a ≡ s.mem a)
out_char-IsConsole s con ch i =
    let p = put_char-Put con s.mem (s.console_table con) ch i in
    let b = out_char-Becomes s con ch in
    (
      subst (IsConsole con) (sym b.console) (scrolled_after-IsConsole con _ p.valid),
      b.others,
      λ a o. ap (λ m. m a) b.memory ∙ p.apart a o,
    )

scrolled_after-Visible :
    (n : ℕ) (c : Console)
    → IsConsole n c
    → c.current_start_addr ≤ c.cursor
    → c.cursor ≤ c.current_start_addr + screen_size
    → Visible (scrolled_after c)
unfolding scrolled
scrolled_after-Visible n c i lo hi =
    ground (arith, i.number, i.begins, i.limit, i.shown, i.cursor_to)

-- out_char moves the cursor at most to the beginning of the line after the last one shown.
within_a_line :
    (n : ℕ) (c : Console) (ch cur : ℕ)
    → IsConsole n c
    → Visible c
    → cur ≤ (if ch == newline then line_after n c.cursor else c.cursor + 1)
    → cur ≤ c.current_start_addr + screen_size
within_a_line n c ch cur i v le = elim (Bool-cases (ch == newline)) [
  | inl e ↦ omega (
    arith,
    subst (λ w. cur ≤ (if w then line_after n c.cursor else c.cursor + 1)) e le,
    v.1,
    i.shown,
    i.cursor_from,
  )
  | inr e ↦
      omega
        (arith, subst (λ w. cur ≤ (if w then line_after n c.cursor else c.cursor + 1)) e le, v.1)
]

-- If console `con` is valid and its cursor is on the part that is shown, it is still there after
-- out_char of any character but a backspace.
pub out_char-Visible :
    (s : Screen) (con ch : ℕ)
    → IsConsole con (s.console_table con)
    → Visible (s.console_table con)
    → ch ≢ backspace
    → Visible ((out_char s con ch).console_table con)
out_char-Visible s con ch i v ne =
    let p = put_char-Put con s.mem (s.console_table con) ch i in
    subst Visible (sym (out_char-Becomes s con ch).console) (
      scrolled_after-Visible con _ p.valid (omega (arith, p.unmoved, p.onward ne, v.0))
        (omega (arith, p.unmoved, within_a_line con (s.console_table con) ch _ i v p.near)))

pub out_chars-IsConsole :
    (s : Screen) (con : ℕ) (chs : List ℕ)
    → IsConsole con (s.console_table con)
    → IsConsole con ((out_chars s con chs).console_table con)
      × ((j : ℕ) → j ≢ con → (out_chars s con chs).console_table j ≡ s.console_table j)
      × ((a : ℕ) → Outside con a → (out_chars s con chs).mem a ≡ s.mem a)
unfolding out_chars
out_chars-IsConsole s con [] i = (i, λ j ne. refl, λ a o. refl)
out_chars-IsConsole s con (ch ∷ chs) i =
    let (i1, t1, m1) = out_char-IsConsole s con ch i in
    let (i2, t2, m2) = out_chars-IsConsole (out_char s con ch) con chs i1 in
    (i2, λ j ne. t2 j ne ∙ t1 j ne, λ a o. m2 a o ∙ m1 a o)

-- a console at the beginning of its part
abbrev fresh : ℕ → ℕ → Console
fresh n cur = record {
  original_addr = con_size * n;
  current_start_addr = con_size * n;
  v_mem_limit = con_size;
  cursor = cur;
}

fresh-IsConsole :
    (n cur : ℕ)
    → n < nr_consoles
    → con_size * n ≤ cur
    → cur + screen_width < con_size * n + con_size
    → IsConsole n (fresh n cur)
fresh-IsConsole n cur lt lo hi = record {
  number = lt;
  begins = refl;
  limit = refl;
  row = 0;
  shown = omega arith;
  shown_in = omega arith;
  cursor_from = lo;
  cursor_to = hi;
}

-- For one of the three consoles, and a kernel that has not written as far as the last line of
-- console 0: init_screen makes the console valid, changes no other console, and writes no byte
-- outside of its part of the video memory.
pub init_screen-IsConsole :
    (s : Screen) (n disp_pos : ℕ)
    → n < nr_consoles
    → disp_pos / 2 + screen_width < con_size
    → IsConsole n ((init_screen s n disp_pos).console_table n)
      × ((j : ℕ) → j ≢ n → (init_screen s n disp_pos).console_table j ≡ s.console_table j)
      × ((a : ℕ) → Outside n a → (init_screen s n disp_pos).mem a ≡ s.mem a)
unfolding init_screen set_crtc
init_screen-IsConsole s zero disp_pos lt room = (
  subst (IsConsole 0) (sym (update_self s.console_table 0 (fresh 0 (disp_pos / 2))))
      (fresh-IsConsole 0 (disp_pos / 2) lt (omega arith) (omega arith)),
  λ j ne. ground arith,
  λ a o. refl,
)
init_screen-IsConsole s (suc n) disp_pos lt room =
    let c : Console = fresh (suc n) (con_size * suc n) in
    let s1 : Screen = record s { console_table = update s.console_table (suc n) c } in
    let chs : List ℕ = 91 ∷ 116 ∷ 116 ∷ 121 ∷ (suc n + 48) ∷ 93 ∷ newline ∷ [] in
    let i : IsConsole (suc n) (s1.console_table (suc n)) =
      subst (IsConsole (suc n)) (sym (update_self s.console_table (suc n) c))
        (fresh-IsConsole (suc n) (con_size * suc n) lt (omega arith) (omega arith)) in
    let (i', t, m) = out_chars-IsConsole s1 (suc n) chs i in
    let e : (suc n == 0) ≡ false = ground arith in
    rw e (i', λ j ne. t j ne ∙ update_ne s.console_table (suc n) c j (λ w. ne (sym w)), m)

pub out_chars-nil : (s : Screen) (con : ℕ) → out_chars s con [] ≡ s
unfolding out_chars
out_chars-nil s con = refl

pub out_chars-append :
    (s : Screen) (con : ℕ) (xs ys : List ℕ)
    → out_chars s con (xs ++ ys) ≡ out_chars (out_chars s con xs) con ys
unfolding out_chars
out_chars-append s con [] ys = refl
out_chars-append s con (x ∷ xs) ys = out_chars-append (out_char s con x) con xs ys

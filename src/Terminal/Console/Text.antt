-- ===== src/Terminal/Console/Text.antt =====
-- Text that out_char puts on the screen one character after the other.
use mathlib.Core.Path.{subst}
use bz_os.Prelude.{
  ℕ, zero, suc, ◌+◌, ◌*◌, ◌<◌, ◌≡◌, ◌≢◌, refl, ap, ◌∙◌, arith, false, List, [], ◌∷◌, length, ◌==◌,
  get_or,
}
use bz_os.Terminal.Console.{
  Console, Screen, v_mem_base, screen_width, newline, backspace, default_char_color, put_char,
  put_text, out_char, scrolled, write_cell, out_chars,
}
use bz_os.Terminal.Console.Bounds.{con_size, IsConsole, written}
use bz_os.Terminal.Console.Output.{out_char-Becomes, scrolled_after, out_char-IsConsole}

-- the text that out_char puts on the screen: what is neither a newline nor a backspace
unfoldable pub IsText : List ℕ → Type 0
IsText [] = Unit
IsText (ch ∷ chs) = (ch ≢ newline) × (ch ≢ backspace) × IsText chs

scrolled_after-cursor : (c : Console) → (scrolled_after c).cursor ≡ c.cursor
unfolding scrolled
scrolled_after-cursor c = ground arith

put_char-text :
    (s : Screen) (con ch : ℕ)
    → ch ≢ newline
    → ch ≢ backspace
    → put_char s.mem (s.console_table con) ch ≡ put_text s.mem (s.console_table con) ch
unfolding put_char
put_char-text s con ch nl bs =
    let e : (ch == newline) ≡ false = ground arith in
    let f : (ch == backspace) ≡ false = ground arith in rw (e, f) refl

text_lem :
    (s : Screen) (con ch : ℕ)
    → IsConsole con (s.console_table con)
    → ch ≢ newline
    → ch ≢ backspace
    → (s.console_table con).cursor + screen_width + 1 < con_size * con + con_size
    → let s' = out_char s con ch in
      ((s'.console_table con).cursor ≡ (s.console_table con).cursor + 1)
      × (s'.mem ≡ write_cell s.mem (v_mem_base + 2 * (s.console_table con).cursor) ch)
text_lem s con ch i nl bs room =
    let b = out_char-Becomes s con ch in
    let w = put_char-text s con ch nl bs ∙ written con s.mem (s.console_table con) ch i room in
    (
      ap (λ (c : Console). c.cursor) b.console
          ∙ scrolled_after-cursor _
          ∙ ap (λ (w : (ℕ → ℕ) × Console). w.1.cursor) w,
      b.memory ∙ ap (λ (w : (ℕ → ℕ) × Console). w.0) w,
    )

-- What console `con` shows from the cell at `cur` on: the text, in the default colour.
abbrev pub Shows : (ℕ → ℕ) → ℕ → List ℕ → Type 0
Shows mem cur chs =
    (k : ℕ)
    → k < length chs
    → (mem (v_mem_base + 2 * (cur + k)) ≡ get_or chs k 0)
      × (mem (v_mem_base + 2 * (cur + k) + 1) ≡ default_char_color)

first_and_rest :
    (mem : ℕ → ℕ) (cur ch : ℕ) (chs : List ℕ)
    → mem (v_mem_base + 2 * cur) ≡ ch
    → mem (v_mem_base + 2 * cur + 1) ≡ default_char_color
    → Shows mem (cur + 1) chs
    → Shows mem cur (ch ∷ chs)
first_and_rest mem cur ch chs a b sh zero h = (
  ap (λ w. mem (v_mem_base + 2 * w)) (omega arith) ∙ a,
  ap (λ w. mem (v_mem_base + 2 * w + 1)) (omega arith) ∙ b,
)
first_and_rest mem cur ch chs a b sh (suc k) h =
    let e : cur + suc k ≡ cur + 1 + k = omega arith in rw e (sh k (omega arith))

-- If console `con` is valid and there is room for a text without newlines and backspaces,
-- out_char of its characters one after the other writes the text in the default colour at the
-- cursor, leaves every byte before it as it was, and moves the cursor behind it.
pub out_chars-Shows :
    (s : Screen) (con : ℕ) (chs : List ℕ)
    → IsConsole con (s.console_table con)
    → IsText chs
    → (s.console_table con).cursor + length chs + screen_width < con_size * con + con_size
    → let s' = out_chars s con chs in
      ((s'.console_table con).cursor ≡ (s.console_table con).cursor + length chs)
      × Shows s'.mem (s.console_table con).cursor chs
      × ((a : ℕ) → a < v_mem_base + 2 * (s.console_table con).cursor → s'.mem a ≡ s.mem a)
unfolding out_chars IsText
out_chars-Shows s con [] i t room = (omega arith, λ k h. absurd (omega arith), λ a h. refl)
out_chars-Shows s con (ch ∷ chs) i (nl, bs, t) room =
    let s1 = out_char s con ch in
    let cur : ℕ = (s.console_table con).cursor in
    let (c1, m1) = text_lem s con ch i nl bs (omega arith) in
    let i1 = (out_char-IsConsole s con ch i).0 in
    let (c2, sh, before) = out_chars-Shows s1 con chs i1 t (omega (arith, c1)) in
    (
      omega (arith, c1, c2),
      first_and_rest (out_chars s1 con chs).mem cur ch chs
          (before (v_mem_base + 2 * cur) (omega (arith, c1))
            ∙ ap (λ m. m (v_mem_base + 2 * cur)) m1
            ∙ ground (arith, i.number, i.cursor_to))
          (before (v_mem_base + 2 * cur + 1) (omega (arith, c1))
            ∙ ap (λ m. m (v_mem_base + 2 * cur + 1)) m1
            ∙ ground (arith, i.number, i.cursor_to))
          (subst (λ w. Shows (out_chars s1 con chs).mem w chs) c1 sh),
      λ a h.
          before a (omega (arith, c1)) ∙ ap (λ m. m a) m1 ∙ ground (arith, i.number, i.cursor_to),
    )

-- ===== src/Terminal/Keyboard/Letters.antt =====
-- From a scan code in the keyboard's buffer to a letter in the buffer of the TTY.
use bz_os.Prelude.{
  ℕ, ◌+◌, ◌-◌, ◌%◌, ◌^◌, ◌≤◌, ◌<◌, ◌≡◌, inl, inr, refl, sym, ap, ◌∙◌, arith, Bool, true, false,
  ◌&&◌, ◌||◌, [], ◌∷◌, ◌++◌, done, ltb, leb, ◌==◌, if◌then◌else◌, Bool-cases, all_below,
  all_below-at,
}
use bz_os.Terminal.Ring.{Ring, tty_in_bytes, kb_in_bytes, put_key, next_key, drop_key}
use bz_os.Terminal.Ring.Queue.{IsRing, contents, contents-drop_key, contents-put_key}
use bz_os.Terminal.Tty.{Driver}
use bz_os.Terminal.Keymap.{keymap}
use bz_os.Terminal.Keyboard.{
  Keyboard, get_byte_from_kbuf, read_scan, code, keyrow, column, set_modifier, pad_key, with_flags,
  in_process, press, keyboard_read, type_key, xor, is_make,
}

-- The bytes leave the keyboard's buffer in the order in which they came: for a proper buffer that is
-- not empty, get_byte_from_kbuf returns the first byte, leaves the others, and the buffer stays proper.
pub get_byte-contents :
    (r : Ring)
    → IsRing kb_in_bytes r
    → 0 < r.count
    → (get_byte_from_kbuf r ≡ done (next_key r, drop_key kb_in_bytes r))
      × (contents kb_in_bytes r ≡ next_key r ∷ contents kb_in_bytes (drop_key kb_in_bytes r))
      × IsRing kb_in_bytes (drop_key kb_in_bytes r)
unfolding get_byte_from_kbuf drop_key
get_byte-contents r i more =
    let (i', c) = contents-drop_key kb_in_bytes r i more in (ground (arith, i.tail_in), c, i')

abbrev pub IsLetter : ℕ → Type 0
IsLetter ch = (97 ≤ ch) × (ch ≤ 122)

abbrev small : ℕ → Bool
small ch = leb 97 ch && leb ch 122

-- one row
abbrev row_ok : ℕ → Bool
row_ok sc = if small (keyrow sc 0) then keyrow sc 1 + 32 == keyrow sc 0 else true

all_rows : all_below 128 row_ok ≡ true
unfolding keymap
all_rows = refl

-- In the map, the entry of a letter with shift is the capital.
shifted : (sc : ℕ) → sc < 128 → IsLetter (keyrow sc 0) → keyrow sc 1 + 32 ≡ keyrow sc 0
shifted sc lt l = ground (arith, all_below-at 128 row_ok all_rows sc lt)

-- Does a letter become a capital?
abbrev pub capital : Keyboard → Bool
capital kb = xor kb.caps_lock (kb.shift_l || kb.shift_r)

abbrev pub letter_key : Keyboard → ℕ → ℕ
letter_key kb sc = if capital kb then keyrow sc 0 - 32 else keyrow sc 0

and_of_true : (b : Bool) → (b && true) ≡ b
and_of_true true = refl
and_of_true false = refl

column-letter :
    (kb : Keyboard) (sc : ℕ)
    → IsLetter (keyrow sc 0)
    → column kb sc false ≡ (if capital kb then 1 else 0)
unfolding column
column-letter kb sc l =
    let e : small (keyrow sc 0) ≡ true = ground arith in rw (e, and_of_true kb.caps_lock) refl

-- a plain character key
plain_key :
    (kb : Keyboard) (d : Driver) (key : ℕ)
    → (65 ≤ key) × (key ≤ 122)
    → (set_modifier kb key true ≡ kb)
      × (pad_key kb.num_lock key ≡ key)
      × (in_process d (with_flags kb key) ≡ type_key d (with_flags kb key))
      × (with_flags kb key % 2 ^ 8 ≡ key)
unfolding set_modifier pad_key in_process with_flags
plain_key kb d key h = (ground arith, ground arith, ground arith, ground arith)

keyrow-letter :
    (kb : Keyboard) (sc : ℕ)
    → sc < 128
    → IsLetter (keyrow sc 0)
    → keyrow sc (column kb sc false) ≡ letter_key kb sc
keyrow-letter kb sc lt l = elim (Bool-cases (capital kb)) [
  | inl c ↦
      ap (keyrow sc) (column-letter kb sc l ∙ ap (λ b. if b then 1 else 0) c)
      ∙ omega (arith, shifted sc lt l)
      ∙ sym (ap (λ b. if b then keyrow sc 0 - 32 else keyrow sc 0) c)
  | inr c ↦
      ap (keyrow sc) (column-letter kb sc l ∙ ap (λ b. if b then 1 else 0) c)
      ∙ sym (ap (λ b. if b then keyrow sc 0 - 32 else keyrow sc 0) c)
]

letter_key-plain :
    (kb : Keyboard) (sc : ℕ)
    → IsLetter (keyrow sc 0)
    → (65 ≤ letter_key kb sc) × (letter_key kb sc ≤ 122)
letter_key-plain kb sc l = elim (Bool-cases (capital kb)) [
  | inl c ↦ rw c (omega (arith, l.0), omega (arith, l.1))
  | inr c ↦ rw c (omega (arith, l.0), l.1)
]

press-letter :
    (kb : Keyboard) (d : Driver) (sc : ℕ)
    → sc < 128
    → IsLetter (keyrow sc 0)
    → press kb d sc false ≡ (kb, type_key d (with_flags kb (letter_key kb sc)))
unfolding press
press-letter kb d sc lt l =
    let m : is_make sc ≡ true = ground arith in
    let (a, b, c, _) = plain_key kb d (letter_key kb sc) (letter_key-plain kb sc l) in
    rw (m, keyrow-letter kb sc lt l, a, b) (ap (λ w. (kb, w)) c)

read_scan-code :
    (r : Ring)
    → IsRing kb_in_bytes r
    → 0 < r.count
    → next_key r < 128
    → read_scan r ≡ done (code (next_key r) false, drop_key kb_in_bytes r)
unfolding read_scan
read_scan-code r i more lt = rw (get_byte-contents r i more).0 (ground arith)

-- For proper buffers, when the first byte in the keyboard's buffer is the make code of a letter:
-- keyboard_read returns, takes just that byte, leaves the state of the modifiers, and puts one key into
-- the TTY's buffer as put_key does. Its low byte is the capital exactly if just one of caps lock and
-- shift (left or right) is on, else the small letter.
pub keyboard_read-letter :
    (kb : Keyboard) (d : Driver)
    → IsRing kb_in_bytes kb.kb_in
    → IsRing tty_in_bytes d.tty.ibuf
    → 0 < kb.kb_in.count
    → next_key kb.kb_in < 128
    → IsLetter (keyrow (next_key kb.kb_in) 0)
    → (key : ℕ) × (keyboard_read kb d
        ≡ done (record kb { kb_in = drop_key kb_in_bytes kb.kb_in }, type_key d key))
      × (key % 2 ^ 8 ≡ letter_key kb (next_key kb.kb_in))
      × (contents tty_in_bytes (put_key tty_in_bytes d.tty.ibuf key) ≡ (
          if ltb d.tty.ibuf.count tty_in_bytes
          then contents tty_in_bytes d.tty.ibuf ++ key ∷ []
          else contents tty_in_bytes d.tty.ibuf))
unfolding keyboard_read
keyboard_read-letter kb d i j more lt l =
    let sc : ℕ = next_key kb.kb_in in
    let kb' : Keyboard = record kb { kb_in = drop_key kb_in_bytes kb.kb_in } in
    let key : ℕ = with_flags kb' (letter_key kb' sc) in
    let (_, _, _, low) = plain_key kb' d (letter_key kb' sc) (letter_key-plain kb' sc l) in
    let nz : (kb.kb_in.count == 0) ≡ false = ground arith in
    (
      key,
      rw (nz, read_scan-code kb.kb_in i more lt) (ap done (press-letter kb' d sc lt l)),
      low,
      (contents-put_key tty_in_bytes d.tty.ibuf key j).1,
    )

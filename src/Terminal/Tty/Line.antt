-- ===== src/Terminal/Tty/Line.antt =====
-- The line that a process reads: what tty_dev_write makes of the keys, against a line editor on lists.
use mathlib.Core.Path.{subst}
use bz_os.Prelude.{
  ℕ, ◌+◌, ◌-◌, ◌%◌, ◌^◌, ◌<◌, ◌≡◌, inl, inr, refl, sym, ◌∙◌, arith, Bool, true, false, ◌||◌, List,
  [], ◌∷◌, length, ◌==◌, if◌then◌else◌, update, update_ne, Bool-cases,
}
use bz_os.Terminal.Ring.{tty_in_bytes}
use bz_os.Terminal.Ring.Queue.{IsRing}
use bz_os.Terminal.Console.{newline, backspace, add_u32}
use bz_os.Terminal.Console.Bounds.{IsConsole, Outside}
use bz_os.Terminal.Console.Output.{out_char-IsConsole}
use bz_os.Terminal.Tty.{Driver, printable, echo, take_char}

-- The line editor: what has been typed, the last character first, and how many more are wanted.
pub record Line : Type 0 where
  pub typed : List ℕ
  pub left : ℕ

abbrev pub erase : Line → Line
erase l = elim l.typed [ [] ↦ l | x ∷ xs ↦ record { typed = xs; left = l.left + 1 } ]

unfoldable pub edit : ℕ → Line → Line
edit ch l =
    if printable ch
    then record { typed = ch ∷ l.typed; left = l.left - 1 }
    else if ch == backspace
    then erase l
    else l

-- Is the line over, after this character?
abbrev pub over : ℕ → Line → Bool
over ch l = ch == newline || l.left == 0

-- The line after some keys, and whether it is over; what is typed then is lost.
unfoldable pub edits : List ℕ → Line → Bool × Line
edits [] l = (false, l)
edits (key ∷ keys) l =
    let l' = edit (key % 2 ^ 8) l in if over (key % 2 ^ 8) l' then (true, l') else edits keys l'

-- The characters typed, in memory from the address `buf` on.
unfoldable pub Stored : (ℕ → ℕ) → ℕ → List ℕ → Type 0
Stored mem buf [] = Unit
Stored mem buf (x ∷ xs) = (mem (buf + length xs) ≡ x) × Stored mem buf xs

-- The TTY reads the line `l` for a process: the console is valid, the input buffer proper, the
-- counts are those of the line, and the characters typed are in the buffer of the process, which
-- has room for the whole line outside of the console's part of the video memory.
pub record Reads (d : Driver) (l : Line) : Type 0 where
  pub valid : IsConsole d.tty.console (d.screen.console_table d.tty.console)
  pub ring : IsRing tty_in_bytes d.tty.ibuf
  pub transferred : d.tty.tty_trans_cnt ≡ length l.typed
  pub wanted : d.tty.tty_left_cnt ≡ l.left
  pub stored : Stored d.screen.mem d.tty.tty_req_buf l.typed
  pub room : (i : ℕ) → i < length l.typed + l.left → Outside d.tty.console (d.tty.tty_req_buf + i)
  pub fits : d.tty.tty_req_buf + length l.typed + l.left < 2 ^ 32

pub Stored-congr :
    (mem mem' : ℕ → ℕ) (buf : ℕ) (xs : List ℕ)
    → ((i : ℕ) → i < length xs → mem' (buf + i) ≡ mem (buf + i))
    → Stored mem buf xs
    → Stored mem' buf xs
unfolding Stored
Stored-congr mem mem' buf [] h s = tt
Stored-congr mem mem' buf (x ∷ xs) h (e, s) =
    (h (length xs) (omega arith) ∙ e, Stored-congr mem mem' buf xs (λ i lt. h i (omega arith)) s)

-- The TTY's fields that the operations leave alone.
pub record Same (d d' : Driver) : Type 0 where
  pub caller : d'.tty.tty_caller ≡ d.tty.tty_caller
  pub procnr : d'.tty.tty_procnr ≡ d.tty.tty_procnr
  pub req_buf : d'.tty.tty_req_buf ≡ d.tty.tty_req_buf
  pub ibuf : d'.tty.ibuf ≡ d.tty.ibuf
  pub sent : d'.sent ≡ d.sent

printed :
    (d : Driver) (l : Line) (ch : ℕ)
    → Reads d l
    → 0 < l.left
    → printable ch ≡ true
    → Reads (take_char d ch) (record { typed = ch ∷ l.typed; left = l.left - 1 })
      × Same d (take_char d ch)
unfolding take_char Stored
printed d l ch r some p =
    let (v, o, m) = out_char-IsConsole d.screen d.tty.console ch r.valid in
    let at : add_u32 d.tty.tty_req_buf d.tty.tty_trans_cnt ≡ d.tty.tty_req_buf + length l.typed =
      omega (arith, r.transferred, r.fits) in
    rw p (
      record {
        valid = v;
        ring = r.ring;
        transferred = omega (arith, r.transferred, r.fits);
        wanted = omega (arith, r.wanted);
        stored = (
          ground (arith, at),
          Stored-congr d.screen.mem
              (update (echo d ch).mem (add_u32 d.tty.tty_req_buf d.tty.tty_trans_cnt) ch)
              d.tty.tty_req_buf l.typed
              (λ i lt.
                update_ne (echo d ch).mem (add_u32 d.tty.tty_req_buf d.tty.tty_trans_cnt) ch
                  (d.tty.tty_req_buf + i) (omega (arith, at))
                ∙ m (d.tty.tty_req_buf + i) (r.room i (omega arith)))
              r.stored,
        );
        room = λ i lt. r.room i (omega arith);
        fits = omega (arith, r.fits);
      },
      record { caller = refl; procnr = refl; req_buf = refl; ibuf = refl; sent = refl },
    )

erased :
    (d : Driver) (typed : List ℕ) (left : ℕ)
    → Reads d (record { typed = typed; left = left })
    → Reads (take_char d backspace) (erase (record { typed = typed; left = left }))
      × Same d (take_char d backspace)
unfolding take_char Stored
erased d [] left r =
    let z : (d.tty.tty_trans_cnt == 0) ≡ true = ground (arith, r.transferred) in
    rw z (r, record { caller = refl; procnr = refl; req_buf = refl; ibuf = refl; sent = refl })
erased d (x ∷ xs) left r =
    let (v, o, m) = out_char-IsConsole d.screen d.tty.console backspace r.valid in
    let nz : (d.tty.tty_trans_cnt == 0) ≡ false = ground (arith, r.transferred) in
    rw nz (
      record {
        valid = v;
        ring = r.ring;
        transferred = omega (arith, r.transferred);
        wanted = omega (arith, r.wanted, r.fits);
        stored =
            Stored-congr d.screen.mem (echo d backspace).mem d.tty.tty_req_buf xs
              (λ i lt. m (d.tty.tty_req_buf + i) (r.room i (omega arith))) r.stored.1;
        room = λ i lt. r.room i (omega arith);
        fits = omega (arith, r.fits);
      },
      record { caller = refl; procnr = refl; req_buf = refl; ibuf = refl; sent = refl },
    )

ignored :
    (d : Driver) (l : Line) (ch : ℕ)
    → Reads d l
    → printable ch ≡ false
    → (ch == backspace) ≡ false
    → Reads (take_char d ch) l × Same d (take_char d ch)
unfolding take_char
ignored d l ch r p b =
    rw (p, b) (r, record { caller = refl; procnr = refl; req_buf = refl; ibuf = refl; sent = refl })

pub take_char-edit :
    (d : Driver) (l : Line) (ch : ℕ)
    → Reads d l
    → 0 < l.left
    → Reads (take_char d ch) (edit ch l) × Same d (take_char d ch)
unfolding edit
take_char-edit d l ch r some = elim (Bool-cases (printable ch)) [
  | inl p ↦ rw p (printed d l ch r some p)
  | inr p ↦ elim (Bool-cases (ch == backspace)) [
    | inl b ↦
        let e : ch ≡ backspace = ground arith in
        rw (p, b)
          (subst (λ w. Reads (take_char d w) (erase l) × Same d (take_char d w)) (sym e)
            (erased d l.typed l.left r))
    | inr b ↦ rw (p, b) (ignored d l ch r p b)
  ]
]

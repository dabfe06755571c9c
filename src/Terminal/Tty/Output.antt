-- ===== src/Terminal/Tty/Output.antt =====
-- tty_do_write and tty_do_read: output in pieces, and the start of a read.
use mathlib.Core.Path.{subst}
use bz_os.Prelude.{
  ℕ, zero, suc, ◌+◌, ◌-◌, ◌≤◌, ◌<◌, ◌≡◌, refl, ap, sym, ◌∙◌, arith, List, ◌∷◌, ◌++◌, done, false,
  ltb, ◌==◌, if◌then◌else◌,
}
use bz_os.Kernel.State.{Kernel}
use bz_os.Kernel.Descriptor.{va2la}
use bz_os.Terminal.Console.{Screen, out_chars}
use bz_os.Terminal.Console.Bounds.{IsConsole, Outside}
use bz_os.Terminal.Console.Output.{out_chars-IsConsole, out_chars-append, out_chars-nil}
use bz_os.Terminal.Tty.{
  Driver, Request, syscall_ret, tty_out_buf_len, bytes_at, write_pieces, tty_do_write,
}

bytes_at-congr :
    (mem mem' : ℕ → ℕ) (p n : ℕ)
    → ((i : ℕ) → i < n → mem' (p + i) ≡ mem (p + i))
    → bytes_at mem' p n ≡ bytes_at mem p n
unfolding bytes_at
bytes_at-congr mem mem' p zero h = refl
bytes_at-congr mem mem' p (suc n) h =
    let first : mem' p ≡ mem p = ap mem' (omega arith) ∙ h 0 (omega arith) ∙ ap mem (omega arith) in
    let rest =
      bytes_at-congr mem mem' (p + 1) n
        (λ i lt. ap mem' (omega arith) ∙ h (i + 1) (omega arith) ∙ ap mem (omega arith)) in
    cc (first, rest)

bytes_at-add :
    (mem : ℕ → ℕ) (p m n : ℕ) → bytes_at mem p (m + n) ≡ bytes_at mem p m ++ bytes_at mem (p + m) n
unfolding bytes_at
bytes_at-add mem p zero n =
    let e : 0 + n ≡ n = omega arith in let e' : p + 0 ≡ p = omega arith in rw (e, e') refl
bytes_at-add mem p (suc m) n =
    let e : suc m + n ≡ suc (m + n) = omega arith in
    let e' : p + suc m ≡ p + 1 + m = omega arith in
    rw (e, e') (ap (λ (xs : List ℕ). mem p ∷ xs) (bytes_at-add mem (p + 1) m n))

-- the length of the next piece
abbrev piece : ℕ → ℕ
piece i = if ltb i tty_out_buf_len then i else tty_out_buf_len

written_out :
    (fuel : ℕ) (s : Screen) (con p : ℕ)
    → write_pieces fuel s con p 0 ≡ out_chars s con (bytes_at s.mem p 0)
unfolding write_pieces bytes_at
written_out zero s con p = sym (out_chars-nil s con)
written_out (suc fuel) s con p = sym (out_chars-nil s con)

one_piece :
    (fuel : ℕ) (s : Screen) (con p i : ℕ)
    → write_pieces (suc fuel) s con p (suc i)
      ≡ write_pieces fuel
          (out_chars s con (bytes_at s.mem p (piece (suc i))))
          con
          (p + piece (suc i))
          (suc i - piece (suc i))
unfolding write_pieces
one_piece fuel s con p i = let e : (suc i == 0) ≡ false = ground arith in rw e refl

write_pieces-out_chars :
    (fuel : ℕ) (s : Screen) (con p i : ℕ)
    → IsConsole con (s.console_table con)
    → ((j : ℕ) → j < i → Outside con (p + j))
    → i ≤ fuel
    → write_pieces fuel s con p i ≡ out_chars s con (bytes_at s.mem p i)
write_pieces-out_chars fuel s con p zero v out le = written_out fuel s con p
write_pieces-out_chars zero s con p (suc i) v out le = absurd (omega arith)
write_pieces-out_chars (suc fuel) s con p (suc i) v out le =
    let b : ℕ = piece (suc i) in
    let some : (1 ≤ b) × (b ≤ suc i) = ground arith in
    let s1 : Screen = out_chars s con (bytes_at s.mem p b) in
    let (v1, _, m) = out_chars-IsConsole s con (bytes_at s.mem p b) v in
    let ih =
      write_pieces-out_chars fuel s1 con (p + b) (suc i - b) v1
        (λ j lt. subst (Outside con) (omega arith) (out (b + j) (omega (arith, some.1))))
        (omega (arith, some.0)) in
    let kept = bytes_at-congr s.mem s1.mem (p + b) (suc i - b) (λ j lt.
      m (p + b + j) (subst (Outside con) (omega arith) (out (b + j) (omega (arith, some.1))))) in
    let split : b + (suc i - b) ≡ suc i = omega (arith, some.1) in
    one_piece fuel s con p i
    ∙ ih
    ∙ ap (out_chars s1 con) kept
    ∙ sym (out_chars-append s con (bytes_at s.mem p b) (bytes_at s.mem (p + b) (suc i - b)))
    ∙ ap (out_chars s con) (sym (bytes_at-add s.mem p b (suc i - b)) ∙ ap (bytes_at s.mem p) split)

-- When the console of the TTY is valid and the bytes to write, from the linear address p on, are
-- outside of its part of the video memory: tty_do_write, in pieces of two bytes, leaves the screen
-- that out_char of all the bytes one after the other leaves, and answers the caller with SYSCALL_RET.
pub tty_do_write-out_chars :
    (k : Kernel) (d : Driver) (msg : Request) (p : ℕ)
    → va2la k msg.proc_nr msg.buf ≡ done p
    → IsConsole d.tty.console (d.screen.console_table d.tty.console)
    → ((j : ℕ) → j < msg.cnt → Outside d.tty.console (p + j))
    → tty_do_write k d msg
      ≡ done (record d {
        screen = out_chars d.screen d.tty.console (bytes_at d.screen.mem p msg.cnt);
        sent =
            record {
              dest = msg.source;
              reply_type = syscall_ret;
              proc_nr = msg.proc_nr;
              cnt = msg.cnt;
            }
            ∷ d.sent;
      })
unfolding tty_do_write
tty_do_write-out_chars k d msg p e v out =
    rw (e, write_pieces-out_chars msg.cnt d.screen d.tty.console p msg.cnt v out (omega arith)) refl

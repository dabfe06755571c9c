-- ===== src/Terminal/Tty/Turn.antt =====
-- One turn of the loop of tty_dev_write.
use mathlib.Core.Path.{subst}
use bz_os.Prelude.{
  ℕ, ◌+◌, ◌%◌, ◌^◌, ◌<◌, ◌≡◌, inl, inr, refl, sym, ap, ◌∙◌, arith, true, false, ◌||◌, List, ◌∷◌,
  length, ◌==◌, if◌then◌else◌, Bool-cases,
}
use bz_os.Terminal.Ring.{tty_in_bytes, next_key, drop_key}
use bz_os.Terminal.Ring.Queue.{contents-drop_key}
use bz_os.Terminal.Console.{newline}
use bz_os.Terminal.Tty.Line.{Line, edit, over, Stored-congr, Reads, Same, take_char-edit}
use bz_os.Terminal.Console.Output.{out_char-IsConsole}
use bz_os.Terminal.Tty.{Driver, Reply, resume_proc, echo, take_char, close_line, write_key}

-- the message that the reader gets in the end
unfoldable pub reply : Driver → Line → Reply
reply d l = record {
  dest = d.tty.tty_caller;
  reply_type = resume_proc;
  proc_nr = d.tty.tty_procnr;
  cnt = length l.typed;
}

abbrev pub ended : Line → Line
ended l = record l { left = 0 }

-- One turn of the loop: the line then, the messages then, the key taken out of the buffer.
pub record Wrote (d : Driver) (l : Line) (sent : List Reply) (d' : Driver) : Type 0 where
  pub reads : Reads d' l
  pub caller : d'.tty.tty_caller ≡ d.tty.tty_caller
  pub procnr : d'.tty.tty_procnr ≡ d.tty.tty_procnr
  pub req_buf : d'.tty.tty_req_buf ≡ d.tty.tty_req_buf
  pub ibuf : d'.tty.ibuf ≡ drop_key tty_in_bytes d.tty.ibuf
  pub sent_now : d'.sent ≡ sent

-- the driver when it has taken the key
abbrev without_key : Driver → Driver
without_key d = record d { tty = record d.tty { ibuf = drop_key tty_in_bytes d.tty.ibuf } }

without_key-Reads :
    (d : Driver) (l : Line) → Reads d l → 0 < d.tty.ibuf.count → Reads (without_key d) l
without_key-Reads d l r more = record {
  valid = r.valid;
  ring = (contents-drop_key tty_in_bytes d.tty.ibuf r.ring more).0;
  transferred = r.transferred;
  wanted = r.wanted;
  stored = r.stored;
  room = r.room;
  fits = r.fits;
}

pub write_key-lost :
    (d : Driver) (l : Line)
    → Reads d l
    → l.left ≡ 0
    → 0 < d.tty.ibuf.count
    → Wrote d l d.sent (write_key d)
unfolding write_key
write_key-lost d l r none more =
    let z : (d.tty.tty_left_cnt == 0) ≡ true = ground (arith, r.wanted) in
    rw z (record {
      reads = without_key-Reads d l r more;
      caller = refl;
      procnr = refl;
      req_buf = refl;
      ibuf = refl;
      sent_now = refl;
    })

close_line-ended :
    (d : Driver) (l : Line) (ch : ℕ)
    → Reads d l
    → over ch l ≡ true
    → Reads (close_line d ch) (ended l)
      × Same (record d { sent = reply d l ∷ d.sent }) (close_line d ch)
unfolding close_line reply
close_line-ended d l ch r o =
    let z : (ch == newline || d.tty.tty_left_cnt == 0) ≡ true =
      subst (λ w. (ch == newline || w == 0) ≡ true) (sym r.wanted) o in
    let (v, _, m) = out_char-IsConsole d.screen d.tty.console newline r.valid in
    rw z (
      record {
        valid = v;
        ring = r.ring;
        transferred = r.transferred;
        wanted = refl;
        stored =
            Stored-congr d.screen.mem (echo d newline).mem d.tty.tty_req_buf l.typed
              (λ i lt. m (d.tty.tty_req_buf + i) (r.room i (omega arith))) r.stored;
        room = λ i lt. r.room i (omega arith);
        fits = omega (arith, r.fits);
      },
      record {
        caller = refl;
        procnr = refl;
        req_buf = refl;
        ibuf = refl;
        sent =
            ap
              (λ (w : ℕ).
                record {
                  dest = d.tty.tty_caller;
                  reply_type = resume_proc;
                  proc_nr = d.tty.tty_procnr;
                  cnt = w;
                }
                ∷ d.sent)
              r.transferred;
      },
    )

close_line-open :
    (d : Driver) (l : Line) (ch : ℕ) → Reads d l → over ch l ≡ false → close_line d ch ≡ d
unfolding close_line
close_line-open d l ch r o =
    let z : (ch == newline || d.tty.tty_left_cnt == 0) ≡ false =
      subst (λ w. (ch == newline || w == 0) ≡ false) (sym r.wanted) o in
    rw z refl

pub write_key-edit :
    (d : Driver) (l : Line) (ch : ℕ)
    → Reads d l
    → 0 < l.left
    → 0 < d.tty.ibuf.count
    → next_key d.tty.ibuf % 2 ^ 8 ≡ ch
    → Wrote d
        (if over ch (edit ch l) then ended (edit ch l) else edit ch l)
        (if over ch (edit ch l) then reply d (edit ch l) ∷ d.sent else d.sent)
        (write_key d)
unfolding write_key reply
write_key-edit d l ch r some more key =
    let nz : (d.tty.tty_left_cnt == 0) ≡ false = ground (arith, r.wanted) in
    let (r2, same) = take_char-edit (without_key d) l ch (without_key-Reads d l r more) some in
    elim (Bool-cases (over ch (edit ch l))) [
      | inl o ↦
          let (r3, at) = close_line-ended (take_char (without_key d) ch) (edit ch l) ch r2 o in
          rw (nz, key, o)
            (record {
              reads = r3;
              caller = at.caller ∙ same.caller;
              procnr = at.procnr ∙ same.procnr;
              req_buf = at.req_buf ∙ same.req_buf;
              ibuf = at.ibuf ∙ same.ibuf;
              sent_now = at.sent ∙ cc (same.sent, same.caller, same.procnr);
            })
      | inr o ↦
          rw (nz, key, o, close_line-open (take_char (without_key d) ch) (edit ch l) ch r2 o)
            (record {
              reads = r2;
              caller = same.caller;
              procnr = same.procnr;
              req_buf = same.req_buf;
              ibuf = same.ibuf;
              sent_now = same.sent;
            })
    ]

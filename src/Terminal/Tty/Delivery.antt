-- ===== src/Terminal/Tty/Delivery.antt =====
-- tty_dev_write gives the line to the process that waits for it.
use mathlib.Core.Path.{subst}
use bz_os.Prelude.{
  ℕ, zero, suc, ◌-◌, ◌%◌, ◌^◌, ◌≤◌, ◌<◌, ◌≡◌, inl, inr, refl, ap, ◌∙◌, arith, Bool, true, false,
  List, ◌∷◌, ◌==◌, if◌then◌else◌, Bool-cases,
}
use bz_os.Terminal.Ring.{Ring, tty_in_bytes, next_key, drop_key}
use bz_os.Terminal.Ring.Queue.{contents, contents-drop_key, contents-empty}
use bz_os.Terminal.Tty.Line.{Line, edit, over, edits, Reads}
use bz_os.Terminal.Tty.{Driver, Reply, write_key, tty_dev_write}
use bz_os.Terminal.Tty.Turn.{reply, ended, Wrote, write_key-lost, write_key-edit}

-- What tty_dev_write leaves: an empty input buffer, a line, the messages, the reader's buffer where
-- it was.
pub record Finished (d : Driver) (l : Line) (sent : List Reply) (d' : Driver) : Type 0 where
  pub empty : d'.tty.ibuf.count ≡ 0
  pub reads : Reads d' l
  pub req_buf : d'.tty.tty_req_buf ≡ d.tty.tty_req_buf
  pub sent_now : d'.sent ≡ sent

one_less :
    (d : Driver) (l : Line) (sent : List Reply) (d' : Driver) (fuel : ℕ)
    → Wrote d l sent d'
    → d.tty.ibuf.count ≤ suc fuel
    → d'.tty.ibuf.count ≤ fuel
unfolding drop_key
one_less d l sent d' fuel w le =
    let e : d'.tty.ibuf.count ≡ d.tty.ibuf.count - 1 = ap (λ (r : Ring). r.count) w.ibuf in
    omega (arith, e)

lost_keys :
    (fuel : ℕ) (d : Driver) (l : Line)
    → Reads d l
    → l.left ≡ 0
    → d.tty.ibuf.count ≤ fuel
    → Finished d l d.sent (tty_dev_write fuel d)
unfolding tty_dev_write
lost_keys zero d l r none le = record {
  empty = omega arith;
  reads = r;
  req_buf = refl;
  sent_now = refl;
}
lost_keys (suc fuel) d l r none le = elim (Bool-cases (d.tty.ibuf.count == 0)) [
  | inl z ↦ rw z (record { empty = ground arith; reads = r; req_buf = refl; sent_now = refl })
  | inr nz ↦
      let w = write_key-lost d l r none (ground arith) in
      let f =
        lost_keys fuel (write_key d) l w.reads none (one_less d l d.sent (write_key d) fuel w le) in
      rw nz (record {
        empty = f.empty;
        reads = f.reads;
        req_buf = f.req_buf ∙ w.req_buf;
        sent_now = f.sent_now ∙ w.sent_now;
      })
]

-- the line and the messages at the end of the loop
abbrev pub last_line : Bool × Line → Line
last_line r = if r.0 then ended r.1 else r.1

abbrev pub last_sent : Driver → Bool × Line → List Reply
last_sent d r = if r.0 then reply d r.1 ∷ d.sent else d.sent

no_key :
    (d : Driver) (l : Line)
    → Reads d l
    → d.tty.ibuf.count ≡ 0
    → let r = edits (contents tty_in_bytes d.tty.ibuf) l in
      Finished d (last_line r) (last_sent d r) d
unfolding edits
no_key d l r e =
    rw (contents-empty tty_in_bytes d.tty.ibuf e)
      (record { empty = e; reads = r; req_buf = refl; sent_now = refl })

edits-over :
    (key : ℕ) (keys : List ℕ) (l : Line)
    → over (key % 2 ^ 8) (edit (key % 2 ^ 8) l) ≡ true
    → edits (key ∷ keys) l ≡ (true, edit (key % 2 ^ 8) l)
unfolding edits
edits-over key keys l o = rw o refl

edits-open :
    (key : ℕ) (keys : List ℕ) (l : Line)
    → over (key % 2 ^ 8) (edit (key % 2 ^ 8) l) ≡ false
    → edits (key ∷ keys) l ≡ edits keys (edit (key % 2 ^ 8) l)
unfolding edits
edits-open key keys l o = rw o refl

not_over : (ch : ℕ) (l : Line) → over ch l ≡ false → 0 < l.left
not_over ch l o = ground arith

last_sent-Wrote :
    (d : Driver) (l : Line) (d1 : Driver)
    → Wrote d l d.sent d1
    → (r : Bool × Line) → last_sent d1 r ≡ last_sent d r
unfolding reply
last_sent-Wrote d l d1 w (true, m) = cc (w.caller, w.procnr, w.sent_now)
last_sent-Wrote d l d1 w (false, m) = w.sent_now

-- The rest of the loop, seen from the state before the first key.
carried :
    (d : Driver) (l : Line) (d1 d2 : Driver)
    → Wrote d l d.sent d1
    → let r = edits (contents tty_in_bytes d1.tty.ibuf) l in
      Finished d1 (last_line r) (last_sent d1 r) d2
      → let r' = edits (contents tty_in_bytes (drop_key tty_in_bytes d.tty.ibuf)) l in
        Finished d (last_line r') (last_sent d r') d2
unfolding reply
carried d l d1 d2 w f =
    subst
      (λ (b : Ring).
        let r = edits (contents tty_in_bytes b) l in Finished d (last_line r) (last_sent d r) d2)
      w.ibuf
      (record {
        empty = f.empty;
        reads = f.reads;
        req_buf = f.req_buf ∙ w.req_buf;
        sent_now =
            f.sent_now ∙ last_sent-Wrote d l d1 w (edits (contents tty_in_bytes d1.tty.ibuf) l);
      })

-- When a TTY reads a line that is not complete for a process (`Reads`: its console valid, its input
-- buffer proper, its counts and the memory at tty_req_buf those of the line, room there for the rest
-- of it outside of the console's part of the video memory), and the fuel is at least the number of
-- keys in the input buffer: tty_dev_write empties the buffer, and then the TTY reads the line that
-- the line editor makes of the keys, with none left to read if the line is over. If it is over,
-- the driver has sent one message, RESUME_PROC with the length of the line and the number of the
-- process, to the caller; else it has sent none.
pub tty_dev_write-edits :
    (fuel : ℕ) (d : Driver) (l : Line)
    → Reads d l
    → 0 < l.left
    → d.tty.ibuf.count ≤ fuel
    → let r = edits (contents tty_in_bytes d.tty.ibuf) l in
      Finished d (last_line r) (last_sent d r) (tty_dev_write fuel d)
unfolding tty_dev_write
tty_dev_write-edits zero d l r some le = no_key d l r (omega arith)
tty_dev_write-edits (suc fuel) d l r some le = elim (Bool-cases (d.tty.ibuf.count == 0)) [
  | inl z ↦ rw z (no_key d l r (ground arith))
  | inr nz ↦
      let more : 0 < d.tty.ibuf.count = ground arith in
      let key : ℕ = next_key d.tty.ibuf % 2 ^ 8 in
      let w = write_key-edit d l key r some more refl in
      let c = (contents-drop_key tty_in_bytes d.tty.ibuf r.ring more).1 in
      elim (Bool-cases (over key (edit key l))) [
        | inl o ↦
            let w' : Wrote d (ended (edit key l)) (reply d (edit key l) ∷ d.sent) (write_key d) =
              subst
                (λ b.
                  Wrote d (if b then ended (edit key l) else edit key l)
                    (if b then reply d (edit key l) ∷ d.sent else d.sent) (write_key d))
                o w in
            let f =
              lost_keys fuel (write_key d) (ended (edit key l)) w'.reads refl
                (one_less d _ _ (write_key d) fuel w' le) in
            rw
              (
                nz,
                c,
                edits-over (next_key d.tty.ibuf)
                    (contents tty_in_bytes (drop_key tty_in_bytes d.tty.ibuf)) l o,
              )
              (record {
                empty = f.empty;
                reads = f.reads;
                req_buf = f.req_buf ∙ w'.req_buf;
                sent_now = f.sent_now ∙ w'.sent_now;
              })
        | inr o ↦
            let w' : Wrote d (edit key l) d.sent (write_key d) =
              subst
                (λ b.
                  Wrote d (if b then ended (edit key l) else edit key l)
                    (if b then reply d (edit key l) ∷ d.sent else d.sent) (write_key d))
                o w in
            let f =
              tty_dev_write-edits fuel (write_key d) (edit key l) w'.reads
                (not_over key (edit key l) o) (one_less d _ _ (write_key d) fuel w' le) in
            rw
              (
                nz,
                c,
                edits-open (next_key d.tty.ibuf)
                    (contents tty_in_bytes (drop_key tty_in_bytes d.tty.ibuf)) l o,
              )
              (carried d (edit key l) (write_key d) (tty_dev_write fuel (write_key d)) w' f)
      ]
]

-- ===== src/Terminal/Tty.antt =====
-- The terminal driver: kernel/tty.c. A TTY* argument is the TTY itself, which the operation gives
-- back changed; a send_recv(SEND, ...) is an entry of `sent`.
pub mod Line
pub mod Turn
pub mod Delivery
pub mod Output
use bz_os.Prelude.{
  ℕ, zero, suc, ◌+◌, ◌-◌, ◌%◌, ◌^◌, Bool, not, ◌&&◌, ◌||◌, List, [], ◌∷◌, Outcome, done, ◌>>=◌,
  ◌>>◌, assert, ltb, leb, ◌==◌, if◌then◌else◌, update,
}
use bz_os.Kernel.State.{Kernel, task_tty}
use bz_os.Kernel.Descriptor.{va2la}
use bz_os.Terminal.Ring.{Ring, reset, tty_in_bytes, next_key, drop_key}
use bz_os.Terminal.Console.{Screen, init_screen, out_char, out_chars, newline, backspace, add_u32}

pub record Tty : Type 0 where
  pub ibuf : Ring
  pub tty_caller : ℕ
  pub tty_procnr : ℕ
  pub tty_req_buf : ℕ
  pub tty_left_cnt : ℕ
  pub tty_trans_cnt : ℕ
  pub console : ℕ

pub data ReplyType : Type 0 where
  suspend_proc resume_proc syscall_ret : ReplyType

-- A message that the driver has sent: to whom, its type, PROC_NR and CNT.
pub record Reply : Type 0 where
  pub dest : ℕ
  pub reply_type : ReplyType
  pub proc_nr : ℕ
  pub cnt : ℕ

-- The screen with the memory, the TTY at work, and the messages sent, the last one first.
pub record Driver : Type 0 where
  pub screen : Screen
  pub tty : Tty
  pub sent : List Reply

-- ch >= ' ' && ch <= '~': a char of 128 or more is negative in C and not printable either
abbrev pub printable : ℕ → Bool
printable ch = leb 32 ch && leb ch 126

abbrev pub echo : Driver → ℕ → Screen
echo d ch = out_char d.screen d.tty.console ch

-- the printable character, and the backspace when there is something to take back
unfoldable pub take_char : Driver → ℕ → Driver
take_char d ch =
    let s : Screen = echo d ch in
    if printable ch
    then record d {
      screen = record s { mem = update s.mem (add_u32 d.tty.tty_req_buf d.tty.tty_trans_cnt) ch };
      tty = record d.tty {
        tty_trans_cnt = add_u32 d.tty.tty_trans_cnt 1;
        tty_left_cnt = d.tty.tty_left_cnt - 1;
      };
    }
    else if ch == backspace && not (d.tty.tty_trans_cnt == 0)
    then record d {
      screen = s;
      tty = record d.tty {
        tty_trans_cnt = d.tty.tty_trans_cnt - 1;
        tty_left_cnt = add_u32 d.tty.tty_left_cnt 1;
      };
    }
    else d

-- ch == '\n' || left_cnt == 0: the line goes to the process that waits for it
unfoldable pub close_line : Driver → ℕ → Driver
close_line d ch =
    if ch == newline || d.tty.tty_left_cnt == 0
    then record {
      screen = echo d newline;
      tty = record d.tty { tty_left_cnt = 0 };
      sent =
          record {
            dest = d.tty.tty_caller;
            reply_type = resume_proc;
            proc_nr = d.tty.tty_procnr;
            cnt = d.tty.tty_trans_cnt;
          }
          ∷ d.sent;
    }
    else d

-- the body of the loop of tty_dev_write
unfoldable pub write_key : Driver → Driver
write_key d =
    let ch : ℕ = next_key d.tty.ibuf % 2 ^ 8 in
    let d' : Driver = record d { tty = record d.tty { ibuf = drop_key tty_in_bytes d.tty.ibuf } } in
    if d.tty.tty_left_cnt == 0 then d' else close_line (take_char d' ch) ch

-- `while(tty->ibuf_cnt)`, at most `fuel` times
pub tty_dev_write : ℕ → Driver → Driver
tty_dev_write zero d = d
tty_dev_write (suc fuel) d =
    let rest = tty_dev_write fuel (write_key d) in if d.tty.ibuf.count == 0 then d else rest

-- msg: its source, PROC_NR, BUF and CNT
pub record Request : Type 0 where
  pub source : ℕ
  pub proc_nr : ℕ
  pub buf : ℕ
  pub cnt : ℕ

unfoldable pub tty_do_read : Kernel → Driver → Request → Outcome Driver
tty_do_read k d msg = do
  req ← va2la k msg.proc_nr msg.buf
  done (record d {
    tty = record d.tty {
      tty_caller = msg.source;
      tty_procnr = msg.proc_nr;
      tty_req_buf = req;
      tty_left_cnt = msg.cnt;
      tty_trans_cnt = 0;
    };
    sent =
        record {
          dest = msg.source;
          reply_type = suspend_proc;
          proc_nr = msg.proc_nr;
          cnt = msg.cnt;
        }
        ∷ d.sent;
  })

abbrev pub tty_out_buf_len : ℕ
tty_out_buf_len = 2

-- the n bytes from the address p on
pub bytes_at : (ℕ → ℕ) → ℕ → ℕ → List ℕ
bytes_at mem p zero = []
bytes_at mem p (suc n) = mem p ∷ bytes_at mem (p + 1) n

-- `while(i)`: pieces of TTY_OUT_BUF_LEN bytes
pub write_pieces : ℕ → Screen → ℕ → ℕ → ℕ → Screen
write_pieces zero s con p i = s
write_pieces (suc fuel) s con p i =
    let bytes : ℕ = if ltb i tty_out_buf_len then i else tty_out_buf_len in
    let rest =
      write_pieces fuel (out_chars s con (bytes_at s.mem p bytes)) con (p + bytes) (i - bytes) in
    if i == 0 then s else rest

unfoldable pub tty_do_write : Kernel → Driver → Request → Outcome Driver
tty_do_write k d msg = do
  p ← va2la k msg.proc_nr msg.buf
  done (record d {
    screen = write_pieces msg.cnt d.screen d.tty.console p msg.cnt;
    sent =
        record { dest = msg.source; reply_type = syscall_ret; proc_nr = msg.proc_nr; cnt = msg.cnt }
        ∷ d.sent;
  })

-- init_tty, for the TTY nr_tty
unfoldable pub init_tty : Driver → ℕ → ℕ → Driver
init_tty d nr_tty disp_pos = record d {
  tty = record d.tty { ibuf = reset d.tty.ibuf; console = nr_tty };
  screen = init_screen d.screen nr_tty disp_pos;
}

pub data RequestType : Type 0 where
  dev_open dev_read dev_write hard_int unknown : RequestType

-- The switch of task_tty on the type of a message: a message of unknown type is printed, no more.
-- HARD_INT clears key_pressed, which is a variable of the kernel.
unfoldable pub handle : Kernel → Driver → RequestType → Request → Outcome Driver
handle k d dev_open msg = done (record d {
  sent = record { dest = msg.source; reply_type = syscall_ret; proc_nr = 0; cnt = 0 } ∷ d.sent;
})
handle k d dev_read msg = tty_do_read k d msg
handle k d dev_write msg = tty_do_write k d msg
handle k d hard_int msg = done d
handle k d unknown msg = done d

-- What task_tty does with a message.
unfoldable pub serve : Kernel → Driver → RequestType → Request → Outcome Driver
serve k d type msg = do assert (not (msg.source == task_tty)); handle k d type msg

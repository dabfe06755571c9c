-- ===== src/Terminal/Ring.antt =====
-- The two input buffers: ibuf of a TTY (kernel/tty.c) and kb_in of the keyboard
-- (kernel/keyboard.c), which are the same ring. A pointer into a buffer is the index there.
pub mod Queue
use bz_os.Prelude.{ℕ, ◌+◌, ◌-◌, ltb, leb, ◌==◌, if◌then◌else◌, update}

abbrev pub tty_in_bytes : ℕ
tty_in_bytes = 256

abbrev pub kb_in_bytes : ℕ
kb_in_bytes = 32

-- ibuf_head, ibuf_tail, ibuf_cnt and ibuf; p_head, p_tail, count and buf
pub record Ring : Type 0 where
  pub head : ℕ
  pub tail : ℕ
  pub count : ℕ
  pub buf : ℕ → ℕ

-- init_tty and init_keyboard leave the bytes as they are
unfoldable pub reset : Ring → Ring
reset r = record r { head = 0; tail = 0; count = 0 }

-- put_key, and what keyboard_handler does with the scan code
unfoldable pub put_key : ℕ → Ring → ℕ → Ring
put_key size r key =
    if ltb r.count size
    then record {
      head = if leb size (r.head + 1) then 0 else r.head + 1;
      tail = r.tail;
      count = r.count + 1;
      buf = update r.buf r.head key;
    }
    else r

-- The key at the tail, and the buffer without it: tty_dev_write and get_byte_from_kbuf, which come
-- here when the count is not 0.
unfoldable pub next_key : Ring → ℕ
next_key r = r.buf r.tail

unfoldable pub drop_key : ℕ → Ring → Ring
drop_key size r = record r {
  tail = if r.tail + 1 == size then 0 else r.tail + 1;
  count = r.count - 1;
}

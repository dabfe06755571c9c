-- ===== src/Fs/MsgType.antt =====
-- enum msgtype of include/sys/const.h: the messages to and from the task of the file system.
use bz_os.Prelude.{ℕ}

abbrev pub open_file : ℕ
open_file = 5

abbrev pub close_file : ℕ
close_file = 6

abbrev pub read : ℕ
read = 7

abbrev pub write : ℕ
write = 8

abbrev pub unlink : ℕ
unlink = 11

abbrev pub suspend_proc : ℕ
suspend_proc = 12

abbrev pub resume_proc : ℕ
resume_proc = 13

abbrev pub fork : ℕ
fork = 14

abbrev pub syscall_ret : ℕ
syscall_ret = 16

abbrev pub dev_open : ℕ
dev_open = 998

abbrev pub dev_read : ℕ
dev_read = 1000

abbrev pub dev_write : ℕ
dev_write = 1001

-- ===== src/Fs/Transfer/Roundtrip.antt =====
-- What do_rdwt of fs/read_write.c writes to a file is what it reads from it.
use bz_os.Fs.State.{Fs}
use bz_os.Fs.MsgType

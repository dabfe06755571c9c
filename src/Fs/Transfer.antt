-- ===== src/Fs/Transfer.antt =====
-- Reading and writing: do_rdwt of fs/read_write.c. A count is not negative, and a position and a count
-- add up to an int.
pub mod Bytes
pub mod Grow
pub mod Calls
pub mod Roundtrip
mod Tests
use bz_os.Prelude.{
  ℕ, zero, suc, ◌+◌, ◌-◌, ◌*◌, ◌/◌, ◌%◌, ◌^◌, Bool, true, false, not, ◌&&◌, ◌||◌, Option, none,
  some, Outcome, done, halt, panic, assertion, spinning, assert, ◌>>=◌, ◌>>◌, ltb, leb, ◌==◌,
  if◌then◌else◌, update,
}
use bz_os.Kernel.State.{Kernel, task_tty}
use bz_os.Kernel.Descriptor.{va2la}
use bz_os.Fs.State.{Fs, Inode, sector_size, nr_inode}
use bz_os.Fs.Inode.{sync_inode, i_regular}
use bz_os.Fs.MsgType
use bz_os.Fs.Files.{
  Message, FileDesc, Server, Driver, copy_bytes, rd_chunk, wr_chunk, nr_file_desc, o_rdwr, imode,
  i_directory, i_char_special, major, minor,
}

abbrev pub min : ℕ → ℕ → ℕ
min a b = if ltb a b then a else b

-- FSBUF_SIZE >> SECTOR_SIZE_SHIFT
abbrev pub fsbuf_sectors : ℕ
fsbuf_sectors = 0x100000 / 2 ^ 9

-- what one command of the disk driver moves at most: cmd.count of kernel/hd.c is a byte
abbrev pub max_command : ℕ
max_command = 256

-- the variables of the loop
pub record Transfer : Type 0 where
  pub fs : Fs
  pub mem : ℕ → ℕ
  pub off : ℕ
  pub bytes_rw : ℕ
  pub fd_pos : ℕ
  pub bytes_left : ℕ

-- The body of the loop for the chunk that begins at the sector i; la is where the buffer of the caller
-- begins. The addresses of a segment are taken without a wrap at 2^32 within the buffer.
unfoldable pub transfer_chunk : ℕ → ℕ → ℕ → ℕ → ℕ → Transfer → Transfer
transfer_chunk type dev la chunk i t =
    let bytes : ℕ = min t.bytes_left (chunk * sector_size - t.off) in
    let fs : Fs = rd_chunk t.fs dev i chunk in
    let out : Fs = record fs { fsbuf = copy_bytes t.off (la + t.bytes_rw) bytes t.mem fs.fsbuf } in
    record {
      fs = if type == MsgType.read then fs else wr_chunk out dev i chunk;
      mem =
          if type == MsgType.read
          then copy_bytes (la + t.bytes_rw) t.off bytes fs.fsbuf t.mem
          else t.mem;
      off = 0;
      bytes_rw = t.bytes_rw + bytes;
      fd_pos = t.fd_pos + bytes;
      bytes_left = t.bytes_left - bytes;
    }

-- for(i=rw_sect_min; i<=rw_sect_max; i+=chunk), with fuel
pub transfer_chunks : ℕ → ℕ → ℕ → ℕ → ℕ → ℕ → ℕ → Transfer → Outcome Transfer
transfer_chunks zero type dev la chunk i sect_max t = halt spinning
transfer_chunks (suc fuel) type dev la chunk i sect_max t =
    let rest =
      transfer_chunks fuel type dev la chunk (i + chunk) sect_max
        (transfer_chunk type dev la chunk i t) in
    if ltb sect_max i then done t else rest

-- pos_end
abbrev pub end_of_transfer : ℕ → Inode → ℕ → ℕ → ℕ
end_of_transfer type pin pos len =
    if type == MsgType.read
    then min (pos + len) pin.i_size
    else min (pos + len) (pin.i_nr_sects * sector_size)

-- if(fd_pos > i_size): the size of the inode p becomes fd_pos
unfoldable pub grow : Fs → ℕ → ℕ → Outcome Fs
grow s p fd_pos =
    if ltb (s.inode_table p).i_size fd_pos
    then sync_inode
        (record s {
          inode_table = update s.inode_table p (record (s.inode_table p) { i_size = fd_pos });
        })
        p
    else done s

-- A file on the disk. The disk driver waits for ever for the rest of a chunk of more sectors than one
-- command moves. Otherwise: the transfer of len bytes at pos, between the inode p and the memory from la on.
-- The number of bytes is in the result's bytes_rw, the new position in its fd_pos.
unfoldable pub transfer : ℕ → Fs → (ℕ → ℕ) → ℕ → ℕ → ℕ → ℕ → Outcome Transfer
transfer type s mem p pos len la = do
  let pin = s.inode_table p
  let pos_end = end_of_transfer type pin pos len
  let sect_min = pin.i_start_sect + pos / 2 ^ 9
  let sect_max = pin.i_start_sect + pos_end / 2 ^ 9
  let chunk = min (sect_max + 1 - sect_min) fsbuf_sectors
  if ltb max_command chunk then halt spinning else (do
    t ←
        transfer_chunks (suc (sect_max + 1 - sect_min)) type pin.i_dev la chunk sect_min sect_max
          (record {
            fs = s;
            mem = mem;
            off = pos % sector_size;
            bytes_rw = 0;
            fd_pos = pos;
            bytes_left = len;
          })
    s' ← grow t.fs p t.fd_pos
    done (record t { fs = s' }))

-- What the server is after a transfer by the descriptor d.
abbrev pub transferred : Server → ℕ → Transfer → Server
transferred st d t = record st {
  fs = t.fs;
  f_desc_table = update st.f_desc_table d (record (st.f_desc_table d) { fd_pos = t.fd_pos });
  kernel = record (st.kernel) { mem = t.mem };
}

-- a file of the disk
unfoldable pub rdwt_disk : Server → Message → ℕ → ℕ → Outcome (Option ℕ × Server)
rdwt_disk st msg d p = do
  let mode = (st.fs.inode_table p).i_mode
  assert (mode == i_regular || mode == i_directory)
  assert (msg.type == MsgType.read || msg.type == MsgType.write)
  la ← va2la st.kernel msg.source msg.m3p2
  t ← transfer msg.type st.fs st.kernel.mem p (st.f_desc_table d).fd_pos msg.m3i2 la
  done (some t.bytes_rw, transferred st d t)

-- a device: the message goes on to the terminal's task
unfoldable pub rdwt_device : Driver → Server → Message → ℕ → Outcome (Option ℕ × Server)
rdwt_device driver st msg p = do
  let dev = (st.fs.inode_table p).i_start_sect
  assert (major dev == 4)
  r ←
      driver task_tty
        (record msg {
          type = if msg.type == MsgType.read then MsgType.dev_read else MsgType.dev_write;
          m3i4 = minor dev;
          m3i3 = msg.source;
        })
        st
  assert ((r.0).m3i2 == msg.m3i2)
  done (some (r.0).m3i2, record (r.1) { fs_type = (r.0).type })

-- a descriptor and its inode
abbrev pub rdwt_open : Driver → Server → Message → ℕ → Option ℕ → Outcome (Option ℕ × Server)
rdwt_open driver st msg d none = halt assertion
rdwt_open driver st msg d (some p) = do
  assert (ltb p nr_inode)
  if imode (st.fs.inode_table p).i_mode == i_char_special
      then rdwt_device driver st msg p
      else rdwt_disk st msg d p

abbrev pub rdwt_fd : Driver → Server → Message → Option ℕ → Outcome (Option ℕ × Server)
rdwt_fd driver st msg none = halt assertion
rdwt_fd driver st msg (some d) = do
  assert (ltb d nr_file_desc)
  if (st.f_desc_table d).fd_mode / o_rdwr % 2 == 0
      then done (none, st)
      else rdwt_open driver st msg d (st.f_desc_table d).fd_inode

-- The count, or `none` for -1.
unfoldable pub do_rdwt : Driver → Server → Message → Outcome (Option ℕ × Server)
do_rdwt driver st msg = rdwt_fd driver st msg ((st.kernel.procs msg.source).filp msg.m3i1)

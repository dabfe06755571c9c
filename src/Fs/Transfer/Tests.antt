-- ===== src/Fs/Transfer/Tests.antt =====
-- Three bytes of a file are written at position 510, so in two sectors, and read; a read behind the end
-- of a file.
use bz_os.Prelude.{ℕ, ◌<◌, ◌≡◌, refl, arith, some, none, done, if◌then◌else◌, ◌==◌}
use bz_os.Kernel.State.{Process, Kernel}
use bz_os.Kernel.Descriptor.{va2la, ldt_seg_linear}
use bz_os.Kernel.Boot.{blank_process}
use bz_os.Fs.State.{Fs, Inode, SuperBlock, find_super_block}
use bz_os.Fs.Inode.{i_regular}
use bz_os.Fs.MsgType
use bz_os.Fs.Files.{Server, Message, Driver}
use bz_os.Fs.Transfer.Calls.{Opened, IsFile, do_rdwt-write}

abbrev root_block : SuperBlock
root_block = record {
  magic = 0x111;
  nr_imap_sects = 1;
  nr_smap_sects = 2;
  n_1st_sect = 261;
  sb_dev = 800;
}

abbrev file_inode : Inode
file_inode = record {
  i_mode = i_regular;
  i_size = 511;
  i_start_sect = 2309;
  i_nr_sects = 2048;
  i_dev = 800;
  i_cnt = 1;
  i_num = 5;
}

abbrev disk : Fs
disk = record {
  disk = λ _ _ b. b;
  fsbuf = λ _. 0;
  inode_table = λ _. file_inode;
  super_block = λ _. root_block;
}

abbrev caller : Process
caller = record (blank_process 6) { filp = λ fd. if fd == 1 then some 3 else none }

abbrev kernel : Kernel
kernel = record {
  procs = λ _. caller;
  p_proc_ready = 3;
  mem = λ a. a;
  k_reenter = 0;
  tick_count = 0;
  key_pressed = 0;
}

abbrev server : Server
server = record {
  fs = disk;
  f_desc_table = λ _. record { fd_mode = 2; fd_pos = 510; fd_cnt = 1; fd_inode = some 2 };
  root_inode = 0;
  kernel = kernel;
  fs_type = 0;
}

abbrev message : ℕ → ℕ → Message
message type buf = record {
  source = 6;
  type = type;
  m3i1 = 1;
  m3i2 = 3;
  m3i3 = 0;
  m3i4 = 0;
  m3p1 = 0;
  m3p2 = buf;
}

abbrev no_driver : Driver
no_driver _ msg st = done (msg, st)

server-Opened : (type buf : ℕ) → Opened server (message type buf) 3 2
unfolding blank_process
server-Opened type buf = record {
  fd = refl;
  fd_in = omega arith;
  mode = omega arith;
  inode = refl;
  inode_in = omega arith;
  regular = refl;
}

server-va2la : (buf : ℕ) → buf < 1000000 → va2la kernel 6 buf ≡ done buf
unfolding va2la blank_process ldt_seg_linear
server-va2la buf lt = ground arith

server-IsFile : IsFile server 2 510 3 root_block
unfolding find_super_block
server-IsFile = record {
  super_block = refl;
  behind = omega arith;
  in_file = omega arith;
  in_command = omega arith;
}

-- A file of 20 bytes, from which three are read at 19.
abbrev short_file : Server
short_file = record server {
  fs = record disk { inode_table = λ _. record file_inode { i_size = 20 } };
  f_desc_table = λ _. record { fd_mode = 2; fd_pos = 19; fd_cnt = 1; fd_inode = some 2 };
}

-- what the write leaves
abbrev written : Server
written =
    (do_rdwt-write no_driver server (message MsgType.write 4096) 3 2 4096 root_block
      (server-Opened MsgType.write 4096) (server-va2la 4096 (omega arith)) server-IsFile refl).0

abbrev reader : Server
reader = record server { fs = written.fs }

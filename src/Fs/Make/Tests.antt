-- ===== src/Fs/Make/Tests.antt =====
-- The start on a partition of 8192 sectors whose bytes are 7.
use bz_os.Prelude.{ℕ, ◌≡◌, refl, arith, none, Outcome, done, halt}
use bz_os.Kernel.Memory.{store32}
use bz_os.Kernel.Boot.{blank_process}
use bz_os.Library.Format.{vsprintf, directive, format_int, decimal}
use bz_os.Fs.State.{Fs, get_super_block}
use bz_os.Fs.Directory.{strcpy}
use bz_os.Fs.Files.{Server}
use bz_os.Fs.Make.{
  root_dev, made_block, blank_inode, blank_tables, mkfs, init_fs, write_smap, write_zeros,
  write_inodes, device_inodes, device_entries, write_root, store_words,
}
use bz_os.Fs.Make.Start.{root_block, root_directory, init_fs-mkfs}

abbrev disk : Fs
disk = record {
  disk = λ _ _ _. 7;
  fsbuf = λ _. 7;
  inode_table = λ _. blank_inode;
  super_block =
      λ _. record { magic = 7; nr_imap_sects = 7; nr_smap_sects = 7; n_1st_sect = 7; sb_dev = 7 };
}

abbrev server : Server
server = record {
  fs = disk;
  f_desc_table = λ _. record { fd_mode = 7; fd_pos = 7; fd_cnt = 7; fd_inode = none };
  root_inode = 7;
  kernel = record {
    procs = blank_process;
    p_proc_ready = 3;
    mem = λ _. 7;
    k_reenter = 0;
    tick_count = 0;
    key_pressed = 0;
  };
  fs_type = 7;
}

-- a byte of the disk
abbrev byte_of : Outcome Fs → ℕ → ℕ → ℕ
byte_of (done s) sect x = s.disk root_dev sect x
byte_of (halt f) sect x = 7

-- the inode map, the sector map, and the name of the second terminal
mkfs_tests :
    (byte_of (mkfs 8192 disk) 2 0 ≡ 31)
    × (byte_of (mkfs 8192 disk) 3 255 ≡ 255)
    × (byte_of (mkfs 8192 disk) 3 256 ≡ 1)
    × (byte_of (mkfs 8192 disk) 3 257 ≡ 0)
    × (byte_of (mkfs 8192 disk) 5 0 ≡ 0)
    × (byte_of (mkfs 8192 disk) 262 43 ≡ 49)
unfolding mkfs write_smap write_zeros write_inodes device_inodes device_entries write_root
    store_words made_block vsprintf directive format_int decimal strcpy store32
mkfs_tests = (refl, refl, refl, refl, refl, refl)

init_fs-mkfs_example :
    (st' : Server) × (made : Fs) × (init_fs 8192 server ≡ done st')
    × (get_super_block st'.fs root_dev ≡ done (root_block 8192))
    × (st'.fs.inode_table st'.root_inode ≡ root_directory 8192)
    × (mkfs 8192 (blank_tables disk) ≡ done made)
    × (st'.fs.disk ≡ made.disk)
init_fs-mkfs_example = init_fs-mkfs 8192 server (omega arith)

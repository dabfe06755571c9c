-- ===== src/Fs/State.antt =====
-- The tables of the file system: include/sys/fs.h, include/sys/global.h; sectors, RD_SECT and WR_SECT.
use bz_os.Prelude.{ℕ, zero, suc, ◌+◌, Outcome, done, halt, panic, ltb, ◌==◌, if◌then◌else◌, update}

abbrev pub sector_size : ℕ
sector_size = 512

abbrev pub inode_size : ℕ
inode_size = 32

abbrev pub nr_inode : ℕ
nr_inode = 64

abbrev pub nr_super_block : ℕ
nr_super_block = 8

-- the fields of the super block that this code reads
pub record SuperBlock : Type 0 where
  pub magic : ℕ
  pub nr_imap_sects : ℕ
  pub nr_smap_sects : ℕ
  pub n_1st_sect : ℕ
  pub sb_dev : ℕ

pub record Inode : Type 0 where
  pub i_mode : ℕ
  pub i_size : ℕ
  pub i_start_sect : ℕ
  pub i_nr_sects : ℕ
  pub i_dev : ℕ
  pub i_cnt : ℕ
  pub i_num : ℕ

-- The bytes of the sectors of each device, which the driver reads and writes; the buffer; the tables.
pub record Fs : Type 0 where
  pub disk : ℕ → ℕ → ℕ → ℕ
  pub fsbuf : ℕ → ℕ
  pub inode_table : ℕ → Inode
  pub super_block : ℕ → SuperBlock

abbrev pub rd_sect : Fs → ℕ → ℕ → Fs
rd_sect s dev sect_nr = record s {
  fsbuf = λ i. if ltb i sector_size then s.disk dev sect_nr i else s.fsbuf i;
}

abbrev pub wr_sect : Fs → ℕ → ℕ → Fs
wr_sect s dev sect_nr = record s {
  disk = update s.disk dev (
      update (s.disk dev) sect_nr
        (λ i. if ltb i sector_size then s.fsbuf i else s.disk dev sect_nr i));
}

-- the n slots from the i-th on
unfoldable pub find_super_block : ℕ → ℕ → (ℕ → SuperBlock) → ℕ → Outcome SuperBlock
find_super_block zero i table dev = halt panic
find_super_block (suc n) i table dev =
    let rest = find_super_block n (i + 1) table dev in
    if (table i).sb_dev == dev then done (table i) else rest

abbrev pub get_super_block : Fs → ℕ → Outcome SuperBlock
get_super_block s dev = find_super_block nr_super_block 0 s.super_block dev

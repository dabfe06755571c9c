-- ===== src/Fs/Make.antt =====
-- The start of the file system: mkfs, read_super_block and init_fs of fs/main.c. The size of the
-- partition, which the disk driver reports, is an argument.
pub mod Root
pub mod Start
mod Tests
use bz_os.Prelude.{
  ℕ, zero, suc, ◌+◌, ◌-◌, ◌*◌, ◌/◌, ◌%◌, ◌^◌, List, [], ◌∷◌, Option, none, some, Outcome, done,
  halt, panic, assert, ◌>>=◌, ◌>>◌, ltb, ◌==◌, if◌then◌else◌, update,
}
use bz_os.Kernel.Memory.{load32, store32}
use bz_os.Library.Format.{vsprintf, word, percent}
use bz_os.Fs.State.{
  Fs, Inode, SuperBlock, sector_size, inode_size, nr_super_block, rd_sect, wr_sect, get_super_block,
}
use bz_os.Terminal.Console.{nr_consoles}
use bz_os.Fs.Inode.{get_inode, nr_default_file_sects}
use bz_os.Fs.Directory.{strcpy, dir_entry_size}
use bz_os.Fs.Files.{Server, FileDesc, i_directory, i_char_special, root_inode_nr}

-- MAKE_DEV(DEV_HD, MINOR_BOOT)
abbrev pub root_dev : ℕ
root_dev = 3 * 2 ^ 8 + 0x20

abbrev pub magic_v1 : ℕ
magic_v1 = 0x111

abbrev pub no_dev : ℕ
no_dev = 0

abbrev pub bits_per_sect : ℕ
bits_per_sect = sector_size * 8

abbrev pub nr_inode_sects : ℕ
nr_inode_sects = bits_per_sect * inode_size / sector_size

-- the super block of a partition of that many sectors
unfoldable pub made_block : ℕ → SuperBlock
made_block size = record {
  magic = magic_v1;
  nr_imap_sects = 1;
  nr_smap_sects = size / bits_per_sect + 1;
  n_1st_sect = 1 + 1 + 1 + (size / bits_per_sect + 1) + nr_inode_sects;
  sb_dev = no_dev;
}

-- the 32-bit numbers from the address a on
unfoldable pub store_words : ℕ → List ℕ → (ℕ → ℕ) → ℕ → ℕ
store_words a [] buf = buf
store_words a (w ∷ ws) buf = store_words (a + 4) ws (store32 a w buf)

-- the fields of super_block in their order
abbrev pub block_words : ℕ → List ℕ
block_words size =
    let sb : SuperBlock = made_block size in
    magic_v1 ∷ sb.nr_imap_sects ∷ sb.nr_smap_sects ∷ bits_per_sect ∷ nr_inode_sects ∷ root_inode_nr
    ∷ sb.n_1st_sect ∷ size ∷ inode_size ∷ 4 ∷ 8 ∷ dir_entry_size ∷ 0 ∷ 4 ∷ []

-- memcpy(fsbuf, &sb, SUPER_BLOCK_SIZE)
abbrev pub block_bytes : ℕ → (ℕ → ℕ) → ℕ → ℕ
block_bytes size buf = store_words 0 (block_words size) buf

-- memset(fsbuf, ch, SECTOR_SIZE)
abbrev pub filled_buffer : ℕ → Fs → Fs
filled_buffer ch s = record s { fsbuf = λ x. if ltb x sector_size then ch else s.fsbuf x }

-- Each sector is made in the buffer, then written.
abbrev pub block_buffer : ℕ → Fs → Fs
block_buffer size s =
    let s1 : Fs = filled_buffer 0x90 s in record s1 { fsbuf = block_bytes size s1.fsbuf }

abbrev pub write_super_block : ℕ → Fs → Fs
write_super_block size s = wr_sect (block_buffer size s) root_dev 1

-- the bits 0 to NR_CONSOLES + 1 of the first byte: the reserved one, '/' and the devices
abbrev pub imap_buffer : Fs → Fs
imap_buffer s =
    let s1 : Fs = filled_buffer 0 s in
    record s1 { fsbuf = update s1.fsbuf 0 (2 ^ (nr_consoles + 2) - 1) }

abbrev pub write_imap : Fs → Fs
write_imap s = wr_sect (imap_buffer s) root_dev 2

-- for(i=1; i<nr_smap_sects; i++), n turns from i on: sectors of zeros
unfoldable pub write_zeros : ℕ → ℕ → Fs → Fs
write_zeros zero i s = s
write_zeros (suc n) i s = write_zeros n (i + 1) (wr_sect s root_dev (2 + 1 + i))

-- the reserved bit and those of the root directory
abbrev pub smap_buffer : Fs → Fs
smap_buffer s =
    let nr_sects : ℕ = nr_default_file_sects + 1 in
    let s1 : Fs = filled_buffer 0 s in
    let buf : ℕ → ℕ = λ x. if ltb x (nr_sects / 8) then 0xff else s1.fsbuf x in
    let last : ℕ = nr_sects / 8 in
    record s1 { fsbuf = update buf last (buf last + (2 ^ (nr_sects % 8) - 1)) }

unfoldable pub write_smap : ℕ → Fs → Fs
write_smap size s =
    write_zeros ((made_block size).nr_smap_sects - 1) 1
      (filled_buffer 0 (wr_sect (smap_buffer s) root_dev (2 + 1)))

-- the inodes of the devices from the i-th on, n of them
unfoldable pub device_inodes : ℕ → ℕ → (ℕ → ℕ) → ℕ → ℕ
device_inodes zero i buf = buf
device_inodes (suc n) i buf =
    device_inodes n (i + 1)
      (store_words (inode_size * (i + 1)) (i_char_special ∷ 0 ∷ (4 * 2 ^ 8 + i) ∷ 0 ∷ []) buf)

-- the inode of the root directory, and then those
abbrev pub root_words : ℕ → List ℕ
root_words size =
    i_directory ∷ (dir_entry_size * 4) ∷ (made_block size).n_1st_sect ∷ nr_default_file_sects ∷ []

abbrev pub inode_bytes : ℕ → (ℕ → ℕ) → ℕ → ℕ
inode_bytes size buf = device_inodes nr_consoles 0 (store_words 0 (root_words size) buf)

abbrev pub inode_buffer : ℕ → Fs → Fs
inode_buffer size s =
    let s1 : Fs = filled_buffer 0 s in record s1 { fsbuf = inode_bytes size s1.fsbuf }

unfoldable pub write_inodes : ℕ → Fs → Fs
write_inodes size s =
    let sb : SuperBlock = made_block size in
    wr_sect (inode_buffer size s) root_dev (2 + sb.nr_imap_sects + sb.nr_smap_sects)

-- sprintf(pde->name, "dev_tty%d", i)
abbrev pub device_name : ℕ → Outcome (List ℕ)
device_name i =
    elim (vsprintf (100 ∷ 101 ∷ 118 ∷ 95 ∷ 116 ∷ 116 ∷ 121 ∷ percent ∷ 100 ∷ []) (word i ∷ [])) [
      | none ↦ halt panic
      | some name ↦ done name
    ]

-- the entries of the devices from the i-th on, n of them
unfoldable pub device_entries : ℕ → ℕ → (ℕ → ℕ) → Outcome (ℕ → ℕ)
device_entries zero i buf = done buf
device_entries (suc n) i buf = do
  name ← device_name i
  let a = dir_entry_size * (i + 1)
  device_entries n (i + 1) (strcpy (a + 4) name (store32 a (i + 2) buf))

-- the root directory, which begins with the name "."
unfoldable pub write_root : ℕ → Fs → Outcome Fs
write_root size s = do
  let s1 = filled_buffer 0 s
  buf ← device_entries nr_consoles 0 (strcpy 4 (46 ∷ []) (store32 0 1 s1.fsbuf))
  done (wr_sect (record s1 { fsbuf = buf }) root_dev (made_block size).n_1st_sect)

unfoldable pub mkfs : ℕ → Fs → Outcome Fs
mkfs size s =
    write_root size (write_inodes size (write_smap size (write_imap (write_super_block size s))))

-- the first of the n slots from i on whose device is NO_DEV
unfoldable pub free_block : ℕ → ℕ → (ℕ → SuperBlock) → Option ℕ
free_block zero i table = none
free_block (suc n) i table =
    let rest = free_block n (i + 1) table in if (table i).sb_dev == no_dev then some i else rest

-- the super block in the buffer
abbrev pub read_block : (ℕ → ℕ) → ℕ → SuperBlock
read_block buf dev = record {
  magic = load32 0 buf;
  nr_imap_sects = load32 4 buf;
  nr_smap_sects = load32 8 buf;
  n_1st_sect = load32 24 buf;
  sb_dev = dev;
}

-- the super block in the buffer, into the slot
abbrev pub store_block : Fs → ℕ → Option ℕ → Outcome Fs
store_block s dev none = halt panic
store_block s dev (some i) = do
  assert (i == 0)
  done (record s { super_block = update s.super_block i (read_block s.fsbuf dev) })

unfoldable pub read_super_block : Fs → ℕ → Outcome Fs
read_super_block s dev =
    let s1 : Fs = rd_sect s dev 1 in store_block s1 dev (free_block nr_super_block 0 s1.super_block)

-- memset of f_desc_table[] and inode_table[], and NO_DEV for the super blocks
abbrev pub blank_desc : FileDesc
blank_desc = record { fd_mode = 0; fd_pos = 0; fd_cnt = 0; fd_inode = none }

abbrev pub blank_inode : Inode
blank_inode = record {
  i_mode = 0;
  i_size = 0;
  i_start_sect = 0;
  i_nr_sects = 0;
  i_dev = 0;
  i_cnt = 0;
  i_num = 0;
}

abbrev pub blank_tables : Fs → Fs
blank_tables s = record s {
  inode_table = λ _. blank_inode;
  super_block = λ i. record (s.super_block i) { sb_dev = no_dev };
}

-- root_inode = get_inode(ROOT_DEV, ROOT_INODE)
abbrev pub with_root : Server → Option ℕ × Fs → Outcome Server
with_root st (none, s) = halt panic
with_root st (some p, s) = done (record st { fs = s; root_inode = p })

-- The tables outside of their bounds are not used, and are blank too.
unfoldable pub init_fs : ℕ → Server → Outcome Server
init_fs size st = do
  s1 ← mkfs size (blank_tables st.fs)
  s2 ← read_super_block s1 root_dev
  sb ← get_super_block s2 root_dev
  assert (sb.magic == magic_v1)
  r ← get_inode s2 root_dev root_inode_nr
  with_root (record st { f_desc_table = λ _. blank_desc }) r

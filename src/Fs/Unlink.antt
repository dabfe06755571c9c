-- ===== src/Fs/Unlink.antt =====
-- Removing a file: do_unlink of fs/link.c.
pub mod Inodes
use bz_os.Prelude.{
  ℕ, zero, suc, ◌+◌, ◌-◌, ◌*◌, ◌/◌, ◌%◌, ◌^◌, Bool, true, false, not, ◌||◌, List, [], ◌∷◌, Option,
  none, some, Outcome, done, halt, panic, assert, ◌>>=◌, ◌>>◌, ltb, ◌==◌, if◌then◌else◌, update,
}
use bz_os.Kernel.Descriptor.{va2la}
use bz_os.Library.Text.{strcmp}
use bz_os.Fs.State.{Fs, Inode, SuperBlock, sector_size, rd_sect, wr_sect, get_super_block}
use bz_os.Fs.Inode.{get_inode, put_inode, sync_inode, i_regular}
use bz_os.Fs.Map.{bit}
use bz_os.Fs.Path.{strip_path, slash}
use bz_os.Fs.Directory.{search_file, dir_entry_size, entries_per_sector, entry_nr}
use bz_os.Kernel.Schedule.{is_zero}
use bz_os.Fs.Files.{Message, Server, max_path}
use bz_os.Fs.Open.{c_string}

-- the bit in the inode map, whose first sector is the only one
unfoldable pub free_imap_bit : Fs → ℕ → ℕ → Outcome Fs
free_imap_bit s dev nr_inode = do
  let byte_idx = nr_inode / 8
  let bit_idx = nr_inode % 8
  assert (ltb byte_idx sector_size)
  let s1 = rd_sect s dev 2
  assert (not (bit bit_idx (s1.fsbuf byte_idx) == 0))
  done (
      wr_sect (record s1 { fsbuf = update s1.fsbuf byte_idx (s1.fsbuf byte_idx - 2 ^ bit_idx) }) dev
        2)

-- for(; (i < 8) && bits_left; i++, bits_left--), with n turns until i is 8: the byte, and the bits left
unfoldable pub clear_bits : ℕ → ℕ → ℕ → ℕ → Outcome (ℕ × ℕ)
clear_bits zero i byte left = done (byte, left)
clear_bits (suc n) i byte left =
    let rest = clear_bits n (i + 1) (byte - 2 ^ i) (left - 1) in
    if left == 0 then done (byte, left) else (do assert (bit i byte == 1); rest)

-- if(i == SECTOR_SIZE), the buffer is written and the next sector read: i, the sector and the state
abbrev pub next_sector : Fs → ℕ → ℕ → ℕ → ℕ × ℕ × Fs
next_sector s dev i sect =
    if i == sector_size
    then (0, sect + 1, rd_sect (wr_sect s dev sect) dev (sect + 1))
    else (i, sect, s)

-- the n whole bytes from the byte i of the buffer on, which holds the sector sect
unfoldable pub clear_bytes : ℕ → Fs → ℕ → ℕ → ℕ → Outcome (ℕ × ℕ × Fs)
clear_bytes zero s dev i sect = done (i, sect, s)
clear_bytes (suc n) s dev i sect = do
  let (j, sect', s1) = next_sector s dev i sect
  assert (s1.fsbuf j == 0xff)
  clear_bytes n (record s1 { fsbuf = update s1.fsbuf j 0 }) dev (j + 1) sect'

-- the bits of the sector map of nr_sects sectors from start_sect on
unfoldable pub free_smap_bits : Fs → ℕ → SuperBlock → ℕ → ℕ → Outcome Fs
free_smap_bits s dev sb start_sect nr_sects = do
  let bit_idx = start_sect + 1 - sb.n_1st_sect
  let byte_idx = bit_idx / 8
  let byte_cnt = (nr_sects - (8 - bit_idx % 8)) / 8
  let sect = 2 + sb.nr_imap_sects + byte_idx / sector_size
  let s1 = rd_sect s dev sect
  let b = byte_idx % sector_size
  f ← clear_bits (8 - bit_idx % 8) (bit_idx % 8) (s1.fsbuf b) nr_sects
  m ← clear_bytes byte_cnt (record s1 { fsbuf = update s1.fsbuf b f.0 }) dev (b + 1) sect
  let (j, sect', s2) = next_sector (m.2) dev (m.0) (m.1)
  let left = f.1 - 8 * byte_cnt
  assert (s2.fsbuf j % 2 ^ left == 2 ^ left - 1)
  done (
      wr_sect (record s2 { fsbuf = update s2.fsbuf j (s2.fsbuf j - s2.fsbuf j % 2 ^ left) }) dev
        sect')

-- The n entries of the buffer from j on: whether the file's is there, where, m, and the size of the
-- entries in use before.
unfoldable pub find_entry : ℕ → ℕ → ℕ → (ℕ → ℕ) → ℕ → ℕ → ℕ → Bool × ℕ × ℕ × ℕ
find_entry zero nr_inode nr_entries buf j m dir_size = (false, j, m, dir_size)
find_entry (suc n) nr_inode nr_entries buf j m dir_size =
    let size : ℕ = if entry_nr j buf == 0 then dir_size else dir_size + dir_entry_size in
    let rest = find_entry n nr_inode nr_entries buf (j + 1) (m + 1) size in
    if ltb nr_entries (m + 1)
    then (false, j, m + 1, dir_size)
    else if entry_nr j buf == nr_inode
    then (true, j, m + 1, dir_size)
    else rest

-- memset(pde, 0, DIR_ENTRY_SIZE)
unfoldable pub clear_entry : ℕ → (ℕ → ℕ) → ℕ → ℕ
clear_entry j buf x = if x / dir_entry_size == j then 0 else buf x

-- The n sectors of the directory from the i-th on: whether the entry was found and has been cleared, m,
-- the size, and the state. The loop ends when m is greater than the number of sectors.
unfoldable pub clear_name : ℕ → ℕ → ℕ → Inode → Fs → ℕ → ℕ → ℕ → Bool × ℕ × ℕ × Fs
clear_name zero nr_blks nr_inode dir s i m dir_size = (false, m, dir_size, s)
clear_name (suc n) nr_blks nr_inode dir s i m dir_size =
    let sect : ℕ = dir.i_start_sect + i in
    let s1 : Fs = rd_sect s dir.i_dev sect in
    let r =
      find_entry entries_per_sector nr_inode (dir.i_size / dir_entry_size) s1.fsbuf 0 m dir_size in
    let rest = clear_name n nr_blks nr_inode dir s1 (i + 1) r.2 r.3 in
    if r.0
    then (true, r.2, r.3, wr_sect (record s1 { fsbuf = clear_entry (r.1) s1.fsbuf }) dir.i_dev sect)
    else if ltb nr_blks r.2
    then (false, r.2, r.3, s1)
    else rest

-- The file's entry in the directory; dir is the index of its inode.
unfoldable pub remove_entry : Fs → ℕ → ℕ → Outcome Fs
remove_entry s dir nr_inode = do
  let d = s.inode_table dir
  let nr_blks = (d.i_size + sector_size) / sector_size
  let (found, m, dir_size, s1) = clear_name nr_blks nr_blks nr_inode d s 0 0 0
  assert found
  if m == d.i_size / dir_entry_size
      then sync_inode
          (record s1 { inode_table = update s1.inode_table dir (record d { i_size = dir_size }) })
          dir
      else done s1

-- The inode p of the file: its bits in the maps, its fields, its slot, and its name.
unfoldable pub remove_file : Fs → ℕ → ℕ → ℕ → Outcome Fs
remove_file s root nr_inode p = do
  let pin = s.inode_table p
  sb ← get_super_block s pin.i_dev
  s1 ← free_imap_bit s pin.i_dev nr_inode
  s2 ← free_smap_bits s1 pin.i_dev sb pin.i_start_sect pin.i_nr_sects
  let i = record pin { i_mode = 0; i_size = 0; i_start_sect = 0; i_nr_sects = 0 }
  s3 ← sync_inode (record s2 { inode_table = update s2.inode_table p i }) p
  s4 ← put_inode s3 p
  remove_entry s4 root nr_inode

-- A file with an inode in the cache. A directory, a device, and a file that others have open are not
-- removed; their count is left one higher.
abbrev pub remove_inode : Fs → ℕ → ℕ → Option ℕ → Outcome (Bool × Fs)
remove_inode s root nr_inode none = halt panic
remove_inode s root nr_inode (some p) =
    if not ((s.inode_table p).i_mode == i_regular) || ltb 1 (s.inode_table p).i_cnt
    then done (false, s)
    else (do s' ← remove_file s root nr_inode p; done (true, s'))

-- the name of a file that exists
unfoldable pub remove_path : Fs → ℕ → ℕ → List ℕ → Outcome (Bool × Fs)
remove_path s root nr_inode path = elim (strip_path (some path)) [
  | none ↦ done (false, s)
  | some filename ↦ do
    g ← get_inode s (s.inode_table root).i_dev nr_inode
    remove_inode (g.1) root nr_inode (g.0)
]

-- Whether the file has been removed: the results 0 and -1.
unfoldable pub do_unlink : Server → Message → Outcome (Bool × Server)
do_unlink st msg = do
  assert (ltb msg.m3i2 max_path)
  la ← va2la st.kernel msg.source msg.m3p1
  let path = c_string msg.m3i2 la st.kernel.mem
  let (nr_inode, s1) = search_file st.fs st.root_inode path
  if is_zero (strcmp path (slash ∷ []))
      then done (false, st)
      else if nr_inode == 0
      then done (false, record st { fs = s1 })
      else (do r ← remove_path s1 st.root_inode nr_inode path; done (r.0, record st { fs = r.1 }))

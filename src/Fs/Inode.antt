-- ===== src/Fs/Inode.antt =====
-- The cache of inodes: get_inode, put_inode, sync_inode of fs/main.c and new_inode of fs/open.c. An
-- inode pointer is an index of inode_table[].
pub mod Cache
pub mod Roundtrip
use bz_os.Prelude.{
  ℕ, zero, suc, ◌+◌, ◌-◌, ◌*◌, ◌/◌, ◌%◌, Bool, true, false, not, ◌&&◌, Option, none, some, Outcome,
  done, halt, panic, assert, ◌>>=◌, ◌>>◌, ◌==◌, if◌then◌else◌, update,
}
use bz_os.Kernel.Memory.{store32, load32}
use bz_os.Fs.State.{
  Fs, Inode, SuperBlock, sector_size, inode_size, nr_inode, rd_sect, wr_sect, get_super_block,
}

-- the sector of an inode, and its place there
abbrev pub inode_sect : SuperBlock → ℕ → ℕ
inode_sect sb num =
    1 + 1 + sb.nr_imap_sects + sb.nr_smap_sects + (num - 1) / (sector_size / inode_size)

abbrev pub inode_at : ℕ → ℕ
inode_at num = (num - 1) % (sector_size / inode_size) * inode_size

abbrev pub is_inode : Inode → ℕ → ℕ → Bool
is_inode p dev num = not (p.i_cnt == 0) && p.i_dev == dev && p.i_num == num

-- The loop of get_inode over the n slots from p on: the slot of the inode, or the first free one.
unfoldable pub find_inode : ℕ → ℕ → (ℕ → Inode) → ℕ → ℕ → Option ℕ → Bool × Option ℕ
find_inode zero p table dev num q = (false, q)
find_inode (suc n) p table dev num q =
    let free : Option ℕ = elim q [
      | none ↦ if (table p).i_cnt == 0 then some p else none
      | some i ↦ some i
    ] in
    let rest = find_inode n (p + 1) table dev num free in
    if is_inode (table p) dev num then (true, some p) else rest

-- An inode that is not in the cache: it is read from the disk into the free slot q.
unfoldable pub fetch : Fs → ℕ → ℕ → ℕ → SuperBlock → Option ℕ × Fs
fetch s dev num q sb =
    let s' : Fs = rd_sect s dev (inode_sect sb num) in
    let i : Inode = record {
      i_mode = load32 (inode_at num) s'.fsbuf;
      i_size = load32 (inode_at num + 4) s'.fsbuf;
      i_start_sect = load32 (inode_at num + 8) s'.fsbuf;
      i_nr_sects = load32 (inode_at num + 12) s'.fsbuf;
      i_dev = dev;
      i_cnt = 1;
      i_num = num;
    } in
    (some q, record s' { inode_table = update s.inode_table q i })

unfoldable pub read_inode : Fs → ℕ → ℕ → ℕ → Outcome (Option ℕ × Fs)
read_inode s dev num q = do sb ← get_super_block s dev; done (fetch s dev num q sb)

-- what get_inode does with what the loop has found
unfoldable pub get_found : Fs → ℕ → ℕ → Bool × Option ℕ → Outcome (Option ℕ × Fs)
get_found s dev num (found, none) = halt panic
get_found s dev num (true, some p) = done (
  some p,
  record s {
    inode_table =
        update s.inode_table p (record (s.inode_table p) { i_cnt = (s.inode_table p).i_cnt + 1 });
  },
)
get_found s dev num (false, some p) = read_inode s dev num p

unfoldable pub get_inode : Fs → ℕ → ℕ → Outcome (Option ℕ × Fs)
get_inode s dev num =
    if num == 0
    then done (none, s)
    else get_found s dev num (find_inode nr_inode 0 s.inode_table dev num none)

unfoldable pub put_inode : Fs → ℕ → Outcome Fs
put_inode s p = do
  assert (not ((s.inode_table p).i_cnt == 0))
  done (record s {
    inode_table =
        update s.inode_table p (record (s.inode_table p) { i_cnt = (s.inode_table p).i_cnt - 1 });
  })

-- the inode's fields in the buffer
unfoldable pub write_fields : Inode → (ℕ → ℕ) → ℕ → ℕ
write_fields p buf =
    let a : ℕ = inode_at p.i_num in
    store32 (a + 12) p.i_nr_sects
      (store32 (a + 8) p.i_start_sect (store32 (a + 4) p.i_size (store32 a p.i_mode buf)))

unfoldable pub sync_inode : Fs → ℕ → Outcome Fs
sync_inode s p = do
  let i = s.inode_table p
  sb ← get_super_block s i.i_dev
  let s' = rd_sect s i.i_dev (inode_sect sb i.i_num)
  done (wr_sect (record s' { fsbuf = write_fields i s'.fsbuf }) i.i_dev (inode_sect sb i.i_num))

-- I_REGULAR and NR_DEFAULT_FILE_SECTS
abbrev pub i_regular : ℕ
i_regular = 0x8000

abbrev pub nr_default_file_sects : ℕ
nr_default_file_sects = 2048

-- new_inode of fs/open.c. For the inode number 0 get_inode returns a null pointer, through which the
-- code writes: the model halts there.
unfoldable pub new_inode : Fs → ℕ → ℕ → ℕ → Outcome (ℕ × Fs)
new_inode s dev num start_sect = do
  r ← get_inode s dev num
  elim r.0 [
    | none ↦ halt panic
    | some p ↦ do
      let i : Inode = record {
        i_mode = i_regular;
        i_size = 0;
        i_start_sect = start_sect;
        i_nr_sects = nr_default_file_sects;
        i_dev = dev;
        i_cnt = 1;
        i_num = num;
      }
      s' ← sync_inode (record (r.1) { inode_table = update (r.1).inode_table p i }) p
      done (p, s')
  ]

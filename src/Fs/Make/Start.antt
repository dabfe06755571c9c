-- ===== src/Fs/Make/Start.antt =====
-- The file system once init_fs of fs/main.c has run.
use bz_os.Prelude.{
  ℕ, ◌+◌, ◌*◌, ◌^◌, ◌≤◌, ◌<◌, ◌≡◌, refl, ap, ◌∙◌, arith, none, false, some, get_or, ◌>>=◌, done,
  update,
}
use bz_os.Kernel.Memory.{load32, load32-congr}
use bz_os.Terminal.Console.{nr_consoles}
use bz_os.Fs.State.{
  nr_inode, nr_super_block, Fs, Inode, SuperBlock, sector_size, rd_sect, get_super_block,
  find_super_block,
}
use bz_os.Fs.Inode.{
  nr_default_file_sects, get_inode, find_inode, get_found, read_inode, fetch, inode_sect,
}
use bz_os.Fs.Files.{Server, i_directory, root_inode_nr}
use bz_os.Fs.Make.{
  root_dev, made_block, block_bytes, inode_bytes, block_words, root_words, read_block,
  read_super_block, free_block, store_block, blank_desc, blank_inode, blank_tables, with_root, mkfs,
  init_fs,
}
use bz_os.Fs.Make.Root.{load32-nth, load32-device_inodes, inode_sector, Made, mkfs-Made}

-- the super block in super_block[], and the root directory's inode in the cache
abbrev pub root_block : ℕ → SuperBlock
root_block size = record (made_block size) { sb_dev = root_dev }

abbrev pub root_directory : ℕ → Inode
root_directory size = record {
  i_mode = i_directory;
  i_size = 64;
  i_start_sect = (made_block size).n_1st_sect;
  i_nr_sects = nr_default_file_sects;
  i_dev = root_dev;
  i_cnt = 1;
  i_num = root_inode_nr;
}

module _ (size : ℕ) (lt : size < 2 ^ 32) (s s' : Fs) (made : Made size s s') where
  -- a number of the super block, and of the inode, in the buffer
  block_number :
      (a : ℕ)
      → a + 4 ≤ sector_size
      → load32 a (rd_sect s' root_dev 1).fsbuf ≡ load32 a (block_bytes size made.buf)
  block_number a le =
      load32-congr a (block_bytes size made.buf) (rd_sect s' root_dev 1).fsbuf
        (λ j l. ground (arith, made.block (a + j) (omega arith)))

  read_block_lem : read_block (rd_sect s' root_dev 1).fsbuf root_dev ≡ root_block size
  unfolding made_block
  read_block_lem =
      let word = λ (k : ℕ). load32-nth (block_words size) k 0 made.buf in
      let m = block_number 0 (omega arith) ∙ word 0 (omega arith) (omega arith) in
      let i = block_number 4 (omega arith) ∙ word 1 (omega arith) (omega arith) in
      let n = block_number 8 (omega arith) ∙ word 2 (omega arith) (omega arith) in
      let f = block_number 24 (omega arith) ∙ word 6 (omega arith) (omega arith) in
      rw (m, i, n, f) refl

  -- the tables and the buffer when the super block has been read
  abbrev with_super : Fs
  with_super = record (rd_sect s' root_dev 1) {
    super_block = update s'.super_block 0 (root_block size);
  }

  inode_number :
      (k : ℕ)
      → k < 4
      → get_or (root_words size) k 0 < 2 ^ 32
      → load32 (0 + 4 * k) (rd_sect with_super root_dev (inode_sector size)).fsbuf
        ≡ get_or (root_words size) k 0
  inode_number k in_list small =
      load32-congr (0 + 4 * k) (inode_bytes size made.inode_buf)
        (rd_sect with_super root_dev (inode_sector size)).fsbuf
        (λ j l. ground (arith, made.inodes (0 + 4 * k + j) (omega arith)))
      ∙ load32-device_inodes nr_consoles 0 (0 + 4 * k) _ (omega arith)
      ∙ load32-nth (root_words size) k 0 made.inode_buf in_list small

  fetch_lem : fetch with_super root_dev root_inode_nr 0 (root_block size) ≡ (
    some 0,
    record (rd_sect with_super root_dev (inode_sector size)) {
      inode_table = update s'.inode_table 0 (root_directory size);
    },
  )
  unfolding fetch made_block
  fetch_lem =
      let e : inode_sect (root_block size) root_inode_nr ≡ inode_sector size = omega arith in
      let m = inode_number 0 (omega arith) (omega arith) in
      let z = inode_number 1 (omega arith) (omega arith) in
      let f = inode_number 2 (omega arith) (omega arith) in
      let n = inode_number 3 (omega arith) (omega arith) in rw (e, m, z, f, n) refl

  first_block : (s'.super_block 0).sb_dev ≡ 0 → free_block nr_super_block 0 s'.super_block ≡ some 0
  unfolding free_block
  first_block free = rw free refl

  read_super_block_lem :
      (s'.super_block 0).sb_dev ≡ 0 → read_super_block s' root_dev ≡ done with_super
  unfolding read_super_block
  read_super_block_lem free =
      ap (store_block (rd_sect s' root_dev 1) root_dev) (first_block free) ∙ rw read_block_lem refl

  super_block_found : get_super_block with_super root_dev ≡ done (root_block size)
  unfolding find_super_block
  super_block_found = refl

  no_inode : find_inode nr_inode 0 (λ _. blank_inode) root_dev root_inode_nr none ≡ (false, some 0)
  unfolding find_inode
  no_inode = refl

  get_inode_lem :
      s'.inode_table ≡ (λ _. blank_inode)
      → get_inode with_super root_dev root_inode_nr
        ≡ done (
          some 0,
          record (rd_sect with_super root_dev (inode_sector size)) {
            inode_table = update s'.inode_table 0 (root_directory size);
          },
        )
  unfolding get_inode get_found read_inode
  get_inode_lem blank =
      let n = ap (λ t. find_inode nr_inode 0 t root_dev root_inode_nr none) blank ∙ no_inode in
      rw (n, super_block_found, fetch_lem) refl

-- For a partition of fewer than 2^32 sectors, whatever is on the disk and in the tables: init_fs returns;
-- get_super_block then finds the super block that mkfs has made, for the root device; the inode
-- root_inode is the root directory in the cache, a directory of 64 bytes in 2048 sectors from the
-- first data sector on; and the disk holds what mkfs has written.
pub init_fs-mkfs :
    (size : ℕ) (st : Server)
    → size < 2 ^ 32
    → (st' : Server) × (made : Fs) × (init_fs size st ≡ done st')
      × (get_super_block st'.fs root_dev ≡ done (root_block size))
      × (st'.fs.inode_table st'.root_inode ≡ root_directory size)
      × (mkfs size (blank_tables st.fs) ≡ done made)
      × (st'.fs.disk ≡ made.disk)
unfolding init_fs find_super_block made_block
init_fs-mkfs size st lt =
    let s = blank_tables st.fs in
    let (s', e, made) = mkfs-Made size s in
    let r =
      read_super_block_lem size lt s s' made
        (ap (λ (t : ℕ → SuperBlock). (t 0).sb_dev) made.super_block) in
    let g = get_inode_lem size lt s s' made made.inode_table in
    let st' : Server = record st {
      fs = record (rd_sect (with_super size lt s s' made) root_dev (inode_sector size)) {
        inode_table = update s'.inode_table 0 (root_directory size);
      };
      root_inode = 0;
      f_desc_table = λ _. blank_desc;
    } in
    let tail : (get_inode (with_super size lt s s' made) root_dev root_inode_nr
          >>= with_root (record st { f_desc_table = λ _. blank_desc }))
        ≡ done st' =
      rw g refl in
    (st', s', rw (e, r) tail, refl, refl, e, refl)

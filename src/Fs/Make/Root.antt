-- ===== src/Fs/Make/Root.antt =====
-- What init_fs of fs/main.c finds on the disk that mkfs has made: the super block and the root directory.
use bz_os.Prelude.{
  ℕ, zero, suc, ◌+◌, ◌-◌, ◌*◌, ◌^◌, ◌≤◌, ◌<◌, ◌≡◌, ◌≢◌, refl, ◌∙◌, arith, List, [], ◌∷◌, length,
  get_or, inl, done,
}
use bz_os.Kernel.Memory.{load32, store32, load32-store32, load32-store32_ne}
use bz_os.Library.Format.{vsprintf, directive, format_int, decimal}
use bz_os.Terminal.Console.{nr_consoles}
use bz_os.Fs.State.{Fs, sector_size, inode_size, wr_sect}
use bz_os.Fs.Directory.{strcpy}
use bz_os.Fs.Make.{
  root_dev, made_block, store_words, block_bytes, filled_buffer, block_buffer, imap_buffer,
  smap_buffer, inode_bytes, inode_buffer, write_super_block, write_imap, write_zeros, write_smap,
  device_inodes, write_inodes, device_entries, write_root, mkfs,
}

pub load32-store_words_ne :
    (ws : List ℕ) (a b : ℕ) (buf : ℕ → ℕ)
    → a + 4 ≤ b
    → load32 a (store_words b ws buf) ≡ load32 a buf
unfolding store_words
load32-store_words_ne [] a b buf le = refl
load32-store_words_ne (w ∷ ws) a b buf le =
    load32-store_words_ne ws a (b + 4) (store32 b w buf) (omega arith)
    ∙ load32-store32_ne a b w buf (inl le)

pub load32-store_words :
    (w : ℕ) (ws : List ℕ) (a : ℕ) (buf : ℕ → ℕ)
    → w < 2 ^ 32
    → load32 a (store_words a (w ∷ ws) buf) ≡ w
unfolding store_words
load32-store_words w ws a buf lt =
    load32-store_words_ne ws a (a + 4) (store32 a w buf) (omega arith) ∙ load32-store32 a w buf lt

-- the k-th of the words from a on
pub load32-nth :
    (ws : List ℕ) (k a : ℕ) (buf : ℕ → ℕ)
    → k < length ws
    → get_or ws k 0 < 2 ^ 32
    → load32 (a + 4 * k) (store_words a ws buf) ≡ get_or ws k 0
unfolding store_words
load32-nth [] k a buf in_list lt = absurd (omega arith)
load32-nth (w ∷ ws) zero a buf in_list lt =
    let e : a + 4 * 0 ≡ a = omega arith in rw e (load32-store_words w ws a buf lt)
load32-nth (w ∷ ws) (suc k) a buf in_list lt =
    let e : a + 4 * suc k ≡ a + 4 + 4 * k = omega arith in
    rw e (load32-nth ws k (a + 4) (store32 a w buf) (omega (arith, in_list)) lt)

pub load32-device_inodes :
    (n i a : ℕ) (buf : ℕ → ℕ) → a + 4 ≤ inode_size → load32 a (device_inodes n i buf) ≡ load32 a buf
unfolding device_inodes
load32-device_inodes zero i a buf le = refl
load32-device_inodes (suc n) i a buf le =
    load32-device_inodes n (i + 1) a _ le
    ∙ load32-store_words_ne _ a (inode_size * (i + 1)) buf (omega arith)

-- Sectors that a write leaves alone.
wr_sect-other :
    (s : Fs) (k sect x : ℕ)
    → sect ≢ k
    → (wr_sect s root_dev k).disk root_dev sect x ≡ s.disk root_dev sect x
wr_sect-other s k sect x ne = ground arith

wr_sect-same :
    (s : Fs) (k x : ℕ) → x < sector_size → (wr_sect s root_dev k).disk root_dev k x ≡ s.fsbuf x
wr_sect-same s k x lt = ground arith

write_zeros-other :
    (n i : ℕ) (s : Fs) (sect x : ℕ)
    → sect < 3 + i
    → (write_zeros n i s).disk root_dev sect x ≡ s.disk root_dev sect x
unfolding write_zeros
write_zeros-other zero i s sect x lt = refl
write_zeros-other (suc n) i s sect x lt =
    write_zeros-other n (i + 1) (wr_sect s root_dev (2 + 1 + i)) sect x (omega arith)
    ∙ wr_sect-other s (2 + 1 + i) sect x (omega arith)

write_zeros-tables :
    (n i : ℕ) (s : Fs)
    → ((write_zeros n i s).super_block ≡ s.super_block)
      × ((write_zeros n i s).inode_table ≡ s.inode_table)
unfolding write_zeros
write_zeros-tables zero i s = (refl, refl)
write_zeros-tables (suc n) i s = write_zeros-tables n (i + 1) (wr_sect s root_dev (2 + 1 + i))

entries_done : (buf : ℕ → ℕ) → (buf' : ℕ → ℕ) × (device_entries nr_consoles 0 buf ≡ done buf')
unfolding device_entries vsprintf directive format_int decimal
entries_done buf = (_, refl)

abbrev pub inode_sector : ℕ → ℕ
inode_sector size = 2 + 1 + (made_block size).nr_smap_sects

-- What mkfs leaves on the disk, for the parts that init_fs reads.
pub record Made (size : ℕ) (s s' : Fs) : Type 0 where
  pub buf : ℕ → ℕ
  pub inode_buf : ℕ → ℕ
  pub block : (x : ℕ) → x < sector_size → s'.disk root_dev 1 x ≡ block_bytes size buf x
  pub inodes :
      (x : ℕ)
      → x < sector_size
      → s'.disk root_dev (inode_sector size) x ≡ inode_bytes size inode_buf x
  pub super_block : s'.super_block ≡ s.super_block
  pub inode_table : s'.inode_table ≡ s.inode_table

module _ (size : ℕ) (s : Fs) where
  abbrev with_block : Fs
  with_block = write_super_block size s

  abbrev with_imap : Fs
  with_imap = write_imap with_block

  abbrev with_smap : Fs
  with_smap = write_smap size with_imap

  abbrev with_inodes : Fs
  with_inodes = write_inodes size with_smap

  smap-other :
      (sect x : ℕ) → sect < 3 → with_smap.disk root_dev sect x ≡ with_imap.disk root_dev sect x
  unfolding write_smap
  smap-other sect x lt =
      write_zeros-other ((made_block size).nr_smap_sects - 1) 1
        (filled_buffer 0 (wr_sect (smap_buffer with_imap) root_dev 3)) sect x (omega arith)
      ∙ wr_sect-other (smap_buffer with_imap) 3 sect x (omega arith)

  smap_tables : (with_smap.super_block ≡ s.super_block) × (with_smap.inode_table ≡ s.inode_table)
  unfolding write_smap
  smap_tables =
      write_zeros-tables ((made_block size).nr_smap_sects - 1) 1
        (filled_buffer 0 (wr_sect (smap_buffer with_imap) root_dev 3))

  -- the root directory in the buffer
  abbrev root_buffer : (ℕ → ℕ) → Fs
  root_buffer buf = record (filled_buffer 0 with_inodes) { fsbuf = buf }

  block_at :
      (buf : ℕ → ℕ) (k x : ℕ)
      → 2 < k
      → x < sector_size
      → (wr_sect (root_buffer buf) root_dev k).disk root_dev 1 x
        ≡ block_bytes size (filled_buffer 0x90 s).fsbuf x
  unfolding write_inodes made_block
  block_at buf k x far lt =
      wr_sect-other (root_buffer buf) k 1 x (omega arith)
      ∙ wr_sect-other (inode_buffer size with_smap) (inode_sector size) 1 x (omega arith)
      ∙ smap-other 1 x (omega arith)
      ∙ wr_sect-other (imap_buffer with_block) 2 1 x (omega arith)
      ∙ wr_sect-same (block_buffer size s) 1 x lt

  pub mkfs-Made : (s' : Fs) × (mkfs size s ≡ done s') × Made size s s'
  unfolding mkfs write_root write_inodes made_block
  mkfs-Made =
      let (buf, e) =
        entries_done (strcpy 4 (46 ∷ []) (store32 0 1 (filled_buffer 0 with_inodes).fsbuf)) in
      (
        wr_sect (root_buffer buf) root_dev (made_block size).n_1st_sect,
        rw e refl,
        record {
          buf = (filled_buffer 0x90 s).fsbuf;
          inode_buf = (filled_buffer 0 with_smap).fsbuf;
          block = λ x lt. block_at buf (made_block size).n_1st_sect x (omega arith) lt;
          inodes = λ x lt.
              wr_sect-other (root_buffer buf) (made_block size).n_1st_sect (inode_sector size) x
                (omega arith)
              ∙ wr_sect-same (inode_buffer size with_smap) (inode_sector size) x lt;
          super_block = smap_tables.0;
          inode_table = smap_tables.1;
        },
      )

-- ===== src/Fs/Inode/Roundtrip.antt =====
-- What sync_inode writes is what get_inode reads.
use mathlib.Core.Path.{subst}
use bz_os.Prelude.{
  ℕ, ◌+◌, ◌^◌, ◌≤◌, ◌<◌, ◌≡◌, refl, ap, ◌∙◌, arith, some, done, update, update_self,
}
use bz_os.Kernel.Memory.{store32, load32, load32-store32, load32-store32_ne, load32-congr}
use bz_os.Fs.State.{Fs, Inode, SuperBlock, sector_size, rd_sect, wr_sect, get_super_block}
use bz_os.Fs.Inode.{inode_sect, inode_at, read_inode, fetch, write_fields, sync_inode}

-- All the fields are 32-bit numbers.
pub record IsU32 (i : Inode) : Type 0 where
  pub mode : i.i_mode < 2 ^ 32
  pub size : i.i_size < 2 ^ 32
  pub start_sect : i.i_start_sect < 2 ^ 32
  pub nr_sects : i.i_nr_sects < 2 ^ 32

module _ (i : Inode) (u : IsU32 i) (buf : ℕ → ℕ) where
  abbrev at : ℕ
  at = inode_at i.i_num

  written_mode : load32 (inode_at i.i_num) (write_fields i buf) ≡ i.i_mode
  unfolding write_fields store32
  written_mode =
      load32-store32_ne at (at + 12) i.i_nr_sects _ (omega arith)
      ∙ load32-store32_ne at (at + 8) i.i_start_sect _ (omega arith)
      ∙ load32-store32_ne at (at + 4) i.i_size _ (omega arith)
      ∙ load32-store32 at i.i_mode buf u.mode

  written_size : load32 (inode_at i.i_num + 4) (write_fields i buf) ≡ i.i_size
  unfolding write_fields store32
  written_size =
      load32-store32_ne (at + 4) (at + 12) i.i_nr_sects _ (omega arith)
      ∙ load32-store32_ne (at + 4) (at + 8) i.i_start_sect _ (omega arith)
      ∙ load32-store32 (at + 4) i.i_size _ u.size

  written_start_sect : load32 (inode_at i.i_num + 8) (write_fields i buf) ≡ i.i_start_sect
  unfolding write_fields store32
  written_start_sect =
      load32-store32_ne (at + 8) (at + 12) i.i_nr_sects _ (omega arith)
      ∙ load32-store32 (at + 8) i.i_start_sect _ u.start_sect

  written_nr_sects : load32 (inode_at i.i_num + 12) (write_fields i buf) ≡ i.i_nr_sects
  unfolding write_fields store32
  written_nr_sects = load32-store32 (at + 12) i.i_nr_sects _ u.nr_sects

sector_read :
    (s : Fs) (dev sect j : ℕ)
    → j < sector_size
    → (rd_sect (wr_sect s dev sect) dev sect).fsbuf j ≡ s.fsbuf j
sector_read s dev sect j lt = ground arith

-- the inode that get_inode finds in a sector
abbrev fetched : Fs → Inode → ℕ → Inode
fetched s i sect =
    let buf : ℕ → ℕ = (rd_sect s i.i_dev sect).fsbuf in
    record {
      i_mode = load32 (inode_at i.i_num) buf;
      i_size = load32 (inode_at i.i_num + 4) buf;
      i_start_sect = load32 (inode_at i.i_num + 8) buf;
      i_nr_sects = load32 (inode_at i.i_num + 12) buf;
      i_dev = i.i_dev;
      i_cnt = 1;
      i_num = i.i_num;
    }

field_read :
    (s : Fs) (i : Inode) (sect k : ℕ)
    → k ≤ 12
    → load32 (inode_at i.i_num + k) (rd_sect (wr_sect s i.i_dev sect) i.i_dev sect).fsbuf
      ≡ load32 (inode_at i.i_num + k) s.fsbuf
field_read s i sect k le =
    load32-congr (inode_at i.i_num + k) s.fsbuf
      (rd_sect (wr_sect s i.i_dev sect) i.i_dev sect).fsbuf
      (λ j lt. sector_read s i.i_dev sect (inode_at i.i_num + k + j) (omega arith))

fetched_lem :
    (s : Fs) (i : Inode) (sect : ℕ)
    → IsU32 i
    → (buf : ℕ → ℕ) → s.fsbuf ≡ write_fields i buf
    → fetched (wr_sect s i.i_dev sect) i sect ≡ record i { i_cnt = 1 }
fetched_lem s i sect u buf e =
    let z : inode_at i.i_num + 0 ≡ inode_at i.i_num = omega arith in
    let f0 =
      subst (λ w. load32 w (rd_sect (wr_sect s i.i_dev sect) i.i_dev sect).fsbuf ≡ load32 w s.fsbuf)
        z (field_read s i sect 0 (omega arith)) in
    let b = λ (k : ℕ). ap (load32 k) e in
    let m = f0 ∙ b (inode_at i.i_num) ∙ written_mode i u buf in
    let sz =
      field_read s i sect 4 (omega arith) ∙ b (inode_at i.i_num + 4) ∙ written_size i u buf in
    let st =
      field_read s i sect 8 (omega arith) ∙ b (inode_at i.i_num + 8) ∙ written_start_sect i u buf in
    let nr =
      field_read s i sect 12 (omega arith) ∙ b (inode_at i.i_num + 12) ∙ written_nr_sects i u buf in
    rw (m, sz, st, nr) refl

-- For an inode in the cache with 32-bit fields whose device has a super block: sync_inode returns, and
-- what get_inode then reads from the disk, when the inode is not in the cache and q is the free slot,
-- are the fields of the inode, with the count 1.
pub sync_inode-read_inode :
    (s : Fs) (p q : ℕ) (sb : SuperBlock)
    → get_super_block s (s.inode_table p).i_dev ≡ done sb
    → IsU32 (s.inode_table p)
    → let i = s.inode_table p in
      (s' : Fs) × (s'' : Fs) × (sync_inode s p ≡ done s')
      × (read_inode s' i.i_dev i.i_num q ≡ done (some q, s''))
      × (s''.inode_table q ≡ record i { i_cnt = 1 })
unfolding sync_inode read_inode fetch
sync_inode-read_inode s p q sb e u =
    let i : Inode = s.inode_table p in
    let sect : ℕ = inode_sect sb i.i_num in
    let s1 : Fs = rd_sect s i.i_dev sect in
    let s2 : Fs = record s1 { fsbuf = write_fields i s1.fsbuf } in
    let s' : Fs = wr_sect s2 i.i_dev sect in
    (
      s',
      record (rd_sect s' i.i_dev sect) {
        inode_table = update s'.inode_table q (fetched s' i sect);
      },
      rw e refl,
      rw e refl,
      update_self s'.inode_table q (fetched s' i sect) ∙ fetched_lem s2 i sect u s1.fsbuf refl,
    )

-- ===== src/Fs/Transfer/Grow.antt =====
-- What sync_inode (fs/main.c) and the growth of a file in do_rdwt (fs/read_write.c) change.
use mathlib.Core.Path.{subst}
use bz_os.Prelude.{
  ℕ, ◌<◌, ◌≡◌, refl, ap, ◌∙◌, arith, Bool-cases, inl, inr, done, ltb, if◌then◌else◌, update,
  update_self,
}
use bz_os.Fs.State.{Fs, Inode, SuperBlock, rd_sect, wr_sect, get_super_block}
use bz_os.Fs.Inode.{sync_inode, inode_sect, write_fields}
use bz_os.Fs.Transfer.{grow}

-- The size of a file that is written up to a position.
abbrev pub grown : Inode → ℕ → Inode
grown i pos = record i { i_size = if ltb i.i_size pos then pos else i.i_size }

-- sync_inode writes the sector of the inode alone.
pub sync_inode_lem :
    (s : Fs) (p : ℕ) (sb : SuperBlock)
    → get_super_block s (s.inode_table p).i_dev ≡ done sb
    → (s' : Fs) × (sync_inode s p ≡ done s')
      × (s'.inode_table ≡ s.inode_table)
      × (s'.super_block ≡ s.super_block)
      × ((sect b : ℕ)
          → inode_sect sb (s.inode_table p).i_num < sect
          → s'.disk (s.inode_table p).i_dev sect b ≡ s.disk (s.inode_table p).i_dev sect b)
unfolding sync_inode
sync_inode_lem s p sb e =
    let i : Inode = s.inode_table p in
    let s1 : Fs = rd_sect s i.i_dev (inode_sect sb i.i_num) in
    (
      wr_sect (record s1 { fsbuf = write_fields i s1.fsbuf }) i.i_dev (inode_sect sb i.i_num),
      rw e refl,
      refl,
      refl,
      λ sect b h. ground arith,
    )

-- What grow leaves of the disk and the cache.
pub record Grown (s : Fs) (p pos : ℕ) (sb : SuperBlock) : Type 0 where
  pub fs : Fs
  pub returns : grow s p pos ≡ done fs
  pub inode : fs.inode_table p ≡ grown (s.inode_table p) pos
  pub blocks : fs.super_block ≡ s.super_block
  pub disk :
      (sect b : ℕ)
      → inode_sect sb (s.inode_table p).i_num < sect
      → fs.disk (s.inode_table p).i_dev sect b ≡ s.disk (s.inode_table p).i_dev sect b

pub grow_lem :
    (s : Fs) (p pos : ℕ) (sb : SuperBlock)
    → get_super_block s (s.inode_table p).i_dev ≡ done sb
    → Grown s p pos sb
unfolding grow
grow_lem s p pos sb e = elim (Bool-cases (ltb (s.inode_table p).i_size pos)) [
  | inl t ↦
      let big : Inode = record (s.inode_table p) { i_size = pos } in
      let s1 : Fs = record s { inode_table = update s.inode_table p big } in
      let self : s1.inode_table p ≡ big = update_self s.inode_table p big in
      let (s', r, table, blocks, disk) =
        sync_inode_lem s1 p sb (ap (λ (w : Inode). get_super_block s1 w.i_dev) self ∙ e) in
      record {
        fs = s';
        returns = rw t r;
        inode = rw t (ap (λ f. f p) table ∙ self);
        blocks = blocks;
        disk =
            subst
              (λ (w : Inode).
                (sect b : ℕ)
                → inode_sect sb w.i_num < sect
                → s'.disk w.i_dev sect b ≡ s.disk w.i_dev sect b)
              self disk;
      }
  | inr f ↦ record {
    fs = s;
    returns = rw f refl;
    inode = rw f refl;
    blocks = refl;
    disk = λ sect b h. refl;
  }
]

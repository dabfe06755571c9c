-- ===== src/Fs/Transfer/Calls.antt =====
-- do_rdwt of fs/read_write.c on an open file of the disk, in both directions.
use mathlib.Core.Path.{subst}
use bz_os.Prelude.{
  ℕ, ◌+◌, ◌-◌, ◌*◌, ◌/◌, ◌%◌, ◌^◌, ◌≤◌, ◌<◌, ◌≡◌, ◌≢◌, refl, ap, ◌∙◌, arith, true, false, ◌&&◌,
  ◌||◌, some, done, ltb, leb, ◌==◌, if◌then◌else◌, update_self,
}
use bz_os.Kernel.Descriptor.{va2la}
use bz_os.Fs.State.{
  Inode, SuperBlock, sector_size, nr_inode, get_super_block, find_super_block, nr_super_block,
}
use bz_os.Fs.Inode.{inode_sect, i_regular}
use bz_os.Fs.MsgType
use bz_os.Fs.Files.{
  Server, Message, FileDesc, Driver, o_rdwr, nr_file_desc, imode, i_char_special, i_directory,
}
use bz_os.Fs.Transfer.{Transfer, end_of_transfer, max_command, do_rdwt, rdwt_disk, transferred}
use bz_os.Fs.Transfer.Bytes.{
  file_byte, transfer_lem, after, after-write, after-tables, after-count, after-mem,
}
use bz_os.Fs.Transfer.Grow.{grown, grow_lem}

-- A message for an open file of the disk: its descriptor d, and the inode p.
pub record Opened (st : Server) (msg : Message) (d p : ℕ) : Type 0 where
  pub fd : (st.kernel.procs msg.source).filp msg.m3i1 ≡ some d
  pub fd_in : d < nr_file_desc
  pub mode : (st.f_desc_table d).fd_mode / o_rdwr % 2 ≢ 0
  pub inode : (st.f_desc_table d).fd_inode ≡ some p
  pub inode_in : p < nr_inode
  pub regular : (st.fs.inode_table p).i_mode ≡ i_regular

do_rdwt-Opened :
    (driver : Driver) (st : Server) (msg : Message) (d p : ℕ)
    → Opened st msg d p
    → do_rdwt driver st msg ≡ rdwt_disk st msg d p
unfolding do_rdwt
do_rdwt-Opened driver st msg d p o =
    let a : ltb d nr_file_desc ≡ true = ground (arith, o.fd_in) in
    let b : ((st.f_desc_table d).fd_mode / o_rdwr % 2 == 0) ≡ false = ground (arith, o.mode) in
    let c : ltb p nr_inode ≡ true = ground (arith, o.inode_in) in
    let g : (imode (st.fs.inode_table p).i_mode == i_char_special) ≡ false =
      ground (arith, o.regular) in
    rw (o.fd, a, b, o.inode, c, g) refl

-- The disk of a file: its super block, and its sectors behind those of the inodes; and the bytes from
-- pos to pos + len, which lie in the file's sectors, which one command of the disk moves.
pub record IsFile (st : Server) (p pos len : ℕ) (sb : SuperBlock) : Type 0 where
  pub super_block : get_super_block st.fs (st.fs.inode_table p).i_dev ≡ done sb
  pub behind : inode_sect sb (st.fs.inode_table p).i_num < (st.fs.inode_table p).i_start_sect
  pub in_file : pos + len ≤ (st.fs.inode_table p).i_nr_sects * sector_size
  pub in_command : (pos + len) / 2 ^ 9 + 1 ≤ pos / 2 ^ 9 + max_command

module _ (driver : Driver) (st : Server) (w : Message) (d p la : ℕ) (sb : SuperBlock)
    (opened : Opened st w d p) (mapped : va2la st.kernel w.source w.m3p2 ≡ done la)
    (file : IsFile st p (st.f_desc_table d).fd_pos w.m3i2 sb) where
  abbrev pos : ℕ
  pos = (st.f_desc_table d).fd_pos

  abbrev pin : Inode
  pin = st.fs.inode_table p

  abbrev loop_end :
      end_of_transfer w.type pin pos w.m3i2 / 2 ^ 9 ≡ (pos + w.m3i2) / 2 ^ 9 → Transfer
  loop_end ends = after w.type st.fs st.kernel.mem p pos w.m3i2 la ends file.in_command

  -- What both directions have in common.
  record Moved (a : Transfer) : Type 0 where
    result : Server
    returns : do_rdwt driver st w ≡ done (some w.m3i2, result)
    bytes :
        (x : ℕ)
        → file_byte result.fs pin.i_dev pin.i_start_sect x
          ≡ file_byte a.fs pin.i_dev pin.i_start_sect x
    inode : result.fs.inode_table p ≡ grown pin (pos + w.m3i2)
    blocks : result.fs.super_block ≡ st.fs.super_block
    position : (result.f_desc_table d).fd_pos ≡ pos + w.m3i2
    mem : result.kernel.mem ≡ a.mem

  do_rdwt-Moved :
      (ends : end_of_transfer w.type pin pos w.m3i2 / 2 ^ 9 ≡ (pos + w.m3i2) / 2 ^ 9)
      → (w.type == MsgType.read || w.type == MsgType.write) ≡ true
      → Moved (loop_end ends)
  unfolding rdwt_disk
  do_rdwt-Moved ends known =
      let a : Transfer = loop_end ends in
      let (table, blocks) =
        after-tables w.type st.fs st.kernel.mem p pos w.m3i2 la ends file.in_command in
      let (count, end) =
        after-count w.type st.fs st.kernel.mem p pos w.m3i2 la ends file.in_command in
      let same : a.fs.inode_table p ≡ pin = ap (λ (t : ℕ → Inode). t p) table in
      let g = grow_lem a.fs p a.fd_pos sb (
        ap (λ (i : Inode). get_super_block a.fs i.i_dev) same
        ∙ ap (λ (b : ℕ → SuperBlock). find_super_block nr_super_block 0 b pin.i_dev) blocks
        ∙ file.super_block) in
      let m : (pin.i_mode == i_regular || pin.i_mode == i_directory) ≡ true =
        ground (arith, opened.regular) in
      let loop = transfer_lem w.type st.fs st.kernel.mem p pos w.m3i2 la ends file.in_command in
      let st' : Server = transferred st d (record a { fs = g.fs }) in
      record {
        result = st';
        returns =
            do_rdwt-Opened driver st w d p opened
            ∙ rw (m, known, mapped, loop, g.returns) (ap (λ n. done (some n, st')) count);
        bytes = λ x.
            subst
              (λ (i : Inode).
                (sect b : ℕ)
                → inode_sect sb i.i_num < sect
                → g.fs.disk i.i_dev sect b ≡ a.fs.disk i.i_dev sect b)
              same g.disk (pin.i_start_sect + x / sector_size) (x % sector_size)
              (omega (arith, file.behind));
        inode = g.inode ∙ ap (λ (i : Inode). grown i a.fd_pos) same ∙ ap (grown pin) end;
        blocks = g.blocks ∙ blocks;
        position =
            ap FileDesc.fd_pos
              (update_self st.f_desc_table d (record (st.f_desc_table d) { fd_pos = a.fd_pos }))
            ∙ end;
        mem = refl;
      }

  pub do_rdwt-write :
      w.type ≡ MsgType.write
      → (st' : Server) × (do_rdwt driver st w ≡ done (some w.m3i2, st'))
        × ((x : ℕ)
            → file_byte st'.fs pin.i_dev pin.i_start_sect x ≡ (
                if leb pos x && ltb x (pos + w.m3i2)
                then st.kernel.mem (la + (x - pos))
                else file_byte st.fs pin.i_dev pin.i_start_sect x))
        × (st'.fs.inode_table p ≡ grown pin (pos + w.m3i2))
        × ((st'.f_desc_table d).fd_pos ≡ pos + w.m3i2)
        × (st'.kernel.mem ≡ st.kernel.mem)
        × (st'.fs.super_block ≡ st.fs.super_block)
  do_rdwt-write t =
      let ends : end_of_transfer w.type pin pos w.m3i2 / 2 ^ 9 ≡ (pos + w.m3i2) / 2 ^ 9 =
        ground (arith, file.in_file) in
      let m = do_rdwt-Moved ends (ground arith) in
      (
        m.result,
        m.returns,
        λ x.
            m.bytes x
            ∙ after-write w.type st.fs st.kernel.mem p pos w.m3i2 la ends file.in_command t x,
        m.inode,
        m.position,
        m.mem ∙ after-mem w.type st.fs st.kernel.mem p pos w.m3i2 la ends file.in_command t,
        m.blocks,
      )

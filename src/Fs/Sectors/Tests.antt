-- ===== src/Fs/Sectors/Tests.antt =====
-- A sector map whose bytes are 0, except for the first: three bits are taken.
use bz_os.Prelude.{
  all_below-at, ℕ, ◌+◌, ◌<◌, ◌≤◌, ◌≡◌, refl, arith, ◌||◌, done, ◌&&◌, ltb, leb, if◌then◌else◌, ◌==◌,
}
use bz_os.Fs.State.{Fs, Inode, SuperBlock, find_super_block}
use bz_os.Fs.Sectors.{alloc_smap_bit, set_bits}
use bz_os.Fs.Sectors.Block.{IsSmap, smap_bit, smap_bits, alloc_smap_bit-takes}

set_bits_test : set_bits 5 3 7 4 ≡ done (127, 0)
unfolding set_bits
set_bits_test = refl

abbrev root_block : SuperBlock
root_block = record {
  magic = 0x111;
  nr_imap_sects = 1;
  nr_smap_sects = 2;
  n_1st_sect = 261;
  sb_dev = 800;
}

abbrev no_inode : Inode
no_inode = record {
  i_mode = 0;
  i_size = 0;
  i_start_sect = 0;
  i_nr_sects = 0;
  i_dev = 0;
  i_cnt = 0;
  i_num = 0;
}

abbrev disk : Fs
disk = record {
  disk = λ _ sect b. if sect == 3 && b == 0 then 7 else 0;
  fsbuf = λ _. 0;
  inode_table = λ _. no_inode;
  super_block = λ _. root_block;
}

disk-IsSmap : IsSmap disk 800 root_block
unfolding find_super_block
disk-IsSmap = record {
  super_block = refl;
  data_sector = omega arith;
  bytes = λ k y hk hy. ground arith;
}

taken : (x : ℕ) → x < 3 → smap_bit disk 800 root_block x ≡ 1
taken x lt = ground (arith, all_below-at 3 (λ y. smap_bit disk 800 root_block y == 1) refl x lt)

free : (x : ℕ) → 3 ≤ x → x < 3 + 10 → smap_bit disk 800 root_block x ≡ 0
free x le lt =
    let h = all_below-at 13 (λ y. ltb y 3 || smap_bit disk 800 root_block y == 0) refl x lt in
    ground (arith, h)

-- the ten bits from 3 on, so of two bytes
alloc_smap_bit-takes_example :
    (s' : Fs) × (alloc_smap_bit disk 800 10 ≡ done (263, s'))
    × ((x : ℕ)
        → x < smap_bits root_block
        → smap_bit s' 800 root_block x
          ≡ (if leb 3 x && ltb x (3 + 10) then 1 else smap_bit disk 800 root_block x))
alloc_smap_bit-takes_example =
    alloc_smap_bit-takes disk 800 3 10 root_block disk-IsSmap (omega arith) (omega arith) taken free

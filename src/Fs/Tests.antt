-- ===== src/Fs/Tests.antt =====
-- Runs of the file system: an empty cache, a map with three bits taken, a full map.
use bz_os.Prelude.{ℕ, ◌*◌, ◌<◌, ◌≡◌, ◌≢◌, refl, arith, true, some, done, if◌then◌else◌, ◌==◌}
use bz_os.Fs.State.{Fs, Inode, SuperBlock, nr_inode, sector_size, get_super_block, find_super_block}
use bz_os.Fs.Inode.{is_inode, get_inode, get_found, find_inode, fetch, read_inode, sync_inode}
use bz_os.Fs.Inode.Cache.{IsCache, get_inode-IsCache}
use bz_os.Fs.Inode.Roundtrip.{sync_inode-read_inode}
use bz_os.Fs.Map.{alloc_imap_bit}
use bz_os.Fs.Unlink.{free_imap_bit}
use bz_os.Fs.Unlink.Inodes.{free_imap_bit-alloc_imap_bit}
use bz_os.Fs.Map.Alloc.{IsMap, map_bit, alloc_imap_bit-takes, alloc_imap_bit-full}

abbrev root_block : SuperBlock
root_block = record {
  magic = 0x111;
  nr_imap_sects = 1;
  nr_smap_sects = 2;
  n_1st_sect = 261;
  sb_dev = 800;
}

-- An inode in use for slot 0, free slots otherwise.
abbrev root_table : ℕ → Inode
root_table p = record {
  i_mode = 0x4000;
  i_size = 64;
  i_start_sect = 261;
  i_nr_sects = 2048;
  i_dev = 800;
  i_cnt = if p == 0 then 1 else 0;
  i_num = 1;
}

-- a disk whose bytes are all `b`
abbrev filled : ℕ → Fs
filled b = record {
  disk = λ _ _ _. b;
  fsbuf = λ _. 0;
  inode_table = root_table;
  super_block = λ _. root_block;
}

root_table-IsCache : IsCache root_table
unfolding IsCache
root_table-IsCache p q dev num lp lq a b = ground arith

-- inode 2 is not in the cache: it goes to slot 1
abbrev with_two : Fs
with_two = (fetch (filled 7) 800 2 1 root_block).1

filled-get_inode : get_inode (filled 7) 800 2 ≡ done (some 1, with_two)
unfolding get_inode find_inode get_found read_inode fetch find_super_block
filled-get_inode = refl

get_inode-IsCache_example :
    (i : ℕ) × (some 1 ≡ some i)
    × (i < nr_inode)
    × (is_inode (with_two.inode_table i) 800 2 ≡ true)
    × ((j : ℕ) → j ≢ i → with_two.inode_table j ≡ root_table j)
    × IsCache with_two.inode_table
get_inode-IsCache_example =
    get_inode-IsCache (filled 7) 800 2 (some 1) with_two root_table-IsCache (omega arith)
      filled-get_inode

filled-get_super_block : (b : ℕ) → get_super_block (filled b) 800 ≡ done root_block
unfolding find_super_block
filled-get_super_block b = refl

sync_inode-read_inode_example :
    (s' : Fs) × (s'' : Fs) × (sync_inode (filled 7) 0 ≡ done s')
    × (read_inode s' 800 1 5 ≡ done (some 5, s''))
    × (s''.inode_table 5 ≡ root_table 0)
sync_inode-read_inode_example =
    sync_inode-read_inode (filled 7) 0 5 root_block (filled-get_super_block 7) (record {
      mode = omega arith;
      size = omega arith;
      start_sect = omega arith;
      nr_sects = omega arith;
    })

filled-IsMap : (b : ℕ) → b < 256 → IsMap (filled b) 800
filled-IsMap b lt = record {
  sb = root_block;
  has_super_block = filled-get_super_block b;
  has_map = omega arith;
  bytes = λ j h. lt;
}

-- the three lowest bits of each byte are taken
alloc_imap_bit-takes_example :
    (nr : ℕ) × (s' : Fs) × (alloc_imap_bit (filled 7) 800 ≡ done (nr, s'))
    × (nr < sector_size * 8)
    × (map_bit (λ _. 7) nr ≡ 0)
    × ((n : ℕ) → n < nr → map_bit (λ _. 7) n ≡ 1)
    × ((n : ℕ)
        → n < sector_size * 8
        → map_bit (s'.disk 800 2) n ≡ (if n == nr then 1 else map_bit (λ _. 7) n))
    × ((x : ℕ) → x < sector_size → s'.disk 800 2 x < 256)
alloc_imap_bit-takes_example =
    alloc_imap_bit-takes (filled 7) 800 0 (filled-IsMap 7 (omega arith)) (omega arith) (omega arith)

alloc_imap_bit-full_example :
    (s' : Fs) × (alloc_imap_bit (filled 255) 800 ≡ done (0, s')) × (s'.disk ≡ (λ _ _ _. 255))
alloc_imap_bit-full_example =
    alloc_imap_bit-full (filled 255) 800 (filled-IsMap 255 (omega arith)) (λ j h. refl)

free_imap_bit-alloc_imap_bit_example :
    (nr : ℕ) × (s' : Fs) × (s'' : Fs) × (alloc_imap_bit (filled 7) 800 ≡ done (nr, s'))
    × (free_imap_bit s' 800 nr ≡ done s'')
    × ((n : ℕ) → n < sector_size * 8 → map_bit (s''.disk 800 2) n ≡ map_bit (λ _. 7) n)
free_imap_bit-alloc_imap_bit_example =
    free_imap_bit-alloc_imap_bit (filled 7) 800 0 (filled-IsMap 7 (omega arith)) (omega arith)
      (omega arith)

-- ===== src/Fs/Directory/Tests.antt =====
-- A root directory of four entries; the second is that of the inode 9 with the name "a".
use bz_os.Prelude.{get_or, zero, suc, ℕ, ◌<◌, ◌≡◌, refl, arith, [], ◌∷◌, some, ◌==◌, if◌then◌else◌}
use bz_os.Kernel.Memory.{load32}
use bz_os.Fs.State.{Fs, Inode}
use bz_os.Fs.Path.{strip_path, has_slash, strip_path-take}
use bz_os.Fs.Directory.{search_file}
use bz_os.Fs.Directory.Names.{Named}
use bz_os.Fs.Directory.Search.{dir_bytes, search_file-finds}

abbrev root : Inode
root = record {
  i_mode = 0x4000;
  i_size = 64;
  i_start_sect = 261;
  i_nr_sects = 2048;
  i_dev = 800;
  i_cnt = 1;
  i_num = 1;
}

abbrev disk : Fs
disk = record {
  disk = λ _ _ b. if b == 16 then 9 else if b == 20 then 97 else 0;
  fsbuf = λ _. 0;
  inode_table = λ _. root;
  super_block = λ _. record {
    magic = 0x111;
    nr_imap_sects = 1;
    nr_smap_sects = 2;
    n_1st_sect = 261;
    sb_dev = 800;
  };
}

path_name : strip_path (some (47 ∷ 97 ∷ [])) ≡ some (97 ∷ [])
unfolding has_slash
path_name = strip_path-take (47 ∷ 97 ∷ [])

chars : (k : ℕ) → get_or (97 ∷ []) k 0 < 256
chars zero = omega arith
chars (suc k) = omega arith

bytes : (y : ℕ) → dir_bytes disk root y < 256
bytes y = ground arith

named : Named (dir_bytes disk root) (97 ∷ []) 1
named zero lt = refl
named (suc i) lt = ground arith

-- "/a"
search_file-finds_example :
    (s' : Fs) × (search_file disk 0 (47 ∷ 97 ∷ []) ≡ (9, s'))
    × (s'.disk ≡ disk.disk)
    × (s'.inode_table ≡ (λ _. root))
unfolding load32
search_file-finds_example =
    search_file-finds disk 0 (47 ∷ 97 ∷ []) 97 [] 1 path_name chars bytes (omega arith) named
      (λ y lt. (0, omega arith, ground arith))

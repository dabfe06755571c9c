-- ===== src/Fs/Directory/Search.antt =====
-- search_file of fs/misc.c goes through the entries of the directory in their order.
use bz_os.Prelude.{
  get_or, ◌≢◌, ℕ, zero, suc, ◌+◌, ◌-◌, ◌*◌, ◌/◌, ◌%◌, ◌≤◌, ◌<◌, ◌≡◌, inl, inr, refl, sym, ap, ◌∙◌,
  arith, true, false, List, ◌∷◌, some, none, Option, ltb, ℕ_discrete, Bool-cases,
}
use bz_os.Kernel.Schedule.{is_zero}
use bz_os.Kernel.Memory.{load32}
use bz_os.Fs.State.{Fs, Inode, sector_size, rd_sect}
use bz_os.Fs.Path.{max_filename_len, strip_path}
use bz_os.Fs.Map.Alloc.{sector_byte}
use bz_os.Fs.Transfer.Bytes.{file_byte}
use bz_os.Fs.Directory.{
  dir_entry_size, entries_per_sector, entry_nr, has_name, search_block, search_blocks, after_block,
  search_file,
}
use bz_os.Fs.Directory.Names.{Named, memcmp-congr, has_name-Named, has_name-differs}

-- the bytes of the directory
abbrev pub dir_bytes : Fs → Inode → ℕ → ℕ
dir_bytes s dir = file_byte s dir.i_dev dir.i_start_sect

-- The entry j of the i-th sector is the entry i * 32 + j of the directory.
module _ (buf bytes : ℕ → ℕ) (i j : ℕ) (lt : j < entries_per_sector)
    (holds : (x : ℕ) → x < sector_size → buf x ≡ bytes (i * sector_size + x)) where
  has_name-at :
      (name : List ℕ) → has_name name j buf ≡ has_name name (i * entries_per_sector + j) bytes
  unfolding has_name
  has_name-at name = ap is_zero (
      memcmp-congr max_filename_len 0 (j * dir_entry_size + 4)
        ((i * entries_per_sector + j) * dir_entry_size + 4) _ buf bytes
        (λ x l. holds (j * dir_entry_size + 4 + x) (omega arith) ∙ ap bytes (omega arith)))

  entry_nr-at : entry_nr j buf ≡ entry_nr (i * entries_per_sector + j) bytes
  unfolding load32
  entry_nr-at =
      let a : ℕ = (i * entries_per_sector + j) * dir_entry_size in
      let h : (x : ℕ) → x < 4 → buf (j * dir_entry_size + x) ≡ bytes (a + x) =
        λ x l. holds (j * dir_entry_size + x) (omega arith) ∙ ap bytes (omega arith) in
      let e : buf (j * dir_entry_size) ≡ bytes a =
        ap buf (omega arith) ∙ h 0 (omega arith) ∙ ap bytes (omega arith) in
      cc (e, h 1 (omega arith), h 2 (omega arith), h 3 (omega arith))

module _ (name : List ℕ) (nr : ℕ) (buf bytes : ℕ → ℕ) (i : ℕ)
    (holds : (x : ℕ) → x < sector_size → buf x ≡ bytes (i * sector_size + x)) where
  -- The entry x is in the sector, and the first with the name.
  block_found :
      (n j m x : ℕ)
      → j + n ≡ entries_per_sector
      → m ≡ i * entries_per_sector + j
      → m ≤ x
      → x < m + n
      → x ≤ nr
      → has_name name x bytes ≡ true
      → ((y : ℕ) → m ≤ y → y < x → has_name name y bytes ≡ false)
      → search_block n name nr buf j m ≡ (some (entry_nr x bytes), x)
  unfolding search_block
  block_found zero j m x size at lo hi le yes_x no_y = absurd (omega arith)
  block_found (suc n) j m x size at lo hi le yes_x no_y =
      let here = has_name-at buf bytes i j (omega arith) holds name in
      elim (ℕ_discrete m x) [
        | yes e ↦
            let t : has_name name j buf ≡ true =
              here ∙ ap (λ w. has_name name w bytes) (sym at ∙ e) ∙ yes_x in
            let v : entry_nr j buf ≡ entry_nr x bytes =
              entry_nr-at buf bytes i j (omega arith) holds
              ∙ ap (λ w. entry_nr w bytes) (sym at ∙ e) in
            rw (t, v) (ap (λ w. (some (entry_nr x bytes), w)) e)
        | no ne ↦
            let t : has_name name j buf ≡ false =
              here
              ∙ ap (λ w. has_name name w bytes) (sym at)
              ∙ no_y m (omega arith) (omega arith) in
            let u : ltb nr (m + 1) ≡ false = ground arith in
            rw (t, u)
              (block_found n (j + 1) (m + 1) x (omega arith) (omega arith) (omega arith)
                (omega arith) le yes_x (λ y l h. no_y y (omega arith) h))
      ]

  -- None of the entries from m on in the sector has the name, and the directory goes on.
  block_passed :
      (n j m : ℕ)
      → j + n ≡ entries_per_sector
      → m ≡ i * entries_per_sector + j
      → m + n ≤ nr
      → ((y : ℕ) → m ≤ y → y < m + n → has_name name y bytes ≡ false)
      → search_block n name nr buf j m ≡ (none, m + n)
  unfolding search_block
  block_passed zero j m size at le no_y = ap (λ w. (none, w)) (omega arith)
  block_passed (suc n) j m size at le no_y =
      let t : has_name name j buf ≡ false =
        has_name-at buf bytes i j (omega arith) holds name
        ∙ ap (λ w. has_name name w bytes) (sym at)
        ∙ no_y m (omega arith) (omega arith) in
      let u : ltb nr (m + 1) ≡ false = ground arith in
      rw (t, u)
        (block_passed n (j + 1) (m + 1) (omega arith) (omega arith) (omega arith)
            (λ y l h. no_y y (omega arith) (omega arith))
          ∙ ap (λ w. (none, w)) (omega arith))

sector_holds :
    (s : Fs) (dir : Inode) (i x : ℕ)
    → x < sector_size
    → (rd_sect s dir.i_dev (dir.i_start_sect + i)).fsbuf x ≡ dir_bytes s dir (i * sector_size + x)
sector_holds s dir i x lt =
    let d : (i * sector_size + x) / sector_size ≡ i = omega arith in
    let m : (i * sector_size + x) % sector_size ≡ x = omega arith in
    sector_byte s dir.i_dev (dir.i_start_sect + i) x lt
    ∙ ap (λ q. s.disk dir.i_dev (dir.i_start_sect + q) x) (sym d)
    ∙ ap (s.disk dir.i_dev (dir.i_start_sect + (i * sector_size + x) / sector_size)) (sym m)

-- how many entries the size of the directory counts
abbrev pub nr_entries : Inode → ℕ
nr_entries dir = dir.i_size / dir_entry_size

blocks_found :
    (n : ℕ) (name : List ℕ) (dir : Inode) (s : Fs) (i x : ℕ)
    → i * entries_per_sector ≤ x
    → x < (i + n) * entries_per_sector
    → x ≤ nr_entries dir
    → has_name name x (dir_bytes s dir) ≡ true
    → ((y : ℕ) → y < x → has_name name y (dir_bytes s dir) ≡ false)
    → (s' : Fs) × (search_blocks n name dir s i (i * entries_per_sector)
        ≡ (entry_nr x (dir_bytes s dir), s'))
      × (s'.disk ≡ s.disk)
      × (s'.inode_table ≡ s.inode_table)
unfolding search_blocks
blocks_found zero name dir s i x lo hi le yes_x no_y = absurd (omega arith)
blocks_found (suc n) name dir s i x lo hi le yes_x no_y =
    let s1 = rd_sect s dir.i_dev (dir.i_start_sect + i) in
    let m : ℕ = i * entries_per_sector in
    let turn = λ (r : Option ℕ × ℕ).
      after_block (nr_entries dir) s1 (search_blocks n name dir s1 (i + 1) r.1) r in
    elim (Bool-cases (ltb x (m + entries_per_sector))) [
      | inl b ↦
          let h : x < m + entries_per_sector = ground arith in
          let r =
            block_found name (nr_entries dir) s1.fsbuf (dir_bytes s dir) i (sector_holds s dir i)
              entries_per_sector 0 m x refl (omega arith) lo h le yes_x (λ y l u. no_y y u) in
          (s1, ap turn r, refl, refl)
      | inr b ↦
          let h : m + entries_per_sector ≤ x = ground arith in
          let r =
            block_passed name (nr_entries dir) s1.fsbuf (dir_bytes s dir) i (sector_holds s dir i)
              entries_per_sector 0 m refl (omega arith) (omega arith)
              (λ y l u. no_y y (omega arith)) in
          let z : ltb (nr_entries dir) (m + entries_per_sector) ≡ false = ground arith in
          let (s', e, d, t) =
            blocks_found n name dir s1 (i + 1) x (omega arith) (omega arith) le yes_x no_y in
          let k : m + entries_per_sector ≡ (i + 1) * entries_per_sector = omega arith in
          (s', ap turn r ∙ rw (z, k) e, d, t)
    ]

-- For a path whose name is not empty and consists of bytes, like the directory: when the entry x within the
-- size of the root directory has that name, filled up with zeros, and every entry before it
-- differs from it in one of the twelve bytes, search_file returns the inode number in the entry x,
-- and leaves the disk and the inodes as they were.
pub search_file-finds :
    (s : Fs) (root : ℕ) (path : List ℕ) (c : ℕ) (cs : List ℕ) (x : ℕ)
    → strip_path (some path) ≡ some (c ∷ cs)
    → ((k : ℕ) → get_or (c ∷ cs) k 0 < 256)
    → ((y : ℕ) → dir_bytes s (s.inode_table root) y < 256)
    → x < nr_entries (s.inode_table root)
    → Named (dir_bytes s (s.inode_table root)) (c ∷ cs) x
    → ((y : ℕ)
        → y < x
        → (i : ℕ) × (i < max_filename_len)
          × (dir_bytes s (s.inode_table root) (y * dir_entry_size + 4 + i) ≢ get_or (c ∷ cs) i 0))
    → (s' : Fs) × (search_file s root path ≡ (entry_nr x (dir_bytes s (s.inode_table root)), s'))
      × (s'.disk ≡ s.disk)
      × (s'.inode_table ≡ s.inode_table)
unfolding search_file
search_file-finds s root path c cs x e chars bytes lt named others =
    let dir : Inode = s.inode_table root in
    let (s', r, d, t) =
      blocks_found ((dir.i_size + sector_size - 1) / sector_size) (c ∷ cs) dir s 0 x (omega arith)
        (omega arith) (omega arith) (has_name-Named (c ∷ cs) x (dir_bytes s dir) named)
        (λ y l.
          let (i, h, ne) = others y l in
          has_name-differs (c ∷ cs) y i (dir_bytes s dir) h ne chars bytes) in
    (s', rw e r, d, t)

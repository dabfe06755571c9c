-- ===== src/Fs/Directory.antt =====
-- The entries of the root directory: search_file of fs/misc.c and new_dir_entry of fs/open.c. An entry
-- has 16 bytes: the inode number, then 12 bytes of the name.
pub mod Names
pub mod Search
mod Tests
use bz_os.Prelude.{
  ℕ, zero, suc, ◌+◌, ◌-◌, ◌*◌, ◌/◌, Bool, true, false, List, [], ◌∷◌, get_or, Option, none, some,
  Outcome, ltb, ◌==◌, if◌then◌else◌, update,
}
use bz_os.Kernel.Schedule.{is_zero}
use bz_os.Kernel.Memory.{load32, store32}
use bz_os.Library.Text.{memcmp}
use bz_os.Fs.State.{Fs, Inode, sector_size, rd_sect, wr_sect}
use bz_os.Fs.Inode.{sync_inode}
use bz_os.Fs.Path.{max_filename_len, strip_path}

abbrev pub dir_entry_size : ℕ
dir_entry_size = 16

abbrev pub entries_per_sector : ℕ
entries_per_sector = sector_size / dir_entry_size

-- pde->inode_nr of the entry j of the buffer
abbrev pub entry_nr : ℕ → (ℕ → ℕ) → ℕ
entry_nr j buf = load32 (j * dir_entry_size) buf

-- memcmp(filename, pde->name, MAX_FILENAME_LEN) == 0; behind the name the array filename is zero
unfoldable pub has_name : List ℕ → ℕ → (ℕ → ℕ) → Bool
has_name name j buf =
    is_zero (memcmp (λ i. get_or name i 0) 0 buf (j * dir_entry_size + 4) max_filename_len)

-- The n entries of the buffer from j on: the number of the file, if it is found, and m.
unfoldable pub search_block : ℕ → List ℕ → ℕ → (ℕ → ℕ) → ℕ → ℕ → Option ℕ × ℕ
search_block zero name nr_entries buf j m = (none, m)
search_block (suc n) name nr_entries buf j m =
    let rest = search_block n name nr_entries buf (j + 1) (m + 1) in
    if has_name name j buf
    then (some (entry_nr j buf), m)
    else if ltb nr_entries (m + 1)
    then (none, m + 1)
    else rest

-- what has been found in a sector, the end of the entries, or the rest of the sectors
abbrev pub after_block : ℕ → Fs → ℕ × Fs → Option ℕ × ℕ → ℕ × Fs
after_block nr_entries s rest (some nr, m) = (nr, s)
after_block nr_entries s rest (none, m) = if ltb nr_entries m then (0, s) else rest

-- the n sectors of the directory from the i-th on
unfoldable pub search_blocks : ℕ → List ℕ → Inode → Fs → ℕ → ℕ → ℕ × Fs
search_blocks zero name dir s i m = (0, s)
search_blocks (suc n) name dir s i m =
    let s' : Fs = rd_sect s dir.i_dev (dir.i_start_sect + i) in
    let nr_entries : ℕ = dir.i_size / dir_entry_size in
    let r : Option ℕ × ℕ = search_block entries_per_sector name nr_entries s'.fsbuf 0 m in
    after_block nr_entries s' (search_blocks n name dir s' (i + 1) r.1) r

-- the file of a name; the empty name is the directory itself
abbrev pub search_name : Fs → ℕ → Option (List ℕ) → ℕ × Fs
search_name s root none = (0, s)
search_name s root (some []) = ((s.inode_table root).i_num, s)
search_name s root (some (c ∷ cs)) =
    search_blocks (((s.inode_table root).i_size + sector_size - 1) / sector_size) (c ∷ cs)
      (s.inode_table root) s 0 0

-- root is the index of the root directory's inode
unfoldable pub search_file : Fs → ℕ → List ℕ → ℕ × Fs
search_file s root path = search_name s root (strip_path (some path))

-- The n entries of the buffer from j on: whether there is a free one, where the loop stopped, and m.
unfoldable pub find_free : ℕ → ℕ → (ℕ → ℕ) → ℕ → ℕ → Bool × ℕ × ℕ
find_free zero nr_entries buf j m = (false, j, m)
find_free (suc n) nr_entries buf j m =
    let rest = find_free n nr_entries buf (j + 1) (m + 1) in
    if ltb nr_entries (m + 1)
    then (false, j, m + 1)
    else if entry_nr j buf == 0
    then (true, j, m + 1)
    else rest

-- The n sectors of the directory from the i-th on: a free entry or the end, its sector, its place
-- there, and the state with the sector in the buffer.
unfoldable pub find_place : ℕ → Inode → Fs → ℕ → ℕ → ℕ → (Bool × ℕ × ℕ) × Fs
find_place zero dir s i j m = ((false, i, j), s)
find_place (suc n) dir s i j m =
    let s' : Fs = rd_sect s dir.i_dev (dir.i_start_sect + i) in
    let nr_entries : ℕ = dir.i_size / dir_entry_size in
    let r : Bool × ℕ × ℕ = find_free entries_per_sector nr_entries s'.fsbuf 0 m in
    let rest : (Bool × ℕ × ℕ) × Fs = find_place n dir s' (i + 1) r.1 r.2 in
    if r.0 then ((true, i, r.1), s') else if ltb nr_entries r.2 then ((false, i, r.1), s') else rest

-- strcpy: the characters and the NUL, 13 bytes for a name of 12 characters
unfoldable pub strcpy : ℕ → List ℕ → (ℕ → ℕ) → ℕ → ℕ
strcpy a [] buf = update buf a 0
strcpy a (c ∷ cs) buf = strcpy (a + 1) cs (update buf a c)

-- dir is the index of the directory's inode
unfoldable pub new_dir_entry : Fs → ℕ → ℕ → List ℕ → Outcome Fs
new_dir_entry s dir nr_inode filename =
    let d : Inode = s.inode_table dir in
    let (place, s1) = find_place ((d.i_size + sector_size) / sector_size) d s 0 0 0 in
    let d' : Inode = record d {
      i_size = if place.0 then d.i_size else d.i_size + dir_entry_size;
    } in
    let a : ℕ = place.2 * dir_entry_size in
    let s2 : Fs = record s1 {
      inode_table = update s1.inode_table dir d';
      fsbuf = strcpy (a + 4) filename (store32 a nr_inode s1.fsbuf);
    } in
    sync_inode (wr_sect s2 d.i_dev (d.i_start_sect + place.1)) dir

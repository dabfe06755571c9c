-- ===== src/Fs/Transfer/Bytes.antt =====
-- The bytes that the loop of do_rdwt (fs/read_write.c) moves between the disk and the memory, when the
-- sectors of a transfer are moved at once.
use bz_os.Prelude.{
  ℕ, suc, ◌+◌, ◌-◌, ◌*◌, ◌/◌, ◌%◌, ◌^◌, ◌≤◌, ◌<◌, inl, inr, Bool-cases, ◌≡◌, refl, ap, ◌∙◌, arith,
  Bool, true, false, ◌&&◌, done, ◌>>=◌, ltb, leb, ◌==◌, if◌then◌else◌,
}
use bz_os.Fs.State.{Fs, sector_size}
use bz_os.Fs.MsgType
use bz_os.Fs.Files.{copy_bytes, copy_bytes_lem, rd_chunk}
use bz_os.Fs.Transfer.{
  Transfer, transfer_chunk, transfer_chunks, transfer, end_of_transfer, grow, min, fsbuf_sectors,
  max_command,
}

-- The byte of a file, by its position from the sector `start` on.
abbrev pub file_byte : Fs → ℕ → ℕ → ℕ → ℕ
file_byte s dev start pos = s.disk dev (start + pos / sector_size) (pos % sector_size)

pub min_of_le : (a b : ℕ) → a ≤ b → min a b ≡ a
min_of_le a b h = ground arith

-- A loop whose first chunk reaches the last sector has one turn.
one_turn :
    (type dev la chunk i sect_max : ℕ) (t : Transfer)
    → i ≤ sect_max
    → sect_max < i + chunk
    → transfer_chunks (suc (sect_max + 1 - i)) type dev la chunk i sect_max t
      ≡ done (transfer_chunk type dev la chunk i t)
unfolding transfer_chunks
one_turn type dev la chunk i sect_max t le lt =
    let e : sect_max + 1 - i ≡ suc (sect_max - i) = omega arith in rw e (ground arith)

-- The bytes of a chunk that begins with the sector of pos, in the buffer and on the disk.
module _ (s : Fs) (dev start pos len c : ℕ) (size : c ≡ (pos + len) / 2 ^ 9 + 1 - pos / 2 ^ 9) where
  buffered :
      (y x : ℕ)
      → y + pos / 2 ^ 9 * sector_size ≡ x
      → x / sector_size ≤ (pos + len) / 2 ^ 9
      → (rd_chunk s dev (start + pos / 2 ^ 9) c).fsbuf y ≡ file_byte s dev start x
  buffered y x e le =
      let lt : ltb y (c * sector_size) ≡ true = ground arith in
      let a : start + pos / 2 ^ 9 + y / sector_size ≡ start + x / sector_size = omega arith in
      let b : y % sector_size ≡ x % sector_size = omega arith in rw (lt, a, b) refl

  copied_out :
      (la i : ℕ) (mem : ℕ → ℕ)
      → i < len
      → copy_bytes
          (la + 0)
          (pos % sector_size)
          len
          (rd_chunk s dev (start + pos / 2 ^ 9) c).fsbuf
          mem
          (la + i)
        ≡ file_byte s dev start (pos + i)
  copied_out la i mem lt =
      let src : ℕ → ℕ = (rd_chunk s dev (start + pos / 2 ^ 9) c).fsbuf in
      let t : (leb (la + 0) (la + i) && ltb (la + i) (la + 0 + len)) ≡ true = ground arith in
      copy_bytes_lem (la + 0) (pos % sector_size) len src mem (la + i)
      ∙ ap (λ w. if w then src (pos % sector_size + (la + i - (la + 0))) else mem (la + i)) t
      ∙ buffered (pos % sector_size + (la + i - (la + 0))) (pos + i) (omega arith) (omega arith)

  -- what the buffer holds before a write, at the place of the position x
  copied_in :
      (la y x : ℕ) (mem : ℕ → ℕ)
      → y + pos / 2 ^ 9 * sector_size ≡ x
      → x / sector_size ≤ (pos + len) / 2 ^ 9
      → copy_bytes
          (pos % sector_size)
          (la + 0)
          len
          mem
          (rd_chunk s dev (start + pos / 2 ^ 9) c).fsbuf
          y
        ≡ (if leb pos x && ltb x (pos + len) then mem (la + (x - pos)) else file_byte s dev start x)
  copied_in la y x mem e le =
      let buf : ℕ → ℕ = (rd_chunk s dev (start + pos / 2 ^ 9) c).fsbuf in
      let t : (leb (pos % sector_size) y && ltb y (pos % sector_size + len))
          ≡ (leb pos x && ltb x (pos + len)) =
        ground arith in
      copy_bytes_lem (pos % sector_size) (la + 0) len mem buf y
      ∙ elim (Bool-cases (leb pos x && ltb x (pos + len))) [
        | inl q ↦ rw (t, q) (ap mem (ground arith))
        | inr q ↦ rw (t, q) (buffered y x e le)
      ]

  -- whether a write of the chunk writes the place of the position x
  abbrev in_chunk : ℕ → Bool
  in_chunk x =
      leb (start + pos / 2 ^ 9) (start + x / sector_size)
      && (ltb (start + x / sector_size) (start + pos / 2 ^ 9 + c)
          && ltb (x % sector_size) sector_size)

  inside_chunk :
      (x : ℕ)
      → in_chunk x ≡ true
      → (pos / 2 ^ 9 ≤ x / sector_size) × (x / sector_size ≤ (pos + len) / 2 ^ 9)
  inside_chunk x q = ground arith

  outside_chunk : (x : ℕ) → in_chunk x ≡ false → (leb pos x && ltb x (pos + len)) ≡ false
  outside_chunk x q = ground arith

-- A transfer of len bytes at pos of a file, when it ends in the sector of pos + len and the sectors up
-- to there are moved by one command of the disk.
module _ (type : ℕ) (s : Fs) (mem : ℕ → ℕ) (p pos len la : ℕ)
    (ends : end_of_transfer type (s.inode_table p) pos len / 2 ^ 9 ≡ (pos + len) / 2 ^ 9)
    (fits : (pos + len) / 2 ^ 9 + 1 ≤ pos / 2 ^ 9 + max_command) where
  abbrev pub start : ℕ
  start = (s.inode_table p).i_start_sect

  abbrev pub chunk : ℕ
  chunk = min (start + (pos + len) / 2 ^ 9 + 1 - (start + pos / 2 ^ 9)) fsbuf_sectors

  abbrev pub before : Transfer
  before = record {
    fs = s;
    mem = mem;
    off = pos % sector_size;
    bytes_rw = 0;
    fd_pos = pos;
    bytes_left = len;
  }

  abbrev pub after : Transfer
  after = transfer_chunk type (s.inode_table p).i_dev la chunk (start + pos / 2 ^ 9) before

  chunk_lem : chunk ≡ (pos + len) / 2 ^ 9 + 1 - pos / 2 ^ 9
  chunk_lem = ground arith

  pub transfer_lem :
      transfer type s mem p pos len la
      ≡ (grow after.fs p after.fd_pos >>= λ s'. done (record after { fs = s' }))
  unfolding transfer
  transfer_lem =
      let few : ltb max_command chunk ≡ false = ground (arith, chunk_lem) in
      rw (ends, few)
        (ap (λ o. o >>= λ t. grow t.fs p t.fd_pos >>= λ s'. done (record t { fs = s' }))
          (one_turn type (s.inode_table p).i_dev la chunk (start + pos / 2 ^ 9)
            (start + (pos + len) / 2 ^ 9) before (omega arith) (omega (arith, chunk_lem))))

  enough :
      (c : ℕ)
      → c ≡ (pos + len) / 2 ^ 9 + 1 - pos / 2 ^ 9
      → len ≤ c * sector_size - pos % sector_size
  enough c e = omega arith

  pub all_bytes : min len (chunk * sector_size - pos % sector_size) ≡ len
  all_bytes = min_of_le len _ (enough chunk chunk_lem)

  -- The bytes that are read.
  pub after-read :
      type ≡ MsgType.read
      → (i : ℕ) → i < len
      → after.mem (la + i) ≡ file_byte s (s.inode_table p).i_dev start (pos + i)
  unfolding transfer_chunk
  after-read e i lt =
      let dev : ℕ = (s.inode_table p).i_dev in
      let r : (type == MsgType.read) ≡ true = ground arith in
      rw (r, all_bytes) (copied_out s dev start pos len chunk chunk_lem la i mem lt)

  -- The bytes that are written, and the others of the file.
  pub after-write :
      type ≡ MsgType.write
      → (x : ℕ)
      → file_byte after.fs (s.inode_table p).i_dev start x ≡ (
          if leb pos x && ltb x (pos + len)
          then mem (la + (x - pos))
          else file_byte s (s.inode_table p).i_dev start x)
  unfolding transfer_chunk
  after-write e x =
      let dev : ℕ = (s.inode_table p).i_dev in
      let r : (type == MsgType.read) ≡ false = ground arith in
      rw (r, all_bytes)
        (let same : (dev == dev) ≡ true = ground arith in
          rw same (elim (Bool-cases (in_chunk s dev start pos len chunk chunk_lem x)) [
            | inl q ↦
                let (lo, hi) = inside_chunk s dev start pos len chunk chunk_lem x q in
                rw q (copied_in s dev start pos len chunk chunk_lem la _ x mem (omega arith) hi)
            | inr q ↦ rw (q, outside_chunk s dev start pos len chunk chunk_lem x q) refl
          ]))

  pub after-count : (after.bytes_rw ≡ len) × (after.fd_pos ≡ pos + len)
  unfolding transfer_chunk
  after-count = (ap (λ w. 0 + w) all_bytes ∙ omega arith, ap (λ w. pos + w) all_bytes)

  pub after-tables : (after.fs.inode_table ≡ s.inode_table) × (after.fs.super_block ≡ s.super_block)
  unfolding transfer_chunk
  after-tables = elim (Bool-cases (type == MsgType.read)) [
    | inl e ↦ rw e (refl, refl)
    | inr e ↦ rw e (refl, refl)
  ]

  pub after-mem : type ≡ MsgType.write → after.mem ≡ mem
  unfolding transfer_chunk
  after-mem e = let r : (type == MsgType.read) ≡ false = ground arith in rw r refl

  pub after-disk : type ≡ MsgType.read → after.fs.disk ≡ s.disk
  unfolding transfer_chunk
  after-disk e = let r : (type == MsgType.read) ≡ true = ground arith in rw r refl

-- ===== src/Fs/Map.antt =====
-- The inode map: alloc_imap_bit of fs/open.c. A byte holds eight bits of the map, the lowest first.
pub mod Alloc
use bz_os.Prelude.{
  ℕ, zero, suc, ◌+◌, ◌*◌, ◌/◌, ◌%◌, ◌^◌, Option, none, some, Outcome, done, halt, panic, ◌>>=◌,
  ◌==◌, if◌then◌else◌, update,
}
use bz_os.Fs.State.{Fs, SuperBlock, sector_size, rd_sect, wr_sect, get_super_block}

-- (byte >> k) & 1
abbrev pub bit : ℕ → ℕ → ℕ
bit k byte = byte / 2 ^ k % 2

-- for(k=0; ((byte >> k) & 1) != 0; k++), for a byte that is not 0xff: eight turns are enough
pub first_zero : ℕ → ℕ → ℕ → ℕ
first_zero zero k byte = k
first_zero (suc fuel) k byte =
    let rest = first_zero fuel (k + 1) byte in if bit k byte == 0 then k else rest

-- the first of the n bytes from j on that is not 0xff
pub first_free : ℕ → ℕ → (ℕ → ℕ) → Option ℕ
first_free zero j buf = none
first_free (suc n) j buf =
    let rest = first_free n (j + 1) buf in if buf j == 0xff then rest else some j

-- The first free bit of the buffer, whose sector is the i-th of the map, is set and written. The bit
-- was 0, so |= is +. With no free bit the number is 0.
unfoldable pub take_bit : Fs → ℕ → ℕ → Option ℕ → ℕ × Fs
take_bit s dev i none = (0, s)
take_bit s dev i (some j) =
    let k : ℕ = first_zero 8 0 (s.fsbuf j) in
    (
      (i * sector_size + j) * 8 + k,
      wr_sect (record s { fsbuf = update s.fsbuf j (s.fsbuf j + 2 ^ k) }) dev (2 + i),
    )

-- The body of the loop over the sectors of the map, for the i-th. It returns in any case.
unfoldable pub alloc_in_sect : Fs → ℕ → ℕ → ℕ × Fs
alloc_in_sect s dev i =
    let s' : Fs = rd_sect s dev (2 + i) in take_bit s' dev i (first_free sector_size 0 s'.fsbuf)

unfoldable pub alloc_imap_bit : Fs → ℕ → Outcome (ℕ × Fs)
alloc_imap_bit s dev = do
  sb ← get_super_block s dev
  if sb.nr_imap_sects == 0 then halt panic else done (alloc_in_sect s dev 0)

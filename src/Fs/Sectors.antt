-- ===== src/Fs/Sectors.antt =====
-- The sector map: alloc_smap_bit of fs/open.c and the freeing of a file's sectors in do_unlink of
-- fs/link.c. Bit 0 of the map is reserved; bit b stands for the sector n_1st_sect + b - 1.
pub mod Bits
pub mod Alloc
pub mod Sweep
pub mod Block
mod Tests
use bz_os.Prelude.{
  ℕ, zero, suc, ◌+◌, ◌-◌, ◌*◌, ◌/◌, ◌%◌, ◌^◌, Bool, not, ◌&&◌, Outcome, done, halt, panic, assert,
  panic_if, ◌>>=◌, ◌>>◌, ltb, ◌==◌, if◌then◌else◌, update,
}
use bz_os.Fs.State.{Fs, SuperBlock, sector_size, rd_sect, wr_sect, get_super_block}
use bz_os.Fs.Map.{bit, first_zero}

-- The bits that are still to be set, the sector number of the first one or 0, and the buffer.
pub record Search : Type 0 where
  pub left : ℕ
  pub free_sect : ℕ
  pub buf : ℕ → ℕ

-- for(; k < 8; k++), with n turns left: the bit k of the byte is 0, so |= is +. The byte, and how many
-- bits are still to be set.
unfoldable pub set_bits : ℕ → ℕ → ℕ → ℕ → Outcome (ℕ × ℕ)
set_bits zero k byte left = done (byte, left)
set_bits (suc n) k byte left =
    let rest = set_bits n (k + 1) (byte + 2 ^ k) (left - 1) in
    do assert (bit k byte == 0); if left - 1 == 0 then done (byte + 2 ^ k, 0) else rest

abbrev pub set_from : ℕ → ℕ → Search → Outcome Search
set_from j k a = do
  r ← set_bits (8 - k) k (a.buf j) a.left
  done (record a { left = r.1; buf = update a.buf j r.0 })

-- the body of the loop over the bytes, for the byte j of the i-th sector of the map
unfoldable pub alloc_byte : ℕ → ℕ → ℕ → Search → Outcome Search
alloc_byte first i j a =
    let k : ℕ = first_zero 8 0 (a.buf j) in
    if a.free_sect == 0
    then (if a.buf j == 0xff
        then done a
        else set_from j k (record a { free_sect = (i * sector_size + j) * 8 + k + first - 1 }))
    else set_from j 0 a

-- the n bytes from j on
unfoldable pub alloc_bytes : ℕ → ℕ → ℕ → ℕ → Search → Outcome Search
alloc_bytes zero first i j a = done a
alloc_bytes (suc n) first i j a =
    let rest = alloc_byte first i j a >>= alloc_bytes n first i (j + 1) in
    if a.left == 0 then done a else rest

-- if(nr_free_sect), the i-th sector of the map is written
abbrev pub write_back : Fs → ℕ → ℕ → Search → Fs
write_back s dev sect a =
    if a.free_sect == 0
    then record s { fsbuf = a.buf }
    else wr_sect (record s { fsbuf = a.buf }) dev sect

-- the n sectors of the map from the i-th on; blk0 is the first one
unfoldable pub alloc_sects : ℕ → Fs → ℕ → ℕ → ℕ → ℕ → ℕ → ℕ → Outcome (Search × Fs)
alloc_sects zero s dev blk0 first i left free_sect =
    done (record { left = left; free_sect = free_sect; buf = s.fsbuf }, s)
alloc_sects (suc n) s dev blk0 first i left free_sect = do
  let s1 = rd_sect s dev (blk0 + i)
  a ←
      alloc_bytes sector_size first i 0
        (record { left = left; free_sect = free_sect; buf = s1.fsbuf })
  let s2 = write_back s1 dev (blk0 + i) a
  let rest = alloc_sects n s2 dev blk0 first (i + 1) a.left a.free_sect
  if a.left == 0 then done (a, s2) else rest

unfoldable pub alloc_smap_bit : Fs → ℕ → ℕ → Outcome (ℕ × Fs)
alloc_smap_bit s dev nr_sects_to_alloc = do
  sb ← get_super_block s dev
  r ←
      alloc_sects sb.nr_smap_sects s dev (1 + 1 + sb.nr_imap_sects) sb.n_1st_sect 0
        nr_sects_to_alloc 0
  assert ((r.0).left == 0)
  done ((r.0).free_sect, r.1)

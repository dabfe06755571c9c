-- ===== src/Fs/Unlink/Inodes.antt =====
-- The inode map: what do_unlink of fs/link.c frees there, and alloc_imap_bit of fs/open.c takes.
use bz_os.Prelude.{
  ℕ, ◌-◌, ◌*◌, ◌/◌, ◌%◌, ◌^◌, ◌<◌, ◌≡◌, ◌≢◌, refl, sym, ap, ◌∙◌, arith, Bool, true, false, not,
  ◌||◌, done, ◌==◌, ltb, if◌then◌else◌, update, all_below, all_below-at, ℕ_discrete, update_ne,
  ==_iff,
}
use bz_os.Fs.State.{Fs, sector_size, rd_sect, wr_sect}
use bz_os.Fs.Map.{bit, alloc_imap_bit}
use bz_os.Fs.Map.Alloc.{IsMap, map_bit, sector_byte, or_right, alloc_imap_bit-takes}
use bz_os.Fs.Unlink.{free_imap_bit}

-- What clearing the bit k, if it is 1, does to the bits of the byte b.
abbrev cleared : ℕ → ℕ → ℕ → Bool
cleared b k m = not (bit k b == 1) || (bit m (b - 2 ^ k) == (if m == k then 0 else bit m b))

all_cleared : all_below 256 (λ b. all_below 8 (λ k. all_below 8 (cleared b k))) ≡ true
all_cleared = refl

bit-cleared :
    (b k m : ℕ)
    → b < 256
    → k < 8
    → m < 8
    → bit k b ≡ 1
    → bit m (b - 2 ^ k) ≡ (if m == k then 0 else bit m b)
bit-cleared b k m lb lk lm one = (==_iff (bit m (b - 2 ^ k)) (if m == k then 0 else bit m b)).0 (
    or_right (not (bit k b == 1)) (bit m (b - 2 ^ k) == (if m == k then 0 else bit m b))
      (all_below-at 8 (cleared b k)
        (all_below-at 8 (λ k. all_below 8 (cleared b k))
          (all_below-at 256 (λ b. all_below 8 (λ k. all_below 8 (cleared b k))) all_cleared b lb) k
          lk)
        m lm)
      (ap not ((==_iff (bit k b) 1).1 one)))

module _ (s : Fs) (dev nr : ℕ) (lt : nr < sector_size * 8) where
  -- the sector in the buffer, with the bit cleared
  abbrev freed : Fs
  freed =
      let s1 = rd_sect s dev 2 in
      record s1 { fsbuf = update s1.fsbuf (nr / 8) (s1.fsbuf (nr / 8) - 2 ^ (nr % 8)) }

  byte_freed :
      (x : ℕ)
      → x < sector_size
      → (wr_sect freed dev 2).disk dev 2 x
        ≡ update (s.disk dev 2) (nr / 8) (s.disk dev 2 (nr / 8) - 2 ^ (nr % 8)) x
  byte_freed x h =
      let i : nr / 8 < sector_size = omega arith in
      ground (arith, sector_byte s dev 2 x h, sector_byte s dev 2 (nr / 8) i)

  run_freed : map_bit (s.disk dev 2) nr ≡ 1 → free_imap_bit s dev nr ≡ done (wr_sect freed dev 2)
  unfolding free_imap_bit
  run_freed one =
      let a : ltb (nr / 8) sector_size ≡ true = ground arith in
      let byte = sector_byte s dev 2 (nr / 8) (omega arith) in
      let b : not (bit (nr % 8) ((rd_sect s dev 2).fsbuf (nr / 8)) == 0) ≡ true =
        ground (arith, ap (bit (nr % 8)) byte ∙ one) in
      rw (b, a) refl

  bit_freed :
      (n : ℕ)
      → n < sector_size * 8
      → s.disk dev 2 (nr / 8) < 256
      → map_bit (s.disk dev 2) nr ≡ 1
      → map_bit ((wr_sect freed dev 2).disk dev 2) n
        ≡ (if n == nr then 0 else map_bit (s.disk dev 2) n)
  bit_freed n h byte one =
      let b : ℕ = s.disk dev 2 (nr / 8) in
      let after = ap (bit (n % 8)) (byte_freed (n / 8) (omega arith)) in
      elim (ℕ_discrete (n / 8) (nr / 8)) [
        | yes e ↦
            let here : update (s.disk dev 2) (nr / 8) (b - 2 ^ (nr % 8)) (n / 8)
                ≡ b - 2 ^ (nr % 8) =
              ground arith in
            let t : (n == nr) ≡ (n % 8 == nr % 8) = ground arith in
            rw t (
              after
              ∙ ap (bit (n % 8)) here
              ∙ bit-cleared b (nr % 8) (n % 8) byte (omega arith) (omega arith) one
              ∙ ap (λ w. if n % 8 == nr % 8 then 0 else bit (n % 8) (s.disk dev 2 w)) (sym e))
        | no ne ↦
            let t : (n == nr) ≡ false = ground arith in
            rw t (
              after
              ∙ ap (bit (n % 8))
                  (update_ne (s.disk dev 2) (nr / 8) (b - 2 ^ (nr % 8)) (n / 8) (λ w. ne (sym w))))
      ]

-- For an inode number whose bit is 1 in the first sector of the inode map, which consists of bytes:
-- free_imap_bit returns; on the disk this bit is then 0, and the other bits of the sector are as before.
pub free_imap_bit-clears :
    (s : Fs) (dev nr : ℕ)
    → nr < sector_size * 8
    → ((x : ℕ) → x < sector_size → s.disk dev 2 x < 256)
    → map_bit (s.disk dev 2) nr ≡ 1
    → (s' : Fs) × (free_imap_bit s dev nr ≡ done s')
      × ((n : ℕ)
          → n < sector_size * 8
          → map_bit (s'.disk dev 2) n ≡ (if n == nr then 0 else map_bit (s.disk dev 2) n))
free_imap_bit-clears s dev nr lt bytes one = (
  wr_sect (freed s dev nr lt) dev 2,
  run_freed s dev nr lt one,
  λ n h. bit_freed s dev nr lt n h (bytes (nr / 8) (omega arith)) one,
)

-- When the device has a super block with an inode map, and some byte of the map's first sector is not
-- full: alloc_imap_bit returns a number, free_imap_bit (do_unlink) gives it back, and then each bit of
-- the sector is what it was before.
pub free_imap_bit-alloc_imap_bit :
    (s : Fs) (dev j : ℕ)
    → IsMap s dev
    → j < sector_size
    → s.disk dev 2 j ≢ 0xff
    → (nr : ℕ) × (s' : Fs) × (s'' : Fs) × (alloc_imap_bit s dev ≡ done (nr, s'))
      × (free_imap_bit s' dev nr ≡ done s'')
      × ((n : ℕ) → n < sector_size * 8 → map_bit (s''.disk dev 2) n ≡ map_bit (s.disk dev 2) n)
free_imap_bit-alloc_imap_bit s dev j m lt ne =
    let (nr, s', e, inside, free, below, bits, bytes) = alloc_imap_bit-takes s dev j m lt ne in
    let (s'', e', cleared_bits) =
      free_imap_bit-clears s' dev nr inside bytes (ground (arith, bits nr inside)) in
    (nr, s', s'', e, e', λ n h. ground (arith, cleared_bits n h, bits n h))

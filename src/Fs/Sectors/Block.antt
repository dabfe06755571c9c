-- ===== src/Fs/Sectors/Block.antt =====
-- What alloc_smap_bit of fs/open.c does to the sector map.
use bz_os.Prelude.{
  ℕ, ◌+◌, ◌-◌, ◌*◌, ◌/◌, ◌%◌, ◌≤◌, ◌<◌, ◌≡◌, refl, sym, ap, ◌∙◌, arith, true, ◌&&◌, done, ltb, leb,
  ◌==◌, if◌then◌else◌,
}
use bz_os.Fs.State.{Fs, SuperBlock, sector_size, get_super_block}
use bz_os.Fs.Map.{bit}
use bz_os.Fs.Sectors.{alloc_smap_bit}
use bz_os.Fs.Sectors.Sweep.{at_byte, SuitsAt, alloc_sects-Passed}

-- The first sector of the sector map, the number of its bits, and the bit x.
abbrev pub smap_start : SuperBlock → ℕ
smap_start sb = 1 + 1 + sb.nr_imap_sects

abbrev pub smap_bits : SuperBlock → ℕ
smap_bits sb = sb.nr_smap_sects * (sector_size * 8)

abbrev pub smap_bit : Fs → ℕ → SuperBlock → ℕ → ℕ
smap_bit s dev sb x =
    bit (x % 8) (s.disk dev (smap_start sb + x / (sector_size * 8)) (x / 8 % sector_size))

-- The device has this super block, its data sectors are not the first, and the map consists of bytes.
pub record IsSmap (s : Fs) (dev : ℕ) (sb : SuperBlock) : Type 0 where
  pub super_block : get_super_block s dev ≡ done sb
  pub data_sector : 1 < sb.n_1st_sect
  pub bytes :
      (k y : ℕ) → k < sb.nr_smap_sects → y < sector_size → s.disk dev (smap_start sb + k) y < 256

-- The bit b of the byte y of the k-th sector of the map.
split_bit :
    (s : Fs) (dev : ℕ) (sb : SuperBlock) (k y b : ℕ)
    → y < sector_size
    → b < 8
    → smap_bit s dev sb ((k * sector_size + y) * 8 + b) ≡ bit b (s.disk dev (smap_start sb + k) y)
split_bit s dev sb k y b ly lb =
    let x : ℕ = (k * sector_size + y) * 8 + b in
    let e : x % 8 ≡ b = omega arith in
    let f : x / (sector_size * 8) ≡ k = omega arith in
    let g : x / 8 % sector_size ≡ y = omega arith in rw (e, f, g) refl

place : (x : ℕ) → (x / (sector_size * 8) * sector_size + x / 8 % sector_size) * 8 + x % 8 ≡ x
place x = omega arith

ends :
    (m n bits first left free_sect : ℕ)
    → 0 < n
    → m + n ≤ bits
    → left ≡ (if ltb m bits then m + n - bits else n)
    → free_sect ≡ (if ltb m bits then m + first - 1 else 0)
    → ((left == 0) ≡ true) × (free_sect ≡ m + first - 1)
ends m n bits first left free_sect pos fits l f = (ground arith, ground arith)

-- For a device with a super block and a sector map, in whose map m is the first bit that is 0, and the n
-- bits from m on are in the map and 0, n being at least 1: alloc_smap_bit for n sectors
-- returns the sector n_1st_sect + m - 1; on the disk these n bits are then 1, and every other
-- bit of the map is as before.
pub alloc_smap_bit-takes :
    (s : Fs) (dev m n : ℕ) (sb : SuperBlock)
    → IsSmap s dev sb
    → 0 < n
    → m + n ≤ smap_bits sb
    → ((x : ℕ) → x < m → smap_bit s dev sb x ≡ 1)
    → ((x : ℕ) → m ≤ x → x < m + n → smap_bit s dev sb x ≡ 0)
    → (s' : Fs) × (alloc_smap_bit s dev n ≡ done (m + sb.n_1st_sect - 1, s'))
      × ((x : ℕ)
          → x < smap_bits sb
          → smap_bit s' dev sb x ≡ (if leb m x && ltb x (m + n) then 1 else smap_bit s dev sb x))
unfolding alloc_smap_bit
alloc_smap_bit-takes s dev m n sb map pos fits ones zeros =
    let suits = λ (k y : ℕ) (lo : 0 ≤ k) (hi : k < 0 + sb.nr_smap_sects) (lt : y < sector_size).
      suits_at k y hi lt in
    let (a, s', r, p) =
      alloc_sects-Passed m n sb.n_1st_sect pos map.data_sector sb.nr_smap_sects s dev
        (smap_start sb) 0 n 0 suits (ground arith) (ground arith) in
    let last : at_byte m n sb.n_1st_sect pos map.data_sector (0 + sb.nr_smap_sects) 0
        ≡ smap_bits sb =
      omega arith in
    let (z, f) =
      ends m n (smap_bits sb) sb.n_1st_sect a.left a.free_sect pos fits
        (p.at.left ∙ ap (λ w. if ltb m w then m + n - w else n) last)
        (p.at.free_sect ∙ ap (λ w. if ltb m w then m + sb.n_1st_sect - 1 else 0) last) in
    (
      s',
      rw (map.super_block, r, z) (ap (λ w. done (w, s')) f),
      λ x lx.
          (p.marked (x / (sector_size * 8)) (x / 8 % sector_size) (omega arith) (omega arith)
              (omega arith)).bits
            (x % 8) (omega arith)
          ∙ ap (λ w. if leb m w && ltb w (m + n) then 1 else smap_bit s dev sb x) (place x),
    )
  where
    suits_at :
        (k y : ℕ)
        → k < 0 + sb.nr_smap_sects
        → y < sector_size
        → SuitsAt m n sb.n_1st_sect pos map.data_sector k y (s.disk dev (smap_start sb + k) y)
    suits_at k y hi lt = record {
      byte = map.bytes k y (omega arith) lt;
      ones = λ x lx h.
          sym (split_bit s dev sb k y x lt lx)
          ∙ ones (at_byte m n sb.n_1st_sect pos map.data_sector k y + x) h;
      zeros = λ x lx h.
          sym (split_bit s dev sb k y x lt lx)
          ∙ zeros (at_byte m n sb.n_1st_sect pos map.data_sector k y + x) (ground arith)
              (ground arith);
    }

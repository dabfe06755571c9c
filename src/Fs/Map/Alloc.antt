-- ===== src/Fs/Map/Alloc.antt =====
-- alloc_imap_bit takes the lowest free bit of the first sector of the map.
use mathlib.Core.Path.{subst}
use bz_os.Prelude.{
  ℕ, zero, suc, ◌+◌, ◌*◌, ◌/◌, ◌%◌, ◌^◌, ◌≤◌, ◌<◌, ◌≡◌, ◌≢◌, ◌⊎◌, inl, inr, refl, sym, ap, ◌∙◌,
  arith, Bool, true, false, not, ◌&&◌, ◌||◌, none, some, done, ◌==◌, ltb, if◌then◌else◌, update,
  Bool-cases, and_true, all_below, all_below-at, ℕ_discrete, update_ne, ==_iff, ltb_iff,
}
use bz_os.Fs.State.{Fs, SuperBlock, sector_size, rd_sect, wr_sect, get_super_block}
use bz_os.Fs.Map.{bit, first_zero, first_free, take_bit, alloc_in_sect, alloc_imap_bit}

-- What setting the bit k does to the bit m of a byte; the bits below k are 1.
abbrev bit_ok : ℕ → ℕ → ℕ → Bool
bit_ok b k m =
    (bit m (b + 2 ^ k) == (if m == k then 1 else bit m b)) && (not (ltb m k) || bit m b == 1)

abbrev byte_ok : ℕ → Bool
byte_ok b =
    let k : ℕ = first_zero 8 0 b in
    b == 0xff || (ltb k 8 && (bit k b == 0 && (ltb (b + 2 ^ k) 256 && all_below 8 (bit_ok b k))))

all_bytes : all_below 256 byte_ok ≡ true
unfolding first_zero
all_bytes = refl

-- The first free bit of a byte that is not full.
pub record Free (b k : ℕ) : Type 0 where
  pub in_byte : k < 8
  pub clear : bit k b ≡ 0
  pub byte : b + 2 ^ k < 256
  pub others : (m : ℕ) → m < 8 → bit m (b + 2 ^ k) ≡ (if m == k then 1 else bit m b)
  pub below : (m : ℕ) → m < k → bit m b ≡ 1

pub or_right : (a b : Bool) → (a || b) ≡ true → a ≡ false → b ≡ true
or_right true b e f = absurd (cc f)
or_right false b e f = e

ok-Free :
    (b k : ℕ)
    → (ltb k 8 && (bit k b == 0 && (ltb (b + 2 ^ k) 256 && all_below 8 (bit_ok b k)))) ≡ true
    → Free b k
ok-Free b k t =
    let small : Bool = ltb (b + 2 ^ k) 256 in
    let (l, t') = and_true (ltb k 8) (bit k b == 0 && (small && all_below 8 (bit_ok b k))) t in
    let (z, t2) = and_true (bit k b == 0) (small && all_below 8 (bit_ok b k)) t' in
    let (u, a) = and_true small (all_below 8 (bit_ok b k)) t2 in
    record {
      in_byte = (ltb_iff k 8).0 l;
      clear = (==_iff (bit k b) 0).0 z;
      byte = (ltb_iff (b + 2 ^ k) 256).0 u;
      others = λ m h.
          (==_iff (bit m (b + 2 ^ k)) (if m == k then 1 else bit m b)).0
            (and_true _ (not (ltb m k) || bit m b == 1) (all_below-at 8 (bit_ok b k) a m h)).0;
      below = λ m h. (==_iff (bit m b) 1).0 (
          or_right (not (ltb m k)) (bit m b == 1)
            (and_true (bit m (b + 2 ^ k) == (if m == k then 1 else bit m b)) _
              (all_below-at 8 (bit_ok b k) a m (omega (arith, (ltb_iff k 8).0 l)))).1
            (ap not ((ltb_iff m k).1 h)));
    }

pub first_zero-Free : (b : ℕ) → b < 256 → b ≢ 0xff → Free b (first_zero 8 0 b)
first_zero-Free b lt ne =
    let k : ℕ = first_zero 8 0 b in
    ok-Free b k (
      or_right (b == 0xff)
        (ltb k 8 && (bit k b == 0 && (ltb (b + 2 ^ k) 256 && all_below 8 (bit_ok b k))))
        (all_below-at 256 byte_ok all_bytes b lt) (ground arith))

-- The first byte that is not full, if there is one.
first_free-cases :
    (n j : ℕ) (buf : ℕ → ℕ)
    → ((i : ℕ) × (first_free n j buf ≡ some i)
        × (j ≤ i)
        × (i < j + n)
        × (buf i ≢ 0xff)
        × ((x : ℕ) → j ≤ x → x < i → buf x ≡ 0xff))
      ⊎ ((first_free n j buf ≡ none) × ((x : ℕ) → j ≤ x → x < j + n → buf x ≡ 0xff))
unfolding first_free
first_free-cases zero j buf = inr (refl, λ x lo hi. absurd (omega arith))
first_free-cases (suc n) j buf = elim (Bool-cases (buf j == 0xff)) [
  | inl f ↦ rw f (elim (first_free-cases n (j + 1) buf) [
    | inl (i, e, lo, hi, ne, before) ↦ inl (
      i,
      e,
      omega arith,
      omega arith,
      ne,
      λ x l h. elim (ℕ_discrete x j) [ yes w ↦ ground arith | no w ↦ before x (omega arith) h ],
    )
    | inr (e, full) ↦ inr (
      e,
      λ x l h. elim (ℕ_discrete x j) [
        | yes w ↦ ground arith
        | no w ↦ full x (omega arith) (omega arith)
      ],
    )
  ])
  | inr ne ↦
      rw ne (inl (j, refl, omega arith, omega arith, ground arith, λ x l h. absurd (omega arith)))
]

-- The bit number n of a sector of the map.
abbrev pub map_bit : (ℕ → ℕ) → ℕ → ℕ
map_bit bytes n = bit (n % 8) (bytes (n / 8))

-- A super block with a map, whose bytes are bytes.
pub record IsMap (s : Fs) (dev : ℕ) : Type 0 where
  pub sb : SuperBlock
  pub has_super_block : get_super_block s dev ≡ done sb
  pub has_map : sb.nr_imap_sects ≢ 0
  pub bytes : (j : ℕ) → j < sector_size → s.disk dev 2 j < 256

alloc_lem : (s : Fs) (dev : ℕ) → IsMap s dev → alloc_imap_bit s dev ≡ done (alloc_in_sect s dev 0)
unfolding alloc_imap_bit
alloc_lem s dev m =
    let z : (m.sb.nr_imap_sects == 0) ≡ false = ground (arith, m.has_map) in
    rw (m.has_super_block, z) refl

pub full_bit : (m : ℕ) → m < 8 → bit m 0xff ≡ 1
full_bit m h = (==_iff (bit m 0xff) 1).0 (all_below-at 8 (λ x. bit x 0xff == 1) full_bits m h)
  where
    full_bits : all_below 8 (λ x. bit x 0xff == 1) ≡ true
    full_bits = refl

-- The sector once the bit k of the byte i has been set.
abbrev set_bytes : (ℕ → ℕ) → ℕ → ℕ → ℕ → ℕ
set_bytes bytes i k = update bytes i (bytes i + 2 ^ k)

map_bit-set_bytes :
    (bytes : ℕ → ℕ) (i k n : ℕ)
    → Free (bytes i) k
    → map_bit (set_bytes bytes i k) n ≡ (if n == i * 8 + k then 1 else map_bit bytes n)
map_bit-set_bytes bytes i k n f = elim (ℕ_discrete (n / 8) i) [
  | yes e ↦
      let here : set_bytes bytes i k (n / 8) ≡ bytes i + 2 ^ k = ground arith in
      let t : (n == i * 8 + k) ≡ (n % 8 == k) = ground (arith, f.in_byte) in
      rw t (
        ap (bit (n % 8)) here
        ∙ f.others (n % 8) (omega arith)
        ∙ ap (λ w. if n % 8 == k then 1 else bit (n % 8) (bytes w)) (sym e))
  | no ne ↦
      let t : (n == i * 8 + k) ≡ false = ground (arith, f.in_byte) in
      rw t (ap (bit (n % 8)) (update_ne bytes i (bytes i + 2 ^ k) (n / 8) (λ w. ne (sym w))))
]

set_bytes-byte :
    (bytes : ℕ → ℕ) (i k x : ℕ) → Free (bytes i) k → bytes x < 256 → set_bytes bytes i k x < 256
set_bytes-byte bytes i k x f lt = ground (arith, f.byte)

map_bit-at : (bytes : ℕ → ℕ) (i k : ℕ) → k < 8 → bit k (bytes i) ≡ 0 → map_bit bytes (i * 8 + k) ≡ 0
map_bit-at bytes i k lt c =
    let q : (i * 8 + k) / 8 ≡ i = omega arith in
    let r : (i * 8 + k) % 8 ≡ k = omega arith in rw (q, r) c

map_bit-below :
    (bytes : ℕ → ℕ) (i k n : ℕ)
    → Free (bytes i) k
    → ((x : ℕ) → x < i → bytes x ≡ 0xff)
    → n < i * 8 + k
    → map_bit bytes n ≡ 1
map_bit-below bytes i k n f before lt = elim (ℕ_discrete (n / 8) i) [
  | yes e ↦ ap (λ w. bit (n % 8) (bytes w)) e ∙ f.below (n % 8) (omega arith)
  | no ne ↦
      ap (bit (n % 8)) (before (n / 8) (omega (arith, f.in_byte))) ∙ full_bit (n % 8) (omega arith)
]

pub sector_byte :
    (s : Fs) (dev sect x : ℕ) → x < sector_size → (rd_sect s dev sect).fsbuf x ≡ s.disk dev sect x
sector_byte s dev sect x lt = ground arith

module _ (s : Fs) (dev i : ℕ) (e : first_free sector_size 0 (rd_sect s dev 2).fsbuf ≡ some i)
    (hi : i < sector_size) where
  abbrev k : ℕ
  k = first_zero 8 0 ((rd_sect s dev 2).fsbuf i)

  abbrev buffered : Fs
  buffered = record (rd_sect s dev 2) { fsbuf = set_bytes (rd_sect s dev 2).fsbuf i k }

  alloc_shape : alloc_in_sect s dev 0 ≡ (i * 8 + k, wr_sect buffered dev 2)
  unfolding alloc_in_sect take_bit
  alloc_shape =
      let z : (0 * sector_size + i) * 8 + k ≡ i * 8 + k = omega arith in
      ap (take_bit (rd_sect s dev 2) dev 0) e ∙ ap (λ w. (w, wr_sect buffered dev 2)) z

  byte_after :
      (x : ℕ)
      → x < sector_size
      → (wr_sect buffered dev 2).disk dev 2 x ≡ set_bytes (s.disk dev 2) i k x
  byte_after x lt = ground (arith, sector_byte s dev 2 x lt, sector_byte s dev 2 i hi)

  bit_after :
      (n : ℕ)
      → n < sector_size * 8
      → Free (s.disk dev 2 i) k
      → map_bit ((wr_sect buffered dev 2).disk dev 2) n
        ≡ (if n == i * 8 + k then 1 else map_bit (s.disk dev 2) n)
  bit_after n lt f =
      ap (bit (n % 8)) (byte_after (n / 8) (omega arith)) ∙ map_bit-set_bytes (s.disk dev 2) i k n f

-- When the device has a super block with an inode map, and some byte of the map's first sector is not
-- full: alloc_imap_bit returns the lowest number whose bit in this sector is 0, sets that bit on the disk, and
-- leaves every other bit of the sector as it was; the sector still consists of bytes.
pub alloc_imap_bit-takes :
    (s : Fs) (dev j : ℕ)
    → IsMap s dev
    → j < sector_size
    → s.disk dev 2 j ≢ 0xff
    → (nr : ℕ) × (s' : Fs) × (alloc_imap_bit s dev ≡ done (nr, s'))
      × (nr < sector_size * 8)
      × (map_bit (s.disk dev 2) nr ≡ 0)
      × ((n : ℕ) → n < nr → map_bit (s.disk dev 2) n ≡ 1)
      × ((n : ℕ)
          → n < sector_size * 8
          → map_bit (s'.disk dev 2) n ≡ (if n == nr then 1 else map_bit (s.disk dev 2) n))
      × ((x : ℕ) → x < sector_size → s'.disk dev 2 x < 256)
alloc_imap_bit-takes s dev j m lt ne =
    elim (first_free-cases sector_size 0 (rd_sect s dev 2).fsbuf) [
      | inl (i, e, lo, hi, nf, before) ↦
          let b = sector_byte s dev 2 i hi in
          let f : Free (s.disk dev 2 i) (k s dev i e hi) =
            subst (λ w. Free w (k s dev i e hi)) b
              (first_zero-Free ((rd_sect s dev 2).fsbuf i)
                (subst (λ w. w < 256) (sym b) (m.bytes i hi)) nf) in
          (
            i * 8 + k s dev i e hi,
            wr_sect (buffered s dev i e hi) dev 2,
            alloc_lem s dev m ∙ ap done (alloc_shape s dev i e hi),
            omega (arith, f.in_byte),
            map_bit-at (s.disk dev 2) i (k s dev i e hi) f.in_byte f.clear,
            λ n h.
                map_bit-below (s.disk dev 2) i (k s dev i e hi) n f
                  (λ x l. sym (sector_byte s dev 2 x (omega arith)) ∙ before x (omega arith) l) h,
            λ n h. bit_after s dev i e hi n h f,
            λ x h.
                subst (λ w. w < 256) (sym (byte_after s dev i e hi x h))
                  (set_bytes-byte (s.disk dev 2) i (k s dev i e hi) x f (m.bytes x h)),
          )
      | inr (e, full) ↦ absurd (ne (sym (sector_byte s dev 2 j lt) ∙ full j (omega arith) lt))
    ]

-- When the device has a super block with an inode map whose first sector is full, alloc_imap_bit
-- returns 0, which is no inode number, and not the panic that says that the map is full; the disk
-- stays as it was.
pub alloc_imap_bit-full :
    (s : Fs) (dev : ℕ)
    → IsMap s dev
    → ((j : ℕ) → j < sector_size → s.disk dev 2 j ≡ 0xff)
    → (s' : Fs) × (alloc_imap_bit s dev ≡ done (0, s')) × (s'.disk ≡ s.disk)
unfolding alloc_in_sect take_bit
alloc_imap_bit-full s dev m full = elim (first_free-cases sector_size 0 (rd_sect s dev 2).fsbuf) [
  | inl (i, e, lo, hi, nf, before) ↦ absurd (nf (sector_byte s dev 2 i hi ∙ full i hi))
  | inr (e, _) ↦ (
    rd_sect s dev 2,
    alloc_lem s dev m ∙ ap (λ o. done (take_bit (rd_sect s dev 2) dev 0 o)) e,
    refl,
  )
]

-- ===== src/Fs/Sectors/Alloc.antt =====
-- What alloc_smap_bit of fs/open.c does, byte by byte and sector by sector, when the first bit of the map
-- that is 0 is m and the n bits from there on are 0.
use mathlib.Core.Path.{subst}
use bz_os.Prelude.{
  ℕ, ◌+◌, ◌-◌, ◌*◌, ◌≤◌, ◌<◌, ◌≡◌, ◌≢◌, ◌⊎◌, inl, inr, refl, sym, ap, ◌∙◌, arith, Bool, true, false,
  ◌&&◌, done, ltb, leb, ◌==◌, if◌then◌else◌, update, update_self, update_ne, Bool-cases,
}
use bz_os.Fs.State.{sector_size}
use bz_os.Fs.Map.{bit, first_zero}
use bz_os.Fs.Map.Alloc.{Free, first_zero-Free, full_bit}
use bz_os.Fs.Sectors.{Search, set_from, alloc_byte}
use bz_os.Fs.Sectors.Bits.{Marked, full_byte, in_run, set_bits-Marked}

module _ (m n first : ℕ) (some_bits : 0 < n) (data_sector : 1 < first) where
  -- the bits that are to be set
  abbrev pub in_block : ℕ → Bool
  in_block x = leb m x && ltb x (m + n)

  -- Where the search stands when it has come to the bit p.
  abbrev pub left_at : ℕ → ℕ
  left_at p = if ltb m p then m + n - p else n

  abbrev pub sect_at : ℕ → ℕ
  sect_at p = if ltb m p then m + first - 1 else 0

  -- The byte b of the bits from p on suits the block.
  pub record Suits (p b : ℕ) : Type 0 where
    pub byte : b < 256
    pub ones : (x : ℕ) → x < 8 → p + x < m → bit x b ≡ 1
    pub zeros : (x : ℕ) → x < 8 → in_block (p + x) ≡ true → bit x b ≡ 0

  -- The search at the bit p.
  pub record At (p : ℕ) (a : Search) : Type 0 where
    pub left : a.left ≡ left_at p
    pub free_sect : a.free_sect ≡ sect_at p

  pub same_byte :
      (p b : ℕ)
      → b < 256
      → ((x : ℕ) → x < 8 → in_block (p + x) ≡ false)
      → Marked b b (λ x. in_block (p + x))
  same_byte p b lb h = record { byte = lb; bits = λ x lx. rw (h x lx) refl }

  first_bit : (p b : ℕ) → Suits p b → p ≤ m → m < p + 8 → (b ≢ 0xff) × (first_zero 8 0 b ≡ m - p)
  first_bit p b s lo hi =
      let here : bit (m - p) b ≡ 0 = s.zeros (m - p) (omega arith) (ground arith) in
      let ne : b ≢ 0xff = λ e. ground (arith, full_bit (m - p), ap (bit (m - p)) e) in
      let f : Free b (first_zero 8 0 b) = first_zero-Free b s.byte ne in
      (
        ne,
        elim (Bool-cases (ltb (first_zero 8 0 b) (m - p))) [
          | inl lt ↦ ground (arith, s.ones (first_zero 8 0 b), f.clear, f.in_byte)
          | inr ge ↦ ground (arith, f.below (m - p))
        ],
      )

  -- The block begins in the byte at its bit k, or has begun before it.
  abbrev Begins : ℕ → ℕ → ℕ → Type 0
  Begins p k left =
      ((p ≤ m) × (k ≡ m - p) × (left ≡ n) × (m < p + 8)) ⊎ ((m < p) × (k ≡ 0) × (left ≡ m + n - p))

  Begins-left : (p k left : ℕ) → Begins p k left → left - (8 - k) ≡ left_at (p + 8)
  Begins-left p k left h = ground arith

  Begins-sect : (p k left : ℕ) → Begins p k left → (k ≤ 8) × (m + first - 1 ≡ sect_at (p + 8))
  Begins-sect p k left h = ground arith

  -- the run of set_bits in the byte is the block's part of it
  run_is_block :
      (p k left x : ℕ) → Begins p k left → x < 8 → in_run k (8 - k) left x ≡ in_block (p + x)
  run_is_block p k left x h lx = ground arith

  -- What the search has made of the byte j, whose bits are those from p on.
  pub record Done (p j : ℕ) (buf : ℕ → ℕ) (a' : Search) : Type 0 where
    pub at : At (p + 8) a'
    pub marked : Marked (buf j) (a'.buf j) (λ x. in_block (p + x))
    pub others : (y : ℕ) → y ≢ j → a'.buf y ≡ buf y

  set_run :
      (j p k : ℕ) (a : Search)
      → Suits p (a.buf j)
      → Begins p k a.left
      → a.left ≢ 0
      → a.free_sect ≡ m + first - 1
      → (a' : Search) × (set_from j k a ≡ done a') × Done p j a.buf a'
  set_run j p k a s h more sect =
      let (le, block) = Begins-sect p k a.left h in
      let (b, r, marked) =
        set_bits-Marked (8 - k) k (a.buf j) a.left s.byte (omega arith) (omega arith) (λ x t.
          s.zeros x (ground arith) (sym (run_is_block p k a.left x h (ground arith)) ∙ t)) in
      (
        record a { left = a.left - (8 - k); buf = update a.buf j b },
        rw r refl,
        record {
          at = record { left = Begins-left p k a.left h; free_sect = sect ∙ block };
          marked =
              subst (λ w. Marked (a.buf j) w (λ x. in_block (p + x))) (sym (update_self a.buf j b))
                (record {
                  byte = marked.byte;
                  bits = λ x lx.
                      marked.bits x lx
                      ∙ ap (λ t. if t then 1 else bit x (a.buf j)) (run_is_block p k a.left x h lx);
                });
          others = λ y ne. update_ne a.buf j b y (λ w. ne (sym w));
        },
      )

  pub alloc_byte_lem :
      (i j p : ℕ) (a : Search)
      → p ≡ (i * sector_size + j) * 8
      → Suits p (a.buf j)
      → At p a
      → a.left ≢ 0
      → (a' : Search) × (alloc_byte first i j a ≡ done a') × Done p j a.buf a'
  unfolding alloc_byte
  alloc_byte_lem i j p a at s t more = elim (Bool-cases (ltb m p)) [
    | inl started ↦
        let z : (a.free_sect == 0) ≡ false = ground (arith, t.free_sect) in
        rw z (
          set_run j p 0 a s (inr (ground arith, refl, ground (arith, t.left))) more
            (ground (arith, t.free_sect)))
    | inr fresh ↦ elim (Bool-cases (ltb m (p + 8))) [
      | inl starts ↦
          let (ne, k) = first_bit p (a.buf j) s (ground arith) (ground arith) in
          let z : (a.free_sect == 0) ≡ true = ground (arith, t.free_sect) in
          let f : (a.buf j == 0xff) ≡ false = ground arith in
          rw (z, f)
            (set_run j p (first_zero 8 0 (a.buf j))
              (record a {
                free_sect = (i * sector_size + j) * 8 + first_zero 8 0 (a.buf j) + first - 1;
              })
              s (inl (ground arith, k, ground (arith, t.left), ground arith)) more (ground arith))
      | inr later ↦
          let f = full_byte (a.buf j) s.byte (λ x lx. s.ones x lx (ground arith)) in
          let z : (a.free_sect == 0) ≡ true = ground (arith, t.free_sect) in
          rw (z, f)
            (
              a,
              refl,
              record {
                at = record {
                  left = ground (arith, t.left);
                  free_sect = ground (arith, t.free_sect);
                };
                marked = same_byte p (a.buf j) s.byte (λ x lx. ground arith);
                others = λ y ne. refl;
              },
            )
    ]
  ]

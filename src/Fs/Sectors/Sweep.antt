-- ===== src/Fs/Sectors/Sweep.antt =====
-- What alloc_smap_bit of fs/open.c does to the sectors of the map.
use mathlib.Core.Path.{subst}
use bz_os.Prelude.{
  ℕ, zero, suc, ◌+◌, ◌*◌, ◌≤◌, ◌<◌, ◌≡◌, ◌≢◌, inl, inr, refl, sym, ◌∙◌, arith, false, done, ◌==◌,
  Bool-cases, ℕ_discrete,
}
use bz_os.Fs.State.{Fs, sector_size, rd_sect, wr_sect}
use bz_os.Fs.Map.Alloc.{sector_byte}
use bz_os.Fs.Sectors.{Search, alloc_bytes, alloc_sects, write_back}
use bz_os.Fs.Sectors.Bits.{Marked}
use bz_os.Fs.Sectors.Alloc.{in_block, left_at, sect_at, Suits, At, same_byte, alloc_byte_lem}

module _ (m n first : ℕ) (some_bits : 0 < n) (data_sector : 1 < first) where
  -- the bits of the byte y of the i-th sector begin with this one
  abbrev pub at_byte : ℕ → ℕ → ℕ
  at_byte i y = (i * sector_size + y) * 8

  abbrev pub SuitsAt : ℕ → ℕ → ℕ → Type 0
  SuitsAt i y b = Suits m n first some_bits data_sector (at_byte i y) b

  abbrev pub MarkedAt : ℕ → ℕ → ℕ → ℕ → Type 0
  MarkedAt i y b b' = Marked b b' (λ x. in_block m n first some_bits data_sector (at_byte i y + x))

  abbrev pub Stands : ℕ → Search → Type 0
  Stands p a = At m n first some_bits data_sector p a

  -- After c bytes of the i-th sector from j on.
  record Swept (i j c : ℕ) (buf : ℕ → ℕ) (a' : Search) : Type 0 where
    at : Stands (at_byte i (j + c)) a'
    marked : (y : ℕ) → j ≤ y → y < j + c → MarkedAt i y (buf y) (a'.buf y)
    before : (y : ℕ) → y < j → a'.buf y ≡ buf y

  stopped :
      (p q left : ℕ)
      → left ≡ left_at m n first some_bits data_sector p
      → left ≡ 0
      → p ≤ q
      → (left ≡ left_at m n first some_bits data_sector q)
        × (sect_at m n first some_bits data_sector p ≡ sect_at m n first some_bits data_sector q)
        × ((x : ℕ) → p ≤ x → in_block m n first some_bits data_sector x ≡ false)
  stopped p q left e z le = (ground arith, ground arith, λ x h. ground arith)

  alloc_bytes-Swept :
      (c i j : ℕ) (a : Search)
      → ((y : ℕ) → j ≤ y → y < j + c → SuitsAt i y (a.buf y))
      → Stands (at_byte i j) a
      → (a' : Search) × (alloc_bytes c first i j a ≡ done a') × Swept i j c a.buf a'
  unfolding alloc_bytes
  alloc_bytes-Swept zero i j a s t =
      let e : j + 0 ≡ j = omega arith in
      (
        a,
        refl,
        record { at = rw e t; marked = λ y lo hi. absurd (omega arith); before = λ y h. refl },
      )
  alloc_bytes-Swept (suc c) i j a s t = elim (Bool-cases (a.left == 0)) [
    | inl z ↦
        let (l, f, off) =
          stopped (at_byte i j) (at_byte i (j + suc c)) a.left t.left (ground arith)
            (omega arith) in
        rw z (
          a,
          refl,
          record {
            at = record { left = l; free_sect = t.free_sect ∙ f };
            marked = λ y lo hi.
                same_byte m n first some_bits data_sector (at_byte i y) (a.buf y) (s y lo hi).byte
                  (λ x lx. off (at_byte i y + x) (omega arith));
            before = λ y h. refl;
          },
        )
    | inr z ↦
        let (a1, r, d) =
          alloc_byte_lem m n first some_bits data_sector i j (at_byte i j) a refl
            (s j (omega arith) (omega arith)) t (ground arith) in
        let e : at_byte i j + 8 ≡ at_byte i (j + 1) = omega arith in
        let (a2, r', w) =
          alloc_bytes-Swept c i (j + 1) a1
            (λ y lo hi.
              subst (SuitsAt i y) (sym (d.others y (omega arith)))
                (s y (omega arith) (omega arith)))
            (subst (λ p. Stands p a1) e d.at) in
        let e' : j + 1 + c ≡ j + suc c = omega arith in
        rw z (
          a2,
          rw r r',
          record {
            at = subst (λ p. Stands (at_byte i p) a2) e' w.at;
            marked = λ y lo hi. elim (ℕ_discrete y j) [
              | yes q ↦
                  subst (λ v. MarkedAt i v (a.buf v) (a2.buf v)) (sym q)
                    (subst (MarkedAt i j (a.buf j)) (sym (w.before j (omega arith))) d.marked)
              | no q ↦
                  subst (λ b. MarkedAt i y b (a2.buf y)) (d.others y q)
                    (w.marked y (omega arith) (omega arith))
            ];
            before = λ y h. w.before y (omega arith) ∙ d.others y (omega arith);
          },
        )
  ]

  -- After the c sectors of the map from the i-th on.
  pub record Passed (dev blk0 i c : ℕ) (s : Fs) (a' : Search) (s' : Fs) : Type 0 where
    pub at : Stands (at_byte (i + c) 0) a'
    pub marked :
        (k y : ℕ)
        → i ≤ k
        → k < i + c
        → y < sector_size
        → MarkedAt k y (s.disk dev (blk0 + k) y) (s'.disk dev (blk0 + k) y)
    pub before : (sect y : ℕ) → sect < blk0 + i → s'.disk dev sect y ≡ s.disk dev sect y

  -- a sector of the map, when its bytes have been searched and it has been written if it changed
  sector_after :
      (s : Fs) (dev blk0 i : ℕ) (a : Search)
      → ((y : ℕ) → y < sector_size → SuitsAt i y (s.disk dev (blk0 + i) y))
      → Swept i 0 sector_size (rd_sect s dev (blk0 + i)).fsbuf a
      → (y : ℕ) → y < sector_size
      → MarkedAt i y
          (s.disk dev (blk0 + i) y)
          ((write_back (rd_sect s dev (blk0 + i)) dev (blk0 + i) a).disk dev (blk0 + i) y)
  sector_after s dev blk0 i a suits w y lt = elim (Bool-cases (a.free_sect == 0)) [
    | inl z ↦ rw z (
        same_byte m n first some_bits data_sector (at_byte i y) _ (suits y lt).byte
          (λ x lx. ground (arith, w.at.free_sect)))
    | inr z ↦ rw z (
        let e : (rd_sect s dev (blk0 + i)).fsbuf y ≡ s.disk dev (blk0 + i) y = ground arith in
        let f : (wr_sect (record (rd_sect s dev (blk0 + i)) { fsbuf = a.buf }) dev (blk0 + i)).disk
              dev (blk0 + i) y
            ≡ a.buf y =
          ground arith in
        subst (MarkedAt i y (s.disk dev (blk0 + i) y)) (sym f)
          (subst (λ b. MarkedAt i y b (a.buf y)) e (w.marked y (omega arith) lt)))
  ]

  sector_before :
      (s : Fs) (dev sect : ℕ) (a : Search) (other y : ℕ)
      → other ≢ sect
      → (write_back (rd_sect s dev sect) dev sect a).disk dev other y ≡ s.disk dev other y
  sector_before s dev sect a other y ne = ground arith

  pub alloc_sects-Passed :
      (c : ℕ) (s : Fs) (dev blk0 i left free_sect : ℕ)
      → ((k y : ℕ) → i ≤ k → k < i + c → y < sector_size → SuitsAt k y (s.disk dev (blk0 + k) y))
      → left ≡ left_at m n first some_bits data_sector (at_byte i 0)
      → free_sect ≡ sect_at m n first some_bits data_sector (at_byte i 0)
      → (a' : Search) × (s' : Fs) × (alloc_sects c s dev blk0 first i left free_sect
          ≡ done (a', s'))
        × Passed dev blk0 i c s a' s'
  unfolding alloc_sects
  alloc_sects-Passed zero s dev blk0 i left free_sect suits l f =
      let e : i ≡ i + 0 = omega arith in
      (
        record { left = left; free_sect = free_sect; buf = s.fsbuf },
        s,
        refl,
        record {
          at =
              subst
                (λ k.
                  Stands (at_byte k 0)
                    (record { left = left; free_sect = free_sect; buf = s.fsbuf }))
                e (record { left = l; free_sect = f });
          marked = λ k y lo hi lt. absurd (omega arith);
          before = λ sect y h. refl;
        },
      )
  alloc_sects-Passed (suc c) s dev blk0 i left free_sect suits l f =
      let s1 : Fs = rd_sect s dev (blk0 + i) in
      let a0 : Search = record { left = left; free_sect = free_sect; buf = s1.fsbuf } in
      let read = λ (y : ℕ) (lt : y < sector_size). sector_byte s dev (blk0 + i) y lt in
      let here = λ (y : ℕ) (lt : y < sector_size). suits i y (omega arith) (omega arith) lt in
      let (a, r, w) =
        alloc_bytes-Swept sector_size i 0 a0
          (λ y lo hi. subst (SuitsAt i y) (sym (read y hi)) (here y hi))
          (record { left = l; free_sect = f }) in
      let s2 : Fs = write_back s1 dev (blk0 + i) a in
      let e : at_byte i (0 + sector_size) ≡ at_byte (i + 1) 0 = omega arith in
      let at : Stands (at_byte (i + 1) 0) a = subst (λ p. Stands p a) e w.at in
      let marked_here = sector_after s dev blk0 i a here w in
      let same = λ (k y : ℕ) (ne : k ≢ i).
        sector_before s dev (blk0 + i) a (blk0 + k) y (λ q. ne (omega arith)) in
      elim (Bool-cases (a.left == 0)) [
        | inl z ↦
            let (l', f', off) =
              stopped (at_byte (i + 1) 0) (at_byte (i + suc c) 0) a.left at.left (ground arith)
                (omega arith) in
            rw (r, z)
              (
                a,
                s2,
                refl,
                record {
                  at = record { left = l'; free_sect = at.free_sect ∙ f' };
                  marked = λ k y lo hi lt. elim (ℕ_discrete k i) [
                    | yes q ↦
                        subst
                          (λ v. MarkedAt v y (s.disk dev (blk0 + v) y) (s2.disk dev (blk0 + v) y))
                          (sym q) (marked_here y lt)
                    | no q ↦ subst (MarkedAt k y (s.disk dev (blk0 + k) y)) (sym (same k y q)) (
                        same_byte m n first some_bits data_sector (at_byte k y) _
                          (suits k y lo hi lt).byte (λ x lx. off (at_byte k y + x) (omega arith)))
                  ];
                  before = λ sect y h.
                      sector_before s dev (blk0 + i) a sect y (λ q. absurd (omega arith));
                },
              )
        | inr z ↦
            let (a2, s3, r2, p) =
              alloc_sects-Passed c s2 dev blk0 (i + 1) a.left a.free_sect
                (λ k y lo hi lt.
                  subst (SuitsAt k y) (sym (same k y (λ q. absurd (omega arith))))
                    (suits k y (omega arith) (omega arith) lt))
                at.left at.free_sect in
            let e' : i + 1 + c ≡ i + suc c = omega arith in
            rw (r, z)
              (
                a2,
                s3,
                r2,
                record {
                  at = subst (λ k. Stands (at_byte k 0) a2) e' p.at;
                  marked = λ k y lo hi lt. elim (ℕ_discrete k i) [
                    | yes q ↦
                        subst
                          (λ v. MarkedAt v y (s.disk dev (blk0 + v) y) (s3.disk dev (blk0 + v) y))
                          (sym q)
                          (subst (MarkedAt i y (s.disk dev (blk0 + i) y))
                            (sym (p.before (blk0 + i) y (omega arith))) (marked_here y lt))
                    | no q ↦
                        subst (λ b. MarkedAt k y b (s3.disk dev (blk0 + k) y)) (same k y q)
                          (p.marked k y (omega arith) (omega arith) lt)
                  ];
                  before = λ sect y h.
                      p.before sect y (omega arith)
                      ∙ sector_before s dev (blk0 + i) a sect y (λ q. absurd (omega arith));
                },
              )
      ]

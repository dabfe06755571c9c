-- ===== src/Hd/Access/Sectors.antt =====
-- hd_rdwt of kernel/hd.c moves whole sectors between the memory and the disk, as rd_chunk and wr_chunk of
-- the file system have it.
use bz_os.Prelude.{
  ℕ, zero, suc, ◌+◌, ◌-◌, ◌*◌, ◌/◌, ◌%◌, ◌≤◌, ◌<◌, ◌≡◌, ◌⊎◌, inl, inr, refl, ap, ◌∙◌, arith,
  Bool-cases, false, ◌&&◌, done, ltb, leb, ◌==◌, if◌then◌else◌, ℕ_discrete,
}
use bz_os.Fs.MsgType
use bz_os.Fs.Files.{copy_bytes, copy_bytes_lem}
use bz_os.Fs.State.{sector_size}
use bz_os.Hd.Drive.{Drive, IsAta}
use bz_os.Hd.Access.{move_sector, move_sectors}

module _ (d : Drive) (sector : d.State → ℕ → ℕ → ℕ) (ata : IsAta d sector) where
  -- The memory after c sectors from a on have been read to la.
  pub record ReadIn (la a c : ℕ) (mem : ℕ → ℕ) (s : d.State) (mem' : ℕ → ℕ) (s' : d.State)
      : Type 0 where
    pub bytes :
        (x : ℕ)
        → x < c * sector_size
        → mem' (la + x) ≡ sector s (a + x / sector_size) (x % sector_size)
    pub others : (y : ℕ) → (y < la) ⊎ (la + c * sector_size ≤ y) → mem' y ≡ mem y
    pub disk : sector s' ≡ sector s

  -- the first sector
  copied_sector :
      (la a : ℕ) (mem buf : ℕ → ℕ) (s : d.State) (x : ℕ)
      → ((x : ℕ) → x < 512 → buf x ≡ sector s a x)
      → x < sector_size
      → copy_bytes la 0 sector_size buf mem (la + x)
        ≡ sector s (a + x / sector_size) (x % sector_size)
  copied_sector la a mem buf s x h lt =
      let e : la + x - la ≡ x = omega arith in
      let f : a + x / sector_size ≡ a = omega arith in
      let g : x % sector_size ≡ x = omega arith in
      copy_bytes_lem la 0 sector_size buf mem (la + x) ∙ rw (e, f, g) (ground (arith, h x))

  copied_outside :
      (la : ℕ) (mem buf : ℕ → ℕ) (y : ℕ)
      → (y < la) ⊎ (la + sector_size ≤ y)
      → copy_bytes la 0 sector_size buf mem y ≡ mem y
  copied_outside la mem buf y h = copy_bytes_lem la 0 sector_size buf mem y ∙ ground arith

  move_turn :
      (n type la c : ℕ) (mem : ℕ → ℕ) (s : d.State) (mem1 : ℕ → ℕ) (s1 : d.State)
      → move_sector d type la sector_size mem s ≡ done (mem1, s1)
      → move_sectors d (suc n) type la (suc c * sector_size) mem s
        ≡ move_sectors d n type (la + sector_size) (c * sector_size) mem1 s1
  unfolding move_sectors
  move_turn n type la c mem s mem1 s1 e =
      let z : (suc c * sector_size == 0) ≡ false = ground arith in
      let b : (if ltb sector_size (suc c * sector_size) then sector_size else suc c * sector_size)
          ≡ sector_size =
        ground arith in
      let l : ltb (suc c * sector_size) sector_size ≡ false = ground arith in
      let r : suc c * sector_size - sector_size ≡ c * sector_size = omega arith in
      rw (z, b, e, l, r) refl

  move_none :
      (n type la : ℕ) (mem : ℕ → ℕ) (s : d.State)
      → move_sectors d (suc n) type la (zero * sector_size) mem s ≡ done (mem, s)
  unfolding move_sectors
  move_none n type la mem s = refl

  pub move_sectors-ReadIn :
      (c la a : ℕ) (mem : ℕ → ℕ) (s : d.State)
      → ata.Reads a c s
      → (mem' : ℕ → ℕ) × (s' : d.State) × (move_sectors d
            (suc c)
            MsgType.dev_read
            la
            (c * sector_size)
            mem
            s
          ≡ done (mem', s'))
        × ReadIn la a c mem s mem' s'
  unfolding move_sector
  move_sectors-ReadIn zero la a mem s r = (
    mem,
    s,
    move_none zero MsgType.dev_read la mem s,
    record { bytes = λ x lt. absurd (omega arith); others = λ y h. refl; disk = refl },
  )
  move_sectors-ReadIn (suc c) la a mem s r =
      let (buf, s1, got, same, r1, kept) = ata.read_next a c s r in
      let mem1 : ℕ → ℕ = copy_bytes la 0 sector_size buf mem in
      let (mem', s', e, w) = move_sectors-ReadIn c (la + sector_size) (a + 1) mem1 s1 r1 in
      (
        mem',
        s',
        move_turn (suc c) MsgType.dev_read la c mem s mem1 s1 (rw got refl) ∙ e,
        record {
          bytes = λ x lt. elim (Bool-cases (ltb x sector_size)) [
            | inl t ↦
                w.others (la + x) (inl (ground arith))
                ∙ copied_sector la a mem buf s x same (ground arith)
            | inr t ↦
                let y : ℕ = x - sector_size in
                let p : la + x ≡ la + sector_size + y = ground arith in
                let q : a + 1 + y / sector_size ≡ a + x / sector_size = ground arith in
                let r : y % sector_size ≡ x % sector_size = ground arith in
                ap mem' p
                ∙ w.bytes y (ground arith)
                ∙ ap (λ f. f (a + 1 + y / sector_size) (y % sector_size)) kept
                ∙ ap (λ b. sector s b (y % sector_size)) q
                ∙ ap (sector s (a + x / sector_size)) r
          ];
          others = λ y h. w.others y (ground arith) ∙ copied_outside la mem buf y (ground arith);
          disk = w.disk ∙ kept;
        },
      )

  -- The disk after c sectors from a on have been written from la.
  abbrev pub Written : ℕ → ℕ → ℕ → (ℕ → ℕ) → d.State → d.State → Type 0
  Written la a c mem s s' =
      (b x : ℕ)
      → x < sector_size
      → sector s' b x
        ≡ (if leb a b && ltb b (a + c) then mem (la + (b - a) * sector_size + x) else sector s b x)

  pub move_sectors-Written :
      (c la a : ℕ) (mem : ℕ → ℕ) (s : d.State)
      → ata.Writes a c s
      → (s' : d.State) × (move_sectors d (suc c) MsgType.dev_write la (c * sector_size) mem s
          ≡ done (mem, s'))
        × Written la a c mem s s'
  unfolding move_sector
  move_sectors-Written zero la a mem s r =
      (s, move_none zero MsgType.dev_write la mem s, λ b x lt. ground arith)
  move_sectors-Written (suc c) la a mem s r =
      let (s1, took, put, r1) = ata.write_next a c s (λ x. mem (la + x)) r in
      let (s', e, w) = move_sectors-Written c (la + sector_size) (a + 1) mem s1 r1 in
      (
        s',
        move_turn (suc c) MsgType.dev_write la c mem s mem s1 (rw took refl) ∙ e,
        λ b x lt. w b x lt ∙ elim (ℕ_discrete b a) [
          | yes q ↦
              let z : la + x ≡ la + (b - a) * sector_size + x = omega arith in
              ground (arith, put b x lt, ap mem z)
          | no q ↦ elim (Bool-cases (leb (a + 1) b)) [
            | inl t ↦
                let z : la + sector_size + (b - (a + 1)) * sector_size + x
                    ≡ la + (b - a) * sector_size + x =
                  ground arith in
                ground (arith, put b x lt, ap mem z)
            | inr t ↦ ground (arith, put b x lt)
          ]
        ],
      )

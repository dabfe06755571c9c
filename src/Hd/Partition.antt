-- ===== src/Hd/Partition.antt =====
-- The partition tables and the other messages of kernel/hd.c: get_part_table, partition, hd_identify,
-- hd_open, hd_close, hd_ioctl, and the switch of task_hd.
use bz_os.Prelude.{
  ℕ, zero, suc, ◌+◌, ◌-◌, ◌*◌, ◌/◌, ◌%◌, ◌^◌, not, ◌||◌, none, some, Outcome, done, halt, assertion,
  spinning, assert, ◌>>=◌, ◌>>◌, ltb, ◌==◌, if◌then◌else◌, update,
}
use bz_os.Kernel.State.{Kernel}
use bz_os.Kernel.Memory.{load32, store32}
use bz_os.Kernel.Descriptor.{va2la}
use bz_os.Fs.MsgType
use bz_os.Fs.Files.{Message}
use bz_os.Hd.Drive.{Drive, Command, ata_read, ata_identify}
use bz_os.Hd.Access.{
  PartInfo, HdInfo, drv_of_dev, make_device_reg, hd_cmd_out, hd_rdwt, nr_part_per_drive,
  nr_sub_per_part, nr_sub_per_drive, nr_prim_per_drive, max_prim, minor_hd1a,
}

abbrev pub no_part : ℕ
no_part = 0x00

abbrev pub ext_part : ℕ
ext_part = 0x05

-- where the table is in its sector, and the size of an entry (part_ent)
abbrev pub partition_table_offset : ℕ
partition_table_offset = 0x1be

pub record PartEnt : Type 0 where
  pub sys_id : ℕ
  pub start_sect : ℕ
  pub nr_sects : ℕ

-- the i-th entry of the table in a sector
abbrev pub part_ent : (ℕ → ℕ) → ℕ → PartEnt
part_ent hdbuf i =
    let a : ℕ = partition_table_offset + i * 16 in
    record {
      sys_id = hdbuf (a + 4);
      start_sect = load32 (a + 8) hdbuf;
      nr_sects = load32 (a + 12) hdbuf;
    }

-- &hdi->primary[device] or &hdi->logical[...]
abbrev pub device_info : HdInfo → ℕ → PartInfo
device_info hdi device =
    if ltb device max_prim
    then hdi.primary device
    else hdi.logical ((device - minor_hd1a) % nr_sub_per_drive)

abbrev pub device_close : ℕ
device_close = 999

abbrev pub device_ioctl : ℕ
device_ioctl = 1002

abbrev pub dioctl_get_geo : ℕ
dioctl_get_geo = 1

module _ (d : Drive) where
  -- interrupt_wait and port_read of a sector
  abbrev pub read_sector : d.State → Outcome ((ℕ → ℕ) × d.State)
  read_sector s = elim (d.read s) [ none ↦ halt spinning | some r ↦ done r ]

  pub get_part_table : ℕ → ℕ → d.State → Outcome ((ℕ → PartEnt) × d.State)
  get_part_table drive sect_nr s = do
    s1 ←
        hd_cmd_out d
          (record {
            features = 0;
            count = 1;
            lba_low = sect_nr % 2 ^ 8;
            lba_mid = sect_nr / 2 ^ 8 % 2 ^ 8;
            lba_high = sect_nr / 2 ^ 16 % 2 ^ 8;
            device = make_device_reg 1 drive (sect_nr / 2 ^ 24 % 16) % 2 ^ 8;
            command = ata_read;
          })
          s
    r ← read_sector s1
    done (part_ent r.0, r.1)

  -- The logical partitions of an extended one: n turns are left, i is the next, and the table is in the
  -- sector sect. Sums of sectors are u32.
  pub partition_extended : ℕ → ℕ → ℕ → ℕ → ℕ → ℕ → HdInfo → d.State → Outcome (HdInfo × d.State)
  partition_extended zero drive ext_start_sect nr_1st_sub i sect hdi s = done (hdi, s)
  partition_extended (suc n) drive ext_start_sect nr_1st_sub i sect hdi s = do
    r ← get_part_table drive sect s
    let first = (r.0) 0
    let second = (r.0) 1
    let hdi1 = record hdi {
      logical =
          update hdi.logical (i + nr_1st_sub)
            (record { base = (sect + first.start_sect) % 2 ^ 32; size = first.nr_sects });
    }
    let rest =
        partition_extended n drive ext_start_sect nr_1st_sub (i + 1)
          ((ext_start_sect + second.start_sect) % 2 ^ 32) hdi1 r.1
    if second.sys_id == no_part then done (hdi1, r.1) else rest

  -- partition(device, P_EXTENDED)
  pub extended : ℕ → HdInfo → d.State → Outcome (HdInfo × d.State)
  extended device hdi s =
      let j : ℕ = device % nr_prim_per_drive in
      let start : ℕ = (hdi.primary j).base in
      partition_extended nr_sub_per_part (drv_of_dev device) start ((j - 1) * nr_sub_per_part) 0
        start hdi s

  -- The primary partitions: n turns are left, the i-th entry is the next; how many there are.
  pub partition_primary :
      ℕ → ℕ → (ℕ → PartEnt) → ℕ → ℕ → HdInfo → d.State → Outcome (ℕ × HdInfo × d.State)
  partition_primary zero device part_tbl i found hdi s = done (found, hdi, s)
  partition_primary (suc n) device part_tbl i found hdi s =
      let e : PartEnt = part_tbl i in
      let hdi1 : HdInfo = record hdi {
        primary = update hdi.primary (i + 1) (record { base = e.start_sect; size = e.nr_sects });
      } in
      let skip : Outcome (ℕ × HdInfo × d.State) =
        partition_primary n device part_tbl (i + 1) found hdi s in
      let take_it : Outcome (ℕ × HdInfo × d.State) =
        (if e.sys_id == ext_part then extended (device + (i + 1)) hdi1 s else done (hdi1, s))
        >>= λ r. partition_primary n device part_tbl (i + 1) (found + 1) r.0 r.1 in
      if e.sys_id == no_part then skip else take_it

  -- partition(device, P_PRIMARY); get_part_table reads the sector whose number is that of the drive
  pub partition : ℕ → HdInfo → d.State → Outcome (HdInfo × d.State)
  partition device hdi s = do
    let drive = drv_of_dev device
    t ← get_part_table drive drive s
    r ← partition_primary nr_part_per_drive device (t.0) 0 0 hdi (t.1)
    assert (not (r.0 == 0))
    done (r.1, r.2)

  -- The size of the drive, from the words 60 and 61. The registers that the code leaves unset are those
  -- of `unset`.
  pub hd_identify : Command → ℕ → HdInfo → d.State → Outcome (HdInfo × d.State)
  hd_identify unset drive hdi s = do
    s1 ←
        hd_cmd_out d
          (record unset { device = make_device_reg 0 drive 0 % 2 ^ 8; command = ata_identify }) s
    r ← read_sector s1
    let hdbuf = r.0
    done (
      record hdi { primary = update hdi.primary 0 (record { base = 0; size = load32 120 hdbuf }) },
      r.1,
    )

  -- an entry of hd_info[] has changed
  abbrev pub with_info : (ℕ → HdInfo) → ℕ → HdInfo × d.State → (ℕ → HdInfo) × d.State
  with_info hd_info drive r = (update hd_info drive r.0, r.1)

  pub hd_open : Command → (ℕ → HdInfo) → ℕ → d.State → Outcome ((ℕ → HdInfo) × d.State)
  hd_open unset hd_info device s = do
    let drive = drv_of_dev device
    assert (drive == 0)
    r ← hd_identify unset drive (hd_info drive) s
    let hdi = record (r.0) { open_cnt = (r.0).open_cnt + 1 }
    if (r.0).open_cnt == 0
        then (do
          p ← partition (drive * (nr_part_per_drive + 1)) hdi (r.1)
          done (with_info hd_info drive p))
        else done (with_info hd_info drive (hdi, r.1))

  -- open_cnt, which is not negative here
  pub hd_close : (ℕ → HdInfo) → ℕ → Outcome (ℕ → HdInfo)
  hd_close hd_info device = do
    let drive = drv_of_dev device
    assert (drive == 0)
    let hdi = hd_info drive
    done (update hd_info drive (record hdi { open_cnt = hdi.open_cnt - 1 }))

  -- DIOCTL_GET_GEO: the base and the size of the device go to the caller's buffer
  pub hd_ioctl : (ℕ → HdInfo) → Kernel → Message → Outcome Kernel
  hd_ioctl hd_info k m =
      if m.m3i2 == dioctl_get_geo
      then (do
        dest ← va2la k m.m3i3 m.m3p2
        let p = device_info (hd_info (drv_of_dev m.m3i4)) m.m3i4
        done (record k { mem = store32 (dest + 4) p.size (store32 dest p.base k.mem) }))
      else halt assertion

  -- What task_hd has of its own and of the others.
  pub record HdState : Type 0 where
    pub hd_info : ℕ → HdInfo
    pub kernel : Kernel
    pub drive : d.State

  -- One turn of task_hd: a message with the position pos. An unknown one leaves it spinning.
  pub serve_hd : Command → HdState → Message → ℕ → Outcome HdState
  serve_hd unset st m pos =
      if m.type == MsgType.dev_open
      then (do
        r ← hd_open unset st.hd_info m.m3i4 st.drive
        done (record st { hd_info = r.0; drive = r.1 }))
      else if m.type == device_close
      then (do h ← hd_close st.hd_info m.m3i4; done (record st { hd_info = h }))
      else if m.type == MsgType.dev_read || m.type == MsgType.dev_write
      then (do
        r ← hd_rdwt d st.hd_info st.kernel m pos st.drive
        done (record st { kernel = r.0; drive = r.1 }))
      else if m.type == device_ioctl
      then (do k ← hd_ioctl st.hd_info st.kernel m; done (record st { kernel = k }))
      else halt spinning

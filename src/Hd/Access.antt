-- ===== src/Hd/Access.antt =====
-- Reading and writing sectors: hd_cmd_out and hd_rdwt of kernel/hd.c.
pub mod Sectors
pub mod Request
use bz_os.Prelude.{
  ℕ, zero, suc, ◌+◌, ◌-◌, ◌*◌, ◌/◌, ◌%◌, ◌^◌, Bool, Option, none, some, Outcome, done, halt, panic,
  spinning, assert, ◌>>=◌, ◌>>◌, ltb, leb, ◌==◌, if◌then◌else◌,
}
use bz_os.Kernel.State.{Kernel}
use bz_os.Kernel.Descriptor.{va2la}
use bz_os.Fs.MsgType
use bz_os.Fs.Files.{Message, copy_bytes}
use bz_os.Fs.State.{sector_size}
use bz_os.Hd.Drive.{Drive, Command, ata_read, ata_write}

abbrev pub nr_part_per_drive : ℕ
nr_part_per_drive = 4

abbrev pub nr_sub_per_part : ℕ
nr_sub_per_part = 16

abbrev pub nr_sub_per_drive : ℕ
nr_sub_per_drive = nr_part_per_drive * nr_sub_per_part

abbrev pub nr_prim_per_drive : ℕ
nr_prim_per_drive = nr_part_per_drive + 1

-- MAX_DRIVES is 2
abbrev pub max_prim : ℕ
max_prim = 2 * nr_prim_per_drive - 1

abbrev pub minor_hd1a : ℕ
minor_hd1a = 0x10

pub record PartInfo : Type 0 where
  pub base : ℕ
  pub size : ℕ

pub record HdInfo : Type 0 where
  pub open_cnt : ℕ
  pub primary : ℕ → PartInfo
  pub logical : ℕ → PartInfo

-- DRV_OF_DEV
abbrev pub drv_of_dev : ℕ → ℕ
drv_of_dev dev =
    if leb dev max_prim then dev / nr_prim_per_drive else (dev - minor_hd1a) / nr_sub_per_drive

-- MAKE_DEVICE_REG; the parts do not overlap
abbrev pub make_device_reg : ℕ → ℕ → ℕ → ℕ
make_device_reg lba drv lba_highest = lba * 2 ^ 6 + drv * 2 ^ 4 + lba_highest % 16 + 0xa0

-- where a device begins on its drive
abbrev pub device_base : (ℕ → HdInfo) → ℕ → ℕ
device_base hd_info device =
    let hdi : HdInfo = hd_info (drv_of_dev device) in
    if ltb device max_prim
    then (hdi.primary device).base
    else (hdi.logical ((device - minor_hd1a) % nr_sub_per_drive)).base

-- the command for cnt bytes from a sector on; the count is kept in a byte
abbrev pub transfer_command : ℕ → ℕ → ℕ → ℕ → Command
transfer_command type drive sect_nr cnt = record {
  features = 0;
  count = (cnt + sector_size - 1) / sector_size % 2 ^ 8;
  lba_low = sect_nr % 2 ^ 8;
  lba_mid = sect_nr / 2 ^ 8 % 2 ^ 8;
  lba_high = sect_nr / 2 ^ 16 % 2 ^ 8;
  device = make_device_reg 1 drive (sect_nr / 2 ^ 24 % 16) % 2 ^ 8;
  command = if type == MsgType.dev_read then ata_read else ata_write;
}

module _ (d : Drive) where
  -- hd_cmd_out; a drive that stays busy is a panic
  pub hd_cmd_out : Command → d.State → Outcome d.State
  hd_cmd_out cmd s = if d.ready s then done (d.command cmd s) else halt panic

  -- The body of the while loop, for `bytes` bytes at the address la. A read without its interrupt waits
  -- for ever; a write panics when the drive does not ask for the data in time.
  pub move_sector : ℕ → ℕ → ℕ → (ℕ → ℕ) → d.State → Outcome ((ℕ → ℕ) × d.State)
  move_sector type la bytes mem s =
      if type == MsgType.dev_read
      then elim (d.read s) [
        | none ↦ halt spinning
        | some (hdbuf, s') ↦ done (copy_bytes la 0 bytes hdbuf mem, s')
      ]
      else elim (d.write (λ x. mem (la + x)) s) [ none ↦ halt panic | some s' ↦ done (mem, s') ]

  -- while(bytes_left), which sectors turns are enough for. When fewer bytes than a sector's are left,
  -- bytes_left becomes negative, not 0, and the loop goes on; the model stops there.
  pub move_sectors : ℕ → ℕ → ℕ → ℕ → (ℕ → ℕ) → d.State → Outcome ((ℕ → ℕ) × d.State)
  move_sectors zero type la bytes_left mem s =
      if bytes_left == 0 then done (mem, s) else halt spinning
  move_sectors (suc n) type la bytes_left mem s =
      let bytes : ℕ = if ltb sector_size bytes_left then sector_size else bytes_left in
      let rest = move_sector type la bytes mem s >>= λ r.
      if ltb bytes_left sector_size
      then halt spinning
      else move_sectors n type (la + sector_size) (bytes_left - sector_size) r.0 r.1 in
      if bytes_left == 0 then done (mem, s) else rest

  -- pos is POSITION of the message
  pub hd_rdwt : (ℕ → HdInfo) → Kernel → Message → ℕ → d.State → Outcome (Kernel × d.State)
  hd_rdwt hd_info k m pos s = do
    assert (ltb (pos / 2 ^ 9) (2 ^ 31))
    assert (pos % 0x200 == 0)
    let sect_nr = (pos / 2 ^ 9 + device_base hd_info m.m3i4) % 2 ^ 32
    s1 ← hd_cmd_out (transfer_command m.type (drv_of_dev m.m3i4) sect_nr m.m3i2) s
    la ← va2la k m.m3i3 m.m3p2
    r ← move_sectors (m.m3i2 / sector_size + 1) m.type la m.m3i2 k.mem s1
    done (record k { mem = r.0 }, r.1)

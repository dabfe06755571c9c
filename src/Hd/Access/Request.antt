-- ===== src/Hd/Access/Request.antt =====
-- A message to the disk driver moves just the sectors that it names: hd_rdwt of kernel/hd.c, with a drive
-- that behaves as documented.
use bz_os.Prelude.{ℕ, ◌+◌, ◌*◌, ◌^◌, ◌≤◌, ◌<◌, ◌≡◌, true, done}
use bz_os.Kernel.State.{Kernel}
use bz_os.Kernel.Descriptor.{va2la}
use bz_os.Fs.MsgType
use bz_os.Fs.Files.{Message}
use bz_os.Fs.State.{sector_size}
use bz_os.Hd.Drive.{Drive, IsAta, Command}
use bz_os.Hd.Access.{HdInfo, device_base, drv_of_dev, transfer_command}

-- A message about c sectors from the i-th of its device on, which is on drive 0; there are at most 256
-- of them, and they lie below 2^28.
pub record Names (hd_info : ℕ → HdInfo) (m : Message) (pos i c : ℕ) : Type 0 where
  pub drive : drv_of_dev m.m3i4 ≡ 0
  pub first : pos ≡ i * sector_size
  pub count : m.m3i2 ≡ c * sector_size
  pub some_sectors : 0 < c
  pub few : c ≤ 256
  pub low : device_base hd_info m.m3i4 + i < 2 ^ 28

module _ (d : Drive) (sector : d.State → ℕ → ℕ → ℕ) (ata : IsAta d sector) (hd_info : ℕ → HdInfo)
    (k : Kernel) (m : Message) (pos i c la : ℕ) (s : d.State) (ready : d.ready s ≡ true)
    (names : Names hd_info m pos i c) (mapped : va2la k m.m3i3 m.m3p2 ≡ done la) where
  abbrev lba : ℕ
  lba = device_base hd_info m.m3i4 + i

  abbrev cmd : Command
  cmd = transfer_command m.type 0 lba (c * sector_size)

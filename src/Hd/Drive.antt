-- ===== src/Hd/Drive.antt =====
-- What the driver of kernel/hd.c relies on: the drive behind the ports. Its command block registers are
-- hd_cmd of include/sys/hd.h.
use bz_os.Prelude.{
  ℕ, suc, ◌+◌, ◌*◌, ◌%◌, ◌^◌, ◌≡◌, ◌<◌, Option, some, Bool, true, ◌==◌, if◌then◌else◌,
}

pub record Command : Type 0 where
  pub features : ℕ
  pub count : ℕ
  pub lba_low : ℕ
  pub lba_mid : ℕ
  pub lba_high : ℕ
  pub device : ℕ
  pub command : ℕ

abbrev pub ata_identify : ℕ
ata_identify = 0xec

abbrev pub ata_read : ℕ
ata_read = 0x20

abbrev pub ata_write : ℕ
ata_write = 0x30

-- A drive: whether it becomes ready for a command in time; a command written to its registers; the next
-- sector that it interrupts for and hands over; a sector that it takes, with the interrupt after it.
-- `none` is an interrupt that never comes, or no request for data in time.
pub record Drive : Type 1 where
  pub State : Type 0
  pub ready : State → Bool
  pub command : Command → State → State
  pub read : State → Option ((ℕ → ℕ) × State)
  pub write : (ℕ → ℕ) → State → Option State

-- the sectors that a command moves: the count register 0 stands for 256
abbrev pub sectors_of : ℕ → ℕ
sectors_of count = if count == 0 then 256 else count

-- the sector that the registers name, in LBA mode
abbrev pub lba_of : Command → ℕ
lba_of c = c.lba_low + c.lba_mid * 2 ^ 8 + c.lba_high * 2 ^ 16 + c.device % 16 * 2 ^ 24

-- The documented behaviour of an ATA drive, with 0 in the features and LBA mode for drive 0 in the device
-- register: `sector` is what is on the disk, `Reads a n` and `Writes a n` are the states in which n
-- sectors from a on are still to be handed over or taken.
pub record IsAta (d : Drive) (sector : d.State → ℕ → ℕ → ℕ) : Type 1 where
  pub Reads : ℕ → ℕ → d.State → Type 0
  pub Writes : ℕ → ℕ → d.State → Type 0
  pub read_command :
      (c : Command) (s : d.State)
      → d.ready s ≡ true
      → c.command ≡ ata_read
      → c.device ≡ 0xe0 + c.device % 16
      → Reads (lba_of c) (sectors_of c.count) (d.command c s) × (sector (d.command c s) ≡ sector s)
  pub write_command :
      (c : Command) (s : d.State)
      → d.ready s ≡ true
      → c.command ≡ ata_write
      → c.device ≡ 0xe0 + c.device % 16
      → Writes (lba_of c) (sectors_of c.count) (d.command c s) × (sector (d.command c s) ≡ sector s)
  pub read_next :
      (a n : ℕ) (s : d.State)
      → Reads a (suc n) s
      → (buf : ℕ → ℕ) × (s' : d.State) × (d.read s ≡ some (buf, s'))
        × ((x : ℕ) → x < 512 → buf x ≡ sector s a x)
        × Reads (a + 1) n s'
        × (sector s' ≡ sector s)
  pub write_next :
      (a n : ℕ) (s : d.State) (buf : ℕ → ℕ)
      → Writes a (suc n) s
      → (s' : d.State) × (d.write buf s ≡ some s')
        × ((b x : ℕ) → x < 512 → sector s' b x ≡ (if b == a then buf x else sector s b x))
        × Writes (a + 1) n s'

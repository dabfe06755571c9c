-- ===== src/Hd/Tests.antt =====
-- A drive with a table of sectors; two of its sectors are read and written.
use bz_os.Prelude.{
  ℕ, ◌+◌, ◌-◌, ◌*◌, ◌≡◌, some, none, Bool, true, false, not, ◌||◌, if◌then◌else◌, ◌==◌,
}
use bz_os.Kernel.State.{Kernel}
use bz_os.Kernel.Boot.{blank_process}
use bz_os.Fs.MsgType
use bz_os.Fs.Files.{Message}
use bz_os.Hd.Drive.{Drive, ata_write, sectors_of, lba_of}
use bz_os.Hd.Access.{HdInfo}

record Disk : Type 0 where
  sectors : ℕ → ℕ → ℕ
  next : ℕ
  left : ℕ
  writing : Bool

abbrev disk_drive : Drive
disk_drive = record {
  State = Disk;
  ready = λ s. true;
  command = λ c s. record s {
    next = lba_of c;
    left = sectors_of c.count;
    writing = c.command == ata_write;
  };
  read = λ s.
      if s.writing || s.left == 0
      then none
      else some (s.sectors s.next, record s { next = s.next + 1; left = s.left - 1 });
  write = λ buf s.
      if not s.writing || s.left == 0
      then none
      else some (record s {
        sectors = λ b x. if b == s.next then buf x else s.sectors b x;
        next = s.next + 1;
        left = s.left - 1;
      });
}

record InTransfer (writing : Bool) (a n : ℕ) (s : Disk) : Type 0 where
  next : s.next ≡ a
  left : s.left ≡ n
  direction : s.writing ≡ writing

-- The byte b of the sector i is i + b.
abbrev disk : Disk
disk = record { sectors = λ i b. i + b; next = 0; left = 0; writing = false }

-- The first partition begins at the sector 63.
abbrev hd_info : ℕ → HdInfo
hd_info _ = record {
  open_cnt = 1;
  primary = λ i. record { base = 63 * i; size = 100 };
  logical = λ i. record { base = 0; size = 0 };
}

abbrev kernel : Kernel
kernel = record {
  procs = λ _. blank_process 6;
  p_proc_ready = 3;
  mem = λ a. a;
  k_reenter = 0;
  tick_count = 0;
  key_pressed = 0;
}

-- two sectors from the third of the device 1 on
abbrev message : ℕ → Message
message type = record {
  source = 3;
  type = type;
  m3i1 = 0;
  m3i2 = 1024;
  m3i3 = 6;
  m3i4 = 1;
  m3p1 = 0;
  m3p2 = 4096;
}

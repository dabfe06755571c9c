-- ===== src/Fs/Files.antt =====
-- What the task of the file system works on: fs_msg, f_desc_table[] and the processes that call it
-- (include/type.h, include/sys/fs.h, include/sys/const.h, include/stdio.h), and several sectors at once
-- (rw_sector of fs/main.c).
use bz_os.Prelude.{
  ℕ, zero, suc, ◌+◌, ◌-◌, ◌*◌, ◌/◌, ◌%◌, ◌^◌, ◌≡◌, ◌≢◌, arith, ◌&&◌, Option, ℕ_discrete, ap, ◌∙◌,
  Outcome, ltb, leb, if◌then◌else◌, update,
}
use bz_os.Kernel.State.{Kernel}
use bz_os.Fs.State.{Fs, sector_size}

abbrev pub nr_files : ℕ
nr_files = 64

abbrev pub nr_file_desc : ℕ
nr_file_desc = 64

abbrev pub o_creat : ℕ
o_creat = 1

abbrev pub o_rdwr : ℕ
o_rdwr = 2

abbrev pub max_path : ℕ
max_path = 128

abbrev pub root_inode_nr : ℕ
root_inode_nr = 1

abbrev pub i_directory : ℕ
i_directory = 0x4000

abbrev pub i_char_special : ℕ
i_char_special = 0x2000

-- i_mode & I_TYPE_MASK
abbrev pub imode : ℕ → ℕ
imode mode = mode / 2 ^ 12 % 16 * 2 ^ 12

abbrev pub major : ℕ → ℕ
major dev = dev / 2 ^ 8 % 2 ^ 8

abbrev pub minor : ℕ → ℕ
minor dev = dev % 2 ^ 8

-- MESSAGE with its part m3. FD, FLAGS and RETVAL are m3i1; CNT, NAME_LEN and PID are m3i2; PROC_NR is
-- m3i3, DEVICE m3i4, PATHNAME m3p1 and BUF m3p2.
pub record Message : Type 0 where
  pub source : ℕ
  pub type : ℕ
  pub m3i1 : ℕ
  pub m3i2 : ℕ
  pub m3i3 : ℕ
  pub m3i4 : ℕ
  pub m3p1 : ℕ
  pub m3p2 : ℕ

-- file_desc; a pointer to an inode is an index of inode_table[]
pub record FileDesc : Type 0 where
  pub fd_mode : ℕ
  pub fd_pos : ℕ
  pub fd_cnt : ℕ
  pub fd_inode : Option ℕ

-- fs_type is the type of fs_msg, in which the answer of a driver to a read or a write comes back.
pub record Server : Type 0 where
  pub fs : Fs
  pub f_desc_table : ℕ → FileDesc
  pub root_inode : ℕ
  pub kernel : Kernel
  pub fs_type : ℕ

-- send_recv(BOTH, driver, &msg): what comes back in the message, and the world after it
abbrev pub Driver : Type 0
Driver = ℕ → Message → Server → Outcome (Message × Server)

-- n bytes from the index s of src to the index d of dst
unfoldable pub copy_bytes : ℕ → ℕ → ℕ → (ℕ → ℕ) → (ℕ → ℕ) → ℕ → ℕ
copy_bytes d s zero src dst = dst
copy_bytes d s (suc n) src dst = copy_bytes (d + 1) (s + 1) n src (update dst d (src s))

-- rw_sector(DEV_READ or DEV_WRITE, dev, i * SECTOR_SIZE, chunk * SECTOR_SIZE, TASK_FS, fsbuf)
abbrev pub rd_chunk : Fs → ℕ → ℕ → ℕ → Fs
rd_chunk s dev i chunk = record s {
  fsbuf = λ x.
      if ltb x (chunk * sector_size)
      then s.disk dev (i + x / sector_size) (x % sector_size)
      else s.fsbuf x;
}

abbrev pub wr_chunk : Fs → ℕ → ℕ → ℕ → Fs
wr_chunk s dev i chunk = record s {
  disk = update s.disk dev λ sect b.
      if leb i sect && (ltb sect (i + chunk) && ltb b sector_size)
      then s.fsbuf ((sect - i) * sector_size + b)
      else s.disk dev sect b;
}

pub copy_bytes_lem :
    (d s n : ℕ) (src dst : ℕ → ℕ) (x : ℕ)
    → copy_bytes d s n src dst x ≡ (if leb d x && ltb x (d + n) then src (s + (x - d)) else dst x)
unfolding copy_bytes
copy_bytes_lem d s zero src dst x = ground arith
copy_bytes_lem d s (suc n) src dst x =
    copy_bytes_lem (d + 1) (s + 1) n src (update dst d (src s)) x ∙ shift
  where
    z : d ≡ x → s + (x - d) ≡ s
    z e = omega arith

    m : d ≢ x → x - d ≢ 0 → s + 1 + (x - (d + 1)) ≡ s + (x - d)
    m ne q = omega arith

    shift :
        (if leb (d + 1) x && ltb x (d + 1 + n)
          then src (s + 1 + (x - (d + 1)))
          else update dst d (src s) x)
        ≡ (if leb d x && ltb x (d + suc n) then src (s + (x - d)) else dst x)
    shift = elim (ℕ_discrete d x) [
      | yes e ↦ ground (arith, ap src (z e))
      | no ne ↦ elim (ℕ_discrete (x - d) 0) [
        | yes q ↦ ground arith
        | no q ↦ ground (arith, ap src (m ne q))
      ]
    ]

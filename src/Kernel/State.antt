-- ===== src/Kernel/State.antt =====
-- The process table and the globals of the kernel: include/sys/proc.h, include/sys/const.h,
-- include/sys/protect.h, include/sys/global.h.
use bz_os.Prelude.{ℕ, ◌+◌, ◌-◌, ◌/◌, ◌%◌, ◌^◌, Bool, Option, List, ◌==◌, if◌then◌else◌}
use bz_os.Prelude.Int.{ℤ}

-- An `int` that is only stored and compared is its 32-bit pattern.
abbrev pub nr_tasks : ℕ
nr_tasks = 5

abbrev pub nr_native_procs : ℕ
nr_native_procs = 4

abbrev pub nr_procs : ℕ
nr_procs = 32

-- the entries of proc_table[]
abbrev pub table_size : ℕ
table_size = nr_tasks + nr_procs

abbrev pub any : ℕ
any = nr_tasks + nr_procs + 10

abbrev pub no_task : ℕ
no_task = nr_tasks + nr_procs + 20

-- -10
abbrev pub interrupt : ℕ
interrupt = 2 ^ 32 - 10

abbrev pub task_tty : ℕ
task_tty = 0

abbrev pub task_sys : ℕ
task_sys = 1

abbrev pub task_hd : ℕ
task_hd = 2

abbrev pub task_fs : ℕ
task_fs = 3

abbrev pub task_mm : ℕ
task_mm = 4

-- process status
abbrev pub sending : ℕ
sending = 0x02

abbrev pub receiving : ℕ
receiving = 0x04

abbrev pub free_slot : ℕ
free_slot = 0x20

-- flags & m, flags |= m and flags &= ~m, for a mask m of one bit
abbrev pub has : ℕ → ℕ → Bool
has flags m = (flags / m) % 2 == 1

abbrev pub raise : ℕ → ℕ → ℕ
raise flags m = if has flags m then flags else flags + m

abbrev pub lower : ℕ → ℕ → ℕ
lower flags m = if has flags m then flags - m else flags

pub record Descriptor : Type 0 where
  pub limit_low : ℕ
  pub base_low : ℕ
  pub base_mid : ℕ
  pub attr1 : ℕ
  pub limit_high_attr2 : ℕ
  pub base_high : ℕ

-- PROCESS. A pointer to a process is its pid, a null pointer `none`; an address is a number and the
-- null address 0. `filp` holds indices of f_desc_table[].
pub record Process : Type 0 where
  pub ldt_sel : ℕ
  pub ldt_c : Descriptor
  pub ldt_rw : Descriptor
  pub ticks : ℤ
  pub priority : ℤ
  pub name : List ℕ
  pub flags : ℕ
  pub p_msg : ℕ
  pub recv_from : ℕ
  pub send_to : ℕ
  pub has_int_msg : ℕ
  pub q_sending : Option ℕ
  pub next_sending : Option ℕ
  pub filp : ℕ → Option ℕ
  pub parent : ℕ

-- `procs` is proc_table[], and at an index that is no pid the memory which the code would read
-- there; `mem` is the memory by linear address, a byte each.
pub record Kernel : Type 0 where
  pub procs : ℕ → Process
  pub p_proc_ready : ℕ
  pub mem : ℕ → ℕ
  pub k_reenter : ℕ
  pub tick_count : ℕ
  pub key_pressed : ℕ

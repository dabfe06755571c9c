-- ===== src/Kernel/Boot.antt =====
-- The process table at the start: the end of init_prot (kernel/protect.c), kernel_main
-- (kernel/main.c), and the task tables of kernel/global.c.
pub mod Start
mod Tests
use bz_os.Prelude.{
  ℕ, zero, suc, ◌+◌, ◌-◌, ◌*◌, ◌/◌, ◌^◌, Bool, true, false, ◌&&◌, List, [], ◌∷◌, get_or, none, ltb,
  ◌==◌, if◌then◌else◌,
}
use bz_os.Prelude.Int.{pos}
use bz_os.Kernel.State.{
  Descriptor, Process, Kernel, nr_tasks, nr_native_procs, table_size, no_task, free_slot,
}
use bz_os.Kernel.Descriptor.{init_descriptor}

-- the names of task_table[] and then of user_proc_table[]: TTY, SYS, HD, FS, MM, INIT, TestA, TestB
-- and TestC
abbrev pub init_name : List ℕ
init_name = 73 ∷ 78 ∷ 73 ∷ 84 ∷ []

unfoldable pub task_names : List (List ℕ)
task_names =
    (84 ∷ 84 ∷ 89 ∷ [])
    ∷ (83 ∷ 89 ∷ 83 ∷ [])
    ∷ (72 ∷ 68 ∷ [])
    ∷ (70 ∷ 83 ∷ [])
    ∷ (77 ∷ 77 ∷ [])
    ∷ init_name
    ∷ (84 ∷ 101 ∷ 115 ∷ 116 ∷ 65 ∷ [])
    ∷ (84 ∷ 101 ∷ 115 ∷ 116 ∷ 66 ∷ [])
    ∷ (84 ∷ 101 ∷ 115 ∷ 116 ∷ 67 ∷ [])
    ∷ []

-- strcmp(name, "INIT") == 0
pub same_name : List ℕ → List ℕ → Bool
same_name [] [] = true
same_name (x ∷ xs) (y ∷ ys) = x == y && same_name xs ys
same_name _ _ = false

abbrev pub blank_descriptor : Descriptor
blank_descriptor = record {
  limit_low = 0;
  base_low = 0;
  base_mid = 0;
  attr1 = 0;
  limit_high_attr2 = 0;
  base_high = 0;
}

-- what init_prot leaves in the i-th entry
unfoldable pub blank_process : ℕ → Process
blank_process i = record {
  ldt_sel = 0x28 + i * 2 ^ 3;
  ldt_c = blank_descriptor;
  ldt_rw = blank_descriptor;
  ticks = pos 0;
  priority = pos 0;
  name = [];
  flags = 0;
  p_msg = 0;
  recv_from = 0;
  send_to = 0;
  has_int_msg = 0;
  q_sending = none;
  next_sending = none;
  filp = λ _. none;
  parent = 0;
}

-- The attributes: DA_32 | DA_LIMIT_4K | type | privilege << 5
abbrev pub da_c : ℕ
da_c = 0x98

abbrev pub da_drw : ℕ
da_drw = 0x92

abbrev pub attribute : ℕ → ℕ → ℕ
attribute type privilege = 0x4000 + 0x8000 + type + privilege * 2 ^ 5

-- A native process: the kernel's flat segments with another privilege, or for INIT segments as long as
-- the kernel's image, which ends at k_end (k_base + k_limit of get_kernel_map).
unfoldable pub native_process : (ℕ → Descriptor) → ℕ → ℕ → Process
native_process gdt k_end i =
    let name : List ℕ = get_or task_names i [] in
    let privilege : ℕ = if ltb i nr_tasks then 1 else 3 in
    let prio : ℕ = if ltb i nr_tasks then 15 else 5 in
    let init : Bool = same_name name init_name in
    record (blank_process i) {
      ldt_c =
          if init
          then init_descriptor 0 (k_end / 2 ^ 12) (attribute da_c privilege)
          else record (gdt 1) { attr1 = da_c + privilege * 2 ^ 5 };
      ldt_rw =
          if init
          then init_descriptor 0 (k_end / 2 ^ 12) (attribute da_drw privilege)
          else record (gdt 2) { attr1 = da_drw + privilege * 2 ^ 5 };
      ticks = pos prio;
      priority = pos prio;
      name = name;
      recv_from = no_task;
      send_to = no_task;
      parent = no_task;
    }

-- The table when kernel_main has filled it; `outside` is what lies before and behind it.
unfoldable pub boot_table : (ℕ → Descriptor) → ℕ → (ℕ → Process) → ℕ → Process
boot_table gdt k_end outside i =
    if ltb i (nr_tasks + nr_native_procs)
    then native_process gdt k_end i
    else if ltb i table_size
    then record (blank_process i) { flags = free_slot }
    else outside i

-- The state in which kernel_main starts the first process.
unfoldable pub kernel_main : (ℕ → Descriptor) → ℕ → (ℕ → Process) → (ℕ → ℕ) → Kernel
kernel_main gdt k_end outside mem = record {
  procs = boot_table gdt k_end outside;
  p_proc_ready = 0;
  mem = mem;
  k_reenter = 0;
  tick_count = 0;
  key_pressed = 0;
}

-- ===== src/Mm/Fork.antt =====
-- The fork of a process: do_fork of mm/forkexit.c.
pub mod Copy
pub mod Table
use bz_os.Prelude.{
  ℕ, zero, suc, ◌+◌, ◌-◌, ◌*◌, ◌/◌, ◌%◌, ◌^◌, Bool, true, false, not, ◌&&◌, List, [], ◌∷◌, Option,
  none, some, Outcome, done, halt, panic, assert, ◌>>=◌, ◌>>◌, ltb, ◌==◌, if◌then◌else◌, update,
}
use bz_os.Kernel.State.{
  Descriptor, Process, Kernel, nr_tasks, nr_native_procs, table_size, free_slot,
}
use bz_os.Kernel.Memory.{phys_copy}
use bz_os.Kernel.Descriptor.{init_descriptor, reassembly}
use bz_os.Kernel.Boot.{attribute, da_c, da_drw}
use bz_os.Library.Format.{vsprintf, str, word, percent}
use bz_os.Mm.Memory.{alloc_mem, proc_image_size_default}

-- the first of the n entries from i on whose flags are FREE_SLOT, or the index behind them
unfoldable pub find_slot : ℕ → ℕ → (ℕ → Process) → ℕ
find_slot zero i procs = i
find_slot (suc n) i procs =
    let rest = find_slot n (i + 1) procs in if (procs i).flags == free_slot then i else rest

-- The base, the limit and the size in bytes of a segment; a size is an int, of 32 bits.
abbrev pub seg_base : Descriptor → ℕ
seg_base d = reassembly d.base_high 24 d.base_mid 16 d.base_low

abbrev pub seg_limit : Descriptor → ℕ
seg_limit d = reassembly 0 0 (d.limit_high_attr2 % 16) 16 d.limit_low

-- limit_high_attr2 & (DA_LIMIT_4K >> 8)
abbrev pub granularity : Descriptor → ℕ
granularity d = if d.limit_high_attr2 / 2 ^ 7 % 2 == 1 then 4096 else 1

abbrev pub seg_size : Descriptor → ℕ
seg_size d = (seg_limit d + 1) * granularity d % 2 ^ 32

-- The assertion that text, data and stack share a segment. The size of the data segment is made from
-- the limit of the text segment, and the granularity of its own.
abbrev pub same_segment : Descriptor → Descriptor → Bool
same_segment c rw =
    seg_base c == seg_base rw
    && (seg_limit c == reassembly (rw.limit_high_attr2 % 16) 16 0 0 rw.limit_low
        && seg_size c == (seg_limit c + 1) * granularity rw % 2 ^ 32)

-- sprintf(p->name, "%s_%d", ...)
abbrev pub child_name : List ℕ → ℕ → Outcome (List ℕ)
child_name name pid =
    elim (vsprintf (percent ∷ 115 ∷ 95 ∷ percent ∷ 100 ∷ []) (str name ∷ word pid ∷ [])) [
      | none ↦ halt panic
      | some s ↦ done s
    ]

-- the child's segments, a megabyte from its base
abbrev pub image_descriptor : ℕ → ℕ → Descriptor
image_descriptor base type =
    init_descriptor base ((proc_image_size_default - 1) / 2 ^ 12) (attribute type 3)

-- the child's entry: the parent's, with its own selector, parent, name and segments
abbrev pub child_process : Process → ℕ → ℕ → List ℕ → ℕ → Process
child_process parent ldt_sel pid name base = record parent {
  ldt_sel = ldt_sel;
  parent = pid;
  name = name;
  ldt_c = image_descriptor base da_c;
  ldt_rw = image_descriptor base da_drw;
}

-- do_fork with a free slot: the new process, its memory, and then the messages, FORK to TASK_FS about
-- the child, and SYSCALL_RET with PID 0 to the child, which is received as the parent's would be.
unfoldable pub fork_into : Kernel → ℕ → ℕ → ℕ → Outcome Kernel
fork_into k memory_size pid child_pid = do
  let parent = k.procs pid
  name ← child_name parent.name child_pid
  assert (same_segment parent.ldt_c parent.ldt_rw)
  base ← alloc_mem memory_size child_pid (seg_size parent.ldt_c)
  done (record k {
    procs =
        update k.procs child_pid (child_process parent (k.procs child_pid).ldt_sel pid name base);
    mem = phys_copy base (seg_base parent.ldt_c) (seg_size parent.ldt_c) k.mem;
  })

-- What do_fork has done before it sends its messages: `none` is the result -1, with a full table;
-- otherwise the child's pid, which both messages are about.
unfoldable pub do_fork : Kernel → ℕ → ℕ → Outcome (Option ℕ × Kernel)
do_fork k memory_size pid = do
  let i = find_slot table_size 0 k.procs
  assert (not (ltb i (nr_tasks + nr_native_procs)))
  if i == table_size
      then done (none, k)
      else (do k' ← fork_into k memory_size pid i; done (some i, k'))

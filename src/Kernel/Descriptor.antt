-- ===== src/Kernel/Descriptor.antt =====
-- Segment descriptors: init_descriptor and seg2linear of kernel/protect.c, ldt_seg_linear and va2la
-- of kernel/proc.c, reassembly of include/sys/protect.h. The parts that `|` joins do not overlap.
pub mod Fields
use bz_os.Prelude.{
  ℕ, ◌+◌, ◌*◌, ◌/◌, ◌%◌, ◌^◌, Outcome, done, assert, ◌>>=◌, ◌>>◌, ltb, ◌==◌, if◌then◌else◌,
}
use bz_os.Kernel.State.{Descriptor, Process, Kernel, nr_tasks, nr_native_procs}

-- base, limit and attribute are a u32, a u32 and a u16
unfoldable pub init_descriptor : ℕ → ℕ → ℕ → Descriptor
init_descriptor base limit attribute = record {
  limit_low = limit % 2 ^ 16;
  base_low = base % 2 ^ 16;
  base_mid = base / 2 ^ 16 % 2 ^ 8;
  attr1 = attribute % 2 ^ 8;
  limit_high_attr2 = limit / 2 ^ 16 % 16 + attribute / 2 ^ 8 / 16 % 16 * 16;
  base_high = base / 2 ^ 24 % 2 ^ 8;
}

abbrev pub reassembly : ℕ → ℕ → ℕ → ℕ → ℕ → ℕ
reassembly high high_shift mid mid_shift low = high * 2 ^ high_shift + mid * 2 ^ mid_shift + low

unfoldable pub seg2linear : (ℕ → Descriptor) → ℕ → ℕ
seg2linear gdt seg = d.base_high * 2 ^ 24 + d.base_mid * 2 ^ 16 + d.base_low
  where
    d : Descriptor
    d = gdt (seg / 8)

-- ldt_seg_linear(p, INDEX_LDT_RW): the one index that the code uses
unfoldable pub ldt_seg_linear : Process → ℕ
ldt_seg_linear p = d.base_high * 2 ^ 24 + d.base_mid * 2 ^ 16 + d.base_low
  where
    d : Descriptor
    d = p.ldt_rw

-- Virtual to linear address; the processes that are not forked have the base 0.
unfoldable pub va2la : Kernel → ℕ → ℕ → Outcome ℕ
unfolding ldt_seg_linear
va2la k pid va =
    let la = (ldt_seg_linear (k.procs pid) + va) % 2 ^ 32 in
    if ltb pid (nr_tasks + nr_native_procs) then (do assert (la == va); done la) else done la

-- ===== src/Kernel/Boot/Tests.antt =====
-- The start with a flat segment, and the first tick of the clock.
use bz_os.Prelude.{ℕ}
use bz_os.Kernel.State.{Descriptor, Kernel}
use bz_os.Kernel.Boot.{kernel_main, blank_process}

abbrev flat_gdt : ℕ → Descriptor
flat_gdt i = record {
  limit_low = 0xffff;
  base_low = 0;
  base_mid = 0;
  attr1 = 0x92;
  limit_high_attr2 = 0xcf;
  base_high = 0;
}

abbrev booted : Kernel
booted = kernel_main flat_gdt 0x40000 blank_process (λ _. 0)

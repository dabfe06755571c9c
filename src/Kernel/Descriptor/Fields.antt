-- ===== src/Kernel/Descriptor/Fields.antt =====
-- What a descriptor says of its segment is what it was made from.
use bz_os.Prelude.{ℕ, ◌+◌, ◌/◌, ◌%◌, ◌^◌, ◌≡◌, ◌<◌, ◌≤◌, arith, done}
use bz_os.Kernel.State.{Kernel, nr_tasks, nr_native_procs}
use bz_os.Kernel.Descriptor.{init_descriptor, reassembly, va2la}

-- For a base below 2^32 and a limit below 2^20: reassembling the fields of the descriptor that
-- init_descriptor makes gives back the base and the limit, and the attribute bytes hold the low
-- byte and the high four bits of the attribute.
pub init_descriptor_fields :
    (base limit attribute : ℕ)
    → base < 2 ^ 32
    → limit < 2 ^ 20
    → let d = init_descriptor base limit attribute in
      (reassembly d.base_high 24 d.base_mid 16 d.base_low ≡ base)
      × (reassembly 0 0 (d.limit_high_attr2 % 16) 16 d.limit_low ≡ limit)
      × (d.attr1 ≡ attribute % 2 ^ 8)
      × (d.limit_high_attr2 / 16 ≡ attribute / 2 ^ 12 % 16)
unfolding init_descriptor
init_descriptor_fields base limit attribute hb hl = omega arith

-- For a forked process whose descriptor was made by init_descriptor with a base below 2^32, va2la
-- returns the sum of the base and the virtual address modulo 2^32.
pub va2la-init_descriptor :
    (k : Kernel) (pid base limit attribute va : ℕ)
    → base < 2 ^ 32
    → nr_tasks + nr_native_procs ≤ pid
    → (k.procs pid).ldt_rw ≡ init_descriptor base limit attribute
    → va2la k pid va ≡ done ((base + va) % 2 ^ 32)
unfolding va2la init_descriptor
va2la-init_descriptor k pid base limit attribute va hb hp e = ground arith

-- ===== src/Mm/Memory.antt =====
-- The memory of the forked processes: alloc_mem of mm/main.c, which gives each its own megabyte.
use bz_os.Prelude.{
  ℕ, ◌+◌, ◌-◌, ◌*◌, ◌%◌, ◌^◌, ◌≤◌, ◌<◌, ◌≡◌, ◌≢◌, ◌⊎◌, arith, not, Outcome, done, assert, panic_if,
  ◌>>◌, ltb, if◌then◌else◌,
}
use bz_os.Prelude.Int.{ℤ, pos, negsuc, ltb_ℤ}
use bz_os.Kernel.State.{nr_tasks, nr_native_procs, table_size}

abbrev pub procs_base : ℕ
procs_base = 0xa00000

abbrev pub proc_image_size_default : ℕ
proc_image_size_default = 0x100000

-- the int of a 32-bit pattern
abbrev pub as_int : ℕ → ℤ
as_int w = if ltb w (2 ^ 31) then pos w else negsuc (2 ^ 32 - 1 - w)

-- memsize and the result are ints as 32-bit patterns, and so is memory_size
unfoldable pub alloc_mem : ℕ → ℕ → ℕ → Outcome ℕ
alloc_mem memory_size pid memsize = do
  assert (not (ltb pid (nr_tasks + nr_native_procs)))
  panic_if (ltb_ℤ (pos proc_image_size_default) (as_int memsize))
  let base = procs_base + (pid - (nr_tasks + nr_native_procs)) * proc_image_size_default
  panic_if (not (ltb_ℤ (as_int ((base + memsize) % 2 ^ 32)) (as_int memory_size)))
  done base

-- the base of the megabyte of a pid
abbrev pub image_base : ℕ → ℕ
image_base pid = procs_base + (pid - (nr_tasks + nr_native_procs)) * proc_image_size_default

-- What a request that alloc_mem grants was like.
pub alloc_mem_granted :
    (memory_size pid memsize base : ℕ)
    → pid < table_size
    → memsize < 2 ^ 31
    → memory_size < 2 ^ 31
    → alloc_mem memory_size pid memsize ≡ done base
    → (nr_tasks + nr_native_procs ≤ pid)
      × (memsize ≤ proc_image_size_default)
      × (base ≡ image_base pid)
      × (base + memsize < memory_size)
unfolding alloc_mem
alloc_mem_granted memory_size pid memsize base lt small fits e = ground arith

-- For pids of the table and sizes and a memory below 2^31: the block that alloc_mem grants begins at
-- 10MB or above and ends before the end of the memory, and the blocks that it grants to two
-- different pids do not meet.
pub alloc_mem_disjoint :
    (memory_size p q n m base base' : ℕ)
    → p < table_size
    → q < table_size
    → p ≢ q
    → n < 2 ^ 31
    → m < 2 ^ 31
    → memory_size < 2 ^ 31
    → alloc_mem memory_size p n ≡ done base
    → alloc_mem memory_size q m ≡ done base'
    → (procs_base ≤ base) × (base + n < memory_size) × ((base + n ≤ base') ⊎ (base' + m ≤ base))
alloc_mem_disjoint memory_size p q n m base base' lp lq ne ln lm fits e e' =
    let g = alloc_mem_granted memory_size p n base lp ln fits e in
    let g' = alloc_mem_granted memory_size q m base' lq lm fits e' in ground arith

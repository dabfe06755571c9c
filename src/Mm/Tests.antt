-- ===== src/Mm/Tests.antt =====
-- A fork of the process 9, which waits for TASK_MM in the megabyte from 10MB on; the entry 10 is free.
use bz_os.Prelude.{
  ℕ, ◌+◌, ◌<◌, ◌≤◌, ◌≡◌, ◌⊎◌, refl, arith, none, [], ◌∷◌, done, if◌then◌else◌, ltb, ◌==◌, update,
}
use bz_os.Prelude.Int.{pos}
use bz_os.Kernel.State.{Process, Kernel, free_slot, receiving, task_mm, no_task}
use bz_os.Kernel.Memory.{phys_copy}
use bz_os.Kernel.Boot.{da_c, da_drw, blank_descriptor}
use bz_os.Mm.Memory.{alloc_mem, alloc_mem_disjoint, procs_base, image_base}
use bz_os.Mm.Fork.{image_descriptor, child_process}

alloc_mem_test : alloc_mem 0x2000000 9 0x1000 ≡ done 0xa00000
unfolding alloc_mem
alloc_mem_test = refl

alloc_mem_disjoint_example :
    (procs_base ≤ 0xa00000)
    × (0xa00000 + 0x1000 < 0x2000000)
    × ((0xa00000 + 0x1000 ≤ 0xb00000) ⊎ (0xb00000 + 0x100000 ≤ 0xa00000))
unfolding alloc_mem
alloc_mem_disjoint_example =
    alloc_mem_disjoint 0x2000000 9 10 0x1000 0x100000 0xa00000 0xb00000 (omega arith) (omega arith)
      (omega arith) (omega arith) (omega arith) (omega arith) refl refl

abbrev waiting : Process
waiting = record {
  ldt_sel = 0x70;
  ldt_c = image_descriptor 0xa00000 da_c;
  ldt_rw = image_descriptor 0xa00000 da_drw;
  ticks = pos 5;
  priority = pos 5;
  name = 73 ∷ [];
  flags = receiving;
  p_msg = 0x1000;
  recv_from = task_mm;
  send_to = no_task;
  has_int_msg = 0;
  q_sending = none;
  next_sending = none;
  filp = λ _. none;
  parent = 5;
}

-- the others are ready, or free from 10 on
abbrev one_waits : ℕ → Process
one_waits i = record waiting {
  flags = if i == 9 then receiving else if ltb i 9 then 0 else free_slot;
  p_msg = if i == 9 then 0x1000 else 0;
  recv_from = if i == 9 then task_mm else no_task;
  ldt_rw = if ltb i 9 then blank_descriptor else image_descriptor 0xa00000 da_drw;
}

abbrev with_one : Kernel
with_one = record {
  procs = one_waits;
  p_proc_ready = 4;
  mem = λ a. a;
  k_reenter = 0;
  tick_count = 0;
  key_pressed = 0;
}

-- the child's name is "I_10"
abbrev forked : Kernel
forked = record with_one {
  procs =
      update one_waits 10
        (child_process (one_waits 9) 0x70 9 (73 ∷ 95 ∷ 49 ∷ 48 ∷ []) (image_base 10));
  mem = phys_copy 0xb00000 0xa00000 0x100000 (λ a. a);
}

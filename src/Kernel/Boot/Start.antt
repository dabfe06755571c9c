-- ===== src/Kernel/Boot/Start.antt =====
-- The kernel starts in a safe state, so what holds in the states it reaches holds from the start on.
use mathlib.Core.Path.{subst}
use bz_os.Prelude.{
  ℕ, ◌+◌, ◌<◌, ◌≤◌, ◌≡◌, inl, inr, refl, sym, ap, ◌∙◌, arith, false, [], none, ltb, Bool-cases,
  get_or,
}
use bz_os.Kernel.State.{
  Descriptor, Process, Kernel, nr_tasks, nr_native_procs, table_size, interrupt, has, sending,
  free_slot,
}
use bz_os.Kernel.Ipc.{target}
use bz_os.Kernel.Descriptor.{ldt_seg_linear, init_descriptor}
use bz_os.Kernel.Ipc.Invariant.{Inv, Status, Ready}
use bz_os.Kernel.System.Calls.{IsSafe}
use bz_os.Kernel.Boot.{
  boot_table, native_process, blank_process, kernel_main, same_name, task_names, init_name,
}

-- The segment of the kernel's data begins at 0.
abbrev pub IsFlat : (ℕ → Descriptor) → Type 0
IsFlat gdt = ((gdt 2).base_high ≡ 0) × ((gdt 2).base_mid ≡ 0) × ((gdt 2).base_low ≡ 0)

module _ (gdt : ℕ → Descriptor) (k_end : ℕ) (outside : ℕ → Process) where
  abbrev table : ℕ → Process
  table = boot_table gdt k_end outside

  native : (i : ℕ) → i < nr_tasks + nr_native_procs → table i ≡ native_process gdt k_end i
  unfolding boot_table
  native i lt = ground arith

  spare :
      (i : ℕ)
      → nr_tasks + nr_native_procs ≤ i
      → i < table_size
      → table i ≡ record (blank_process i) { flags = free_slot }
  unfolding boot_table
  spare i ge lt = ground arith

  outer : (i : ℕ) → table_size ≤ i → table i ≡ outside i
  unfolding boot_table
  outer i ge = ground arith

  native-Ready : (i : ℕ) → Ready (native_process gdt k_end i)
  unfolding native_process blank_process
  native-Ready i = (refl, refl, refl, refl)

  native_base : IsFlat gdt → (i : ℕ) → ldt_seg_linear (native_process gdt k_end i) ≡ 0
  unfolding native_process ldt_seg_linear init_descriptor blank_process
  native_base f i = elim (Bool-cases (same_name (get_or task_names i []) init_name)) [
    | inl e ↦ rw e refl
    | inr e ↦ rw e (omega (arith, f.0, f.1, f.2))
  ]

  -- neither sending nor sent to, and in a proper state
  abbrev Quiet : Process → Type 0
  Quiet p = (target p ≡ none) × (p.q_sending ≡ none) × Status p

  quiet : (i : ℕ) → i < table_size → Quiet (table i)
  unfolding native_process blank_process
  quiet i lt = elim (Bool-cases (ltb i (nr_tasks + nr_native_procs))) [
    | inl e ↦ subst Quiet (sym (native i (ground arith))) (refl, refl, inl (native-Ready i))
    | inr e ↦ subst Quiet (sym (spare i (ground arith) lt)) (refl, refl, inr (inr (inr refl)))
  ]

  table-Inv : IsFlat gdt → Inv table (λ _. [])
  table-Inv f = record {
    linked = λ d lt. (quiet d lt).1;
    members = λ d p lt m. absurd m;
    queued = λ p d lt e. absurd (cc ((quiet p lt).0, e));
    distinct = λ d lt. tt;
    status = λ p lt. (quiet p lt).2;
    ends = λ p lt. (0, (quiet p lt).0);
    base =
        λ p lt. subst (λ (w : Process). ldt_seg_linear w ≡ 0) (sym (native p lt)) (native_base f p);
  }

  -- If the kernel's data segment begins at 0, and the memory before the process table does not look like
  -- a process that is sending, the state in which kernel_main starts the first process is safe, with
  -- empty queues.
  pub kernel_main-IsSafe :
      (mem : ℕ → ℕ)
      → IsFlat gdt
      → has (outside interrupt).flags sending ≡ false
      → IsSafe (kernel_main gdt k_end outside mem) (λ _. [])
  unfolding kernel_main
  kernel_main-IsSafe mem f out = record {
    sound = record {
      table = table-Inv f;
      ready_in = omega arith;
      runs = ap (λ (p : Process). p.flags) (native 0 (omega arith)) ∙ (native-Ready 0).0;
    };
    outside = ap (λ (p : Process). has p.flags sending) (outer interrupt (omega arith)) ∙ out;
  }

-- ===== src/Kernel/Schedule.antt =====
-- schedule of kernel/proc.c. The order on ticks is that of `int`.
pub mod Choice
use bz_os.Prelude.{
  ℕ, zero, suc, ◌+◌, Bool, true, false, ◌&&◌, Outcome, done, halt, spinning, ltb, ◌==◌,
  if◌then◌else◌,
}
use bz_os.Prelude.Int.{ℤ, pos, negsuc, ltb_ℤ}
use bz_os.Kernel.State.{Process, Kernel, table_size}

abbrev pub runnable : Process → Bool
runnable p = p.flags == 0

-- the two tests of the inner loop
pub better : Process → ℤ → Bool
better p greatest = runnable p && ltb_ℤ greatest p.ticks

-- The inner loop: `n` entries left, from the i-th on; the greatest ticks so far and p_proc_ready.
pub scan : (ℕ → Process) → ℕ → ℕ → ℤ → ℕ → ℤ × ℕ
scan procs zero i greatest ready = (greatest, ready)
scan procs (suc n) i greatest ready =
    let b = better (procs i) greatest in
    scan procs n (i + 1) (if b then (procs i).ticks else greatest) (if b then i else ready)

-- All the ticks are used up: each runnable process gets its priority anew.
unfoldable pub refill : (ℕ → Process) → ℕ → Process
refill procs i =
    if ltb i table_size && runnable (procs i)
    then record (procs i) { ticks = (procs i).priority }
    else procs i

abbrev pub is_zero : ℤ → Bool
is_zero (pos zero) = true
is_zero _ = false

-- `while(!greatest_ticks)`, at most `fuel` rounds
pub schedule : ℕ → Kernel → Outcome Kernel
schedule zero k = halt spinning
schedule (suc fuel) k =
    let (greatest, ready) = scan k.procs table_size 0 (pos 0) k.p_proc_ready in
    elim (is_zero greatest) [
      | true ↦ schedule fuel (record k { procs = refill k.procs })
      | false ↦ done (record k { p_proc_ready = ready })
    ]

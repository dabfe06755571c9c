-- ===== src/Kernel/Clock.antt =====
-- clock_handler of kernel/clock.c.
pub mod Preempt
use bz_os.Prelude.{ℕ, ◌+◌, ◌%◌, ◌^◌, Bool, not, Outcome, done, ◌>>=◌, ◌==◌, if◌then◌else◌, update}
use bz_os.Prelude.Int.{pos, ltb_ℤ, pred_ℤ}
use bz_os.Kernel.State.{Kernel, task_tty}
use bz_os.Kernel.Schedule.{schedule}
use bz_os.Kernel.Ipc.{inform_int}

-- ticks ++; p_proc_ready->ticks --;
unfoldable pub count_tick : Kernel → Kernel
count_tick k = record k {
  tick_count = (k.tick_count + 1) % 2 ^ 32;
  procs =
      update k.procs k.p_proc_ready
        (record (k.procs k.p_proc_ready) { ticks = pred_ℤ (k.procs k.p_proc_ready).ticks });
}

-- The tests after a key press has been passed on.
pub may_switch : Kernel → Outcome Kernel
may_switch k =
    if not (k.k_reenter == 0)
    then done k
    else if ltb_ℤ (pos 0) (k.procs k.p_proc_ready).ticks
    then done k
    else schedule 2 k

unfoldable pub clock_handler : Kernel → Outcome Kernel
unfolding count_tick may_switch
clock_handler k = do
  k' ← if not (k.key_pressed == 0) then inform_int (count_tick k) task_tty else done (count_tick k)
  may_switch k'

-- ===== src/Mm/Fork/Table.antt =====
-- do_fork of mm/forkexit.c and the queues of message passing.
use bz_os.Prelude.{ℕ, ◌+◌, ◌<◌, ◌≤◌, ◌≡◌, List, [], update}
use bz_os.Kernel.State.{Process, Kernel, nr_tasks, nr_native_procs, table_size, free_slot}
use bz_os.Kernel.Ipc.Invariant.{Inv, Receiving}

module _ (procs : ℕ → Process) (queue : ℕ → List ℕ) (inv : Inv procs queue) (child pid : ℕ)
    (entry : Process) (native : nr_tasks + nr_native_procs ≤ child) (inside : child < table_size)
    (lt : pid < table_size) (free : (procs child).flags ≡ free_slot) (waits : Receiving (procs pid))
    (nobody : queue pid ≡ []) (unsought : queue child ≡ [])
    (flags : entry.flags ≡ (procs pid).flags) (p_msg : entry.p_msg ≡ (procs pid).p_msg)
    (recv_from : entry.recv_from ≡ (procs pid).recv_from)
    (send_to : entry.send_to ≡ (procs pid).send_to)
    (q_sending : entry.q_sending ≡ (procs pid).q_sending) where
  abbrev after : ℕ → Process
  after = update procs child entry

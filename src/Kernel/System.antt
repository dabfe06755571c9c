-- ===== src/Kernel/System.antt =====
-- The kernel as a transition system: a system call of the running process (sys_sendrec), an
-- interrupt for a task (inform_int), a tick of the clock (clock_handler), in any order.
pub mod Calls
pub mod Safety
use bz_os.Prelude.{ℕ, ◌<◌, ◌≡◌, ◌≢◌, ◌⊎◌, Option, none, Outcome, done}
use bz_os.Kernel.State.{Kernel, table_size, any, interrupt}
use bz_os.Kernel.Ipc.{sys_sendrec, inform_int, send, receive}
use bz_os.Kernel.Ipc.Invariant.{IsPointer}
use bz_os.Kernel.Clock.{clock_handler}

-- What the callers of sendrec pass: a message at a proper address; a process to send to; a process,
-- ANY or INTERRUPT to receive from.
pub data Call : ℕ → ℕ → Type 0 where
  sends_to : {d : ℕ} → d < table_size → Call send d
  receives : {s : ℕ} → (s < table_size) ⊎ (s ≡ any) ⊎ (s ≡ interrupt) → Call receive s

pub data Step (k : Kernel) : Kernel → Type 0 where
  call :
      {k' : Kernel} (function src_dest msg : ℕ)
      → Call function src_dest
      → IsPointer msg
      → sys_sendrec k function src_dest msg k.p_proc_ready ≡ done k'
      → Step k k'
  irq : {k' : Kernel} (task : ℕ) → task < table_size → inform_int k task ≡ done k' → Step k k'
  tick : {k' : Kernel} → clock_handler k ≡ done k' → Step k k'

pub data Reach (k0 : Kernel) : Kernel → Type 0 where
  start : Reach k0 k0
  later : {k k' : Kernel} → Reach k0 k → Step k k' → Reach k0 k'

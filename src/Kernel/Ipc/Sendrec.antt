-- ===== src/Kernel/Ipc/Sendrec.antt =====
-- sys_sendrec of kernel/proc.c: the checks before msg_send and msg_receive.
use bz_os.Prelude.{ℕ, ◌<◌, ◌≡◌, ◌≢◌, ◌⊎◌, arith, List, done, halt, panic, ◌==◌, if◌then◌else◌}
use bz_os.Kernel.State.{Kernel, table_size, any, interrupt}
use bz_os.Kernel.Memory.{store32}
use bz_os.Kernel.Ipc.{sys_sendrec, msg_send, msg_receive, send, receive}
use bz_os.Kernel.Ipc.Invariant.{Inv, IsPointer}
use bz_os.Kernel.Ipc.Send.{linear, va2la-linear}

-- The state with the caller's pid in its message.
abbrev pub stamped : Kernel → ℕ → ℕ → Kernel
stamped k proc msg = record k { mem = store32 (linear k proc msg) proc k.mem }

-- What it means that a call is in order.
abbrev pub Allowed : Kernel → ℕ → ℕ → Type 0
Allowed k src_dest proc =
    (k.k_reenter ≡ 0)
    × ((src_dest < table_size) ⊎ (src_dest ≡ any) ⊎ (src_dest ≡ interrupt))
    × (proc ≢ src_dest)

-- From outside the kernel, with a proper pid that is not the caller's own, the call is one of
-- msg_send and msg_receive on a message that carries the caller's pid; any other function panics.
pub sys_sendrec_lem :
    (k : Kernel) {queue : ℕ → List ℕ} (function src_dest msg proc : ℕ)
    → Inv k.procs queue
    → IsPointer msg
    → Allowed k src_dest proc
    → sys_sendrec k function src_dest msg proc ≡ (
        if function == send
        then msg_send (stamped k proc msg) proc src_dest msg
        else if function == receive
        then msg_receive (stamped k proc msg) proc src_dest msg
        else halt panic)
unfolding sys_sendrec
sys_sendrec_lem k function src_dest msg proc inv ok allowed =
    ground (arith, va2la-linear k proc msg inv)

-- A call that returns was in order.
pub sys_sendrec-Allowed :
    (k : Kernel) {queue : ℕ → List ℕ} (function src_dest msg proc : ℕ) (k' : Kernel)
    → Inv k.procs queue
    → IsPointer msg
    → sys_sendrec k function src_dest msg proc ≡ done k'
    → Allowed k src_dest proc
unfolding sys_sendrec
sys_sendrec-Allowed k function src_dest msg proc k' inv ok e =
    ground (arith, va2la-linear k proc msg inv)

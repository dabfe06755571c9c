-- ===== src/Kernel/System/Safety.antt =====
-- What holds in every state that the kernel can reach.
use mathlib.Core.Path.{subst}
use bz_os.Prelude.{ℕ, ◌≡◌, ◌≢◌, sym, ◌∙◌, arith, List, done-injective, done, ℕ_discrete}
use bz_os.Kernel.State.{Process, Kernel, interrupt}
use bz_os.Kernel.Ipc.{sys_sendrec, send, receive}
use bz_os.Kernel.Ipc.Inform.{inform_int_lem}
use bz_os.Kernel.Ipc.Sendrec.{stamped, Allowed, sys_sendrec_lem, sys_sendrec-Allowed}
use bz_os.Kernel.Clock.Preempt.{clock_handler-IsSound, clock_handler-outside}
use bz_os.Kernel.System.{Step, call, irq, tick, Reach, start, later, Call, sends_to, receives}
use bz_os.Kernel.System.Calls.{IsSafe, msg_send-IsSafe, msg_receive-IsSafe}

pub Step-IsSafe :
    (k k' : Kernel) (queue : ℕ → List ℕ)
    → IsSafe k queue
    → Step k k'
    → (q : ℕ → List ℕ) × IsSafe k' q
Step-IsSafe k k' queue s (call function d msg c ok e) =
    called c (sys_sendrec-Allowed k function d msg k.p_proc_ready k' s.sound.table ok e) e
  where
    stamp : IsSafe (stamped k k.p_proc_ready msg) queue
    stamp = record {
      sound = record { table = s.sound.table; ready_in = s.sound.ready_in; runs = s.sound.runs };
      outside = s.outside;
    }

    called :
        {f d : ℕ}
        → Call f d
        → Allowed k d k.p_proc_ready
        → sys_sendrec k f d msg k.p_proc_ready ≡ done k'
        → (q : ℕ → List ℕ) × IsSafe k' q
    called {d = d} (sends_to lt) allowed h =
        msg_send-IsSafe (stamped k k.p_proc_ready msg) queue stamp msg ok d lt (allowed.2) k'
          (sym (sys_sendrec_lem k send d msg k.p_proc_ready s.sound.table ok allowed) ∙ h)
    called {d = d} (receives range) allowed h =
        msg_receive-IsSafe (stamped k k.p_proc_ready msg) queue stamp msg ok d range
          (λ q. allowed.2 (sym q)) k'
          (sym (sys_sendrec_lem k receive d msg k.p_proc_ready s.sound.table ok allowed) ∙ h)
Step-IsSafe k k' queue s (irq task lt e) =
    let (t, m, r, i, off, run, left) = inform_int_lem k s.sound.table task lt in
    (
      queue,
      subst (λ w. IsSafe w queue) (done-injective _ k' (sym r ∙ e))
          (record {
            sound = record { table = i; ready_in = s.sound.ready_in; runs = still t off run };
            outside = ground (arith, off interrupt, s.outside);
          }),
    )
  where
    still :
        (t : ℕ → Process)
        → ((p : ℕ) → p ≢ task → t p ≡ k.procs p)
        → ((k.procs task).flags ≡ 0 → (t task).flags ≡ 0)
        → (t k.p_proc_ready).flags ≡ 0
    still t off run = elim (ℕ_discrete k.p_proc_ready task) [
      | yes q ↦ ground (arith, run, s.sound.runs)
      | no ne ↦ ground (arith, off k.p_proc_ready ne, s.sound.runs)
    ]
Step-IsSafe k k' queue s (tick e) = (
  queue,
  record {
    sound = clock_handler-IsSound k s.sound k' e;
    outside = ground (arith, clock_handler-outside k s.sound k' e interrupt, s.outside);
  },
)

pub Reach-IsSafe :
    (k0 k : Kernel) (queue : ℕ → List ℕ)
    → IsSafe k0 queue
    → Reach k0 k
    → (q : ℕ → List ℕ) × IsSafe k q
Reach-IsSafe k0 k queue s start = (queue, s)
Reach-IsSafe k0 k queue s (later {k = j} r st) =
    let (q, sj) = Reach-IsSafe k0 j queue s r in Step-IsSafe j k q sj st

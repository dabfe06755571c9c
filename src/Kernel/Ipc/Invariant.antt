-- ===== src/Kernel/Ipc/Invariant.antt =====
-- When the process table of kernel/proc.c is well formed: what the assertions of msg_send and
-- msg_receive suppose, and what the sending queues and the chains of waiting processes are.
use mathlib.Core.Path.{subst, fun_ext}
use bz_os.Prelude.{
  ℕ, ◌^◌, ◌+◌, ◌<◌, ◌≡◌, ◌≢◌, ◌⊎◌, inl, inr, refl, sym, ◌∙◌, arith, Option, some, List, In,
  Distinct,
}
use bz_os.Kernel.State.{
  Process, table_size, no_task, sending, receiving, free_slot, nr_tasks, nr_native_procs,
}
use bz_os.Kernel.Descriptor.{ldt_seg_linear}
use bz_os.Kernel.Schedule.{refill}
use bz_os.Kernel.Schedule.Choice.{Renewed}
use bz_os.Kernel.Ipc.{target}
use bz_os.Kernel.Ipc.Chain.{EndsIn}
use bz_os.Kernel.Ipc.Deadlock.{sends, SendersInside}
use bz_os.Kernel.Ipc.Links.{Linked, Linked-congr}

-- A pointer that is not null.
abbrev pub IsPointer : ℕ → Type 0
IsPointer a = (0 < a) × (a < 2 ^ 32)

abbrev pub Ready : Process → Type 0
Ready p = (p.flags ≡ 0) × (p.p_msg ≡ 0) × (p.recv_from ≡ no_task) × (p.send_to ≡ no_task)

abbrev pub Sending : Process → Type 0
Sending p = (p.flags ≡ sending) × IsPointer p.p_msg × (p.recv_from ≡ no_task)

abbrev pub Receiving : Process → Type 0
Receiving p =
    (p.flags ≡ receiving) × IsPointer p.p_msg × (p.recv_from ≢ no_task) × (p.send_to ≡ no_task)

abbrev pub Status : Process → Type 0
Status p = Ready p ⊎ Sending p ⊎ Receiving p ⊎ (p.flags ≡ free_slot)

abbrev pub nexts : (ℕ → Process) → ℕ → Option ℕ
nexts procs p = (procs p).next_sending

-- `queue d` are the processes that wait to send to d, the first to be served first.
pub record Inv (procs : ℕ → Process) (queue : ℕ → List ℕ) : Type 0 where
  pub linked : (d : ℕ) → d < table_size → Linked (nexts procs) (procs d).q_sending (queue d)
  pub members :
      (d p : ℕ) → d < table_size → In p (queue d) → (p < table_size) × (sends procs p ≡ some d)
  pub queued :
      (p d : ℕ) → p < table_size → sends procs p ≡ some d → (d < table_size) × In p (queue d)
  pub distinct : (d : ℕ) → d < table_size → Distinct (queue d)
  pub status : (p : ℕ) → p < table_size → Status (procs p)
  pub ends : (p : ℕ) → p < table_size → (n : ℕ) × EndsIn (sends procs) n p
  pub base : (p : ℕ) → p < nr_tasks + nr_native_procs → ldt_seg_linear (procs p) ≡ 0

pub Inv-SendersInside :
    {procs : ℕ → Process} {queue : ℕ → List ℕ} → Inv procs queue → SendersInside procs
Inv-SendersInside {procs} inv p d lt e = ((inv.queued p d lt e).0, ground (arith, inv.status p lt))

-- What the queues and the chains depend on.
pub record SameLinks (p q : Process) : Type 0 where
  pub head : q.q_sending ≡ p.q_sending
  pub link : q.next_sending ≡ p.next_sending
  pub to : target q ≡ target p
  pub segment : q.ldt_rw ≡ p.ldt_rw

pub Inv-SameLinks :
    {procs procs' : ℕ → Process} {queue : ℕ → List ℕ}
    → ((p : ℕ) → SameLinks (procs p) (procs' p))
    → ((p : ℕ) → p < table_size → Status (procs' p))
    → Inv procs queue
    → Inv procs' queue
unfolding ldt_seg_linear
Inv-SameLinks {procs} {procs'} {queue} same st inv = record {
  linked = λ d lt.
      Linked-congr (nexts procs) (nexts procs') (procs' d).q_sending (queue d)
        (λ p i. (same p).link)
        (subst (λ o. Linked (nexts procs) o (queue d)) (sym (same d).head) (inv.linked d lt));
  members = λ d p lt i. let (a, b) = inv.members d p lt i in (a, (same p).to ∙ b);
  queued = λ p d lt e. inv.queued p d lt (sym (same p).to ∙ e);
  distinct = inv.distinct;
  status = st;
  ends = λ p lt.
      let (n, a) = inv.ends p lt in (n, subst (λ s. EndsIn s n p) (fun_ext λ w. sym (same w).to) a);
  base = λ p lt. ground (arith, (same p).segment, inv.base p lt);
}

-- A round of `schedule` changes nothing of this.
pub Inv-Renewed :
    {procs procs' : ℕ → Process} {queue : ℕ → List ℕ}
    → Renewed procs procs'
    → Inv procs queue
    → Inv procs' queue
Inv-Renewed {queue} (inl e) inv = subst (λ t. Inv t queue) (sym e) inv
Inv-Renewed {procs} {queue} (inr (e, x)) inv =
    subst (λ t. Inv t queue) (sym e) (Inv-SameLinks links st inv)
  where
    links : (p : ℕ) → SameLinks (procs p) (refill procs p)
    links p = unfold refill in (ground arith)

    st : (p : ℕ) → p < table_size → Status (refill procs p)
    st p lt = unfold refill in (ground (arith, inv.status p lt))

-- What message passing reads of a process.
pub record SameState (p q : Process) : Type 0 where
  pub flags : q.flags ≡ p.flags
  pub p_msg : q.p_msg ≡ p.p_msg
  pub recv_from : q.recv_from ≡ p.recv_from
  pub send_to : q.send_to ≡ p.send_to
  pub has_int_msg : q.has_int_msg ≡ p.has_int_msg

pub Renewed-SameState :
    {procs procs' : ℕ → Process} → Renewed procs procs' → (p : ℕ) → SameState (procs p) (procs' p)
Renewed-SameState {procs} (inl e) p =
    subst (λ t. SameState (procs p) (t p)) (sym e)
      (record { flags = refl; p_msg = refl; recv_from = refl; send_to = refl; has_int_msg = refl })
Renewed-SameState {procs} (inr (e, x)) p = subst (λ t. SameState (procs p) (t p)) (sym e) same
  where
    same : SameState (procs p) (refill procs p)
    same = unfold refill in (ground arith)

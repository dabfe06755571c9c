-- ===== src/Kernel/Ipc/Send.antt =====
-- msg_send of kernel/proc.c on a well-formed table: its three outcomes.
use mathlib.Core.Path.{subst}
use bz_os.Prelude.{
  ℕ, ◌^◌, ◌%◌, ◌+◌, ◌<◌, ◌≡◌, ◌≢◌, refl, sym, ◌∙◌, arith, List, true, false, done, halt, panic,
  update, Bool, Outcome, if◌then◌else◌,
}
use bz_os.Kernel.State.{Process, Kernel, table_size}
use bz_os.Kernel.Descriptor.{va2la, ldt_seg_linear}
use bz_os.Kernel.Schedule.{schedule}
use bz_os.Kernel.Memory.{phys_copy}
use bz_os.Kernel.Ipc.{msg_send, rendezvous, queue_up, awaits, received, message_size}
use bz_os.Kernel.Schedule.Choice.{schedule-Scheduled}
use bz_os.Kernel.Ipc.{append_sender, block}
use bz_os.Kernel.Ipc.Join.{
  joined, blocked, link_in, append_sender-link_in, length-Distinct, runnable-joined, Sending-joined,
}
use bz_os.Kernel.Ipc.Links.{Linked, Linked-congr}
use bz_os.Kernel.Ipc.Enqueue.{enqueue, enqueue-Inv}
use bz_os.Kernel.Ipc.Chain.{WaitsOn}
use bz_os.Kernel.Ipc.Deadlock.{sends, deadlock-decides}
use bz_os.Kernel.Ipc.Invariant.{
  Inv, Inv-SendersInside, Inv-SameLinks, SameLinks, Status, Ready, Sending, IsPointer, nexts,
  SameState, Renewed-SameState,
}

-- The linear address that va2la gives.
abbrev pub linear : Kernel → ℕ → ℕ → ℕ
linear k pid va = (ldt_seg_linear (k.procs pid) + va) % 2 ^ 32

pub va2la-linear :
    (k : Kernel) {queue : ℕ → List ℕ} (pid va : ℕ)
    → Inv k.procs queue
    → va < 2 ^ 32
    → va2la k pid va ≡ done (linear k pid va)
unfolding va2la
va2la-linear k pid va inv h = ground (arith, inv.base pid)

not_true : (b : Bool) → b ≢ true → b ≡ false
not_true true h = absurd (h refl)
not_true false h = refl

module _ (k : Kernel) {queue : ℕ → List ℕ} (inv : Inv k.procs queue) (sender dest msg : ℕ)
    (in_table : sender < table_size) (dest_in : dest < table_size) (others : sender ≢ dest)
    (ready : Ready (k.procs sender)) (has_msg : IsPointer msg) where
  -- In a well-formed table, for two different pids of it, a ready sender and a proper message
  -- address: if dest waits, directly or through others, on the sender, msg_send panics.
  pub msg_send-deadlock :
      WaitsOn (sends k.procs) dest sender → msg_send k sender dest msg ≡ halt panic
  unfolding msg_send
  msg_send-deadlock w =
      let (n, a) = inv.ends dest dest_in in
      let (b, r, (sound, complete)) =
        deadlock-decides k.procs sender dest n (Inv-SendersInside inv) dest_in a in
      ground (arith, r, complete w)

  passes :
      ¬ WaitsOn (sends k.procs) dest sender
      → (b : Bool) → awaits (k.procs dest) sender ≡ b
      → msg_send k sender dest msg
        ≡ (if b then rendezvous k sender dest msg else queue_up k sender dest msg)
  unfolding msg_send
  passes nw b aw =
      let (n, a) = inv.ends dest dest_in in
      let (c, r, (sound, complete)) =
        deadlock-decides k.procs sender dest n (Inv-SendersInside inv) dest_in a in
      let no_chain : c ≡ false = not_true c (λ e. nw (sound e)) in ground (arith, r, no_chain, aw)

  -- dest is waiting for the message.
  module _ (awaiting : awaits (k.procs dest) sender ≡ true) where
    after : ℕ → Process
    after = update k.procs dest (received (k.procs dest))

    after-SameLinks : (p : ℕ) → SameLinks (k.procs p) (after p)
    unfolding after
    after-SameLinks p = ground (arith, inv.status dest dest_in)

    after-Status : (p : ℕ) → p < table_size → Status (after p)
    unfolding after
    after-Status p lt = ground (arith, inv.status dest dest_in, inv.status p lt)

    rendezvous_lem :
        rendezvous k sender dest msg
        ≡ done (record k {
          procs = update k.procs dest (received (k.procs dest));
          mem =
              phys_copy
                (linear k dest (k.procs dest).p_msg)
                (linear k sender msg)
                message_size
                k.mem;
        })
    unfolding rendezvous
    rendezvous_lem = ground (
      arith,
      inv.status dest dest_in,
      va2la-linear k dest (k.procs dest).p_msg inv,
      va2la-linear k sender msg inv,
    )

    -- In a well-formed table, for two different pids of it, a ready sender and a proper message
    -- address: if dest is receiving from the sender or from ANY and does not wait, directly or
    -- through others, on the sender, the message is copied to the buffer of dest, dest can run
    -- again, nothing else changes, and the table stays well formed with the same queues.
    pub msg_send-rendezvous :
        ¬ WaitsOn (sends k.procs) dest sender
        → (msg_send k sender dest msg
            ≡ done (record k {
              procs = update k.procs dest (received (k.procs dest));
              mem =
                  phys_copy
                    (linear k dest (k.procs dest).p_msg)
                    (linear k sender msg)
                    message_size
                    k.mem;
            }))
          × Inv (update k.procs dest (received (k.procs dest))) queue
    unfolding after
    msg_send-rendezvous nw =
        (passes nw true awaiting ∙ rendezvous_lem, Inv-SameLinks after-SameLinks after-Status inv)

  abbrev waiting : ℕ → Process
  waiting = joined k.procs sender dest msg (queue dest)

  set : ℕ → Process
  set = update k.procs sender (blocked (k.procs sender) dest msg)

  set-links :
      (q : ℕ) → ((set q).q_sending ≡ (k.procs q).q_sending) × (nexts set q ≡ nexts k.procs q)
  unfolding set
  set-links q = ground arith

  appended : append_sender set dest sender ≡ done (link_in set dest sender (queue dest))
  appended =
      append_sender-link_in set dest sender (queue dest)
        (subst (λ o. Linked (nexts set) o (queue dest)) (sym (set-links dest).0)
          (Linked-congr (nexts k.procs) (nexts set) _ (queue dest) (λ q i. (set-links q).1)
            (inv.linked dest dest_in)))
        (length-Distinct table_size (queue dest) (inv.distinct dest dest_in)
          (λ q i. (inv.members dest q dest_in i).0))

  -- The assertions after the sender has been woken up are those that hold when it blocks.
  queue_up_after :
      (o : Outcome Kernel)
      → schedule 2 (record k { procs = waiting }) ≡ o
      → ((k' : Kernel) → o ≡ done k' → SameState (waiting sender) (k'.procs sender))
      → queue_up k sender dest msg ≡ o
  unfolding queue_up block joined set
  queue_up_after (done k') e same = ground (
    arith,
    appended,
    Sending-joined k.procs sender dest msg ready others has_msg (queue dest),
    same k' refl,
  )
  queue_up_after (halt f) e same =
      ground
        (arith, appended, Sending-joined k.procs sender dest msg ready others has_msg (queue dest))

  queue_up_lem : queue_up k sender dest msg ≡ schedule 2 (record k { procs = waiting })
  queue_up_lem = queue_up_after (schedule 2 (record k { procs = waiting })) refl (λ k' e.
      Renewed-SameState (schedule-Scheduled (record k { procs = waiting }) k' e).renewed sender)

  -- In a well-formed table, for two different pids of it, a ready sender and a proper message
  -- address: if dest does not wait, directly or through others, on the sender and is not receiving
  -- from it, msg_send comes down to `schedule` on a table in which the sender is sending to dest
  -- and stands last in the queue of dest, the other queues are as before, every other process
  -- keeps its flags and priority, and which is well formed; memory is unchanged.
  pub msg_send-queue_up :
      ¬ WaitsOn (sends k.procs) dest sender
      → awaits (k.procs dest) sender ≡ false
      → (t : ℕ → Process) × (msg_send k sender dest msg ≡ schedule 2 (record k { procs = t }))
        × Inv t (enqueue queue dest sender)
        × Sending (t sender)
        × ((t sender).send_to ≡ dest)
        × ((p : ℕ)
            → p ≢ sender
            → ((t p).flags ≡ (k.procs p).flags) × ((t p).priority ≡ (k.procs p).priority))
  msg_send-queue_up nw busy =
      let here = Sending-joined k.procs sender dest msg ready others has_msg (queue dest) in
      (
        waiting,
        passes nw false busy ∙ queue_up_lem,
        enqueue-Inv inv sender dest msg in_table dest_in others ready has_msg nw,
        here.0,
        here.1,
        λ p ne.
            let (a, b, c) =
              runnable-joined k.procs sender dest msg ready others has_msg (queue dest) p ne in
            (a, b),
      )

-- ===== src/Kernel/Ipc/Receive.antt =====
-- msg_receive of kernel/proc.c on a well-formed table: its outcomes.
use mathlib.Core.Path.{subst}
use bz_os.Prelude.{
  ℕ, ◌+◌, ◌<◌, ◌≡◌, ◌≢◌, ◌⊎◌, ◌^◌, inl, inr, refl, sym, ◌∙◌, arith, Option, none, some, List, [],
  ◌∷◌, In, Outcome, done, halt, update,
}
use bz_os.Kernel.State.{Process, Kernel, table_size, no_task, any, interrupt}
use bz_os.Kernel.Descriptor.{va2la, ldt_seg_linear}
use bz_os.Kernel.Schedule.{schedule}
use bz_os.Kernel.Schedule.Choice.{schedule-Scheduled}
use bz_os.Kernel.Memory.{phys_copy, memset, store32}
use bz_os.Kernel.Ipc.{
  msg_receive, receive_any, receive_from, take_interrupt, take_message, wait_message, find_prev,
  unlink_sender, block, expecting, message_size, hard_int, chain_fuel,
}
use bz_os.Kernel.Ipc.Deadlock.{sends}
use bz_os.Kernel.Ipc.Links.{Linked, before, remove}
use bz_os.Kernel.Ipc.Invariant.{
  Inv, Inv-SameLinks, SameLinks, Status, Ready, Sending, Receiving, IsPointer, nexts, SameState,
  Renewed-SameState,
}
use bz_os.Kernel.Ipc.Join.{length-Distinct}
use bz_os.Kernel.Ipc.Send.{linear, va2la-linear}
use bz_os.Kernel.Ipc.Take.{cut, taken, Ready-taken, find_prev-before, unlink_sender-cut}
use bz_os.Kernel.Ipc.Dequeue.{dequeue, dequeue-Inv}

module _ (k : Kernel) {queue : ℕ → List ℕ} (inv : Inv k.procs queue) (who m : ℕ)
    (who_in : who < table_size) (ready : Ready (k.procs who)) (ok : IsPointer m) where
  -- An interrupt is pending.
  abbrev informed : ℕ → Process
  informed = update k.procs who (record (k.procs who) { has_int_msg = 0 })

  informed-SameLinks : (p : ℕ) → SameLinks (k.procs p) (informed p)
  informed-SameLinks p = ground arith

  informed-Status : (p : ℕ) → p < table_size → Status (informed p)
  informed-Status p lt = ground (arith, inv.status p lt)

  pub msg_receive-interrupt :
      (src : ℕ)
      → (src ≡ any) ⊎ (src ≡ interrupt)
      → (k.procs who).has_int_msg ≢ 0
      → (msg_receive k who src m
          ≡ done (record k {
            procs = update k.procs who (record (k.procs who) { has_int_msg = 0 });
            mem =
                store32 (linear k who m + 4) hard_int (
                  store32
                    (linear k who m)
                    interrupt
                    (memset (linear k who m) 0 message_size k.mem));
          }))
        × Inv (update k.procs who (record (k.procs who) { has_int_msg = 0 })) queue
  unfolding msg_receive take_interrupt
  msg_receive-interrupt src s pending = (
    ground (arith, va2la-linear k who m inv),
    Inv-SameLinks informed-SameLinks informed-Status inv,
  )

  -- A sender waits in the queue.
  module _ (from : ℕ) (member : In from (queue who)) where
    from_in : from < table_size
    from_in = (inv.members who from who_in member).0

    from_to_who : sends k.procs from ≡ some who
    from_to_who = (inv.members who from who_in member).1

    others : from ≢ who
    others e = absurd (cc (subst (λ w. sends k.procs w ≡ some who) e from_to_who, none_sent))
      where
        none_sent : sends k.procs who ≡ none
        none_sent = ground arith

    waits : Sending (k.procs from)
    waits = ground (arith, inv.status from from_in, from_to_who)

    to_who : (k.procs from).send_to ≡ who
    to_who = ground (arith, waits, from_to_who)

    pub queued_sender : (from < table_size) × (from ≢ who) × Sending (k.procs from)
    queued_sender = (from_in, others, waits)

    abbrev prev : Option ℕ
    prev = before from none (queue who)

    cut_segment :
        (o : Option ℕ) (pid va : ℕ)
        → va < 2 ^ 32
        → va2la (record k { procs = cut k.procs who from o }) pid va ≡ done (linear k pid va)
    unfolding va2la ldt_seg_linear
    cut_segment none pid va h = ground (arith, inv.base pid)
    cut_segment (some p) pid va h = ground (arith, inv.base pid)

    cut_fields :
        (o : Option ℕ)
        → ((cut k.procs who from o from).p_msg ≡ (k.procs from).p_msg)
          × ((cut k.procs who from o from).flags ≡ (k.procs from).flags)
    cut_fields none = ground arith
    cut_fields (some p) = ground arith

    unlinked : unlink_sender k.procs who from prev ≡ done (cut k.procs who from prev)
    unlinked = unlink_sender-cut k.procs who from (queue who) (inv.linked who who_in) member

    take_message_lem :
        take_message k who from prev m
        ≡ done (record k {
          procs = taken k.procs who from prev;
          mem = phys_copy (linear k who m) (linear k from (k.procs from).p_msg) message_size k.mem;
        })
    unfolding take_message taken
    take_message_lem = ground (
      arith,
      unlinked,
      waits,
      cut_fields prev,
      cut_segment prev who m,
      cut_segment prev from (k.procs from).p_msg,
    )

    walked : find_prev chain_fuel k.procs from none (k.procs who).q_sending ≡ done prev
    walked =
        find_prev-before k.procs from (k.procs who).q_sending none (queue who) chain_fuel
          (ground (arith, waits)) (inv.linked who who_in)
          (ground (
            arith,
            length-Distinct table_size (queue who) (inv.distinct who who_in)
                (λ p i. (inv.members who p who_in i).0),
          ))

    head_some :
        (xs : List ℕ) (o : Option ℕ)
        → In from xs
        → Linked (nexts k.procs) o xs
        → (h : ℕ) × (o ≡ some h)
    head_some [] o i l = absurd i
    head_some (x ∷ xs) o i (e, l) = (x, e)

    receive_from_lem : receive_from k who from m ≡ take_message k who from prev m
    unfolding receive_from
    receive_from_lem =
        let (h, e) = head_some (queue who) (k.procs who).q_sending member (inv.linked who who_in) in
        ground (arith, waits, to_who, walked, e)

    -- In a well-formed table, for a ready receiver, a proper buffer address and a process in its
    -- queue, at any place: msg_receive from that process copies its message, takes it out of the
    -- queue, whose others stay in order, the sender can run again, and the table stays well
    -- formed.
    pub msg_receive-from :
        (msg_receive k who from m
          ≡ done (record k {
            procs = taken k.procs who from prev;
            mem =
                phys_copy (linear k who m) (linear k from (k.procs from).p_msg) message_size k.mem;
          }))
        × Ready (taken k.procs who from prev from)
        × Inv (taken k.procs who from prev) (dequeue queue who from)
    unfolding msg_receive
    msg_receive-from = (
      ground (arith, from_in, others, receive_from_lem, take_message_lem),
      Ready-taken k.procs who from others ready waits prev,
      dequeue-Inv inv who from who_in others ready waits member,
    )

  receive_any_lem :
      (x : ℕ) (xs : List ℕ) (e : queue who ≡ x ∷ xs)
      → receive_any k who m ≡ take_message k who x none m
  unfolding receive_any
  receive_any_lem x xs e = ground (arith, head, waits x member, to_who x member)
    where
      member : In x (queue who)
      member = subst (In x) (sym e) (inl refl)

      head : (k.procs who).q_sending ≡ some x
      head = (subst (Linked (nexts k.procs) (k.procs who).q_sending) e (inv.linked who who_in)).0

  -- In a well-formed table, for a ready receiver, a proper buffer address, no pending interrupt
  -- and a queue that is not empty: from ANY, msg_receive copies the message of the head of the
  -- queue, the rest of the queue stays in order, the sender can run again, and the table stays
  -- well formed.
  pub msg_receive-any :
      (x : ℕ) (xs : List ℕ)
      → queue who ≡ x ∷ xs
      → (k.procs who).has_int_msg ≡ 0
      → (msg_receive k who any m
          ≡ done (record k {
            procs = taken k.procs who x none;
            mem = phys_copy (linear k who m) (linear k x (k.procs x).p_msg) message_size k.mem;
          }))
        × Ready (taken k.procs who x none x)
        × Inv (taken k.procs who x none) (update queue who xs)
  unfolding msg_receive
  msg_receive-any x xs e quiet = (
    ground (
      arith,
      receive_any_lem x xs e,
      subst
          (λ w.
            take_message k who x w m
            ≡ done (record k {
              procs = taken k.procs who x w;
              mem = phys_copy (linear k who m) (linear k x (k.procs x).p_msg) message_size k.mem;
            }))
          first (take_message_lem x member),
    ),
    Ready-taken k.procs who x (others x member) ready (waits x member) none,
    subst (λ w. Inv (taken k.procs who x w) (update queue who xs)) first
        (subst (λ w. Inv (taken k.procs who x (prev x member)) (update queue who w)) rest
          (dequeue-Inv inv who x who_in (others x member) ready (waits x member) member)),
  )
    where
      member : In x (queue who)
      member = subst (In x) (sym e) (inl refl)

      first : before x none (queue who) ≡ none
      first = rw e (ground arith)

      rest : remove x (queue who) ≡ xs
      rest = rw e (ground arith)

  -- No message for the receiver; some other process can run.
  module _ (src : ℕ)
      (silent : ((src ≡ any) × (queue who ≡ [])) ⊎ ((src ≢ any) × (sends k.procs src ≢ some who)))
      (named : src ≢ no_task) where
    abbrev waiting : ℕ → Process
    waiting = update k.procs who (expecting (k.procs who) src m)

    waiting-SameLinks : (q : ℕ) → SameLinks (k.procs q) (waiting q)
    waiting-SameLinks q = ground arith

    waiting-Status : (q : ℕ) → q < table_size → Status (waiting q)
    waiting-Status q lt = ground (arith, inv.status q lt)

    Receiving-waiting :
        Receiving (waiting who)
        × ((waiting who).recv_from ≡ src)
        × ((waiting who).has_int_msg ≡ (k.procs who).has_int_msg)
    Receiving-waiting = ground arith

    receive_from-wait :
        sends k.procs src ≢ some who → receive_from k who src m ≡ wait_message k who src m
    unfolding receive_from
    receive_from-wait none_to_who = ground arith

    receive_any-wait : queue who ≡ [] → receive_any k who m ≡ wait_message k who any m
    unfolding receive_any
    receive_any-wait e = rw (
      subst (Linked (nexts k.procs) (k.procs who).q_sending) e (inv.linked who who_in),
      receive_any,
    )

    falls_through :
        src ≢ who
        → ((k.procs who).has_int_msg ≡ 0) ⊎ ((src ≢ any) × (src ≢ interrupt))
        → msg_receive k who src m ≡ wait_message k who src m
    unfolding msg_receive
    falls_through ne quiet = elim silent [
      | inl (e, q) ↦ ground (arith, receive_any-wait q)
      | inr (n, q) ↦ ground (arith, receive_from-wait q)
    ]

    waiting_after :
        (o : Outcome Kernel)
        → schedule 2 (record k { procs = waiting }) ≡ o
        → ((k' : Kernel) → o ≡ done k' → SameState (waiting who) (k'.procs who))
        → (k.procs who).has_int_msg ≡ 0
        → wait_message k who src m ≡ o
    unfolding wait_message block
    waiting_after (done k') e same quiet = ground (arith, Receiving-waiting, same k' refl)
    waiting_after (halt f) e same quiet = ground (arith, Receiving-waiting)

    -- In a well-formed table, for a ready receiver, a proper buffer address and no pending
    -- interrupt: if src is ANY and the queue is empty, or is not ANY and is not sending to the
    -- receiver, and is neither the receiver nor NO_TASK, msg_receive comes down to `schedule` on a
    -- table in which the receiver is receiving from src, no other process has changed, and which
    -- is well formed with the same queues; memory is unchanged.
    pub msg_receive-wait :
        src ≢ who
        → (k.procs who).has_int_msg ≡ 0
        → (t : ℕ → Process) × (msg_receive k who src m ≡ schedule 2 (record k { procs = t }))
          × Inv t queue
          × Receiving (t who)
          × ((t who).recv_from ≡ src)
          × ((p : ℕ) → p ≢ who → t p ≡ k.procs p)
    msg_receive-wait ne quiet = (
      waiting,
      falls_through ne (inl quiet)
          ∙ waiting_after (schedule 2 (record k { procs = waiting })) refl
              (λ k' e.
                Renewed-SameState (schedule-Scheduled (record k { procs = waiting }) k' e).renewed
                  who)
              quiet,
      Inv-SameLinks waiting-SameLinks waiting-Status inv,
      Receiving-waiting.0,
      Receiving-waiting.1,
      λ p n. ground arith,
    )

    pending_after :
        (o : Outcome Kernel)
        → schedule 2 (record k { procs = waiting }) ≡ o
        → ((k' : Kernel) → o ≡ done k' → SameState (waiting who) (k'.procs who))
        → (k.procs who).has_int_msg ≢ 0
        → (k' : Kernel) → wait_message k who src m ≢ done k'
    unfolding wait_message block
    pending_after (done k1) e same pending k' r = ground (arith, Receiving-waiting, same k1 refl)
    pending_after (halt f) e same pending k' r = ground (arith, Receiving-waiting)

    -- In a well-formed table, for a ready receiver with a pending interrupt and a proper buffer
    -- address: from a src that is neither ANY nor INTERRUPT nor NO_TASK nor the receiver, and that
    -- is not sending to the receiver, msg_receive never returns.
    pub msg_receive-pending :
        src ≢ who
        → (src ≢ any) × (src ≢ interrupt)
        → (k.procs who).has_int_msg ≢ 0
        → ¬ ((k' : Kernel) × (msg_receive k who src m ≡ done k'))
    msg_receive-pending ne other pending (k', r) =
        pending_after (schedule 2 (record k { procs = waiting })) refl
          (λ k1 e.
            Renewed-SameState (schedule-Scheduled (record k { procs = waiting }) k1 e).renewed who)
          pending k' (sym (falls_through ne (inr other)) ∙ r)

-- ===== src/Kernel/System/Calls.antt =====
-- A system call leaves the state safe.
use mathlib.Core.Path.{subst}
use bz_os.Prelude.{
  ℕ, ◌<◌, ◌≡◌, ◌≢◌, ◌⊎◌, inl, inr, refl, sym, ◌∙◌, arith, List, [], ◌∷◌, In, false, Option, none,
  some, done-injective, done, update, Bool-cases, ℕ_discrete,
}
use bz_os.Kernel.State.{Kernel, table_size, any, interrupt, has, sending}
use bz_os.Kernel.Schedule.{schedule}
use bz_os.Kernel.Ipc.{msg_send, msg_receive, awaits}
use bz_os.Kernel.Ipc.Chain.{WaitsOn}
use bz_os.Kernel.Ipc.Deadlock.{sends, deadlock-decides}
use bz_os.Kernel.Ipc.Invariant.{Inv, Inv-SendersInside, Ready, Sending, IsPointer}
use bz_os.Kernel.Ipc.Send.{msg_send-deadlock, msg_send-rendezvous, msg_send-queue_up}
use bz_os.Kernel.Ipc.Receive.{
  queued_sender, msg_receive-any, msg_receive-from, msg_receive-interrupt, msg_receive-wait,
  msg_receive-pending,
}
use bz_os.Kernel.Ipc.Enqueue.{enqueue}
use bz_os.Kernel.Ipc.Dequeue.{dequeue}
use bz_os.Kernel.Ipc.Take.{taken, flags-taken_ne}
use bz_os.Kernel.Schedule.Choice.{schedule-Scheduled}
use bz_os.Kernel.Ipc.Invariant.{Inv-Renewed, Renewed-SameState}
use bz_os.Kernel.Clock.Preempt.{IsSound}

-- The process that runs is ready in the sense of the assertions.
pub runs-Ready :
    (k : Kernel) {queue : ℕ → List ℕ} → IsSound k queue → Ready (k.procs k.p_proc_ready)
runs-Ready k s = ground (arith, s.table.status k.p_proc_ready s.ready_in, s.runs)

-- A sound state in which the memory before proc_table, which msg_receive reads as if it were a
-- process when it is to receive from INTERRUPT, does not look like a process that is sending.
pub record IsSafe (k : Kernel) (queue : ℕ → List ℕ) : Type 0 where
  pub sound : IsSound k queue
  pub outside : has (k.procs interrupt).flags sending ≡ false

-- After a block: what the scheduler leaves is safe.
pub schedule-IsSafe :
    (k k' : Kernel) (queue : ℕ → List ℕ)
    → Inv k.procs queue
    → has (k.procs interrupt).flags sending ≡ false
    → schedule 2 k ≡ done k'
    → IsSafe k' queue
schedule-IsSafe k k' queue inv out e =
    let r = schedule-Scheduled k k' e in
    record {
      sound = record {
        table = Inv-Renewed r.renewed inv;
        ready_in = r.chosen.in_table;
        runs = r.chosen.is_runnable;
      };
      outside = ground (arith, Renewed-SameState r.renewed interrupt, out);
    }

module _ (k : Kernel) (queue : ℕ → List ℕ) (s : IsSafe k queue) (msg : ℕ) (ok : IsPointer msg) where
  inv : Inv k.procs queue
  inv = s.sound.table

  ready : Ready (k.procs k.p_proc_ready)
  ready = runs-Ready k s.sound

  pub msg_send-IsSafe :
      (d : ℕ)
      → d < table_size
      → k.p_proc_ready ≢ d
      → (k' : Kernel) → msg_send k k.p_proc_ready d msg ≡ done k'
      → (q : ℕ → List ℕ) × IsSafe k' q
  msg_send-IsSafe d lt ne k' e =
      let (n, a) = inv.ends d lt in
      let (b, r, (yes_waits, no_waits)) =
        deadlock-decides k.procs k.p_proc_ready d n (Inv-SendersInside inv) lt a in
      elim (Bool-cases b) [
        | inl t ↦ absurd (
            cc (
              e,
              msg_send-deadlock k inv k.p_proc_ready d msg s.sound.ready_in lt ne ready ok
                  (yes_waits t),
            ))
        | inr f ↦ free (λ w. absurd (cc (f, no_waits w)))
      ]
    where
      free : ¬ WaitsOn (sends k.procs) d k.p_proc_ready → (q : ℕ → List ℕ) × IsSafe k' q
      free nw = elim (Bool-cases (awaits (k.procs d) k.p_proc_ready)) [
        | inl aw ↦
            let (r, i) =
              msg_send-rendezvous k inv k.p_proc_ready d msg s.sound.ready_in lt ne ready ok aw
                nw in
            (
              queue,
              subst (λ w. IsSafe w queue) (done-injective _ k' (sym r ∙ e))
                  (record {
                    sound = record {
                      table = i;
                      ready_in = s.sound.ready_in;
                      runs = ground (arith, s.sound.runs);
                    };
                    outside = ground (arith, s.outside);
                  }),
            )
        | inr busy ↦
            let (t, r, i, blocked, to, off) =
              msg_send-queue_up k inv k.p_proc_ready d msg s.sound.ready_in lt ne ready ok nw
                busy in
            (
              enqueue queue d k.p_proc_ready,
              schedule-IsSafe (record k { procs = t }) k' (enqueue queue d k.p_proc_ready) i
                  (ground (arith, s.outside, off interrupt, s.sound.ready_in)) (sym r ∙ e),
            )
      ]

  -- A receive that takes the message of `from` from the queue.
  took-IsSafe :
      (from : ℕ) (prev : Option ℕ) (m : ℕ → ℕ) (q : ℕ → List ℕ)
      → from < table_size
      → from ≢ k.p_proc_ready
      → Sending (k.procs from)
      → Inv (taken k.procs k.p_proc_ready from prev) q
      → IsSafe (record k { procs = taken k.procs k.p_proc_ready from prev; mem = m }) q
  took-IsSafe from prev m q lt ne snd i = record {
    sound = record {
      table = i;
      ready_in = s.sound.ready_in;
      runs =
          flags-taken_ne k.procs k.p_proc_ready from ne ready snd prev k.p_proc_ready
            (λ c. ne (sym c))
          ∙ s.sound.runs;
    };
    outside =
        ground (
          arith,
          flags-taken_ne k.procs k.p_proc_ready from ne ready snd prev interrupt,
          s.outside,
        );
  }

  waits-IsSafe :
      (src : ℕ)
      → ((src ≡ any) × (queue k.p_proc_ready ≡ []))
        ⊎ ((src ≢ any) × (sends k.procs src ≢ some k.p_proc_ready))
      → (src < table_size) ⊎ (src ≡ any) ⊎ (src ≡ interrupt)
      → src ≢ k.p_proc_ready
      → ((k.procs k.p_proc_ready).has_int_msg ≡ 0) ⊎ ((src ≢ any) × (src ≢ interrupt))
      → (k' : Kernel) → msg_receive k k.p_proc_ready src msg ≡ done k'
      → (q : ℕ → List ℕ) × IsSafe k' q
  waits-IsSafe src silent range ne quiet k' e =
      elim (ℕ_discrete (k.procs k.p_proc_ready).has_int_msg 0) [
        | yes z ↦
            let (t, r, i, rec, from, off) =
              msg_receive-wait k inv k.p_proc_ready msg s.sound.ready_in ready ok src silent
                (ground (arith, range)) ne z in
            (
              queue,
              schedule-IsSafe (record k { procs = t }) k' queue i
                  (ground (arith, s.outside, off interrupt, s.sound.ready_in)) (sym r ∙ e),
            )
        | no nz ↦ absurd (
            msg_receive-pending k inv k.p_proc_ready msg s.sound.ready_in ready ok src silent
              (ground (arith, range)) ne (asked nz) nz (k', e))
      ]
    where
      asked : (k.procs k.p_proc_ready).has_int_msg ≢ 0 → (src ≢ any) × (src ≢ interrupt)
      asked nz = ground arith

  interrupted-IsSafe :
      (src : ℕ)
      → (src ≡ any) ⊎ (src ≡ interrupt)
      → (k.procs k.p_proc_ready).has_int_msg ≢ 0
      → (k' : Kernel) → msg_receive k k.p_proc_ready src msg ≡ done k'
      → (q : ℕ → List ℕ) × IsSafe k' q
  interrupted-IsSafe src asked pending k' e =
      let (r, i) =
        msg_receive-interrupt k inv k.p_proc_ready msg s.sound.ready_in ready ok src asked
          pending in
      (
        queue,
        subst (λ w. IsSafe w queue) (done-injective _ k' (sym r ∙ e))
            (record {
              sound = record {
                table = i;
                ready_in = s.sound.ready_in;
                runs = ground (arith, s.sound.runs);
              };
              outside = ground (arith, s.outside);
            }),
      )

  any-IsSafe :
      (xs : List ℕ)
      → queue k.p_proc_ready ≡ xs
      → (k.procs k.p_proc_ready).has_int_msg ≡ 0
      → any ≢ k.p_proc_ready
      → (k' : Kernel) → msg_receive k k.p_proc_ready any msg ≡ done k'
      → (q : ℕ → List ℕ) × IsSafe k' q
  any-IsSafe [] h z ne k' e = waits-IsSafe any (inl (refl, h)) (inr (inl refl)) ne (inl z) k' e
  any-IsSafe (x ∷ xs) h z ne k' e =
      let (r, rdy, i) =
        msg_receive-any k inv k.p_proc_ready msg s.sound.ready_in ready ok x xs h z in
      let (lt, ne', snd) =
        queued_sender k inv k.p_proc_ready msg s.sound.ready_in ready ok x
          (subst (In x) (sym h) (inl refl)) in
      (
        update queue k.p_proc_ready xs,
        subst (λ w. IsSafe w (update queue k.p_proc_ready xs)) (done-injective _ k' (sym r ∙ e))
            (took-IsSafe x none _ _ lt ne' snd i),
      )

  from-IsSafe :
      (src : ℕ)
      → src < table_size
      → src ≢ k.p_proc_ready
      → (o : Option ℕ) → sends k.procs src ≡ o
      → (k' : Kernel) → msg_receive k k.p_proc_ready src msg ≡ done k'
      → (q : ℕ → List ℕ) × IsSafe k' q
  from-IsSafe src lt ne none h k' e =
      waits-IsSafe src (inr (ground arith, λ c. cc)) (inl lt) ne (inr (ground arith, ground arith))
        k' e
  from-IsSafe src lt ne (some d) h k' e = elim (ℕ_discrete d k.p_proc_ready) [
    | yes same ↦ taken_from (subst (λ w. In src (queue w)) same (inv.queued src d lt h).1)
    | no other ↦
        waits-IsSafe src (inr (ground arith, λ c. other (cc (c, h)))) (inl lt) ne
          (inr (ground arith, ground arith)) k' e
  ]
    where
      taken_from : In src (queue k.p_proc_ready) → (q : ℕ → List ℕ) × IsSafe k' q
      taken_from member =
          let (r, rdy, i) =
            msg_receive-from k inv k.p_proc_ready msg s.sound.ready_in ready ok src member in
          let (lt', ne', snd) =
            queued_sender k inv k.p_proc_ready msg s.sound.ready_in ready ok src member in
          (
            dequeue queue k.p_proc_ready src,
            subst (λ w. IsSafe w (dequeue queue k.p_proc_ready src))
                (done-injective _ k' (sym r ∙ e)) (took-IsSafe src _ _ _ lt' ne' snd i),
          )

  pub msg_receive-IsSafe :
      (src : ℕ)
      → (src < table_size) ⊎ (src ≡ any) ⊎ (src ≡ interrupt)
      → src ≢ k.p_proc_ready
      → (k' : Kernel) → msg_receive k k.p_proc_ready src msg ≡ done k'
      → (q : ℕ → List ℕ) × IsSafe k' q
  msg_receive-IsSafe src (inl lt) ne k' e = from-IsSafe src lt ne (sends k.procs src) refl k' e
  msg_receive-IsSafe src (inr (inl a)) ne k' e =
      elim (ℕ_discrete (k.procs k.p_proc_ready).has_int_msg 0) [
        | yes z ↦
            any-IsSafe (queue k.p_proc_ready) refl z (subst (λ w. w ≢ k.p_proc_ready) a ne) k'
              (subst (λ w. msg_receive k k.p_proc_ready w msg ≡ done k') a e)
        | no nz ↦ interrupted-IsSafe src (inl a) nz k' e
      ]
  msg_receive-IsSafe src (inr (inr i)) ne k' e =
      elim (ℕ_discrete (k.procs k.p_proc_ready).has_int_msg 0) [
        | yes z ↦ waits-IsSafe src (inr (ground arith, silent)) (inr (inr i)) ne (inl z) k' e
        | no nz ↦ interrupted-IsSafe src (inr i) nz k' e
      ]
    where
      silent : sends k.procs src ≢ some k.p_proc_ready
      silent c = ground (arith, s.outside)

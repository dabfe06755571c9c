-- ===== src/Kernel/Ipc/Dequeue.antt =====
-- Taking a sender out of a queue leaves the table well formed (msg_receive of kernel/proc.c).
use mathlib.Core.Path.{subst}
use bz_os.Prelude.{
  ℕ, ◌<◌, ◌≡◌, ◌≢◌, inl, sym, ap, ◌∙◌, arith, Option, none, some, List, [], ◌∷◌, In, Distinct,
  update, update_self, update_ne, ℕ_discrete, ==_iff,
}
use bz_os.Kernel.State.{Process, table_size}
use bz_os.Kernel.Descriptor.{ldt_seg_linear}
use bz_os.Kernel.Ipc.Chain.{EndsIn-remove}
use bz_os.Kernel.Ipc.Deadlock.{sends}
use bz_os.Kernel.Ipc.Links.{
  Linked, Linked-congr, Linked-remove, Out→not, remove, before, before-some, before-In, before_ne,
  In-tail, ==_ne, In-remove, In-remove_ne, Distinct-remove, not-In-remove,
}
use bz_os.Kernel.Ipc.Invariant.{Inv, nexts, Status, Ready, Sending}
use bz_os.Kernel.Ipc.Take.{
  taken, sends-taken_self, sends-taken_ne, Ready-taken, Status-taken, segment-taken, next-taken_ne,
  next-taken_prev, head-taken_some, head-taken_ne, head-taken_who,
}

-- The queues after `s` has left that of `d`.
abbrev pub dequeue : (ℕ → List ℕ) → ℕ → ℕ → ℕ → List ℕ
dequeue queue d s = update queue d (remove s (queue d))

module _ {procs : ℕ → Process} {queue : ℕ → List ℕ} (inv : Inv procs queue) (who from : ℕ)
    (who_in : who < table_size) (others : from ≢ who) (ready : Ready (procs who))
    (waits : Sending (procs from)) (member : In from (queue who)) where
  from_to_who : sends procs from ≡ some who
  from_to_who = (inv.members who from who_in member).1

  abbrev prev : Option ℕ
  prev = before from none (queue who)

  abbrev table : ℕ → Process
  table = taken procs who from prev

  -- A process waits in one queue only.
  one_queue : (d p : ℕ) → d < table_size → In p (queue d) → In p (queue who) → d ≡ who
  one_queue d p lt i j = cc ((inv.members d p lt i).1, (inv.members who p who_in j).1)

  -- The process before `from`, if there is one, stands in the same queue.
  prev-In : (xs : List ℕ) (p : ℕ) → In from xs → before from none xs ≡ some p → In p xs
  prev-In [] p i e = absurd i
  prev-In (x ∷ xs) p i e = elim (ℕ_discrete x from) [
    | yes q ↦ let b : none ≡ some p = rw ((==_iff x from).1 q) at e in absurd (cc b)
    | no ne ↦
        let b : before from (some x) xs ≡ some p = rw (==_ne x from ne) at e in
        before-In from x xs p (In-tail from x xs ne i) b
  ]

  dequeue-Linked_self :
      (xs : List ℕ)
      → Distinct xs
      → In from xs
      → Linked (nexts procs) (procs who).q_sending xs
      → Linked
          (nexts (taken procs who from (before from none xs)))
          (taken procs who from (before from none xs) who).q_sending
          (remove from xs)
  dequeue-Linked_self [] d i l = absurd i
  dequeue-Linked_self (x ∷ xs) (o, d) i (e, l) = elim (ℕ_discrete x from) [
    | yes q ↦ rw ((==_iff x from).1 q) (
        Linked-congr (nexts procs) (nexts (taken procs who from none)) _ xs
          (λ p j.
            next-taken_ne procs who from others ready waits none p
              (λ c. Out→not x xs o (subst (λ w. In w xs) (c ∙ sym q) j)) (λ c. cc c))
          (subst (λ w. Linked (nexts procs) w xs)
            (ap (nexts procs) q ∙ sym (head-taken_who procs who from others ready waits)) l))
    | no ne ↦
        let j : In from xs = In-tail from x xs ne i in
        let (p, b) = before-some from x xs j in
        let b' : before from none (x ∷ xs) ≡ some p = rw (==_ne x from ne) b in
        subst
          (λ w.
            Linked (nexts (taken procs who from w)) (taken procs who from w who).q_sending
              (remove from (x ∷ xs)))
          (sym b')
          (rw (==_ne x from ne) (
            Linked-remove (nexts procs) (nexts (taken procs who from (some p))) _ from p x xs (o, d)
              ne j b
              (λ r np nf.
                next-taken_ne procs who from others ready waits (some p) r nf (λ c. np (cc c)))
              (next-taken_prev procs who from others ready waits p (before_ne from x xs p ne j b))
              (head-taken_some procs who from others ready waits p who ∙ e, l)))
  ]

  dequeue-Linked_ne :
      (d : ℕ) → d < table_size → d ≢ who → Linked (nexts table) (table d).q_sending (queue d)
  dequeue-Linked_ne d lt ne =
      Linked-congr (nexts procs) (nexts table) _ (queue d)
        (λ p i.
          next-taken_ne procs who from others ready waits prev p
            (λ c. ne (one_queue d p lt i (subst (λ w. In w (queue who)) (sym c) member)))
            (λ c. ne (one_queue d p lt i (prev-In (queue who) p member c))))
        (subst (λ w. Linked (nexts procs) w (queue d))
          (sym (head-taken_ne procs who from others ready waits prev d ne)) (inv.linked d lt))

  dequeue-Linked :
      (d : ℕ) → d < table_size → Linked (nexts table) (table d).q_sending (dequeue queue who from d)
  dequeue-Linked d lt = elim (ℕ_discrete who d) [
    | yes e ↦
        subst (λ w. Linked (nexts table) (table w).q_sending (dequeue queue who from w)) e
          (subst (Linked (nexts table) (table who).q_sending) (sym (update_self queue who _)) (
            dequeue-Linked_self (queue who) (inv.distinct who who_in) member
              (inv.linked who who_in)))
    | no ne ↦
        subst (Linked (nexts table) (table d).q_sending) (sym (update_ne queue who _ d ne))
          (dequeue-Linked_ne d lt (λ c. ne (sym c)))
  ]

  dequeue-members :
      (d p : ℕ)
      → d < table_size
      → In p (dequeue queue who from d)
      → (p < table_size) × (sends table p ≡ some d)
  dequeue-members d p lt i = elim (ℕ_discrete who d) [
    | yes e ↦ old (subst (λ w. In p (queue w)) e (In-remove p from (queue who) (here e))) (λ q.
        not-In-remove from (queue who) (inv.distinct who who_in)
          (subst (λ w. In w (remove from (queue who))) q (here e)))
    | no ne ↦
        let j : In p (queue d) = subst (In p) (update_ne queue who _ d ne) i in
        old j (λ q. ne (sym (one_queue d p lt j (subst (λ w. In w (queue who)) (sym q) member))))
  ]
    where
      old : In p (queue d) → p ≢ from → (p < table_size) × (sends table p ≡ some d)
      old j ne =
          let (a, b) = inv.members d p lt j in
          (a, sends-taken_ne procs who from others ready waits prev p ne ∙ b)

      here : who ≡ d → In p (remove from (queue who))
      here e =
          subst (In p) (update_self queue who _)
            (subst (λ w. In p (dequeue queue who from w)) (sym e) i)

  dequeue-queued :
      (p d : ℕ)
      → p < table_size
      → sends table p ≡ some d
      → (d < table_size) × In p (dequeue queue who from d)
  dequeue-queued p d lt h = elim (ℕ_discrete p from) [
    | yes e ↦ absurd (
        cc (
          sends-taken_self procs who from others ready waits prev,
          subst (λ w. sends table w ≡ some d) e h,
        ))
    | no ne ↦
        old ne
          (inv.queued p d lt (sym (sends-taken_ne procs who from others ready waits prev p ne) ∙ h))
  ]
    where
      old :
          p ≢ from
          → (d < table_size) × In p (queue d)
          → (d < table_size) × In p (dequeue queue who from d)
      old nf (a, i) = (
        a,
        elim (ℕ_discrete who d) [
          | yes e ↦
              subst (λ w. In p (dequeue queue who from w)) e
                (subst (In p) (sym (update_self queue who _))
                  (In-remove_ne p from (queue who) nf (subst (λ w. In p (queue w)) (sym e) i)))
          | no ne ↦ subst (In p) (sym (update_ne queue who _ d ne)) i
        ],
      )

  dequeue-Distinct : (d : ℕ) → d < table_size → Distinct (dequeue queue who from d)
  dequeue-Distinct d lt = elim (ℕ_discrete who d) [
    | yes e ↦
        subst (λ w. Distinct (dequeue queue who from w)) e
          (subst Distinct (sym (update_self queue who _))
            (Distinct-remove from (queue who) (inv.distinct who who_in)))
    | no ne ↦ subst Distinct (sym (update_ne queue who _ d ne)) (inv.distinct d lt)
  ]

  pub dequeue-Inv : Inv table (dequeue queue who from)
  unfolding ldt_seg_linear
  dequeue-Inv = record {
    linked = dequeue-Linked;
    members = dequeue-members;
    queued = dequeue-queued;
    distinct = dequeue-Distinct;
    status = λ p lt. elim (ℕ_discrete p from) [
      | yes e ↦
          subst (λ w. Status (table w)) (sym e)
            (inl (Ready-taken procs who from others ready waits prev))
      | no ne ↦ Status-taken procs who from others ready waits prev p ne (inv.status p lt)
    ];
    ends = λ p lt.
        let (n, a) = inv.ends p lt in
        EndsIn-remove (sends procs) (sends table) from
          (sends-taken_self procs who from others ready waits prev)
          (sends-taken_ne procs who from others ready waits prev) n p a;
    base = λ p lt.
        ground (arith, segment-taken procs who from others ready waits prev p, inv.base p lt);
  }

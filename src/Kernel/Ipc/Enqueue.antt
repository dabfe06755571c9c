-- ===== src/Kernel/Ipc/Enqueue.antt =====
-- A sender that joins a queue leaves the table well formed (msg_send of kernel/proc.c).
use mathlib.Core.Path.{subst}
use bz_os.Prelude.{
  ℕ, ◌<◌, ◌≡◌, ◌≢◌, inl, inr, refl, sym, ap, ◌∙◌, arith, none, some, List, [], ◌∷◌, ◌++◌, In,
  Distinct, update, update_self, update_ne, ℕ_discrete,
}
use bz_os.Kernel.State.{Process, table_size}
use bz_os.Kernel.Descriptor.{ldt_seg_linear}
use bz_os.Kernel.Ipc.Chain.{WaitsOn, EndsIn-add}
use bz_os.Kernel.Ipc.Deadlock.{sends}
use bz_os.Kernel.Ipc.Links.{
  Linked, Linked-congr, Linked-append, end_of, In-end_of, not→Out, Distinct-append_one,
  In-append_one, In-append_left, In-append_self,
}
use bz_os.Kernel.Ipc.Invariant.{Inv, nexts, Status, Ready, IsPointer}
use bz_os.Kernel.Ipc.Join.{
  joined, sends-joined_self, sends-joined_ne, Sending-joined, Status-joined, segment-joined,
  next-joined_self, next-joined_end, next-joined_ne, next-joined_nil, head-joined_cons,
  head-joined_nil, head-joined_dest,
}

-- The queues after `s` has joined that of `d`: it comes last.
abbrev pub enqueue : (ℕ → List ℕ) → ℕ → ℕ → ℕ → List ℕ
enqueue queue d s = update queue d (queue d ++ (s ∷ []))

module _ {procs : ℕ → Process} {queue : ℕ → List ℕ} (inv : Inv procs queue) (sender dest msg : ℕ)
    (in_table : sender < table_size) (dest_in : dest < table_size) (others : sender ≢ dest)
    (ready : Ready (procs sender)) (ok : IsPointer msg) where
  -- A process that is ready waits in no queue.
  pub idle : sends procs sender ≡ none
  idle = ground arith

  pub not_queued : (d : ℕ) → d < table_size → ¬ In sender (queue d)
  not_queued d lt i = cc (idle, (inv.members d sender lt i).1)

  ne_sender : (d p : ℕ) → d < table_size → In p (queue d) → p ≢ sender
  ne_sender d p lt i e = not_queued d lt (subst (λ w. In w (queue d)) e i)

  abbrev table : ℕ → Process
  table = joined procs sender dest msg (queue dest)

  enqueue-Linked_self :
      (xs : List ℕ)
      → queue dest ≡ xs
      → Linked
          (nexts (joined procs sender dest msg xs))
          (joined procs sender dest msg xs dest).q_sending
          (xs ++ (sender ∷ []))
  enqueue-Linked_self [] e = (
    head-joined_dest procs sender dest msg ready others ok,
    next-joined_self procs sender dest msg ready others ok [],
  )
  enqueue-Linked_self (x ∷ xs) e =
      Linked-append (nexts procs) (nexts (joined procs sender dest msg (x ∷ xs))) _ sender x xs
        (subst Distinct e (inv.distinct dest dest_in))
        (λ p i ne. next-joined_ne procs sender dest msg ready others ok x xs p (member p i) ne)
        (next-joined_end procs sender dest msg ready others ok x xs (member _ (In-end_of x xs)))
        (next-joined_self procs sender dest msg ready others ok (x ∷ xs))
        (head-joined_cons procs sender dest msg ready others ok x xs dest ∙ links.0, links.1)
    where
      member : (p : ℕ) → In p (x ∷ xs) → p ≢ sender
      member p i = ne_sender dest p dest_in (subst (In p) (sym e) i)

      links : Linked (nexts procs) (procs dest).q_sending (x ∷ xs)
      links = subst (Linked (nexts procs) (procs dest).q_sending) e (inv.linked dest dest_in)

  enqueue-Linked_ne :
      (d : ℕ)
      → d < table_size
      → d ≢ dest
      → (xs : List ℕ) → queue dest ≡ xs
      → Linked
          (nexts (joined procs sender dest msg xs))
          (joined procs sender dest msg xs d).q_sending
          (queue d)
  enqueue-Linked_ne d lt ne [] e =
      Linked-congr (nexts procs) (nexts (joined procs sender dest msg [])) _ (queue d)
        (λ p i. next-joined_nil procs sender dest msg ready others ok p (ne_sender d p lt i))
        (subst (λ o. Linked (nexts procs) o (queue d))
          (sym (head-joined_nil procs sender dest msg ready others ok d ne)) (inv.linked d lt))
  enqueue-Linked_ne d lt ne (x ∷ xs) e =
      Linked-congr (nexts procs) (nexts (joined procs sender dest msg (x ∷ xs))) _ (queue d)
        (λ p i.
          next-joined_ne procs sender dest msg ready others ok x xs p (ne_sender d p lt i)
            (λ q. ne (elsewhere (subst (λ w. In w (queue d)) q i))))
        (subst (λ o. Linked (nexts procs) o (queue d))
          (sym (head-joined_cons procs sender dest msg ready others ok x xs d)) (inv.linked d lt))
    where
      -- A process waits in one queue only.
      elsewhere : In (end_of x xs) (queue d) → d ≡ dest
      elsewhere i =
          let here = subst (In (end_of x xs)) (sym e) (In-end_of x xs) in
          cc ((inv.members d _ lt i).1, (inv.members dest _ dest_in here).1)

  enqueue-Linked :
      (d : ℕ)
      → d < table_size
      → Linked (nexts table) (table d).q_sending (enqueue queue dest sender d)
  enqueue-Linked d lt = elim (ℕ_discrete d dest) [
    | yes e ↦
        subst (λ w. Linked (nexts table) (table w).q_sending (enqueue queue dest sender w)) (sym e)
          (subst (Linked (nexts table) (table dest).q_sending) (sym (update_self queue dest _))
            (enqueue-Linked_self (queue dest) refl))
    | no ne ↦
        subst (Linked (nexts table) (table d).q_sending)
          (sym (update_ne queue dest _ d (λ q. ne (sym q))))
          (enqueue-Linked_ne d lt ne (queue dest) refl)
  ]

  enqueue-members :
      (d p : ℕ)
      → d < table_size
      → In p (enqueue queue dest sender d)
      → (p < table_size) × (sends table p ≡ some d)
  enqueue-members d p lt i = elim (ℕ_discrete d dest) [
    | yes e ↦ elim (In-append_one p (queue dest) sender (there e)) [
      | inl j ↦ old (subst (λ w. In p (queue w)) (sym e) j)
      | inr q ↦ (
        subst (λ w. w < table_size) (sym q) in_table,
        subst (λ w. sends table w ≡ some d) (sym q)
            (sends-joined_self procs sender dest msg ready others ok (queue dest)
              ∙ ap some (sym e)),
      )
    ]
    | no ne ↦ old (subst (In p) (update_ne queue dest _ d (λ q. ne (sym q))) i)
  ]
    where
      old : In p (queue d) → (p < table_size) × (sends table p ≡ some d)
      old j =
          let (a, b) = inv.members d p lt j in
          (
            a,
            sends-joined_ne procs sender dest msg ready others ok (queue dest) p
                  (ne_sender d p lt j)
                ∙ b,
          )

      there : d ≡ dest → In p (queue dest ++ (sender ∷ []))
      there e =
          subst (In p) (update_self queue dest _)
            (subst (λ w. In p (enqueue queue dest sender w)) e i)

  enqueue-queued :
      (p d : ℕ)
      → p < table_size
      → sends table p ≡ some d
      → (d < table_size) × In p (enqueue queue dest sender d)
  enqueue-queued p d lt h = elim (ℕ_discrete p sender) [
    | yes e ↦
        subst (λ w. (w < table_size) × In p (enqueue queue dest sender w)) (to_dest e)
          (
            dest_in,
            subst (In p) (sym (update_self queue dest _)) (
                subst (λ w. In w (queue dest ++ (sender ∷ []))) (sym e)
                  (In-append_self (queue dest) sender)),
          )
    | no ne ↦ old (
        inv.queued p d lt
          (sym (sends-joined_ne procs sender dest msg ready others ok (queue dest) p ne) ∙ h))
  ]
    where
      to_dest : p ≡ sender → dest ≡ d
      to_dest e = cc (
        sends-joined_self procs sender dest msg ready others ok (queue dest),
        subst (λ w. sends table w ≡ some d) e h,
      )

      old :
          (d < table_size) × In p (queue d) → (d < table_size) × In p (enqueue queue dest sender d)
      old (a, i) = (
        a,
        elim (ℕ_discrete dest d) [
          | yes e ↦
              subst (λ w. In p (enqueue queue dest sender w)) e
                (subst (In p) (sym (update_self queue dest _))
                  (In-append_left p (queue dest) sender (subst (λ w. In p (queue w)) (sym e) i)))
          | no ne ↦ subst (In p) (sym (update_ne queue dest _ d ne)) i
        ],
      )

  enqueue-Distinct : (d : ℕ) → d < table_size → Distinct (enqueue queue dest sender d)
  enqueue-Distinct d lt = elim (ℕ_discrete dest d) [
    | yes e ↦
        subst (λ w. Distinct (enqueue queue dest sender w)) e
          (subst Distinct (sym (update_self queue dest _)) (
            Distinct-append_one (queue dest) sender (inv.distinct dest dest_in)
              (not→Out sender (queue dest) (not_queued dest dest_in))))
    | no ne ↦ subst Distinct (sym (update_ne queue dest _ d ne)) (inv.distinct d lt)
  ]

  pub enqueue-Inv : ¬ WaitsOn (sends procs) dest sender → Inv table (enqueue queue dest sender)
  unfolding ldt_seg_linear
  enqueue-Inv nw = record {
    linked = enqueue-Linked;
    members = enqueue-members;
    queued = enqueue-queued;
    distinct = enqueue-Distinct;
    status = λ p lt. elim (ℕ_discrete p sender) [
      | yes e ↦
          subst (λ w. Status (table w)) (sym e)
            (inr (inl (Sending-joined procs sender dest msg ready others ok (queue dest)).0))
      | no ne ↦
          Status-joined procs sender dest msg ready others ok (queue dest) p ne (inv.status p lt)
    ];
    ends = λ p lt.
        let (n, a) = inv.ends p lt in
        let (m, b) = inv.ends dest dest_in in
        EndsIn-add (sends procs) (sends table) sender dest idle
          (sends-joined_self procs sender dest msg ready others ok (queue dest))
          (sends-joined_ne procs sender dest msg ready others ok (queue dest)) m b
          (λ q. others (sym q)) nw n p a;
    base = λ p lt.
        ground (
          arith,
          segment-joined procs sender dest msg ready others ok (queue dest) p,
          inv.base p lt,
        );
  }

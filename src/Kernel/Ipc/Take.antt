-- ===== src/Kernel/Ipc/Take.antt =====
-- The table after a message has been taken from a sender: msg_receive of kernel/proc.c.
use mathlib.Core.Path.{subst}
use bz_os.Prelude.{
  ℕ, zero, suc, ◌<◌, ◌≡◌, ◌≢◌, sym, arith, Option, none, some, List, [], ◌∷◌, In, true, false, done,
  update, ◌==◌, length, ==_iff, ℕ_discrete,
}
use bz_os.Kernel.State.{Process, sending, has}
use bz_os.Kernel.Ipc.{find_prev, unlink_sender, released, points_to}
use bz_os.Kernel.Ipc.Deadlock.{sends}
use bz_os.Kernel.Ipc.Links.{Linked, before, before-some, In-tail, ==_ne}
use bz_os.Kernel.Ipc.Invariant.{nexts, Status, Ready, Sending}

-- The walk ends at the process before src.
pub find_prev-before :
    (procs : ℕ → Process) (src : ℕ) (o prev : Option ℕ) (xs : List ℕ) (fuel : ℕ)
    → has (procs src).flags sending ≡ true
    → Linked (nexts procs) o xs
    → length xs < fuel
    → find_prev fuel procs src prev o ≡ done (before src prev xs)
unfolding find_prev
find_prev-before procs src o prev xs zero f l h = absurd (omega arith)
find_prev-before procs src o prev [] (suc fuel) f l h = rw (l, find_prev)
find_prev-before procs src o prev (x ∷ xs) (suc fuel) f (e, l) h =
    rw (e, find_prev)
      (ground (arith, f, find_prev-before procs src (nexts procs x) (some x) xs fuel f l))

-- The queue of `who` without `from`, which stands behind `prev`.
abbrev pub cut : (ℕ → Process) → ℕ → ℕ → Option ℕ → ℕ → Process
cut procs who from none =
    let t = update procs who (record (procs who) { q_sending = (procs from).next_sending }) in
    update t from (record (t from) { next_sending = none })
cut procs who from (some p) =
    let t = update procs p (record (procs p) { next_sending = (procs from).next_sending }) in
    update t from (record (t from) { next_sending = none })

unfoldable pub taken : (ℕ → Process) → ℕ → ℕ → Option ℕ → ℕ → Process
taken procs who from prev =
    update (cut procs who from prev) from (released (cut procs who from prev from))

pub unlink_sender-cut :
    (procs : ℕ → Process) (who from : ℕ) (xs : List ℕ)
    → Linked (nexts procs) (procs who).q_sending xs
    → In from xs
    → unlink_sender procs who from (before from none xs)
      ≡ done (cut procs who from (before from none xs))
unfolding unlink_sender
unlink_sender-cut procs who from [] l i = absurd i
unlink_sender-cut procs who from (x ∷ xs) (e, l) i = elim (ℕ_discrete x from) [
  | yes q ↦
      let here : (x == from) ≡ true = (==_iff x from).1 q in
      let head : points_to (procs who).q_sending from ≡ true = rw e ((==_iff from x).1 (sym q)) in
      rw here (rw (head, unlink_sender))
  | no ne ↦
      let away : (x == from) ≡ false = ==_ne x from ne in
      let head : points_to (procs who).q_sending from ≡ false =
        rw e (==_ne from x (λ c. ne (sym c))) in
      let (p, b) = before-some from x xs (In-tail from x xs ne i) in
      let b' : before from none (x ∷ xs) ≡ some p = rw away b in
      subst (λ w. unlink_sender procs who from w ≡ done (cut procs who from w)) (sym b')
        (rw (head, unlink_sender))
]

-- What the table is then, a field at a time.
module _ (procs : ℕ → Process) (who from : ℕ) (others : from ≢ who) (ready : Ready (procs who))
    (waits : Sending (procs from)) where
  abbrev t : Option ℕ → ℕ → Process
  t prev = taken procs who from prev

  pub sends-taken_self : (prev : Option ℕ) → sends (t prev) from ≡ none
  unfolding taken
  sends-taken_self none = ground arith
  sends-taken_self (some p) = ground arith

  pub sends-taken_ne : (prev : Option ℕ) (q : ℕ) → q ≢ from → sends (t prev) q ≡ sends procs q
  unfolding taken
  sends-taken_ne none q ne = ground arith
  sends-taken_ne (some p) q ne = ground arith

  pub Ready-taken : (prev : Option ℕ) → Ready (t prev from)
  unfolding taken
  Ready-taken none = ground arith
  Ready-taken (some p) = ground arith

  pub Status-taken : (prev : Option ℕ) (q : ℕ) → q ≢ from → Status (procs q) → Status (t prev q)
  unfolding taken
  Status-taken none q ne s = ground arith
  Status-taken (some p) q ne s = ground arith

  pub segment-taken : (prev : Option ℕ) (q : ℕ) → (t prev q).ldt_rw ≡ (procs q).ldt_rw
  unfolding taken
  segment-taken none q = ground arith
  segment-taken (some p) q = ground arith

  pub next-taken_ne :
      (prev : Option ℕ) (q : ℕ) → q ≢ from → prev ≢ some q → nexts (t prev) q ≡ nexts procs q
  unfolding taken
  next-taken_ne none q ne np = ground arith
  next-taken_ne (some p) q ne np = ground arith

  pub next-taken_prev : (p : ℕ) → p ≢ from → nexts (t (some p)) p ≡ nexts procs from
  unfolding taken
  next-taken_prev p ne = ground arith

  pub head-taken_some : (p q : ℕ) → (t (some p) q).q_sending ≡ (procs q).q_sending
  unfolding taken
  head-taken_some p q = ground arith

  pub head-taken_ne :
      (prev : Option ℕ) (q : ℕ) → q ≢ who → (t prev q).q_sending ≡ (procs q).q_sending
  unfolding taken
  head-taken_ne none q ne = ground arith
  head-taken_ne (some p) q ne = ground arith

  pub head-taken_who : (t none who).q_sending ≡ nexts procs from
  unfolding taken
  head-taken_who = ground arith

  pub flags-taken_ne : (prev : Option ℕ) (q : ℕ) → q ≢ from → (t prev q).flags ≡ (procs q).flags
  unfolding taken
  flags-taken_ne none q ne = ground arith
  flags-taken_ne (some p) q ne = ground arith

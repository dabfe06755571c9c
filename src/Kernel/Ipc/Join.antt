-- ===== src/Kernel/Ipc/Join.antt =====
-- The table after a sender has joined a queue: msg_send of kernel/proc.c, where dest is not ready.
use mathlib.Core.Path.{subst}
use bz_os.Prelude.{
  ℕ, zero, suc, ◌<◌, ◌≤◌, ◌≡◌, ◌≢◌, inl, inr, refl, sym, ap, arith, Option, none, some, List, [],
  ◌∷◌, In, Distinct, done, update, length, get_or,
}
use bz_os.Kernel.State.{Process, table_size, sending, raise}
use bz_os.Kernel.Ipc.{last_sender, append_sender, chain_fuel}
use bz_os.Kernel.Ipc.Chain.{pigeonhole}
use bz_os.Kernel.Ipc.Deadlock.{sends}
use bz_os.Kernel.Ipc.Links.{Linked, end_of, Out→not}
use bz_os.Kernel.Ipc.Invariant.{nexts, Status, Ready, Sending, IsPointer}

In-get_or : (xs : List ℕ) (i : ℕ) → i < length xs → In (get_or xs i 0) xs
In-get_or [] i h = absurd (omega arith)
In-get_or (x ∷ xs) zero h = inl refl
In-get_or (x ∷ xs) (suc i) h = inr (In-get_or xs i (omega arith))

get_or-injective :
    (xs : List ℕ) (i j : ℕ)
    → Distinct xs
    → i < length xs
    → j < length xs
    → get_or xs i 0 ≡ get_or xs j 0
    → i ≡ j
get_or-injective [] i j d h k e = absurd (omega arith)
get_or-injective (x ∷ xs) zero zero d h k e = refl
get_or-injective (x ∷ xs) zero (suc j) (o, d) h k e =
    absurd (Out→not x xs o (subst (λ w. In w xs) (sym e) (In-get_or xs j (omega arith))))
get_or-injective (x ∷ xs) (suc i) zero (o, d) h k e =
    absurd (Out→not x xs o (subst (λ w. In w xs) e (In-get_or xs i (omega arith))))
get_or-injective (x ∷ xs) (suc i) (suc j) (o, d) h k e =
    ap suc (get_or-injective xs i j d (omega arith) (omega arith) e)

-- A queue holds no more processes than the table.
pub length-Distinct :
    (m : ℕ) (xs : List ℕ) → Distinct xs → ((p : ℕ) → In p xs → p < m) → length xs ≤ m
length-Distinct m xs d h =
    pigeonhole m (length xs) (λ i. get_or xs i 0)
      ((λ i lt. h _ (In-get_or xs i lt)), (λ i j li lj e. get_or-injective xs i j d li lj e))

pub last_sender-end_of :
    (procs : ℕ → Process) (o : Option ℕ) (x : ℕ) (xs : List ℕ) (fuel : ℕ)
    → Linked (nexts procs) o (x ∷ xs)
    → length xs < fuel
    → last_sender fuel procs x ≡ done (end_of x xs)
unfolding last_sender
last_sender-end_of procs o x xs zero l h = absurd (omega arith)
last_sender-end_of procs o x [] (suc fuel) (e, l) h = rw (l, last_sender)
last_sender-end_of procs o x (y ∷ ys) (suc fuel) (e, (l, r)) h =
    rw (l, last_sender) (last_sender-end_of procs (nexts procs x) y ys fuel (l, r) (omega arith))

-- The fields that msg_send sets before it walks the queue, the link, and the end.
abbrev pub blocked : Process → ℕ → ℕ → Process
blocked s dest msg = record s { flags = raise s.flags sending; send_to = dest; p_msg = msg }

abbrev pub link_in : (ℕ → Process) → ℕ → ℕ → List ℕ → ℕ → Process
link_in t dest sender [] = update t dest (record (t dest) { q_sending = some sender })
link_in t dest sender (x ∷ xs) =
    update t (end_of x xs) (record (t (end_of x xs)) { next_sending = some sender })

abbrev pub unlinked : (ℕ → Process) → ℕ → ℕ → Process
unlinked t s = update t s (record (t s) { next_sending = none })

unfoldable pub joined : (ℕ → Process) → ℕ → ℕ → ℕ → List ℕ → ℕ → Process
joined procs sender dest msg queue =
    unlinked (link_in (update procs sender (blocked (procs sender) dest msg)) dest sender queue)
      sender

pub append_sender-link_in :
    (t : ℕ → Process) (dest sender : ℕ) (queue : List ℕ)
    → Linked (nexts t) (t dest).q_sending queue
    → length queue ≤ table_size
    → append_sender t dest sender ≡ done (link_in t dest sender queue)
unfolding append_sender
append_sender-link_in t dest sender [] l h = rw (l, append_sender)
append_sender-link_in t dest sender (x ∷ xs) l h =
    rw (l.0, append_sender)
      (rw (last_sender-end_of t (t dest).q_sending x xs chain_fuel l (omega arith)))

-- What the table is then, a field at a time.
module _ (procs : ℕ → Process) (sender dest msg : ℕ) (ready : Ready (procs sender))
    (others : sender ≢ dest) (ok : IsPointer msg) where
  abbrev t : List ℕ → ℕ → Process
  t queue = joined procs sender dest msg queue

  pub sends-joined_self : (queue : List ℕ) → sends (t queue) sender ≡ some dest
  unfolding joined
  sends-joined_self [] = ground arith
  sends-joined_self (x ∷ xs) = ground arith

  pub sends-joined_ne : (queue : List ℕ) (p : ℕ) → p ≢ sender → sends (t queue) p ≡ sends procs p
  unfolding joined
  sends-joined_ne [] p ne = ground arith
  sends-joined_ne (x ∷ xs) p ne = ground arith

  pub Sending-joined :
      (queue : List ℕ) → Sending (t queue sender) × ((t queue sender).send_to ≡ dest)
  unfolding joined
  Sending-joined [] = ground arith
  Sending-joined (x ∷ xs) = ground arith

  pub Status-joined : (queue : List ℕ) (p : ℕ) → p ≢ sender → Status (procs p) → Status (t queue p)
  unfolding joined
  Status-joined [] p ne s = ground arith
  Status-joined (x ∷ xs) p ne s = ground arith

  pub segment-joined : (queue : List ℕ) (p : ℕ) → (t queue p).ldt_rw ≡ (procs p).ldt_rw
  unfolding joined
  segment-joined [] p = ground arith
  segment-joined (x ∷ xs) p = ground arith

  pub next-joined_self : (queue : List ℕ) → nexts (t queue) sender ≡ none
  unfolding joined
  next-joined_self [] = ground arith
  next-joined_self (x ∷ xs) = ground arith

  pub next-joined_end :
      (x : ℕ) (xs : List ℕ) → end_of x xs ≢ sender → nexts (t (x ∷ xs)) (end_of x xs) ≡ some sender
  unfolding joined
  next-joined_end x xs ne = ground arith

  pub next-joined_ne :
      (x : ℕ) (xs : List ℕ) (p : ℕ)
      → p ≢ sender
      → p ≢ end_of x xs
      → nexts (t (x ∷ xs)) p ≡ nexts procs p
  unfolding joined
  next-joined_ne x xs p ne ne' = ground arith

  pub next-joined_nil : (p : ℕ) → p ≢ sender → nexts (t []) p ≡ nexts procs p
  unfolding joined
  next-joined_nil p ne = ground arith

  pub head-joined_cons :
      (x : ℕ) (xs : List ℕ) (p : ℕ) → (t (x ∷ xs) p).q_sending ≡ (procs p).q_sending
  unfolding joined
  head-joined_cons x xs p = ground arith

  pub head-joined_nil : (p : ℕ) → p ≢ dest → (t [] p).q_sending ≡ (procs p).q_sending
  unfolding joined
  head-joined_nil p ne = ground arith

  pub head-joined_dest : (t [] dest).q_sending ≡ some sender
  unfolding joined
  head-joined_dest = ground arith

  pub runnable-joined :
      (queue : List ℕ) (p : ℕ)
      → p ≢ sender
      → ((t queue p).flags ≡ (procs p).flags)
        × ((t queue p).priority ≡ (procs p).priority)
        × ((t queue p).has_int_msg ≡ (procs p).has_int_msg)
  unfolding joined
  runnable-joined [] p ne = ground arith
  runnable-joined (x ∷ xs) p ne = ground arith

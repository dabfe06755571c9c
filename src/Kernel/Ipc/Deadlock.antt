-- ===== src/Kernel/Ipc/Deadlock.antt =====
-- deadlock of kernel/proc.c against the relation that it decides.
use mathlib.Core.Path.{subst}
use bz_os.Prelude.{
  ℕ, zero, suc, ◌<◌, ◌≡◌, ◌≢◌, ◌⊎◌, ◌↔◌, inl, inr, refl, arith, Option, none, some, ℕ_discrete,
  Bool, true, false, done,
}
use bz_os.Kernel.State.{Process, sending, has, table_size}
use bz_os.Kernel.Ipc.{target, deadlock, deadlock_from, print_chain, chain_fuel}
use bz_os.Kernel.Ipc.Chain.{EndsIn, WaitsOn, last, next, EndsIn-lt}

abbrev pub sends : (ℕ → Process) → ℕ → Option ℕ
sends procs p = target (procs p)

-- Every sender has its message, and names a process of the table.
abbrev pub SendersInside : (ℕ → Process) → Type 0
SendersInside procs =
    (p d : ℕ) → p < table_size → sends procs p ≡ some d → (d < table_size) × ((procs p).p_msg ≢ 0)

module _ (procs : ℕ → Process) where
  target→ :
      (p d : ℕ)
      → sends procs p ≡ some d
      → (has (procs p).flags sending ≡ true) × ((procs p).send_to ≡ d)
  target→ p d h = ground arith

  target_none→ : (p : ℕ) → sends procs p ≡ none → has (procs p).flags sending ≡ false
  target_none→ p h = ground arith

  WaitsOn-step :
      {p d s : ℕ}
      → WaitsOn (sends procs) p s
      → sends procs p ≡ some d
      → (d ≡ s) ⊎ WaitsOn (sends procs) d s
  WaitsOn-step (last e) h = inl (cc)
  WaitsOn-step {s = s} (next e w) h = inr (subst (λ x. WaitsOn (sends procs) x s) (cc) w)

  WaitsOn-sends : {p s : ℕ} → WaitsOn (sends procs) p s → (d : ℕ) × (sends procs p ≡ some d)
  WaitsOn-sends (last e) = (_, e)
  WaitsOn-sends (next e w) = (_, e)

  print_chain-done :
      SendersInside procs
      → (n fuel src p : ℕ) → EndsIn (sends procs) n p
      → n < fuel
      → p < table_size
      → WaitsOn (sends procs) p src
      → print_chain fuel procs src p ≡ done tt
  unfolding print_chain
  print_chain-done good n zero src p a lt h w = absurd (omega arith)
  print_chain-done good zero (suc fuel) src p a lt h w = let (d, e) = WaitsOn-sends w in cc
  print_chain-done good (suc n) (suc fuel) src p (d, e, a) lt h w = elim (WaitsOn-step w e) [
    | inl here ↦ ground (arith, good p d h e, target→ p d e)
    | inr on ↦ ground (
      arith,
      good p d h e,
      at_target p d e (print_chain-done good n fuel src d a (omega arith) (good p d h e).0 on),
    )
  ]
    where
      at_target :
          (p d : ℕ)
          → sends procs p ≡ some d
          → print_chain fuel procs src d ≡ done tt
          → print_chain fuel procs src (procs p).send_to ≡ done tt
      at_target p d e r = rw ((target→ p d e).1) r

  -- The loop of deadlock, from p on.
  module _ (good : SendersInside procs) (src dest m : ℕ) (dest_ends : EndsIn (sends procs) m dest)
      (m_small : m < chain_fuel) (dest_in : dest < table_size) where
    deadlock_from-decides :
        (n fuel p : ℕ)
        → EndsIn (sends procs) n p
        → n < fuel
        → p < table_size
        → (WaitsOn (sends procs) p src → WaitsOn (sends procs) dest src)
        → (b : Bool) × (deadlock_from fuel procs src dest p ≡ done b)
          × ((b ≡ true) ↔ WaitsOn (sends procs) p src)
    unfolding deadlock_from
    deadlock_from-decides n zero p a lt h back = absurd (omega arith)
    deadlock_from-decides zero (suc fuel) p a lt h back = (
      false,
      rw (target_none→ p a),
      ((λ q. absurd (cc)), (λ w. let (d, e) = WaitsOn-sends w in absurd (cc))),
    )
    deadlock_from-decides (suc n) (suc fuel) p (d, e, a) lt h back = elim (ℕ_discrete d src) [
      | yes here ↦
          let w : WaitsOn (sends procs) p src = last (rw (← here) e) in
          (
            true,
            ground (
              arith,
              target→ p d e,
              print_chain-done good m chain_fuel src dest dest_ends m_small dest_in (back w),
            ),
            ((λ q. w), (λ _. refl)),
          )
      | no ne ↦
          let (b, r, (sound, complete)) =
            deadlock_from-decides n fuel d a (omega arith) (good p d h e).0
              (λ w. back (next e w)) in
          (
            b,
            ground (arith, target→ p d e, on_target p d e b r),
            (
              (λ q. next e (sound q)),
              (λ w. elim (WaitsOn-step w e) [ inl q ↦ absurd (ne q) | inr w' ↦ complete w' ]),
            ),
          )
    ]
      where
        on_target :
            (p d : ℕ)
            → sends procs p ≡ some d
            → (b : Bool) → deadlock_from fuel procs src dest d ≡ done b
            → deadlock_from fuel procs src dest (procs p).send_to ≡ done b
        on_target p d e b r = rw ((target→ p d e).1) r

-- In a table whose senders send to pids of the table with a message pointer that is not null, and
-- for a pid dest whose chain of waiting processes ends: `deadlock` returns within its fuel, no
-- assertion fails, and the answer is 1 exactly if dest waits, directly or through others, on src.
pub deadlock-decides :
    (procs : ℕ → Process) (src dest n : ℕ)
    → SendersInside procs
    → dest < table_size
    → EndsIn (sends procs) n dest
    → (b : Bool) × (deadlock procs src dest ≡ done b)
      × ((b ≡ true) ↔ WaitsOn (sends procs) dest src)
unfolding deadlock
deadlock-decides procs src dest n good h a =
    deadlock_from-decides procs good src dest n a small h n chain_fuel dest a small h (λ w. w)
  where
    small : n < chain_fuel
    small =
        omega (arith, EndsIn-lt (sends procs) table_size (λ p d lt e. (good p d lt e).0) n dest a h)

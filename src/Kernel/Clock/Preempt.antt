-- ===== src/Kernel/Clock/Preempt.antt =====
-- What the clock does to the process that runs (kernel/clock.c).
use mathlib.Core.Path.{subst}
use bz_os.Prelude.{
  ℕ, ◌<◌, ◌≤◌, ◌≡◌, ◌≢◌, inl, inr, refl, sym, ◌∙◌, arith, List, true, false, done, ◌==◌, Bool-cases,
  ℕ_discrete,
}
use bz_os.Prelude.Int.{ℤ, pos, ltb_ℤ, pred_ℤ, ◌≤ℤ◌}
use bz_os.Kernel.State.{Process, Kernel, table_size, task_tty}
use bz_os.Kernel.Schedule.{schedule}
use bz_os.Kernel.Schedule.Choice.{schedule-Scheduled}
use bz_os.Kernel.Clock.{clock_handler, count_tick, may_switch}
use bz_os.Kernel.Ipc.Invariant.{
  Inv, Inv-SameLinks, SameLinks, Status, Inv-Renewed, Renewed-SameState,
}
use bz_os.Kernel.Ipc.Inform.{inform_int_lem}

-- The state of the kernel between two entries: a well-formed table, and a process that runs.
pub record IsSound (k : Kernel) (queue : ℕ → List ℕ) : Type 0 where
  pub table : Inv k.procs queue
  pub ready_in : k.p_proc_ready < table_size
  pub runs : (k.procs k.p_proc_ready).flags ≡ 0

positive : (z : ℤ) → ltb_ℤ (pos 0) z ≡ true → pos 1 ≤ℤ z
positive z h = ground arith

module _ (k : Kernel) {queue : ℕ → List ℕ} (s : IsSound k queue) where
  count_tick-IsSound : IsSound (count_tick k) queue
  unfolding count_tick
  count_tick-IsSound = record {
    table = Inv-SameLinks links st s.table;
    ready_in = s.ready_in;
    runs = ground (arith, s.runs);
  }
    where
      links : (p : ℕ) → SameLinks (k.procs p) ((count_tick k).procs p)
      links p = ground arith

      st : (p : ℕ) → p < table_size → Status ((count_tick k).procs p)
      st p lt = ground (arith, s.table.status p lt)

  pub schedule-IsSound : (k' : Kernel) → schedule 2 k ≡ done k' → IsSound k' queue
  schedule-IsSound k' e =
      let r = schedule-Scheduled k k' e in
      record {
        table = Inv-Renewed r.renewed s.table;
        ready_in = r.chosen.in_table;
        runs = r.chosen.is_runnable;
      }

  may_switch-IsSound : (k' : Kernel) → may_switch k ≡ done k' → IsSound k' queue
  unfolding may_switch
  may_switch-IsSound k' e = elim (Bool-cases (k.k_reenter == 0)) [
    | inr nested ↦ subst (λ w. IsSound w queue) (stays nested) s
    | inl outer ↦ elim (Bool-cases (ltb_ℤ (pos 0) (k.procs k.p_proc_ready).ticks)) [
      | inl left ↦ subst (λ w. IsSound w queue) (ground arith) s
      | inr used ↦ schedule-IsSound k' (ground arith)
    ]
  ]
    where
      stays : (k.k_reenter == 0) ≡ false → k ≡ k'
      stays nested = ground arith

-- The state in which clock_handler makes its tests.
module _ (k : Kernel) {queue : ℕ → List ℕ} (s : IsSound k queue) where
  record Ticked (k1 : Kernel) : Type 0 where
    sound : IsSound k1 queue
    same_process : k1.p_proc_ready ≡ k.p_proc_ready
    same_level : k1.k_reenter ≡ k.k_reenter
    one_less : (k1.procs k.p_proc_ready).ticks ≡ pred_ℤ (k.procs k.p_proc_ready).ticks
    outside : (p : ℕ) → table_size ≤ p → (k1.procs p).flags ≡ (k.procs p).flags
    goes_on : clock_handler k ≡ may_switch k1

  ticked : (k1 : Kernel) × Ticked k1
  unfolding clock_handler count_tick
  ticked = elim (Bool-cases (k.key_pressed == 0)) [
    | inl quiet ↦ (
      count_tick k,
      record {
        sound = count_tick-IsSound k s;
        same_process = refl;
        same_level = refl;
        one_less = ground arith;
        outside = λ p h. ground arith;
        goes_on = rw quiet;
      },
    )
    | inr pressed ↦
        let v = count_tick-IsSound k s in
        let (t, m, e, inv, off, run, left) =
          inform_int_lem (count_tick k) v.table task_tty (omega arith) in
        (
          record (count_tick k) { procs = t; mem = m },
          record {
            sound = record { table = inv; ready_in = s.ready_in; runs = still t off run };
            same_process = refl;
            same_level = refl;
            one_less = ticks_at t off left;
            outside = λ p h. ground (arith, off p);
            goes_on = ground (arith, e);
          },
        )
  ]
    where
      still :
          (t : ℕ → Process)
          → ((p : ℕ) → p ≢ task_tty → t p ≡ (count_tick k).procs p)
          → (((count_tick k).procs task_tty).flags ≡ 0 → (t task_tty).flags ≡ 0)
          → (t k.p_proc_ready).flags ≡ 0
      still t off run = elim (ℕ_discrete k.p_proc_ready task_tty) [
        | yes e ↦ ground (arith, s.runs, run)
        | no ne ↦ ground (arith, off k.p_proc_ready ne, s.runs)
      ]

      ticks_at :
          (t : ℕ → Process)
          → ((p : ℕ) → p ≢ task_tty → t p ≡ (count_tick k).procs p)
          → (t task_tty).ticks ≡ ((count_tick k).procs task_tty).ticks
          → (t k.p_proc_ready).ticks ≡ pred_ℤ (k.procs k.p_proc_ready).ticks
      ticks_at t off left = elim (ℕ_discrete k.p_proc_ready task_tty) [
        | yes e ↦ ground (arith, left)
        | no ne ↦ ground (arith, off k.p_proc_ready ne)
      ]

  -- A clock interrupt leaves the table well formed, and a process that can run as p_proc_ready.
  pub clock_handler-IsSound : (k' : Kernel) → clock_handler k ≡ done k' → IsSound k' queue
  clock_handler-IsSound k' e =
      let (k1, t) = ticked in may_switch-IsSound k1 t.sound k' (sym t.goes_on ∙ e)

  -- In a sound state in which the running process has two ticks or more left, clock_handler
  -- returns, the same process goes on running, and one tick is taken from it.
  pub clock_handler-keeps :
      pos 2 ≤ℤ (k.procs k.p_proc_ready).ticks
      → (k' : Kernel) × (clock_handler k ≡ done k')
        × (k'.p_proc_ready ≡ k.p_proc_ready)
        × ((k'.procs k.p_proc_ready).ticks ≡ pred_ℤ (k.procs k.p_proc_ready).ticks)
  unfolding may_switch
  clock_handler-keeps more =
      let (k1, t) = ticked in
      (k1, ground (arith, t.goes_on, t.same_process, t.one_less, more), t.same_process, t.one_less)

  -- In a sound state: if the clock interrupt did not interrupt the kernel itself, the process that
  -- runs when clock_handler has returned has ticks left.
  pub clock_handler-has_ticks :
      k.k_reenter ≡ 0
      → (k' : Kernel) → clock_handler k ≡ done k'
      → pos 1 ≤ℤ (k'.procs k'.p_proc_ready).ticks
  unfolding may_switch
  clock_handler-has_ticks outer k' e =
      let (k1, t) = ticked in
      elim (Bool-cases (ltb_ℤ (pos 0) (k1.procs k1.p_proc_ready).ticks)) [
        | inl left ↦
            subst (λ (w : Kernel). pos 1 ≤ℤ (w.procs w.p_proc_ready).ticks) (stays k1 t left)
              (positive (k1.procs k1.p_proc_ready).ticks left)
        | inr used ↦
            (schedule-Scheduled k1 k' (ground (arith, t.goes_on, t.same_level))).chosen.has_ticks
      ]
    where
      stays :
          (k1 : Kernel)
          → Ticked k1
          → ltb_ℤ (pos 0) (k1.procs k1.p_proc_ready).ticks ≡ true
          → k1 ≡ k'
      stays k1 t left = ground (arith, t.goes_on, t.same_level)

  -- What is no process is left alone.
  pub clock_handler-outside :
      (k' : Kernel)
      → clock_handler k ≡ done k'
      → (p : ℕ) → table_size ≤ p
      → (k'.procs p).flags ≡ (k.procs p).flags
  unfolding may_switch
  clock_handler-outside k' e p h =
      let (k1, t) = ticked in
      elim (Bool-cases (k1.k_reenter == 0)) [
        | inr nested ↦ ground (arith, t.goes_on, t.outside p h)
        | inl outer ↦ elim (Bool-cases (ltb_ℤ (pos 0) (k1.procs k1.p_proc_ready).ticks)) [
          | inl left ↦ ground (arith, t.goes_on, t.outside p h)
          | inr used ↦
              let r = schedule-Scheduled k1 k' (ground (arith, t.goes_on)) in
              (Renewed-SameState r.renewed p).flags ∙ t.outside p h
        ]
      ]

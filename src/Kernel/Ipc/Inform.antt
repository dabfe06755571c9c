-- ===== src/Kernel/Ipc/Inform.antt =====
-- inform_int of kernel/proc.c on a well-formed table.
use bz_os.Prelude.{
  ℕ, ◌+◌, ◌<◌, ◌≡◌, ◌≢◌, inl, inr, arith, List, Bool, true, false, ◌&&◌, ◌||◌, done, update, ◌==◌,
  Bool-cases,
}
use bz_os.Kernel.State.{Process, Kernel, table_size, no_task, any, interrupt, has, receiving, lower}
use bz_os.Kernel.Memory.{store32}
use bz_os.Kernel.Ipc.{inform_int, hard_int}
use bz_os.Kernel.Ipc.Invariant.{Inv, Inv-SameLinks, SameLinks, Status, Ready}

-- A process that waits for an interrupt, or for anything.
abbrev pub expects : Process → Bool
expects p = has p.flags receiving && (p.recv_from == interrupt || p.recv_from == any)

module _ (k : Kernel) {queue : ℕ → List ℕ} (inv : Inv k.procs queue) (task : ℕ)
    (lt : task < table_size) where
  abbrev told : ℕ → Process
  told = update k.procs task (record (k.procs task) {
    p_msg = 0;
    has_int_msg = 0;
    flags = lower (k.procs task).flags receiving;
    recv_from = no_task;
  })

  abbrev marked : ℕ → Process
  marked = update k.procs task (record (k.procs task) { has_int_msg = 1 })

  told-SameLinks : expects (k.procs task) ≡ true → (p : ℕ) → SameLinks (k.procs p) (told p)
  told-SameLinks e p = ground (arith, inv.status task lt)

  told-Status : expects (k.procs task) ≡ true → (p : ℕ) → p < table_size → Status (told p)
  told-Status e p h = ground (arith, inv.status task lt, inv.status p h)

  marked-SameLinks : (p : ℕ) → SameLinks (k.procs p) (marked p)
  marked-SameLinks p = ground arith

  marked-Status : (p : ℕ) → p < table_size → Status (marked p)
  marked-Status p h = ground (arith, inv.status p h)

  -- In a well-formed table, for a task of it that waits for an interrupt or for any message:
  -- inform_int writes INTERRUPT and HARD_INT at the address p_msg, the task can run again and has
  -- no pending interrupt, no other process changes, and the table stays well formed with the same
  -- queues.
  pub inform_int-delivers :
      expects (k.procs task) ≡ true
      → (t : ℕ → Process) × (inform_int k task
          ≡ done (record k {
            procs = t;
            mem =
                store32
                  ((k.procs task).p_msg + 4)
                  hard_int
                  (store32 (k.procs task).p_msg interrupt k.mem);
          }))
        × Ready (t task)
        × ((t task).has_int_msg ≡ 0)
        × ((p : ℕ) → p ≢ task → t p ≡ k.procs p)
        × Inv t queue
  unfolding inform_int
  inform_int-delivers e = (
    told,
    ground (arith, inv.status task lt),
    ground (arith, inv.status task lt),
    ground arith,
    λ p ne. ground arith,
    Inv-SameLinks (told-SameLinks e) (told-Status e) inv,
  )

  -- For any other process the interrupt is kept until it receives; nothing else changes.
  pub inform_int-marks :
      expects (k.procs task) ≡ false
      → (inform_int k task ≡ done (record k { procs = marked })) × Inv marked queue
  unfolding inform_int
  inform_int-marks e = (ground arith, Inv-SameLinks marked-SameLinks marked-Status inv)

  -- In both cases: it returns, and wakes nobody but the task.
  pub inform_int_lem :
      (t : ℕ → Process) × (m : ℕ → ℕ) × (inform_int k task ≡ done (record k { procs = t; mem = m }))
      × Inv t queue
      × ((p : ℕ) → p ≢ task → t p ≡ k.procs p)
      × ((k.procs task).flags ≡ 0 → (t task).flags ≡ 0)
      × ((t task).ticks ≡ (k.procs task).ticks)
  unfolding inform_int
  inform_int_lem = elim (Bool-cases (expects (k.procs task))) [
    | inl e ↦ (
      told,
      store32 ((k.procs task).p_msg + 4) hard_int (store32 (k.procs task).p_msg interrupt k.mem),
      ground (arith, inv.status task lt),
      Inv-SameLinks (told-SameLinks e) (told-Status e) inv,
      (λ p ne. ground arith),
      (λ f. ground arith),
      ground arith,
    )
    | inr e ↦ (
      marked,
      k.mem,
      ground arith,
      Inv-SameLinks marked-SameLinks marked-Status inv,
      (λ p ne. ground arith),
      (λ f. ground arith),
      ground arith,
    )
  ]

-- ===== src/Kernel/Schedule/Choice.antt =====
-- What the scheduler chooses, and when it comes back (kernel/proc.c, schedule).
use mathlib.Core.Path.{subst}
use bz_os.Prelude.{
  ℕ_discrete, done-injective, sym, ap, ◌∙◌, ℕ, zero, suc, ◌+◌, ◌≤◌, ◌<◌, ◌≡◌, ◌≢◌, refl, arith,
  true, false, done, halt, spinning, Bool-cases, inl, inr, ◌⊎◌, if◌then◌else◌,
}
use bz_os.Prelude.Int.{ℤ, pos, negsuc, ◌≤ℤ◌}
use bz_os.Kernel.State.{Process, Kernel, table_size}
use bz_os.Kernel.Schedule.{scan, refill, is_zero, schedule, better}

better→ : (p : Process) (g : ℤ) → better p g ≡ true → (p.flags ≡ 0) × (g ≤ℤ p.ticks)
unfolding better
better→ p g h = ground arith

not-better→ : (p : Process) (g : ℤ) → better p g ≡ false → p.flags ≡ 0 → p.ticks ≤ℤ g
unfolding better
not-better→ p g h f = ground arith

≤ℤ_trans : (a b c : ℤ) → a ≤ℤ b → b ≤ℤ c → a ≤ℤ c
≤ℤ_trans a b c p q = omega arith

-- One round of the scan.
module _ (procs : ℕ → Process) (n i : ℕ) (g : ℤ) (r : ℕ) where
  scan_step :
      scan procs (suc n) i g r
      ≡ scan procs n
          (i + 1)
          (if better (procs i) g then (procs i).ticks else g)
          (if better (procs i) g then i else r)
  unfolding scan
  scan_step = refl

  scan_hit :
      better (procs i) g ≡ true → scan procs (suc n) i g r ≡ scan procs n (i + 1) (procs i).ticks i
  unfolding scan
  scan_hit b = rw b

  scan_miss : better (procs i) g ≡ false → scan procs (suc n) i g r ≡ scan procs n (i + 1) g r
  unfolding scan
  scan_miss b = rw b

scan_ge : (procs : ℕ → Process) (n i : ℕ) (g : ℤ) (r : ℕ) → g ≤ℤ (scan procs n i g r).0
scan_ge procs zero i g r = unfold scan in (omega arith)
scan_ge procs (suc n) i g r = elim (Bool-cases (better (procs i) g)) [
  | inl b ↦
      subst (λ t. g ≤ℤ t.0) (sym (scan_hit procs n i g r b))
        (≤ℤ_trans g (procs i).ticks _ (better→ (procs i) g b).1
          (scan_ge procs n (i + 1) (procs i).ticks i))
  | inr b ↦ subst (λ t. g ≤ℤ t.0) (sym (scan_miss procs n i g r b)) (scan_ge procs n (i + 1) g r)
]

-- The result of a scan is at least the ticks of each runnable entry that it passes.
scan_max :
    (procs : ℕ → Process) (n i : ℕ) (g : ℤ) (r q : ℕ)
    → i ≤ q
    → q < i + n
    → (procs q).flags ≡ 0
    → (procs q).ticks ≤ℤ (scan procs n i g r).0
scan_max procs zero i g r q lo hi f = absurd (omega arith)
scan_max procs (suc n) i g r q lo hi f = elim (ℕ_discrete i q) [
  | yes e ↦ elim (Bool-cases (better (procs i) g)) [
    | inl b ↦
        subst (λ t. (procs q).ticks ≤ℤ t.0) (sym (scan_hit procs n i g r b))
          (subst (λ m. (procs m).ticks ≤ℤ (scan procs n (i + 1) (procs i).ticks i).0) e
            (scan_ge procs n (i + 1) (procs i).ticks i))
    | inr b ↦
        subst (λ t. (procs q).ticks ≤ℤ t.0) (sym (scan_miss procs n i g r b))
          (≤ℤ_trans (procs q).ticks g _
            (subst (λ m. (procs m).ticks ≤ℤ g) e (not-better→ (procs i) g b (rw e f)))
            (scan_ge procs n (i + 1) g r))
  ]
  | no ne ↦
      subst (λ t. (procs q).ticks ≤ℤ t.0) (sym (scan_step procs n i g r))
        (scan_max procs n (i + 1) _ _ q (omega arith) (omega arith) f)
]

-- It is what it started from, or the ticks of the runnable entry that it names.
abbrev Found : (ℕ → Process) → ℕ → ℤ × ℕ → Type 0
Found procs end (g, r) = (r < end) × ((procs r).flags ≡ 0) × ((procs r).ticks ≡ g)

scan-Found :
    (procs : ℕ → Process) (n i : ℕ) (g : ℤ) (r : ℕ)
    → (scan procs n i g r ≡ (g, r)) ⊎ Found procs (i + n) (scan procs n i g r)
unfolding scan
scan-Found procs zero i g r = inl refl
scan-Found procs (suc n) i g r = elim (Bool-cases (better (procs i) g)) [
  | inl b ↦ ground (
    arith,
    scan_hit procs n i g r b,
    scan-Found procs n (i + 1) (procs i).ticks i,
    better→ (procs i) g b,
  )
  | inr b ↦ ground (arith, scan_miss procs n i g r b, scan-Found procs n (i + 1) g r)
]

-- What the scheduler promises of its choice.
pub record IsChosen (procs : ℕ → Process) (ready : ℕ) : Type 0 where
  pub in_table : ready < table_size
  pub is_runnable : (procs ready).flags ≡ 0
  pub has_ticks : pos 1 ≤ℤ (procs ready).ticks
  pub greatest :
      (q : ℕ) → q < table_size → (procs q).flags ≡ 0 → (procs q).ticks ≤ℤ (procs ready).ticks

module _ (procs : ℕ → Process) (r : ℕ) where
  abbrev found : ℤ × ℕ
  found = scan procs table_size 0 (pos 0) r

  positive : (z : ℤ) → is_zero z ≡ false → pos 0 ≤ℤ z → pos 1 ≤ℤ z
  positive (pos zero) e h = cc
  positive (pos (suc n)) e h = omega arith
  positive (negsuc n) e h = omega arith

  nonpositive : (z : ℤ) → is_zero z ≡ true → z ≡ pos 0
  nonpositive (pos zero) e = refl
  nonpositive (pos (suc n)) e = cc
  nonpositive (negsuc n) e = cc

  found-IsChosen : is_zero found.0 ≡ false → IsChosen procs found.1
  found-IsChosen z = elim (scan-Found procs table_size 0 (pos 0) r) [
    | inl e ↦ cc (ap (λ t. is_zero t.0) e)
    | inr (lt, f, t) ↦ record {
      in_table = lt;
      is_runnable = f;
      has_ticks = rw t (positive found.0 z (scan_ge procs table_size 0 (pos 0) r));
      greatest = λ q h e. rw t (scan_max procs table_size 0 (pos 0) r q (omega arith) h e);
    }
  ]

  exhausted :
      is_zero found.0 ≡ true
      → (q : ℕ) → q < table_size
      → (procs q).flags ≡ 0
      → (procs q).ticks ≤ℤ pos 0
  exhausted z q h e =
      rw (nonpositive found.0 z) at (scan_max procs table_size 0 (pos 0) r q (omega arith) h e)

-- One round of the outer loop.
schedule_stop :
    (f : ℕ) (k : Kernel)
    → is_zero (found k.procs k.p_proc_ready).0 ≡ false
    → schedule (suc f) k ≡ done (record k { p_proc_ready = (found k.procs k.p_proc_ready).1 })
unfolding schedule
schedule_stop f k z = rw (z, schedule)

schedule_again :
    (f : ℕ) (k : Kernel)
    → is_zero (found k.procs k.p_proc_ready).0 ≡ true
    → schedule (suc f) k ≡ schedule f (record k { procs = refill k.procs })
unfolding schedule
schedule_again f k z = rw (z, schedule)

-- The ticks are given out anew only when every runnable process has used up its own.
abbrev pub Renewed : (ℕ → Process) → (ℕ → Process) → Type 0
Renewed procs t =
    (t ≡ procs)
    ⊎ ((t ≡ refill procs)
        × ((q : ℕ) → q < table_size → (procs q).flags ≡ 0 → (procs q).ticks ≤ℤ pos 0))

-- Of a process that can run, with a positive priority, the ticks are positive after a refill: the
-- second scan cannot come out at 0.
second_scan :
    (procs : ℕ → Process) (r p : ℕ)
    → p < table_size
    → (procs p).flags ≡ 0
    → pos 1 ≤ℤ (procs p).priority
    → is_zero (found (refill procs) r).0 ≡ false
second_scan procs r p lt f pr = elim (Bool-cases (is_zero (found (refill procs) r).0)) [
  | inl z ↦ absurd (omega (arith, refilled, exhausted (refill procs) r z p lt same))
  | inr z ↦ z
]
  where
    same : (refill procs p).flags ≡ 0
    same = unfold refill in (ground arith)

    refilled : (procs p).priority ≤ℤ (refill procs p).ticks
    refilled = unfold refill in (ground arith)

-- If some process of the table can run and has a positive priority, `schedule` returns, in at most
-- two rounds of its loop, and changes only p_proc_ready and ticks. The process chosen is in the
-- table, can run, has ticks left, and no process that can run has more; ticks are given out anew
-- only when every process that can run has used up its own.
pub schedule_chooses :
    (f : ℕ) (k : Kernel) (p : ℕ)
    → p < table_size
    → (k.procs p).flags ≡ 0
    → pos 1 ≤ℤ (k.procs p).priority
    → (t : ℕ → Process) × (r : ℕ) × (schedule (suc (suc f)) k
        ≡ done (record k { procs = t; p_proc_ready = r }))
      × IsChosen t r
      × Renewed k.procs t
schedule_chooses f k p lt e pr = elim (Bool-cases (is_zero (found k.procs k.p_proc_ready).0)) [
  | inr z ↦ (
    k.procs,
    (found k.procs k.p_proc_ready).1,
    schedule_stop (suc f) k z,
    found-IsChosen k.procs k.p_proc_ready z,
    inl refl,
  )
  | inl z ↦
      let z' = second_scan k.procs k.p_proc_ready p lt e pr in
      (
        refill k.procs,
        (found (refill k.procs) k.p_proc_ready).1,
        schedule_again (suc f) k z ∙ schedule_stop f (record k { procs = refill k.procs }) z',
        found-IsChosen (refill k.procs) k.p_proc_ready z',
        inr (refl, exhausted k.procs k.p_proc_ready z),
      )
]

-- Nothing to run: the scan finds nothing, however often it is made.
nothing_found :
    (procs : ℕ → Process) (r : ℕ)
    → ((q : ℕ) → q < table_size → (procs q).flags ≢ 0)
    → is_zero (found procs r).0 ≡ true
nothing_found procs r idle = elim (scan-Found procs table_size 0 (pos 0) r) [
  | inl e ↦ ap (λ t. is_zero t.0) e
  | inr (lt, f, t) ↦ absurd (idle _ lt f)
]

-- With no process that can run, the loop of `schedule` does not end, whatever the number of
-- rounds.
pub schedule_idle :
    (f : ℕ) (k : Kernel)
    → ((q : ℕ) → q < table_size → (k.procs q).flags ≢ 0)
    → schedule f k ≡ halt spinning
schedule_idle zero k idle = unfold schedule in refl
schedule_idle (suc f) k idle =
    schedule_again f k (nothing_found k.procs k.p_proc_ready idle)
    ∙ schedule_idle f (record k { procs = refill k.procs }) still
  where
    still : (q : ℕ) → q < table_size → (refill k.procs q).flags ≢ 0
    still q lt e = unfold refill in (idle q lt (ground arith))

-- What is known of any return of `schedule` within two rounds.
pub record Scheduled (k k' : Kernel) : Type 0 where
  pub same : k' ≡ record k { procs = k'.procs; p_proc_ready = k'.p_proc_ready }
  pub chosen : IsChosen k'.procs k'.p_proc_ready
  pub renewed : Renewed k.procs k'.procs

pub schedule-Scheduled : (k k' : Kernel) → schedule 2 k ≡ done k' → Scheduled k k'
schedule-Scheduled k k' e = elim (Bool-cases (is_zero (found k.procs k.p_proc_ready).0)) [
  | inr z ↦
      subst (Scheduled k) (done-injective _ k' (sym (schedule_stop 1 k z) ∙ e)) (record {
        same = refl;
        chosen = found-IsChosen k.procs k.p_proc_ready z;
        renewed = inl refl;
      })
  | inl z ↦ elim (Bool-cases (is_zero (found (refill k.procs) k.p_proc_ready).0)) [
    | inr z' ↦
        subst (Scheduled k)
          (done-injective _ k' (
            sym (schedule_again 1 k z ∙ schedule_stop 0 (record k { procs = refill k.procs }) z')
            ∙ e))
          (record {
            same = refl;
            chosen = found-IsChosen (refill k.procs) k.p_proc_ready z';
            renewed = inr (refl, exhausted k.procs k.p_proc_ready z);
          })
    | inl z' ↦ absurd (
        never (
          sym (schedule_again 1 k z ∙ schedule_again 0 (record k { procs = refill k.procs }) z')
          ∙ e))
  ]
]
  where
    never : schedule 0 (record k { procs = refill (refill k.procs) }) ≡ done k' → ⊥
    never h = unfold schedule in (cc h)

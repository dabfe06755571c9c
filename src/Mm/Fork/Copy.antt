-- ===== src/Mm/Fork/Copy.antt =====
-- What do_fork of mm/forkexit.c gives the child: a copy of the parent's memory.
use mathlib.Core.Path.{subst}
use bz_os.Prelude.{
  ℕ, zero, suc, ◌+◌, ◌≤◌, ◌<◌, ◌≡◌, ◌≢◌, ◌⊎◌, inl, inr, refl, sym, ap, ◌∙◌, arith, true, Option,
  none, some, List, Outcome, done, ◌==◌, update, Bool-cases, >>=-eq-done, assert-eq-done,
  done-injective, test_true, test_false, not, ltb,
}
use bz_os.Kernel.State.{Process, Kernel, nr_tasks, nr_native_procs, table_size, free_slot}
use bz_os.Kernel.Memory.{phys_copy}
use bz_os.Mm.Memory.{alloc_mem, image_base}
use bz_os.Mm.Fork.{
  find_slot, seg_base, seg_size, same_segment, child_name, child_process, fork_into, do_fork,
}

-- The first free entry, if the index is in the table.
pub find_slot-free :
    (n i : ℕ) (procs : ℕ → Process)
    → find_slot n i procs ≢ i + n
    → (find_slot n i procs < i + n) × ((procs (find_slot n i procs)).flags ≡ free_slot)
unfolding find_slot
find_slot-free zero i procs h = absurd (h (omega arith))
find_slot-free (suc n) i procs h = elim (Bool-cases ((procs i).flags == free_slot)) [
  | inl e ↦ rw e (omega arith, ground arith)
  | inr e ↦
      let e' : i + 1 + n ≡ i + suc n = omega arith in
      rw e (
        subst
          (λ w.
            (find_slot n (i + 1) procs < w)
            × ((procs (find_slot n (i + 1) procs)).flags ≡ free_slot))
          e' (find_slot-free n (i + 1) procs (λ q. h (rw e (q ∙ e')))))
]

-- What fork_into has made.
pub record Forked (k : Kernel) (memory_size pid child : ℕ) (k' : Kernel) : Type 0 where
  pub name : List ℕ
  pub base : ℕ
  pub granted : alloc_mem memory_size child (seg_size (k.procs pid).ldt_c) ≡ done base
  pub shared : same_segment (k.procs pid).ldt_c (k.procs pid).ldt_rw ≡ true
  pub table :
      k'.procs
      ≡ update k.procs child (child_process (k.procs pid) (k.procs child).ldt_sel pid name base)
  pub memory :
      k'.mem ≡ phys_copy base (seg_base (k.procs pid).ldt_c) (seg_size (k.procs pid).ldt_c) k.mem

fork_into-Forked :
    (k : Kernel) (memory_size pid child : ℕ) (k' : Kernel)
    → fork_into k memory_size pid child ≡ done k'
    → Forked k memory_size pid child k'
unfolding fork_into
fork_into-Forked k memory_size pid child k' e =
    let p = k.procs pid in
    let (name, hn, e1) = >>=-eq-done (child_name p.name child) _ e in
    let (hs, e2) = assert-eq-done (same_segment p.ldt_c p.ldt_rw) _ e1 in
    let (base, hb, e3) = >>=-eq-done (alloc_mem memory_size child (seg_size p.ldt_c)) _ e2 in
    record {
      name = name;
      base = base;
      granted = hb;
      shared = hs;
      table = ap Kernel.procs (sym (done-injective _ k' e3));
      memory = ap Kernel.mem (sym (done-injective _ k' e3));
    }

found_child :
    (r r' : Option ℕ × Kernel) → done r ≡ done r' → (i j : ℕ) → r.0 ≡ some i → r'.0 ≡ some j → i ≡ j
found_child r r' e i j a b =
    let q : r.0 ≡ r'.0 = ap (λ (w : Option ℕ × Kernel). w.0) (done-injective r r' e) in
    let h : some i ≡ some j = sym a ∙ q ∙ b in cc h

-- The child of a fork that has found one.
pub do_fork-child :
    (k : Kernel) (memory_size pid child : ℕ) (k' : Kernel)
    → do_fork k memory_size pid ≡ done (some child, k')
    → (child ≡ find_slot table_size 0 k.procs)
      × (nr_tasks + nr_native_procs ≤ child)
      × (child < table_size)
      × ((k.procs child).flags ≡ free_slot)
      × Forked k memory_size pid child k'
unfolding do_fork
do_fork-child k memory_size pid child k' e =
    let i : ℕ = find_slot table_size 0 k.procs in
    let (hl, e1) = assert-eq-done (not (ltb i (nr_tasks + nr_native_procs))) _ e in
    elim (Bool-cases (i == table_size)) [
      | inl t ↦ absurd (cc (test_true (i == table_size) (done (none, k)) _ t e1))
      | inr f ↦
          let (k'', h, e2) =
            >>=-eq-done (fork_into k memory_size pid i) _
              (test_false (i == table_size) (done (none, k)) _ f e1) in
          let g : ◌≡◌ {A = Outcome (Option ℕ × Kernel)} (done (some i, k''))
              (done (some child, k')) =
            e2 in
          let same = found_child (some i, k'') (some child, k') g i child refl refl in
          let same' : k'' ≡ k' = ap (λ (r : Option ℕ × Kernel). r.1) (done-injective _ _ g) in
          let (lt, free) = find_slot-free table_size 0 k.procs (ground arith) in
          subst
            (λ c.
              (c ≡ i)
              × (nr_tasks + nr_native_procs ≤ c)
              × (c < table_size)
              × ((k.procs c).flags ≡ free_slot)
              × Forked k memory_size pid c k')
            same
            (
              refl,
              ground arith,
              lt,
              free,
              fork_into-Forked k memory_size pid i k' (h ∙ ap done same'),
            )
    ]

-- The parent's image: its segment is the kernel's, from 0 on, or the megabyte of its pid.
abbrev pub HasImage : Process → ℕ → Type 0
HasImage p pid =
    (seg_base p.ldt_c ≡ 0)
    ⊎ ((seg_base p.ldt_c ≡ image_base pid) × (nr_tasks + nr_native_procs ≤ pid))

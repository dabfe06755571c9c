-- ===== src/Kernel/Ipc/Chain.antt =====
-- Chains of processes that wait to send: `sends p` is whom p is sending to.
use mathlib.Core.Path.{subst}
use bz_os.Prelude.{
  ℕ, zero, suc, ◌+◌, ◌-◌, ◌≤◌, ◌<◌, ◌≡◌, ◌≢◌, refl, sym, ap, ◌∙◌, arith, Option, none, some,
  ℕ_discrete, ◌==◌, if◌then◌else◌,
}

-- The pigeonhole principle: `k` distinct numbers below `m` are at most `m`.
abbrev Injects : (ℕ → ℕ) → ℕ → ℕ → Type 0
Injects f k m = ((i : ℕ) → i < k → f i < m) × ((i j : ℕ) → i < k → j < k → f i ≡ f j → i ≡ j)

-- The value `top` is taken out, and the last argument's value put in its place.
abbrev patch : (ℕ → ℕ) → ℕ → ℕ → ℕ → ℕ
patch f k top i = if f i == top then f k else f i

pub pigeonhole : (m k : ℕ) (f : ℕ → ℕ) → Injects f k m → k ≤ m
pigeonhole zero zero f h = omega arith
pigeonhole zero (suc k) f h = absurd (omega (arith, h.0 0 (omega arith)))
pigeonhole (suc m) zero f h = omega arith
pigeonhole (suc m) (suc k) f (small, inj) = omega (
  arith,
  pigeonhole m k (patch f k m) (
    (λ i lt. ground (arith, small i, small k, inj i k)),
    (λ i j li lj e. ground (arith, inj i j, inj i k, inj j k)),
  ),
)

module _ (sends : ℕ → Option ℕ) where
  -- The chain from p ends after n steps.
  abbrev pub EndsIn : ℕ → ℕ → Type 0
  EndsIn zero p = sends p ≡ none
  EndsIn (suc n) p = (d : ℕ) × (sends p ≡ some d) × EndsIn n d

  -- p is sending to d, or to one that waits on d.
  pub data WaitsOn : ℕ → ℕ → Type 0 where
    last : {p d : ℕ} → sends p ≡ some d → WaitsOn p d
    next : {p d e : ℕ} → sends p ≡ some d → WaitsOn d e → WaitsOn p e

  pub EndsIn-unique : (n m p : ℕ) → EndsIn n p → EndsIn m p → n ≡ m
  EndsIn-unique zero zero p a b = refl
  EndsIn-unique zero (suc m) p a (d, e, b) = cc
  EndsIn-unique (suc n) zero p (d, e, a) b = cc
  EndsIn-unique (suc n) (suc m) p (d, e, a) (d', e', b) =
      ap suc (EndsIn-unique n m d a (subst (EndsIn m) (cc) b))

  -- What p waits on is nearer to the end.
  pub WaitsOn-nearer :
      {p d : ℕ} → WaitsOn p d → (n : ℕ) → EndsIn n p → (m : ℕ) × (m < n) × EndsIn m d
  WaitsOn-nearer (last e) zero a = cc
  WaitsOn-nearer (last e) (suc n) (d, e', a) = (n, omega arith, subst (EndsIn n) (cc) a)
  WaitsOn-nearer (next e w) zero a = cc
  WaitsOn-nearer (next e w) (suc n) (d, e', a) =
      let (m, lt, b) = WaitsOn-nearer w n (subst (EndsIn n) (cc) a) in (m, omega arith, b)

  pub EndsIn-acyclic : (n p : ℕ) → EndsIn n p → ¬ WaitsOn p p
  EndsIn-acyclic n p a w =
      let (m, lt, b) = WaitsOn-nearer w n a in absurd (omega (arith, EndsIn-unique n m p a b))

module _ (sends : ℕ → Option ℕ) where
  -- The i-th process of a chain.
  visit : (n p : ℕ) → EndsIn sends n p → ℕ → ℕ
  visit zero p a i = p
  visit (suc n) p a zero = p
  visit (suc n) p (d, e, a) (suc i) = visit n d a i

  visit-EndsIn :
      (n p : ℕ) (a : EndsIn sends n p) (i j : ℕ) → i + j ≡ n → EndsIn sends j (visit n p a i)
  unfolding visit
  visit-EndsIn zero p a zero zero h = a
  visit-EndsIn zero p a zero (suc j) h = absurd (omega arith)
  visit-EndsIn zero p a (suc i) j h = absurd (omega arith)
  visit-EndsIn (suc n) p a zero j h = subst (λ m. EndsIn sends m p) {x = suc n} (omega arith) a
  visit-EndsIn (suc n) p (d, e, a) (suc i) j h = visit-EndsIn n d a i j (omega arith)

  -- Chains stay among the `m` processes of the table, so they are shorter than `m`.
  module _ (m : ℕ) (inside : (p d : ℕ) → p < m → sends p ≡ some d → d < m) where
    visit-lt : (n p : ℕ) (a : EndsIn sends n p) (i : ℕ) → p < m → visit n p a i < m
    unfolding visit
    visit-lt zero p a i h = h
    visit-lt (suc n) p a zero h = h
    visit-lt (suc n) p (d, e, a) (suc i) h = visit-lt n d a i (inside p d h e)

    pub EndsIn-lt : (n p : ℕ) → EndsIn sends n p → p < m → n < m
    EndsIn-lt n p a h = pigeonhole m (suc n) (visit n p a) (
      (λ i lt. visit-lt n p a i h),
      (λ i j li lj e. omega (
        arith,
        EndsIn-unique sends (n - i) (n - j) (visit n p a j)
            (subst (EndsIn sends (n - i)) e (visit-EndsIn n p a i (n - i) (omega arith)))
            (visit-EndsIn n p a j (n - j) (omega arith)),
      )),
    )

  -- One more sender, s, to d: the chains still end if d does not wait on s.
  module _ (sends' : ℕ → Option ℕ) (s d : ℕ) (idle : sends s ≡ none) (at : sends' s ≡ some d)
      (off : (p : ℕ) → p ≢ s → sends' p ≡ sends p) where
    EndsIn-avoid : (n p : ℕ) → p ≢ s → ¬ WaitsOn sends p s → EndsIn sends n p → EndsIn sends' n p
    EndsIn-avoid zero p ne w a = off p ne ∙ a
    EndsIn-avoid (suc n) p ne w (e, to, a) = (
      e,
      off p ne ∙ to,
      EndsIn-avoid n e (λ q. w (last (subst (λ x. sends p ≡ some x) q to))) (λ v. w (next to v)) a,
    )

    pub EndsIn-add :
        (m : ℕ)
        → EndsIn sends m d
        → d ≢ s
        → ¬ WaitsOn sends d s
        → (n p : ℕ) → EndsIn sends n p
        → (k : ℕ) × EndsIn sends' k p
    EndsIn-add m b ne w zero p a = elim (ℕ_discrete p s) [
      | yes e ↦ (suc m, (d, subst (λ x. sends' x ≡ some d) (sym e) at, EndsIn-avoid m d ne w b))
      | no e ↦ (zero, off p e ∙ a)
    ]
    EndsIn-add m b ne w (suc n) p (e, to, a) =
        let (k, c) = EndsIn-add m b ne w n e a in (suc k, (e, off p (λ q. cc (ap sends q)) ∙ to, c))

  -- One sender less.
  pub EndsIn-remove :
      (sends' : ℕ → Option ℕ) (s : ℕ)
      → sends' s ≡ none
      → ((p : ℕ) → p ≢ s → sends' p ≡ sends p)
      → (n p : ℕ) → EndsIn sends n p
      → (k : ℕ) × EndsIn sends' k p
  EndsIn-remove sends' s at off zero p a = elim (ℕ_discrete p s) [
    | yes e ↦ (zero, subst (λ x. sends' x ≡ none) (sym e) at)
    | no e ↦ (zero, off p e ∙ a)
  ]
  EndsIn-remove sends' s at off (suc n) p (e, to, a) = elim (ℕ_discrete p s) [
    | yes q ↦ (zero, subst (λ x. sends' x ≡ none) (sym q) at)
    | no q ↦ let (k, c) = EndsIn-remove sends' s at off n e a in (suc k, (e, off p q ∙ to, c))
  ]

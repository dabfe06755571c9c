-- ===== src/Fs/Inode/Cache.antt =====
-- The cache holds each inode once.
use mathlib.Core.Path.{subst}
use bz_os.Prelude.{
  ℕ, zero, suc, ◌+◌, ◌≤◌, ◌<◌, ◌≡◌, ◌≢◌, ◌⊎◌, inl, inr, refl, sym, ap, ◌∙◌, arith, Bool, true,
  false, Option, none, some, done, halt, done-injective, ◌==◌, if◌then◌else◌, update, update_self,
  update_ne, Bool-cases, Outcome-cases, ◌>>=◌, ℕ_discrete,
}
use bz_os.Fs.State.{Fs, Inode, SuperBlock, nr_inode, get_super_block}
use bz_os.Fs.Inode.{is_inode, find_inode, fetch, read_inode, get_found, get_inode}

-- What the loop of get_inode comes to, from the slot p on, with q the free slot so far.
Found : ℕ → ℕ → (ℕ → Inode) → ℕ → ℕ → Option ℕ → Bool × Option ℕ → Type 0
Found n p table dev num q r =
    ((i : ℕ) × (r ≡ (true, some i)) × (p ≤ i) × (i < p + n) × (is_inode (table i) dev num ≡ true))
    ⊎ ((o : Option ℕ) × (r ≡ (false, o))
        × ((i : ℕ) → p ≤ i → i < p + n → is_inode (table i) dev num ≡ false)
        × ((i : ℕ) → o ≡ some i → (q ≡ some i) ⊎ ((p ≤ i) × (i < p + n) × ((table i).i_cnt ≡ 0))))

-- the free slot after looking at slot p
abbrev free_after : (ℕ → Inode) → ℕ → Option ℕ → Option ℕ
free_after table p q = elim q [
  | none ↦ if (table p).i_cnt == 0 then some p else none
  | some i ↦ some i
]

free_after-some :
    (table : ℕ → Inode) (p : ℕ) (q : Option ℕ) (i : ℕ)
    → free_after table p q ≡ some i
    → (q ≡ some i) ⊎ ((i ≡ p) × ((table i).i_cnt ≡ 0))
free_after-some table p none i e = elim (Bool-cases ((table p).i_cnt == 0)) [
  | inl z ↦
      let w : some p ≡ some i = subst (λ b. (if b then some p else none) ≡ some i) z e in
      let x : i ≡ p = cc in inr (x, subst (λ j. (table j).i_cnt ≡ 0) (sym x) (ground arith))
  | inr nz ↦
      let w : none ≡ some i = subst (λ b. (if b then some p else none) ≡ some i) nz e in
      absurd (cc w)
]
free_after-some table p (some j) i e = inl e

find_inode-Found :
    (n p : ℕ) (table : ℕ → Inode) (dev num : ℕ) (q : Option ℕ)
    → Found n p table dev num q (find_inode n p table dev num q)
unfolding find_inode Found
find_inode-Found zero p table dev num q =
    inr (q, refl, λ i lo hi. absurd (omega arith), λ i e. inl e)
find_inode-Found (suc n) p table dev num q = elim (Bool-cases (is_inode (table p) dev num)) [
  | inl here ↦ rw here (inl (p, refl, omega arith, omega arith, here))
  | inr other ↦ rw other (elim (find_inode-Found n (p + 1) table dev num (free_after table p q)) [
    | inl (i, e, lo, hi, is) ↦ inl (i, e, omega arith, omega arith, is)
    | inr (o, f, none_is, slot) ↦ inr (
      o,
      f,
      λ i lo hi. elim (ℕ_discrete i p) [
        | yes w ↦ subst (λ j. is_inode (table j) dev num ≡ false) (sym w) other
        | no w ↦ none_is i (omega arith) (omega arith)
      ],
      λ i e. elim (slot i e) [
        | inl w ↦ elim (free_after-some table p q i w) [
          | inl x ↦ inl x
          | inr (x, y) ↦ inr (omega arith, omega arith, y)
        ]
        | inr (lo, hi, z) ↦ inr (omega arith, omega arith, z)
      ],
    )
  ])
]

-- No two slots in use hold the same inode.
unfoldable pub IsCache : (ℕ → Inode) → Type 0
IsCache table =
    (p q dev num : ℕ)
    → p < nr_inode
    → q < nr_inode
    → is_inode (table p) dev num ≡ true
    → is_inode (table q) dev num ≡ true
    → p ≡ q

clash :
    (x y : Inode) (dev num d n : ℕ)
    → is_inode x dev num ≡ true
    → is_inode x d n ≡ true
    → is_inode y d n ≡ true
    → is_inode y dev num ≡ false
    → ⊥
clash x y dev num d n a b c f = ground arith

placed-IsCache :
    (table : ℕ → Inode) (i dev num : ℕ) (x : Inode)
    → IsCache table
    → is_inode x dev num ≡ true
    → ((j : ℕ) → j < nr_inode → j ≢ i → is_inode (table j) dev num ≡ false)
    → IsCache (update table i x)
unfolding IsCache
placed-IsCache table i dev num x c is others p q d n lp lq ap' aq' = elim (ℕ_discrete p i) [
  | yes e ↦ elim (ℕ_discrete q i) [
    | yes e' ↦ e ∙ sym e'
    | no ne' ↦
        absurd (
          clash x (table q) dev num d n is (at_slot p e ap') (elsewhere q ne' aq')
            (others q lq ne'))
  ]
  | no ne ↦ elim (ℕ_discrete q i) [
    | yes e' ↦
        absurd (
          clash x (table p) dev num d n is (at_slot q e' aq') (elsewhere p ne ap') (others p lp ne))
    | no ne' ↦ c p q d n lp lq (elsewhere p ne ap') (elsewhere q ne' aq')
  ]
]
  where
    at_slot : (j : ℕ) → j ≡ i → is_inode (update table i x j) d n ≡ true → is_inode x d n ≡ true
    at_slot j e a =
        subst (λ (w : Inode). is_inode w d n ≡ true)
          (ap (update table i x) e ∙ update_self table i x) a

    elsewhere :
        (j : ℕ) → j ≢ i → is_inode (update table i x j) d n ≡ true → is_inode (table j) d n ≡ true
    elsewhere j ne a =
        subst (λ (w : Inode). is_inode w d n ≡ true) (update_ne table i x j (λ w. ne (sym w))) a

get_inode_lem :
    (s : Fs) (dev num : ℕ) (r : Bool × Option ℕ)
    → num ≢ 0
    → find_inode nr_inode 0 s.inode_table dev num none ≡ r
    → get_inode s dev num ≡ get_found s dev num r
unfolding get_inode
get_inode_lem s dev num r nz e =
    let z : (num == 0) ≡ false = ground arith in rw z (ap (get_found s dev num) e)

-- A step of get_inode on the table: the slot i gets the inode x.
Placed : Fs → ℕ → ℕ → ℕ → Option ℕ → Fs → Type 0
Placed s dev num i r s' =
    (x : Inode) × (r ≡ some i)
    × (s'.inode_table ≡ update s.inode_table i x)
    × (is_inode x dev num ≡ true)

fetch-Placed :
    (s : Fs) (dev num i : ℕ) (sb : SuperBlock)
    → Placed s dev num i (fetch s dev num i sb).0 (fetch s dev num i sb).1
unfolding fetch Placed
fetch-Placed s dev num i sb = (_, refl, refl, ground arith)

read_inode-Placed :
    (s : Fs) (dev num i : ℕ) (r : Option ℕ) (s' : Fs)
    → read_inode s dev num i ≡ done (r, s')
    → Placed s dev num i r s'
unfolding read_inode
read_inode-Placed s dev num i r s' e = elim (Outcome-cases (get_super_block s dev)) [
  | inl (sb, q) ↦
      let w : done (fetch s dev num i sb) ≡ done (r, s') =
        subst (λ o. (o >>= λ b. done (fetch s dev num i b)) ≡ done (r, s')) q e in
      subst (λ (w : Option ℕ × Fs). Placed s dev num i w.0 w.1) (done-injective _ _ w)
        (fetch-Placed s dev num i sb)
  | inr (f, q) ↦
      let w : halt f ≡ done (r, s') =
        subst (λ o. (o >>= λ b. done (fetch s dev num i b)) ≡ done (r, s')) q e in
      absurd (cc w)
]

hit-Placed :
    (s : Fs) (dev num i : ℕ) (r : Option ℕ) (s' : Fs)
    → is_inode (s.inode_table i) dev num ≡ true
    → get_found s dev num (true, some i) ≡ done (r, s')
    → Placed s dev num i r s'
unfolding get_found Placed
hit-Placed s dev num i r s' is e =
    subst (λ (w : Option ℕ × Fs). Placed s dev num i w.0 w.1) (done-injective _ _ e)
      (record (s.inode_table i) { i_cnt = (s.inode_table i).i_cnt + 1 }, refl, refl, ground arith)

conclude :
    (s : Fs) (dev num i : ℕ) (r : Option ℕ) (s' : Fs)
    → IsCache s.inode_table
    → i < nr_inode
    → ((j : ℕ) → j < nr_inode → j ≢ i → is_inode (s.inode_table j) dev num ≡ false)
    → Placed s dev num i r s'
    → (i : ℕ) × (r ≡ some i)
      × (i < nr_inode)
      × (is_inode (s'.inode_table i) dev num ≡ true)
      × ((j : ℕ) → j ≢ i → s'.inode_table j ≡ s.inode_table j)
      × IsCache s'.inode_table
unfolding Placed
conclude s dev num i r s' c lt others (x, e, t, is) = (
  i,
  e,
  lt,
  subst (λ (w : Inode). is_inode w dev num ≡ true)
      (sym (ap (λ f. f i) t ∙ update_self s.inode_table i x)) is,
  λ j ne. ap (λ f. f j) t ∙ update_ne s.inode_table i x j (λ w. ne (sym w)),
  subst IsCache (sym t) (placed-IsCache s.inode_table i dev num x c is others),
)

-- In a cache that holds no inode twice: when get_inode of an inode number that is not 0 returns, it
-- returns a slot of the table, which then holds that inode and is in use; no other slot has changed,
-- and the cache still holds no inode twice.
pub get_inode-IsCache :
    (s : Fs) (dev num : ℕ) (r : Option ℕ) (s' : Fs)
    → IsCache s.inode_table
    → num ≢ 0
    → get_inode s dev num ≡ done (r, s')
    → (i : ℕ) × (r ≡ some i)
      × (i < nr_inode)
      × (is_inode (s'.inode_table i) dev num ≡ true)
      × ((j : ℕ) → j ≢ i → s'.inode_table j ≡ s.inode_table j)
      × IsCache s'.inode_table
unfolding Found IsCache get_found
get_inode-IsCache s dev num r s' c nz e =
    elim (find_inode-Found nr_inode 0 s.inode_table dev num none) [
      | inl (i, q, lo, hi, is) ↦
          conclude s dev num i r s' c hi
            (λ j lt ne. elim (Bool-cases (is_inode (s.inode_table j) dev num)) [
              | inl a ↦ absurd (ne (c j i dev num lt hi a is))
              | inr a ↦ a
            ])
            (hit-Placed s dev num i r s' is (sym (get_inode_lem s dev num (true, some i) nz q) ∙ e))
      | inr (none, q, absent, slot) ↦
          let w : get_found s dev num (false, none) ≡ done (r, s') =
            sym (get_inode_lem s dev num (false, none) nz q) ∙ e in
          absurd (cc w)
      | inr (some i, q, absent, slot) ↦
          let w : read_inode s dev num i ≡ done (r, s') =
            sym (get_inode_lem s dev num (false, some i) nz q) ∙ e in
          let hi : i < nr_inode = elim (slot i refl) [
            | inl n ↦ absurd (cc n)
            | inr (lo, hi, z) ↦ hi
          ] in
          conclude s dev num i r s' c hi (λ j lt ne. absent j (omega arith) lt)
            (read_inode-Placed s dev num i r s' w)
    ]

-- ===== src/Fs/Sectors/Bits.antt =====
-- The bits of a byte that alloc_smap_bit of fs/open.c sets.
use bz_os.Prelude.{
  ℕ, zero, suc, ◌+◌, ◌-◌, ◌^◌, ◌≤◌, ◌<◌, ◌≡◌, inl, inr, refl, ap, ◌∙◌, arith, Bool, true, not, ◌&&◌,
  ◌||◌, done, ltb, leb, ◌==◌, if◌then◌else◌, Bool-cases, and_true, all_below, all_below-at, ==_iff,
  ltb_iff,
}
use bz_os.Fs.Map.{bit}
use bz_os.Fs.Map.Alloc.{or_right}
use bz_os.Fs.Sectors.{set_bits}

-- Setting the bit k of b, if it is 0.
abbrev set_ok : ℕ → ℕ → Bool
set_ok b k =
    not (bit k b == 0)
    || (ltb (b + 2 ^ k) 256
        && all_below 8 (λ x. bit x (b + 2 ^ k) == (if x == k then 1 else bit x b)))

abbrev full_ok : ℕ → Bool
full_ok b = b == 0xff || not (all_below 8 (λ x. bit x b == 1))

abbrev byte_ok : ℕ → Bool
byte_ok b = full_ok b && all_below 8 (set_ok b)

set_table : all_below 256 byte_ok ≡ true
set_table = refl

pub set_one :
    (b k : ℕ)
    → b < 256
    → k < 8
    → bit k b ≡ 0
    → (b + 2 ^ k < 256) × ((x : ℕ) → x < 8 → bit x (b + 2 ^ k) ≡ (if x == k then 1 else bit x b))
set_one b k lb lk z =
    let t =
      and_true (full_ok b) (all_below 8 (set_ok b)) (all_below-at 256 byte_ok set_table b lb) in
    let s = all_below-at 8 (set_ok b) t.1 k lk in
    let u = or_right (not (bit k b == 0)) _ s (ap not ((==_iff (bit k b) 0).1 z)) in
    let (l, a) = and_true (ltb (b + 2 ^ k) 256) _ u in
    (
      (ltb_iff _ 256).0 l,
      λ x lx.
          (==_iff _ _).0
            (all_below-at 8 (λ x. bit x (b + 2 ^ k) == (if x == k then 1 else bit x b)) a x lx),
    )

all_below_of : (n : ℕ) (f : ℕ → Bool) → ((x : ℕ) → x < n → f x ≡ true) → all_below n f ≡ true
all_below_of zero f h = refl
all_below_of (suc n) f h = rw (h n (omega arith), all_below_of n f (λ x l. h x (omega arith))) refl

pub full_byte : (b : ℕ) → b < 256 → ((x : ℕ) → x < 8 → bit x b ≡ 1) → b ≡ 0xff
full_byte b lb h =
    let t =
      and_true (full_ok b) (all_below 8 (set_ok b)) (all_below-at 256 byte_ok set_table b lb) in
    let a = all_below_of 8 (λ x. bit x b == 1) (λ x l. (==_iff (bit x b) 1).1 (h x l)) in
    elim (Bool-cases (b == 0xff)) [
      | inl e ↦ (==_iff b 0xff).0 e
      | inr e ↦ absurd (cc (a, or_right (b == 0xff) (not (all_below 8 (λ x. bit x b == 1))) t.0 e))
    ]

-- After a byte: the bits that pass the test are 1, the others are as before.
pub record Marked (b b' : ℕ) (test : ℕ → Bool) : Type 0 where
  pub byte : b' < 256
  pub bits : (x : ℕ) → x < 8 → bit x b' ≡ (if test x then 1 else bit x b)

-- the bits from k on, n of them at most, and left at most
abbrev pub in_run : ℕ → ℕ → ℕ → ℕ → Bool
in_run k n left x = leb k x && (ltb x (k + n) && ltb x (k + left))

-- The n bits from k on are set, or fewer when no more are wanted.
pub set_bits-Marked :
    (n k b left : ℕ)
    → b < 256
    → k + n ≤ 8
    → 0 < left
    → ((x : ℕ) → in_run k n left x ≡ true → bit x b ≡ 0)
    → (b' : ℕ) × (set_bits n k b left ≡ done (b', left - n)) × Marked b b' (in_run k n left)
unfolding set_bits
set_bits-Marked zero k b left lb lk pos z =
    (b, ap (λ w. done (b, w)) (omega arith), record { byte = lb; bits = λ x lx. ground arith })
set_bits-Marked (suc n) k b left lb lk pos z =
    let (lb', others) = set_one b k lb (omega arith) (z k (ground arith)) in
    let clear : (bit k b == 0) ≡ true = ground (arith, z k) in
    elim (Bool-cases (left - 1 == 0)) [
      | inl e ↦
          rw (clear, e)
            (
              b + 2 ^ k,
              ap (λ w. done (b + 2 ^ k, w)) (ground arith),
              record { byte = lb'; bits = λ x lx. ground (arith, others x) },
            )
      | inr e ↦
          let (b', r, m) =
            set_bits-Marked n (k + 1) (b + 2 ^ k) (left - 1) lb' (omega arith) (ground arith)
              (λ x t. ground (arith, others x, z x)) in
          rw (clear, e)
            (
              b',
              r ∙ ap (λ w. done (b', w)) (omega arith),
              record { byte = m.byte; bits = λ x lx. ground (arith, m.bits x, others x) },
            )
    ]

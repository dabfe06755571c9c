-- ===== src/Prelude/Run.antt =====
-- What a run of kernel code comes to: it returns, or it stops for good.
-- `assert` (include/stdio.h, lib/misc.c) and `panic` (kernel/main.c) do not return.
use mathlib.Core.Path.{◌≡◌, refl}
use mathlib.Core.Logic.{◌⊎◌, inl, inr}
use mathlib.Core.Bool.{Bool, true, false}
use bz_os.Prelude.Tests.{if◌then◌else◌}

-- `spinning` is a loop that has not ended within the fuel.
pub data Fault : Type 0 where
  assertion panic spinning : Fault

pub data Outcome {ℓ} (A : Type ℓ) : Type ℓ where
  done : A → Outcome A
  halt : Fault → Outcome A

infixl 5 ◌>>=◌ ◌>>◌
abbrev pub ◌>>=◌ {ℓ κ} : {A : Type ℓ} {B : Type κ} → Outcome A → (A → Outcome B) → Outcome B
done a >>= f = f a
halt e >>= f = halt e

abbrev pub ◌>>◌ {ℓ} : {B : Type ℓ} → Outcome (Unit {0}) → Outcome B → Outcome B
m >> k = m >>= λ _. k

abbrev pub assert : Bool → Outcome (Unit {0})
assert true = done tt
assert false = halt assertion

-- `if(b) panic(...)`
abbrev pub panic_if : Bool → Outcome (Unit {0})
panic_if true = halt panic
panic_if false = done tt

pub done-injective {ℓ} : {A : Type ℓ} (a b : A) → done a ≡ done b → a ≡ b
done-injective a b e = cc

pub Outcome-cases {ℓ} :
    {A : Type ℓ} (o : Outcome A) → ((a : A) × (o ≡ done a)) ⊎ ((f : Fault) × (o ≡ halt f))
Outcome-cases (done a) = inl (a, refl)
Outcome-cases (halt f) = inr (f, refl)

-- A chain that returns: so did its parts.
pub >>=-eq-done {ℓ κ} :
    {A : Type ℓ} {B : Type κ} (m : Outcome A) (f : A → Outcome B) {b : B}
    → (m >>= f) ≡ done b
    → (a : A) × (m ≡ done a) × (f a ≡ done b)
>>=-eq-done (done a) f h = (a, refl, h)
>>=-eq-done (halt e) f h = absurd (cc h)

pub assert-eq-done {ℓ} :
    {B : Type ℓ} (c : Bool) (k : Outcome B) {b : B}
    → (assert c >> k) ≡ done b
    → (c ≡ true) × (k ≡ done b)
assert-eq-done true k h = (refl, h)
assert-eq-done false k h = absurd (cc h)

-- A test that is known, in a chain that returns.
pub test_true {ℓ} :
    {A : Type ℓ} (c : Bool) (x y : A) {z : A} → c ≡ true → (if c then x else y) ≡ z → x ≡ z
test_true true x y t h = h
test_true false x y t h = absurd (cc t)

pub test_false {ℓ} :
    {A : Type ℓ} (c : Bool) (x y : A) {z : A} → c ≡ false → (if c then x else y) ≡ z → y ≡ z
test_false true x y t h = absurd (cc t)
test_false false x y t h = h

-- ===== src/Library/Format/Numbers.antt =====
-- What the digits of vsprintf (lib/printf.c) and itoa (lib/klib.c) stand for.
use native.Mathlib.Numerals.{towards_suc}
use native.Mathlib.Nat.{div-div-eq-div-mul}
use bz_os.Prelude.{
  ℕ, zero, suc, ◌+◌, ◌-◌, ◌*◌, ◌/◌, ◌%◌, ◌^◌, ◌≡◌, ◌<◌, ◌∙◌, ◌⊎◌, inl, inr, refl, sym, ap, arith,
  some, ◌≢◌, Bool, true, false, ◌||◌, List, [], ◌∷◌, ltb, ◌==◌, if◌then◌else◌, Bool-cases,
}
use mathlib.Core.Path.{subst}
use mathlib.Core.List.{append-nil}
use bz_os.Library.Format.{
  decimal, format_int, hex_char, hex_digits, itoa, minus, percent, word, directive, vsprintf,
}

-- The number that decimal digits stand for, after those that stand for acc.
pub read_decimal : ℕ → List ℕ → ℕ
read_decimal acc [] = acc
read_decimal acc (c ∷ cs) = read_decimal (acc * 10 + (c - 48)) cs

-- A digit, or a capital letter from 'A' on.
abbrev pub hex_value : ℕ → ℕ
hex_value c = if ltb 57 c then c - 55 else c - 48

pub read_hex : ℕ → List ℕ → ℕ
read_hex acc [] = acc
read_hex acc (c ∷ cs) = read_hex (acc * 16 + hex_value c) cs

-- 10 to the power n
abbrev power_of_ten : ℕ → ℕ
power_of_ten zero = 1
power_of_ten (suc n) = 10 * power_of_ten n

decimal_split :
    (v : ℕ) (out : List ℕ) → read_decimal (v / 10) ((48 + v % 10) ∷ out) ≡ read_decimal v out
unfolding read_decimal
decimal_split v out =
    let e : v / 10 * 10 + (48 + v % 10 - 48) ≡ v = omega arith in ap (λ w. read_decimal w out) e

read_decimal-decimal :
    (fuel v : ℕ) (out : List ℕ)
    → v < power_of_ten fuel
    → 0 < fuel
    → read_decimal 0 (decimal fuel false v out) ≡ read_decimal v out
unfolding read_decimal decimal
read_decimal-decimal zero v out lt h = absurd (omega arith)
read_decimal-decimal (suc zero) v out lt h =
    let z : (v / 10 == 0) ≡ true = ground arith in
    let e : v % 10 ≡ v = omega arith in rw (z, e) (ap (λ w. read_decimal w out) (omega arith))
read_decimal-decimal (suc (suc fuel)) v out lt h = elim (Bool-cases (v / 10 == 0)) [
  | inl z ↦
      let e : v % 10 ≡ v = ground arith in rw (z, e) (ap (λ w. read_decimal w out) (omega arith))
  | inr z ↦ rw z (
      read_decimal-decimal (suc fuel) (v / 10) ((48 + v % 10) ∷ out) (omega arith) (omega arith)
      ∙ decimal_split v out)
]

pow_step : (n : ℕ) → 2 ^ (4 * suc n) ≡ 2 ^ (4 * n) * 16
pow_step n = let e : 4 * suc n ≡ 4 * n + 4 = omega arith in rw e (simp towards_suc (omega arith))

quotient_step : (n num : ℕ) → num / 2 ^ (4 * suc n) ≡ num / 2 ^ (4 * n) / 16
quotient_step n num = rw (pow_step n) (sym (div-div-eq-div-mul num (2 ^ (4 * n)) 16))

-- One turn, in which q is what the digits down to this one stand for.
hex_turn :
    (q : ℕ) (flag : Bool) (rest : List ℕ)
    → (flag ≡ true) ⊎ (q / 16 ≡ 0)
    → read_hex (q / 16) (if flag || ltb 0 (q % 16) then hex_char (q % 16) ∷ rest else rest)
      ≡ read_hex q rest
unfolding read_hex
hex_turn q flag rest h = elim (Bool-cases (flag || ltb 0 (q % 16))) [
  | inl e ↦
      let d : q / 16 * 16 + hex_value (hex_char (q % 16)) ≡ q = ground arith in
      rw e (ap (λ w. read_hex w rest) d)
  | inr e ↦ let d : q / 16 ≡ q = ground arith in rw e (ap (λ w. read_hex w rest) d)
]

read_hex-hex_digits :
    (n num : ℕ) (flag : Bool)
    → (flag ≡ true) ⊎ (num / 2 ^ (4 * n) ≡ 0)
    → read_hex (num / 2 ^ (4 * n)) (hex_digits n flag num) ≡ num
unfolding read_hex hex_digits
read_hex-hex_digits zero num flag h = omega arith
read_hex-hex_digits (suc n) num flag h =
    let q : ℕ = num / 2 ^ (4 * n) in
    let e = quotient_step n num in
    let f : Bool = flag || ltb 0 (q % 16) in
    let h' : (flag ≡ true) ⊎ (q / 16 ≡ 0) = elim h [ inl t ↦ inl t | inr z ↦ inr (sym e ∙ z) ] in
    let next : (f ≡ true) ⊎ (q ≡ 0) = elim (Bool-cases f) [
      | inl t ↦ inl t
      | inr t ↦ inr (ground arith)
    ] in
    rw e (hex_turn q flag (hex_digits n f num) h' ∙ read_hex-hex_digits n num f next)

int_digits :
    (w : ℕ)
    → w < 2 ^ 32
    → w ≢ 2 ^ 31
    → (ds : List ℕ) × (format_int w ≡ (if ltb w (2 ^ 31) then ds else minus ∷ ds))
      × (read_decimal 0 ds ≡ (if ltb w (2 ^ 31) then w else 2 ^ 32 - w))
unfolding format_int
int_digits w lt ne = elim (Bool-cases (ltb w (2 ^ 31))) [
  | inl p ↦ rw p (
    decimal 10 false w [],
    refl,
    read_decimal-decimal 10 w [] (ground arith) (omega arith) ∙ read_nothing w,
  )
  | inr n ↦
      let z : (w == 2 ^ 31) ≡ false = ground arith in
      rw (n, z)
        (
          decimal 10 false (2 ^ 32 - w) [],
          refl,
          read_decimal-decimal 10 (2 ^ 32 - w) [] (ground arith) (omega arith)
              ∙ read_nothing (2 ^ 32 - w),
        )
]
  where
    read_nothing : (v : ℕ) → read_decimal v [] ≡ v
    read_nothing v = unfold read_decimal in refl

hex_text : (w : ℕ) → w < 2 ^ 32 → (ds : List ℕ) × (itoa w ≡ 48 ∷ 120 ∷ ds) × (read_hex 0 ds ≡ w)
unfolding itoa
hex_text w lt = elim (Bool-cases (w == 0)) [
  | inl z ↦ rw z (48 ∷ [], refl, unfold read_hex in ground arith)
  | inr n ↦ rw n (
    hex_digits 8 false w,
    refl,
    subst (λ q. read_hex q (hex_digits 8 false w) ≡ w) (omega arith)
        (read_hex-hex_digits 8 w false (inr (omega arith))),
  )
]

-- "%d" and "%x" and 32 bits w: the first prints w as a signed number, with '-' before a negative one,
-- and the second prints "0x" before w; the digits of each read back as the number, or for a
-- negative one as its opposite. For "%d" w is not the lowest int, 2^31.
pub vsprintf_reads :
    (w : ℕ)
    → w < 2 ^ 32
    → w ≢ 2 ^ 31
    → ((ds : List ℕ) × (vsprintf (percent ∷ 100 ∷ []) (word w ∷ [])
          ≡ some (if ltb w (2 ^ 31) then ds else minus ∷ ds))
        × (read_decimal 0 ds ≡ (if ltb w (2 ^ 31) then w else 2 ^ 32 - w)))
      × ((ds : List ℕ) × (vsprintf (percent ∷ 120 ∷ []) (word w ∷ []) ≡ some (48 ∷ 120 ∷ ds))
          × (read_hex 0 ds ≡ w))
unfolding vsprintf directive
vsprintf_reads w lt ne =
    let (ds, e, r) = int_digits w lt ne in
    let (xs, e', r') = hex_text w lt in
    ((ds, ap some (append-nil (format_int w) ∙ e), r), (xs, ap some (append-nil (itoa w) ∙ e'), r'))

-- ===== src/Fs/Directory/Names.antt =====
-- The comparison of names in search_file of fs/misc.c, with memcmp of lib/misc.c.
use mathlib.Core.Path.{subst}
use bz_os.Prelude.{
  get_or, ◌≢◌, ◌==◌, leb, if◌then◌else◌, ℕ, zero, suc, ◌+◌, ◌-◌, ◌*◌, ◌<◌, ◌≡◌, inl, inr, refl, sym,
  ap, ◌∙◌, arith, true, false, List, ltb, ℕ_discrete, Bool-cases,
}
use bz_os.Kernel.Schedule.{is_zero}
use bz_os.Prelude.Int.{pos, sub_ℕ}
use bz_os.Library.Text.{memcmp, char_diff}
use bz_os.Fs.Path.{max_filename_len}
use bz_os.Fs.Directory.{dir_entry_size, has_name}

pub memcmp-congr :
    (n s1 s2 s2' : ℕ) (m1 m2 m2' : ℕ → ℕ)
    → ((i : ℕ) → i < n → m2 (s2 + i) ≡ m2' (s2' + i))
    → memcmp m1 s1 m2 s2 n ≡ memcmp m1 s1 m2' s2' n
unfolding memcmp
memcmp-congr zero s1 s2 s2' m1 m2 m2' h = refl
memcmp-congr (suc n) s1 s2 s2' m1 m2 m2' h =
    let here : m2 s2 ≡ m2' s2' = ap m2 (omega arith) ∙ h 0 (omega arith) ∙ ap m2' (omega arith) in
    let rest =
      memcmp-congr n (s1 + 1) (s2 + 1) (s2' + 1) m1 m2 m2'
        (λ i lt. ap m2 (omega arith) ∙ h (i + 1) (omega arith) ∙ ap m2' (omega arith)) in
    rw (here, rest) refl

-- The twelve bytes of the name in an entry are those of the name and zeros.
abbrev pub Named : (ℕ → ℕ) → List ℕ → ℕ → Type 0
Named bytes name x =
    (i : ℕ) → i < max_filename_len → bytes (x * dir_entry_size + 4 + i) ≡ get_or name i 0

memcmp-equal :
    (n s1 s2 : ℕ) (m1 m2 : ℕ → ℕ)
    → ((i : ℕ) → i < n → m2 (s2 + i) ≡ m1 (s1 + i))
    → memcmp m1 s1 m2 s2 n ≡ pos 0
unfolding memcmp
memcmp-equal zero s1 s2 m1 m2 h = refl
memcmp-equal (suc n) s1 s2 m1 m2 h =
    let here : m2 s2 ≡ m1 s1 = ap m2 (omega arith) ∙ h 0 (omega arith) ∙ ap m1 (omega arith) in
    let t : (m1 s1 == m2 s2) ≡ true = ground (arith, here) in
    rw t (
      memcmp-equal n (s1 + 1) (s2 + 1) m1 m2
        (λ i lt. ap m2 (omega arith) ∙ h (i + 1) (omega arith) ∙ ap m1 (omega arith)))

positive : (n : ℕ) → n ≢ 0 → is_zero (pos n) ≡ false
positive zero ne = absurd (ne refl)
positive (suc n) ne = refl

sub_ℕ-differs : (u v : ℕ) → u ≢ v → is_zero (sub_ℕ u v) ≡ false
sub_ℕ-differs u v ne = elim (Bool-cases (leb v u)) [
  | inl t ↦ rw t (positive (u - v) (ground arith))
  | inr f ↦ rw f refl
]

-- Two different bytes make a difference.
char_diff-differs : (a b : ℕ) → a < 256 → b < 256 → a ≢ b → is_zero (char_diff a b) ≡ false
char_diff-differs a b la lb ne =
    sub_ℕ-differs ((if ltb a 128 then a else 0) + (if ltb b 128 then 0 else 256 - b))
      ((if ltb b 128 then b else 0) + (if ltb a 128 then 0 else 256 - a)) (ground arith)

memcmp-differs :
    (n i s1 s2 : ℕ) (m1 m2 : ℕ → ℕ)
    → i < n
    → m2 (s2 + i) ≢ m1 (s1 + i)
    → ((x : ℕ) → m1 x < 256)
    → ((x : ℕ) → x < n → m2 (s2 + x) < 256)
    → is_zero (memcmp m1 s1 m2 s2 n) ≡ false
unfolding memcmp
memcmp-differs zero i s1 s2 m1 m2 lt ne b1 b2 = absurd (omega arith)
memcmp-differs (suc n) i s1 s2 m1 m2 lt ne b1 b2 = elim (Bool-cases (m1 s1 == m2 s2)) [
  | inl t ↦ elim (ℕ_discrete i 0) [
    | yes z ↦
        let e : m1 s1 ≡ m2 s2 = ground arith in
        absurd (ne (ap m2 (omega arith) ∙ sym e ∙ ap m1 (omega arith)))
    | no nz ↦ rw t (
        memcmp-differs n (i - 1) (s1 + 1) (s2 + 1) m1 m2 (omega arith)
          (λ e. ne (ap m2 (omega arith) ∙ e ∙ ap m1 (omega arith))) b1
          (λ x l. subst (λ w. m2 w < 256) (omega arith) (b2 (x + 1) (omega arith))))
  ]
  | inr f ↦
      let b : m2 s2 < 256 = subst (λ w. m2 w < 256) (omega arith) (b2 0 (omega arith)) in
      rw f (char_diff-differs (m1 s1) (m2 s2) (b1 s1) b (ground arith))
]

pub has_name-Named :
    (name : List ℕ) (x : ℕ) (bytes : ℕ → ℕ) → Named bytes name x → has_name name x bytes ≡ true
unfolding has_name
has_name-Named name x bytes h = ap is_zero (
    memcmp-equal max_filename_len 0 (x * dir_entry_size + 4) (λ i. get_or name i 0) bytes
      (λ i lt. h i lt ∙ ap (λ w. get_or name w 0) (omega arith)))

pub has_name-differs :
    (name : List ℕ) (x i : ℕ) (bytes : ℕ → ℕ)
    → i < max_filename_len
    → bytes (x * dir_entry_size + 4 + i) ≢ get_or name i 0
    → ((k : ℕ) → get_or name k 0 < 256)
    → ((y : ℕ) → bytes y < 256)
    → has_name name x bytes ≡ false
unfolding has_name
has_name-differs name x i bytes lt ne b1 b2 =
    memcmp-differs max_filename_len i 0 (x * dir_entry_size + 4) (λ k. get_or name k 0) bytes lt
      (λ e. ne (e ∙ ap (λ w. get_or name w 0) (omega arith))) b1
      (λ y l. b2 (x * dir_entry_size + 4 + y))

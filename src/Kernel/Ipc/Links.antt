-- ===== src/Kernel/Ipc/Links.antt =====
-- The sending queues of proc_table: q_sending is the head, next_sending the links.
use mathlib.Core.Path.{subst}
use bz_os.Prelude.{
  ℕ, ◌≡◌, ◌≢◌, ◌⊎◌, inl, inr, refl, sym, ap, ◌∙◌, arith, Option, none, some, ℕ_discrete, List, [],
  ◌∷◌, ◌++◌, In, Out, Distinct, ◌==◌, if◌then◌else◌, ==_iff, Bool-cases, true, false,
}

-- From the pointer `o`, the links pass through just the processes of the list.
abbrev pub Linked : (ℕ → Option ℕ) → Option ℕ → List ℕ → Type 0
Linked next o [] = o ≡ none
Linked next o (x ∷ xs) = (o ≡ some x) × Linked next (next x) xs

-- The last of `x ∷ xs`.
abbrev pub end_of : ℕ → List ℕ → ℕ
end_of x [] = x
end_of x (y ∷ ys) = end_of y ys

-- The queue without its first `a`.
abbrev pub remove : ℕ → List ℕ → List ℕ
remove a [] = []
remove a (x ∷ xs) = if x == a then xs else x ∷ remove a xs

-- The process before `a`, `prev` standing before the list.
abbrev pub before : ℕ → Option ℕ → List ℕ → Option ℕ
before a prev [] = prev
before a prev (x ∷ xs) = if x == a then prev else before a (some x) xs

pub In-end_of : (x : ℕ) (xs : List ℕ) → In (end_of x xs) (x ∷ xs)
In-end_of x [] = inl refl
In-end_of x (y ∷ ys) = inr (In-end_of y ys)

pub Out→not : (a : ℕ) (xs : List ℕ) → Out a xs → ¬ In a xs
Out→not a (x ∷ xs) (ne, o) (inl e) = ne e
Out→not a (x ∷ xs) (ne, o) (inr i) = Out→not a xs o i
Out→not a [] o i = i

pub not→Out : (a : ℕ) (xs : List ℕ) → ¬ In a xs → Out a xs
not→Out a [] h = tt
not→Out a (x ∷ xs) h = ((λ e. h (inl e)), not→Out a xs (λ i. h (inr i)))

pub Out-append : (a : ℕ) (xs ys : List ℕ) → Out a xs → Out a ys → Out a (xs ++ ys)
Out-append a [] ys h k = k
Out-append a (x ∷ xs) ys (ne, o) k = (ne, Out-append a xs ys o k)

pub Distinct-append_one : (xs : List ℕ) (s : ℕ) → Distinct xs → Out s xs → Distinct (xs ++ (s ∷ []))
Distinct-append_one [] s d o = (tt, tt)
Distinct-append_one (x ∷ xs) s (ox, d) (ne, o) =
    (Out-append x xs (s ∷ []) ox ((λ e. ne (sym e)), tt), Distinct-append_one xs s d o)

pub In-append_one : (a : ℕ) (xs : List ℕ) (s : ℕ) → In a (xs ++ (s ∷ [])) → In a xs ⊎ (a ≡ s)
In-append_one a [] s (inl e) = inr e
In-append_one a [] s (inr i) = absurd i
In-append_one a (x ∷ xs) s (inl e) = inl (inl e)
In-append_one a (x ∷ xs) s (inr i) = elim (In-append_one a xs s i) [
  | inl j ↦ inl (inr j)
  | inr e ↦ inr e
]

pub In-append_left : (a : ℕ) (xs : List ℕ) (s : ℕ) → In a xs → In a (xs ++ (s ∷ []))
In-append_left a [] s i = absurd i
In-append_left a (x ∷ xs) s (inl e) = inl e
In-append_left a (x ∷ xs) s (inr i) = inr (In-append_left a xs s i)

pub In-append_self : (xs : List ℕ) (s : ℕ) → In s (xs ++ (s ∷ []))
In-append_self [] s = inl refl
In-append_self (x ∷ xs) s = inr (In-append_self xs s)

pub Linked-congr :
    (f g : ℕ → Option ℕ) (o : Option ℕ) (xs : List ℕ)
    → ((p : ℕ) → In p xs → g p ≡ f p)
    → Linked f o xs
    → Linked g o xs
Linked-congr f g o [] h l = l
Linked-congr f g o (x ∷ xs) h (e, l) = (
  e,
  subst (λ w. Linked g w xs) (sym (h x (inl refl)))
      (Linked-congr f g (f x) xs (λ p i. h p (inr i)) l),
)

-- Appending `s` to a queue that is not empty: its last process gets the link.
pub Linked-append :
    (f g : ℕ → Option ℕ) (o : Option ℕ) (s x : ℕ) (xs : List ℕ)
    → Distinct (x ∷ xs)
    → ((p : ℕ) → In p (x ∷ xs) → p ≢ end_of x xs → g p ≡ f p)
    → g (end_of x xs) ≡ some s
    → g s ≡ none
    → Linked f o (x ∷ xs)
    → Linked g o ((x ∷ xs) ++ (s ∷ []))
Linked-append f g o s x [] d h e n (l, l') = (l, (e, n))
Linked-append f g o s x (y ∷ ys) (ox, d) h e n (l, (l', r)) = (
  l,
  Linked-append f g (g x) s y ys d (λ p i ne. h p (inr i) ne) e n
      (
        h x (inl refl)
              (λ q. Out→not x (y ∷ ys) ox (subst (λ w. In w (y ∷ ys)) (sym q) (In-end_of y ys)))
            ∙ l',
        r,
      ),
)

pub ==_ne : (a b : ℕ) → a ≢ b → (a == b) ≡ false
==_ne a b h = ground arith

pub In-tail : (a y : ℕ) (ys : List ℕ) → y ≢ a → In a (y ∷ ys) → In a ys
In-tail a y ys ne (inl e) = absurd (ne (sym e))
In-tail a y ys ne (inr i) = i

pub before-In :
    (a y : ℕ) (ys : List ℕ) (prev : ℕ)
    → In a ys
    → before a (some y) ys ≡ some prev
    → In prev (y ∷ ys)
before-In a y [] prev i b = absurd i
before-In a y (z ∷ zs) prev i b = elim (ℕ_discrete z a) [
  | yes e ↦
      let t : (z == a) ≡ true = (==_iff z a).1 e in
      let q : some y ≡ some prev = rw t at b in inl (cc q)
  | no ne ↦
      let q : before a (some z) zs ≡ some prev = rw (==_ne z a ne) at b in
      inr (before-In a z zs prev (In-tail a z zs ne i) q)
]

pub before_ne :
    (a y : ℕ) (ys : List ℕ) (prev : ℕ)
    → y ≢ a
    → In a ys
    → before a (some y) ys ≡ some prev
    → prev ≢ a
before_ne a y [] prev h i b = absurd i
before_ne a y (z ∷ zs) prev h i b = elim (ℕ_discrete z a) [
  | yes e ↦ let q : some y ≡ some prev = rw ((==_iff z a).1 e) at b in (λ c. h (cc (q, c)))
  | no ne ↦
      let q : before a (some z) zs ≡ some prev = rw (==_ne z a ne) at b in
      before_ne a z zs prev ne (In-tail a z zs ne i) q
]

-- The queue has a process before `a`, unless `a` is its head.
pub before-some :
    (a y : ℕ) (ys : List ℕ) → In a ys → (prev : ℕ) × (before a (some y) ys ≡ some prev)
before-some a y [] i = absurd i
before-some a y (z ∷ zs) i = elim (ℕ_discrete z a) [
  | yes e ↦ (y, rw ((==_iff z a).1 e))
  | no ne ↦ let (prev, q) = before-some a z zs (In-tail a z zs ne i) in (prev, rw (==_ne z a ne) q)
]

pub In-remove : (p a : ℕ) (xs : List ℕ) → In p (remove a xs) → In p xs
In-remove p a [] i = i
In-remove p a (x ∷ xs) i = ground (arith, In-remove p a xs)

pub Out-remove : (p a : ℕ) (xs : List ℕ) → Out p xs → Out p (remove a xs)
Out-remove p a xs o = not→Out p (remove a xs) (λ i. Out→not p xs o (In-remove p a xs i))

pub Distinct-remove : (a : ℕ) (xs : List ℕ) → Distinct xs → Distinct (remove a xs)
Distinct-remove a [] d = d
Distinct-remove a (x ∷ xs) (o, d) = elim (Bool-cases (x == a)) [
  | inl t ↦ rw t d
  | inr t ↦ rw t (Out-remove x a xs o, Distinct-remove a xs d)
]

pub not-In-remove : (a : ℕ) (xs : List ℕ) → Distinct xs → ¬ In a (remove a xs)
not-In-remove a [] d = λ i. i
not-In-remove a (x ∷ xs) (o, d) = elim (ℕ_discrete x a) [
  | yes e ↦ rw ((==_iff x a).1 e) (Out→not a xs (subst (λ w. Out w xs) e o))
  | no ne ↦ rw (==_ne x a ne) (λ i. not-In-remove a xs d (In-tail a x (remove a xs) ne i))
]

pub In-remove_ne : (p a : ℕ) (xs : List ℕ) → p ≢ a → In p xs → In p (remove a xs)
In-remove_ne p a [] ne i = i
In-remove_ne p a (x ∷ xs) ne (inl e) = rw (==_ne x a (λ c. ne (e ∙ c))) (inl e)
In-remove_ne p a (x ∷ xs) ne (inr i) = elim (Bool-cases (x == a)) [
  | inl t ↦ rw t i
  | inr t ↦ rw t (inr (In-remove_ne p a xs ne i))
]

-- Taking `a` out from behind another process.
pub Linked-remove :
    (f g : ℕ → Option ℕ) (o : Option ℕ) (a prev x : ℕ) (xs : List ℕ)
    → Distinct (x ∷ xs)
    → x ≢ a
    → In a xs
    → before a (some x) xs ≡ some prev
    → ((p : ℕ) → p ≢ prev → p ≢ a → g p ≡ f p)
    → g prev ≡ f a
    → Linked f o (x ∷ xs)
    → Linked g o (x ∷ remove a xs)
Linked-remove f g o a prev x [] d ne i b h k l = absurd i
Linked-remove f g o a prev x (y ∷ ys) (ox, (oy, d)) ne i b h k (l, (l', r)) =
    elim (ℕ_discrete y a) [
      | yes e ↦
          let t : (y == a) ≡ true = (==_iff y a).1 e in
          let q : some x ≡ some prev = rw t at b in
          let q' : x ≡ prev = cc q in
          rw t (
            l,
            Linked-congr f g (g x) ys
                (λ p j.
                  h p (λ c. Out→not x ys ox.1 (subst (λ w. In w ys) (c ∙ sym q') j))
                    (λ c. Out→not y ys oy (subst (λ w. In w ys) (c ∙ sym e) j)))
                (subst (λ w. Linked f w ys) (ap f e ∙ sym k ∙ ap g (sym q')) r),
          )
      | no ne' ↦
          let t : (y == a) ≡ false = ==_ne y a ne' in
          let q : before a (some y) ys ≡ some prev = rw t at b in
          let j : In a ys = In-tail a y ys ne' i in
          rw t (
            l,
            Linked-remove f g (g x) a prev y ys (oy, d) ne' j q h k
                (
                  h x
                        (λ c.
                          Out→not x (y ∷ ys) ox
                            (subst (λ w. In w (y ∷ ys)) (sym c) (before-In a y ys prev j q)))
                        ne
                      ∙ l',
                  r,
                ),
          )
    ]

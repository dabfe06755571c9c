-- ===== src/Terminal/Ring/Queue.antt =====
-- The ring is a queue of at most `size` keys: put_key appends, drop_key takes from the front.
use bz_os.Prelude.{
  ℕ, zero, suc, ◌+◌, ◌-◌, ◌≤◌, ◌<◌, ◌≡◌, ◌⊎◌, inl, inr, refl, ap, ◌∙◌, Bool-cases, arith, List, [],
  ◌∷◌, ◌++◌, ltb, ◌==◌, if◌then◌else◌, update, update_self,
}
use bz_os.Terminal.Ring.{Ring, put_key, next_key, drop_key, reset}

-- the index after i
abbrev pub after : ℕ → ℕ → ℕ
after size i = if i + 1 == size then 0 else i + 1

-- The `n` keys from the index i on.
unfoldable pub keys_from : ℕ → (ℕ → ℕ) → ℕ → ℕ → List ℕ
keys_from size buf i zero = []
keys_from size buf i (suc n) = buf i ∷ keys_from size buf (after size i) n

unfoldable pub contents : ℕ → Ring → List ℕ
contents size r = keys_from size r.buf r.tail r.count

-- Both indices are in the buffer, and the head is `count` places after the tail.
pub record IsRing (size : ℕ) (r : Ring) : Type 0 where
  pub tail_in : r.tail < size
  pub head_in : r.head < size
  pub bounded : r.count ≤ size
  pub apart : (r.head ≡ r.tail + r.count) ⊎ (r.head + size ≡ r.tail + r.count)

cong_cons : {x y : ℕ} {xs ys : List ℕ} → x ≡ y → xs ≡ ys → x ∷ xs ≡ y ∷ ys
cong_cons p q = cc

-- A write at an index that is not among the next n does not show.
keys_from-update :
    (size : ℕ) (buf : ℕ → ℕ) (j v i n : ℕ)
    → i < size
    → j < size
    → (j < i) × (i + n ≤ j + size) ⊎ (i + n ≤ j)
    → keys_from size (update buf j v) i n ≡ keys_from size buf i n
unfolding keys_from
keys_from-update size buf j v i zero hi hj h = refl
keys_from-update size buf j v i (suc n) hi hj h =
    cong_cons (ground arith)
      (keys_from-update size buf j v (after size i) n (ground arith) hj (ground arith))

-- The last of n + 1 keys is at the index h.
keys_from-snoc :
    (size : ℕ) (buf : ℕ → ℕ) (i n h : ℕ)
    → i < size
    → h < size
    → n < size
    → (h ≡ i + n) ⊎ (h + size ≡ i + n)
    → keys_from size buf i (suc n) ≡ keys_from size buf i n ++ buf h ∷ []
unfolding keys_from
keys_from-snoc size buf i zero h hi hh hn e = cong_cons (ap buf (ground arith)) refl
keys_from-snoc size buf i (suc n) h hi hh hn e =
    cong_cons refl
      (keys_from-snoc size buf (after size i) n h (ground arith) hh (omega arith) (ground arith))

pub reset-IsRing : (size : ℕ) (r : Ring) → 0 < size → IsRing size (reset r)
unfolding reset
reset-IsRing size r h = record { tail_in = h; head_in = h; bounded = omega arith; apart = inl refl }

pub put_key-IsRing :
    (size : ℕ) (r : Ring) (key : ℕ) → IsRing size r → IsRing size (put_key size r key)
unfolding put_key
put_key-IsRing size r key i = record {
  tail_in = ground (arith, i.tail_in);
  head_in = ground (arith, i.head_in);
  bounded = ground (arith, i.bounded);
  apart = ground (arith, i.apart, i.head_in, i.tail_in, i.bounded);
}

pub drop_key-IsRing :
    (size : ℕ) (r : Ring) → IsRing size r → 0 < r.count → IsRing size (drop_key size r)
unfolding drop_key
drop_key-IsRing size r i h = record {
  tail_in = ground (arith, i.tail_in);
  head_in = i.head_in;
  bounded = ground (arith, i.bounded);
  apart = ground (arith, i.apart, i.head_in, i.tail_in, i.bounded);
}

put_key-shape :
    (size : ℕ) (r : Ring) (key : ℕ)
    → r.count < size
    → contents size (put_key size r key)
      ≡ keys_from size (update r.buf r.head key) r.tail (suc r.count)
unfolding put_key contents
put_key-shape size r key lt = ground arith

contents-put_key_room :
    (size : ℕ) (r : Ring) (key : ℕ)
    → IsRing size r
    → r.count < size
    → contents size (put_key size r key) ≡ contents size r ++ key ∷ []
unfolding contents
contents-put_key_room size r key i lt =
    let snoc =
      keys_from-snoc size (update r.buf r.head key) r.tail r.count r.head i.tail_in i.head_in lt
        i.apart in
    let kept =
      keys_from-update size r.buf r.head key r.tail r.count i.tail_in i.head_in
        (omega (arith, i.apart, i.head_in, i.tail_in)) in
    put_key-shape size r key lt ∙ snoc ∙ cc (kept, update_self r.buf r.head key)

put_key-full : (size : ℕ) (r : Ring) (key : ℕ) → size ≤ r.count → put_key size r key ≡ r
unfolding put_key
put_key-full size r key h = ground arith

-- For a proper ring of some size: put_key adds the key at the end of the queue if there is room, and
-- drops it if the buffer is full; the ring stays proper.
pub contents-put_key :
    (size : ℕ) (r : Ring) (key : ℕ)
    → IsRing size r
    → IsRing size (put_key size r key)
      × (contents size (put_key size r key)
          ≡ (if ltb r.count size then contents size r ++ key ∷ [] else contents size r))
contents-put_key size r key i = (
  put_key-IsRing size r key i,
  elim (Bool-cases (ltb r.count size)) [
    | inl room ↦ ground (arith, contents-put_key_room size r key i (ground arith))
    | inr full ↦ ground (arith, put_key-full size r key (ground arith))
  ],
)

front :
    (size : ℕ) (r : Ring) (n : ℕ)
    → r.count ≡ suc n
    → contents size r ≡ next_key r ∷ contents size (drop_key size r)
unfolding contents next_key drop_key keys_from
front size r n e = let m : r.count - 1 ≡ n = omega arith in rw (m, e) refl

-- For a proper ring of some size that is not empty: next_key is the first key of the queue,
-- drop_key takes just that one out, and the ring stays proper.
pub contents-drop_key :
    (size : ℕ) (r : Ring)
    → IsRing size r
    → 0 < r.count
    → IsRing size (drop_key size r)
      × (contents size r ≡ next_key r ∷ contents size (drop_key size r))
contents-drop_key size r i h =
    (drop_key-IsRing size r i h, front size r (r.count - 1) (omega arith))

pub contents-empty : (size : ℕ) (r : Ring) → r.count ≡ 0 → contents size r ≡ []
unfolding contents keys_from
contents-empty size r e = rw e refl

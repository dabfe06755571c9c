-- ===== src/Library/Text.antt =====
-- Comparing and joining strings: memcmp, strcmp and strcat of lib/misc.c. A C string is the list of its
-- characters, without the NUL at its end; a character is its byte, ordered as a signed char.
use bz_os.Prelude.{
  ℕ, zero, suc, ◌+◌, ◌-◌, List, [], ◌∷◌, Option, none, some, ltb, ◌==◌, if◌then◌else◌,
}
use bz_os.Prelude.Int.{ℤ, pos, sub_ℕ}

-- *p1 - *p2
abbrev pub char_diff : ℕ → ℕ → ℤ
char_diff a b =
    sub_ℕ ((if ltb a 128 then a else 0) + (if ltb b 128 then 0 else 256 - b))
      ((if ltb b 128 then b else 0) + (if ltb a 128 then 0 else 256 - a))

-- memcmp of n bytes from the addresses s1 and s2 of two memories, none of them null
unfoldable pub memcmp : (ℕ → ℕ) → ℕ → (ℕ → ℕ) → ℕ → ℕ → ℤ
memcmp m1 s1 m2 s2 zero = pos 0
memcmp m1 s1 m2 s2 (suc n) =
    let rest = memcmp m1 (s1 + 1) m2 (s2 + 1) n in
    if m1 s1 == m2 s2 then rest else char_diff (m1 s1) (m2 s2)

unfoldable pub strcmp : List ℕ → List ℕ → ℤ
strcmp [] [] = pos 0
strcmp [] (y ∷ ys) = char_diff 0 y
strcmp (x ∷ xs) [] = char_diff x 0
strcmp (x ∷ xs) (y ∷ ys) = let rest = strcmp xs ys in if x == y then rest else char_diff x y

-- with null pointers as `none`; the loop over s2 stores its characters behind those of s1
unfoldable pub strcat : Option (List ℕ) → Option (List ℕ) → Option (List ℕ)
strcat none s2 = none
strcat (some s1) none = none
strcat (some []) (some s2) = some s2
strcat (some (x ∷ xs)) (some s2) = elim (strcat (some xs) (some s2)) [
  | none ↦ none
  | some s ↦ some (x ∷ s)
]

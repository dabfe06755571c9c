-- ===== src/Fs/Path.antt =====
-- The names of files: strip_path of fs/misc.c. A C string is the list of its characters, without the
-- NUL at its end; a null pointer is `none`, and so is the result -1. The directory is always '/'.
use bz_os.Prelude.{
  ℕ, zero, suc, ◌-◌, ◌≡◌, refl, arith, Bool, true, false, ◌||◌, List, [], ◌∷◌, take, Option, none,
  some, ◌==◌, if◌then◌else◌,
}

abbrev pub max_filename_len : ℕ
max_filename_len = 12

abbrev pub slash : ℕ
slash = 47

-- while(*s), with room for n characters: n is at least 1
pub copy_name : ℕ → List ℕ → Option (List ℕ)
copy_name n [] = some []
copy_name n (c ∷ cs) =
    let rest = copy_name (n - 1) cs in
    if c == slash
    then none
    else if n - 1 == 0
    then some (c ∷ [])
    else elim rest [ none ↦ none | some name ↦ some (c ∷ name) ]

-- one slash at the beginning is left out
abbrev pub without_slash : List ℕ → List ℕ
without_slash [] = []
without_slash (c ∷ cs) = if c == slash then cs else c ∷ cs

unfoldable pub strip_path : Option (List ℕ) → Option (List ℕ)
strip_path none = none
strip_path (some pathname) = copy_name max_filename_len (without_slash pathname)

unfoldable pub has_slash : List ℕ → Bool
has_slash [] = false
has_slash (c ∷ cs) = c == slash || has_slash cs

refused_or_copied :
    (a b : Bool) (c : ℕ) (xs : List ℕ)
    → (if a
        then none
        else elim (if b then none else some xs) [ none ↦ none | some name ↦ some (c ∷ name) ])
      ≡ (if a || b then none else some (c ∷ xs))
refused_or_copied true b c xs = refl
refused_or_copied false true c xs = refl
refused_or_copied false false c xs = refl

copy_name_lem :
    (n : ℕ) (cs : List ℕ)
    → copy_name (suc n) cs ≡ (if has_slash (take (suc n) cs) then none else some (take (suc n) cs))
unfolding copy_name has_slash
copy_name_lem n [] = refl
copy_name_lem zero (c ∷ cs) = ground arith
copy_name_lem (suc n) (c ∷ cs) =
    let m : suc (suc n) - 1 ≡ suc n = omega arith in
    let z : (suc n == 0) ≡ false = ground arith in
    rw (m, z, copy_name_lem n cs)
      (refused_or_copied (c == slash) (has_slash (take (suc n) cs)) c (take (suc n) cs))

-- The name of a file is the path without a slash at its beginning, cut off after 12 characters; a path
-- with another slash among these is refused.
pub strip_path-take :
    (pathname : List ℕ)
    → let name = take max_filename_len (without_slash pathname) in
      strip_path (some pathname) ≡ (if has_slash name then none else some name)
unfolding strip_path
strip_path-take pathname = copy_name_lem 11 (without_slash pathname)

-- ===== src/Library/Format.antt =====
-- The formatting of text: vsprintf of lib/printf.c, itoa of lib/klib.c.
pub mod Numbers
use bz_os.Prelude.{
  ℕ, zero, suc, ◌+◌, ◌-◌, ◌*◌, ◌/◌, ◌%◌, ◌^◌, Bool, true, false, ◌||◌, List, [], ◌∷◌, ◌++◌, Option,
  none, some, ltb, ◌==◌, if◌then◌else◌,
}

abbrev pub percent : ℕ
percent = 37

abbrev pub minus : ℕ
minus = 45

-- An argument: the text at a pointer, or a 32-bit pattern.
pub data Arg : Type 0 where
  str : List ℕ → Arg
  word : ℕ → Arg

-- (value % 10) + '0' for an int that is `value`, or when `neg` its opposite: only for INT_MIN, whose
-- negation is itself
abbrev pub digit : Bool → ℕ → ℕ
digit neg value = if neg then 48 - value % 10 else 48 + value % 10

-- tmp[] is filled from the lowest digit on and read backwards: the digits stand before `out`.
unfoldable pub decimal : ℕ → Bool → ℕ → List ℕ → List ℕ
decimal zero neg value out = out
decimal (suc fuel) neg value out =
    let rest = decimal fuel neg (value / 10) (digit neg value ∷ out) in
    if value / 10 == 0 then digit neg value ∷ out else rest

-- case 'd': an int has ten digits at most
unfoldable pub format_int : ℕ → List ℕ
format_int w =
    if ltb w (2 ^ 31)
    then decimal 10 false w []
    else minus ∷ decimal 10 (w == 2 ^ 31) (2 ^ 32 - w) []

-- ch += '0', and 7 more for a letter
abbrev pub hex_char : ℕ → ℕ
hex_char ch = if ltb 57 (ch + 48) then ch + 48 + 7 else ch + 48

-- for(i=28; i>=0; i-=4): n turns are left, and i is 4 * (n - 1)
unfoldable pub hex_digits : ℕ → Bool → ℕ → List ℕ
hex_digits zero flag num = []
hex_digits (suc n) flag num =
    let ch : ℕ = num / 2 ^ (4 * n) % 16 in
    let flag' : Bool = flag || ltb 0 ch in
    let rest : List ℕ = hex_digits n flag' num in if flag' then hex_char ch ∷ rest else rest

unfoldable pub itoa : ℕ → List ℕ
itoa num = 48 ∷ 120 ∷ (if num == 0 then 48 ∷ [] else hex_digits 8 false num)

-- One directive: the characters put out and the arguments left. An unknown one puts out nothing;
-- `none` is an argument that is missing or of the other kind.
unfoldable pub directive : ℕ → List Arg → Option (List ℕ × List Arg)
directive c [] = if c == 115 || (c == 100 || (c == 99 || c == 120)) then none else some ([], [])
directive c (str s ∷ args) =
    if c == 115
    then some (s, args)
    else if c == 100 || (c == 99 || c == 120)
    then none
    else some ([], str s ∷ args)
directive c (word w ∷ args) =
    if c == 100
    then some (format_int w, args)
    else if c == 99
    then some (w % 256 ∷ [], args)
    else if c == 120
    then some (itoa w, args)
    else if c == 115
    then none
    else some ([], word w ∷ args)

-- The text before the NUL. A '%' at the end of the format, behind which the code reads on, is `none`.
unfoldable pub vsprintf : List ℕ → List Arg → Option (List ℕ)
vsprintf [] args = some []
vsprintf (c ∷ []) args = if c == percent then none else some (c ∷ [])
vsprintf (c ∷ d ∷ fmt) args =
    let plain : Option (List ℕ) = elim (vsprintf (d ∷ fmt) args) [
      | none ↦ none
      | some out ↦ some (c ∷ out)
    ] in
    let formatted : Option (List ℕ) = elim (directive d args) [
      | none ↦ none
      | some (text, rest) ↦ elim (vsprintf fmt rest) [ none ↦ none | some out ↦ some (text ++ out) ]
    ] in
    if c == percent then formatted else plain

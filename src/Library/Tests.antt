-- ===== src/Library/Tests.antt =====
-- Runs of the string routines.
use bz_os.Prelude.{ℕ, ◌+◌, ◌^◌, ◌-◌, ◌≡◌, refl, arith, List, [], ◌∷◌, some}
use bz_os.Prelude.Int.{pos, negsuc}
use bz_os.Library.Text.{memcmp, strcmp, strcat}
use bz_os.Library.Format.{vsprintf, directive, format_int, decimal, itoa, hex_digits, word, percent}
use bz_os.Library.Format.Numbers.{read_decimal, read_hex, vsprintf_reads}

strcmp_test : strcmp (97 ∷ 98 ∷ []) (97 ∷ []) ≡ pos 98
unfolding strcmp
strcmp_test = refl

memcmp_test : memcmp (λ i. i) 4 (λ i. i + 1) 4 3 ≡ negsuc 0
unfolding memcmp
memcmp_test = refl

strcat_test : strcat (some (97 ∷ [])) (some (98 ∷ [])) ≡ some (97 ∷ 98 ∷ [])
unfolding strcat
strcat_test = refl

-- "-5" and "0xABC0"
vsprintf_int_test : vsprintf (percent ∷ 100 ∷ []) (word (2 ^ 32 - 5) ∷ []) ≡ some (45 ∷ 53 ∷ [])
unfolding vsprintf directive format_int decimal
vsprintf_int_test = refl

vsprintf_hex_test :
    vsprintf (percent ∷ 120 ∷ []) (word 0xABC0 ∷ []) ≡ some (48 ∷ 120 ∷ 65 ∷ 66 ∷ 67 ∷ 48 ∷ [])
unfolding vsprintf directive itoa hex_digits
vsprintf_hex_test = refl

vsprintf_reads_example :
    ((ds : List ℕ) × (vsprintf (percent ∷ 100 ∷ []) (word 0xABC0 ∷ []) ≡ some ds)
      × (read_decimal 0 ds ≡ 0xABC0))
    × ((ds : List ℕ) × (vsprintf (percent ∷ 120 ∷ []) (word 0xABC0 ∷ []) ≡ some (48 ∷ 120 ∷ ds))
        × (read_hex 0 ds ≡ 0xABC0))
vsprintf_reads_example = vsprintf_reads 0xABC0 (omega arith) (omega arith)

-- ===== src/Prelude/Text.antt =====
-- Texts as lists of code points, and the methods of `str` that the program calls.
use Prim.Native.Nat.{ℕ, zero, suc, ◌+◌, ◌/◌, ◌%◌}
use Prim.Native.Char.{code}
use Prim.Native.String
use Prim.Native.String.{String}
use mathlib.Core.Path.{◌≡◌}
use native.Mathlib.Omega.{arith}
use mathlib.Core.Bool.{Bool, true, false, not, ◌&&◌, ◌||◌}
use mathlib.Core.List.{List, [], ◌∷◌}
use constrails.Prelude.Tests.{leb, nat_eq, if◌then◌else◌}

abbrev pub codes : String → List ℕ
codes String.[] = []
codes (String.◌∷◌ c s) = code c ∷ codes s

-- `text.startswith(prefix)`
unfoldable pub is_prefix : List ℕ → List ℕ → Bool
is_prefix [] t = true
is_prefix (p ∷ ps) [] = false
is_prefix (p ∷ ps) (c ∷ cs) = nat_eq p c && is_prefix ps cs

unfoldable pub starts_with : String → String → Bool
unfolding is_prefix
starts_with text prefix = is_prefix (codes prefix) (codes text)

-- Two prefixes that differ at a place that both have are not prefixes of one text.
unfoldable pub clash : List ℕ → List ℕ → Bool
clash [] qs = false
clash (p ∷ ps) [] = false
clash (p ∷ ps) (q ∷ qs) = not (nat_eq p q) || clash ps qs

is_prefix-clash :
    (ps qs t : List ℕ) → clash ps qs ≡ true → is_prefix ps t ≡ true → is_prefix qs t ≡ false
unfolding clash is_prefix
is_prefix-clash [] qs t c h = ground arith
is_prefix-clash (p ∷ ps) [] t c h = ground arith
is_prefix-clash (p ∷ ps) (q ∷ qs) [] c h = ground arith
is_prefix-clash (p ∷ ps) (q ∷ qs) (x ∷ t) c h = ground (arith, is_prefix-clash ps qs t)

pub starts_with-clash :
    (text p q : String)
    → clash (codes p) (codes q) ≡ true
    → starts_with text p ≡ true
    → starts_with text q ≡ false
unfolding starts_with
starts_with-clash text p q c h = is_prefix-clash (codes p) (codes q) (codes text) c h

-- `part in text`
unfoldable pub occurs_in : List ℕ → List ℕ → Bool
occurs_in part [] = is_prefix part []
occurs_in part (c ∷ cs) = is_prefix part (c ∷ cs) || occurs_in part cs

unfoldable pub contains : String → String → Bool
unfolding occurs_in is_prefix
contains text part = occurs_in (codes part) (codes text)

-- `text.lower()`, where it matters for a comparison with ASCII words: the letters A to Z, and the
-- Kelvin sign, which is the one other character that becomes an ASCII letter by itself.
abbrev lower_code : ℕ → ℕ
lower_code c = if leb b'A' c && leb c b'Z' then c + 32 else if nat_eq c 0x212A then b'k' else c

unfoldable pub lower : List ℕ → List ℕ
lower [] = []
lower (c ∷ cs) = lower_code c ∷ lower cs

-- Equality of texts given by their code points.
unfoldable pub codes_eq : List ℕ → List ℕ → Bool
codes_eq [] [] = true
codes_eq [] (d ∷ ds) = false
codes_eq (c ∷ cs) [] = false
codes_eq (c ∷ cs) (d ∷ ds) = nat_eq c d && codes_eq cs ds

-- `text.rstrip(c)`
unfoldable pub rstrip : ℕ → List ℕ → List ℕ
rstrip c [] = []
rstrip c (d ∷ ds) = elim (rstrip c ds) [
  | [] ↦ if nat_eq c d then [] else d ∷ []
  | e ∷ es ↦ d ∷ e ∷ es
]

-- An f-string, by its parts.
unfoldable pub concat : List String → String
concat [] = ""
concat (s ∷ ss) = String.◌++◌ s (concat ss)

abbrev digit : ℕ → String
digit zero = "0"
digit (suc zero) = "1"
digit (suc (suc zero)) = "2"
digit (suc (suc (suc zero))) = "3"
digit (suc (suc (suc (suc zero)))) = "4"
digit (suc (suc (suc (suc (suc zero))))) = "5"
digit (suc (suc (suc (suc (suc (suc zero)))))) = "6"
digit (suc (suc (suc (suc (suc (suc (suc zero))))))) = "7"
digit (suc (suc (suc (suc (suc (suc (suc (suc zero)))))))) = "8"
digit _ = "9"

-- The decimal digits of `n` before those in `out`; each round divides by ten, so `n` rounds suffice.
show_from : ℕ → ℕ → String → String
show_from zero n out = out
show_from (suc fuel) n out = elim n [
  | zero ↦ out
  | suc m ↦ show_from fuel (suc m / 10) (String.◌++◌ (digit (suc m % 10)) out)
]

-- `str(n)` of a number
unfoldable pub show : ℕ → String
unfolding show_from
show n = elim n [ zero ↦ "0" | suc m ↦ show_from (suc m) (suc m) "" ]

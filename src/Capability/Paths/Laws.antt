-- ===== src/Capability/Paths/Laws.antt =====
-- What a normalised path looks like, and that a path below a prefix never leaves it.
use constrails.Prelude.{
  ℕ, Bool, true, false, List, [], ◌∷◌, ◌≡◌, ◌⊎◌, inl, inr, refl, nat_eq, codes_eq, is_prefix, arith,
  Bool-cases,
}
use constrails.Capability.Paths.{
  dot, dot_dot, add_head, split_slash, push_part, push_all, reverse_onto, is_absolute, parts_of,
}

abbrev pub NoSlash : List ℕ → Type 0
NoSlash [] = Unit
NoSlash (c ∷ cs) = (nat_eq c b'/' ≡ false) × NoSlash cs

abbrev pub AllNoSlash : List (List ℕ) → Type 0
AllNoSlash [] = Unit
AllNoSlash (x ∷ xs) = NoSlash x × AllNoSlash xs

-- A part that names an entry of its directory: not "", "." or "..", and free of slashes.
pub record IsPlain (part : List ℕ) : Type 0 where
  pub not_empty : codes_eq part [] ≡ false
  pub not_dot : codes_eq part dot ≡ false
  pub not_dots : codes_eq part dot_dot ≡ false
  pub no_slash : NoSlash part

abbrev pub AllPlain : List (List ℕ) → Type 0
AllPlain [] = Unit
AllPlain (x ∷ xs) = IsPlain x × AllPlain xs

abbrev pub IsDots : List ℕ → Type 0
IsDots part = codes_eq part dot_dot ≡ true

abbrev AllDots : List (List ℕ) → Type 0
AllDots [] = Unit
AllDots (x ∷ xs) = IsDots x × AllDots xs

add_head-AllNoSlash :
    (c : ℕ) (parts : List (List ℕ))
    → nat_eq c b'/' ≡ false
    → AllNoSlash parts
    → AllNoSlash (add_head c parts)
add_head-AllNoSlash c [] h k = ((h, tt), tt)
add_head-AllNoSlash c (p ∷ ps) h k = ((h, k.0), k.1)

split_slash-AllNoSlash : (path : List ℕ) → AllNoSlash (split_slash path)
unfolding split_slash
split_slash-AllNoSlash [] = (tt, tt)
split_slash-AllNoSlash (c ∷ cs) = elim (Bool-cases (nat_eq c b'/')) [
  | inl slash ↦ rw slash (tt, split_slash-AllNoSlash cs)
  | inr other ↦ rw other (add_head-AllNoSlash c (split_slash cs) other (split_slash-AllNoSlash cs))
]

module _ (absolute : Bool) where
  -- The stack of the loop: plain parts above, in a relative path, some "..".
  abbrev Settled : List (List ℕ) → Type 0
  Settled [] = Unit
  Settled (x ∷ xs) = (IsPlain x × Settled xs) ⊎ ((absolute ≡ false) × IsDots x × AllDots xs)

  push_part-Settled :
      (stack : List (List ℕ)) (part : List ℕ)
      → NoSlash part
      → Settled stack
      → Settled (push_part absolute stack part)
  unfolding push_part
  push_part-Settled [] part n s = ground arith
  push_part-Settled (x ∷ xs) part n (inl (px, rest)) = ground (arith, px.not_dots)
  push_part-Settled (x ∷ xs) part n (inr (a, d, ds)) = ground arith

  push_all-Settled :
      (stack parts : List (List ℕ))
      → AllNoSlash parts
      → Settled stack
      → Settled (push_all absolute stack parts)
  unfolding push_all
  push_all-Settled stack [] n s = s
  push_all-Settled stack (p ∷ ps) n s =
      push_all-Settled (push_part absolute stack p) ps n.1 (push_part-Settled stack p n.0 s)

  -- Some ".." in a relative path, and plain parts behind them.
  abbrev pub Shape : List (List ℕ) → Type 0
  Shape [] = Unit
  Shape (x ∷ xs) = AllPlain (x ∷ xs) ⊎ ((absolute ≡ false) × IsDots x × Shape xs)

  Shape-of_plain : (xs : List (List ℕ)) → AllPlain xs → Shape xs
  Shape-of_plain [] h = tt
  Shape-of_plain (x ∷ xs) h = inl h

  reverse_dots-Shape :
      (stack out : List (List ℕ))
      → absolute ≡ false
      → AllDots stack
      → Shape out
      → Shape (reverse_onto stack out)
  unfolding reverse_onto
  reverse_dots-Shape [] out a d s = s
  reverse_dots-Shape (x ∷ xs) out a d s = reverse_dots-Shape xs (x ∷ out) a d.1 (inr (a, d.0, s))

  reverse_onto-Shape :
      (stack out : List (List ℕ)) → Settled stack → AllPlain out → Shape (reverse_onto stack out)
  unfolding reverse_onto
  reverse_onto-Shape [] out s p = Shape-of_plain out p
  reverse_onto-Shape (x ∷ xs) out (inl (px, rest)) p = reverse_onto-Shape xs (x ∷ out) rest (px, p)
  reverse_onto-Shape (x ∷ xs) out (inr (a, d, ds)) p =
      reverse_dots-Shape xs (x ∷ out) a ds (inr (a, d, Shape-of_plain out p))

pub parts_of-Shape : (path : List ℕ) → Shape (is_absolute path) (parts_of path)
unfolding parts_of
parts_of-Shape path =
    let a = is_absolute path in
    reverse_onto-Shape a (push_all a [] (split_slash path)) []
      (push_all-Settled a [] (split_slash path) (split_slash-AllNoSlash path) tt) tt

-- The first code point of a text, and 0 where there is none.
abbrev pub head_code : List ℕ → ℕ
head_code [] = 0
head_code (c ∷ cs) = c

pub codes_eq-eq : (s t : List ℕ) → codes_eq s t ≡ true → s ≡ t
unfolding codes_eq
codes_eq-eq [] [] h = refl
codes_eq-eq [] (d ∷ ds) h = ground arith
codes_eq-eq (c ∷ cs) [] h = ground arith
codes_eq-eq (c ∷ cs) (d ∷ ds) h = ground (arith, codes_eq-eq cs ds)

pub head_code-is_prefix : (c : ℕ) (ps t : List ℕ) → is_prefix (c ∷ ps) t ≡ true → head_code t ≡ c
unfolding is_prefix
head_code-is_prefix c ps [] h = ground arith
head_code-is_prefix c ps (d ∷ t) h = ground arith

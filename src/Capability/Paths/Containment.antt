-- ===== src/Capability/Paths/Containment.antt =====
-- A path that passes the check of the capability manager stays below one of the prefixes.
use constrails.Prelude.{
  ℕ, String, true, false, List, [], ◌∷◌, ◌++◌, ◌≡◌, ◌≢◌, ◌⊎◌, inl, inr, refl, ap, codes_eq,
  is_prefix, rstrip, arith, Bool-cases, nat_eq_iff, codes, member, any, eq_refl,
}
use constrails.Capability.{under, path_allowed}
use constrails.Capability.Paths.{
  dot_dot, or_dot, join_slash, is_absolute, leading, parts_of, normpath,
}
use constrails.Capability.Paths.Laws.{
  AllPlain, Shape, parts_of-Shape, head_code, codes_eq-eq, head_code-is_prefix,
}

rstrip-head : (c : ℕ) (t : List ℕ) → (rstrip c t ≡ []) ⊎ (head_code (rstrip c t) ≡ head_code t)
unfolding rstrip
rstrip-head c [] = inl refl
rstrip-head c (d ∷ ds) = ground (arith, rstrip-head c ds)

rstrip_slash-head :
    (t : List ℕ)
    → (head_code (rstrip b'/' t ++ b'/' ∷ []) ≡ b'/')
      ⊎ (head_code (rstrip b'/' t ++ b'/' ∷ []) ≡ head_code t)
rstrip_slash-head t = grind (arith, rstrip-head b'/' t)

is_prefix-head : (p t : List ℕ) → p ≢ [] → is_prefix p t ≡ true → head_code t ≡ head_code p
is_prefix-head [] t n h = absurd (n refl)
is_prefix-head (c ∷ ps) t n h = head_code-is_prefix c ps t h

append-ne-nil : (s t : List ℕ) (c : ℕ) → s ++ c ∷ t ≢ []
append-ne-nil [] t c = cc
append-ne-nil (d ∷ s) t c = cc

under-head : (n b : List ℕ) → under n b ≡ true → (head_code n ≡ b'/') ⊎ (head_code n ≡ head_code b)
unfolding under
under-head n b h = elim (Bool-cases (codes_eq n b)) [
  | inl same ↦ inr (ap head_code (codes_eq-eq n b same))
  | inr other ↦
      let e =
        is_prefix-head (rstrip b'/' b ++ b'/' ∷ []) n (append-ne-nil _ [] b'/') (ground arith) in
      ground (arith, e, rstrip_slash-head b)
]

leading_of_relative : (path : List ℕ) → is_absolute path ≡ false → leading path ≡ []
unfolding leading is_absolute is_prefix
leading_of_relative [] h = ground arith
leading_of_relative (c ∷ cs) h = ground arith

-- A part ".." at the front shows in the first character of the normalised path.
dots-head :
    (x : List ℕ) (xs : List (List ℕ))
    → codes_eq x dot_dot ≡ true
    → head_code (join_slash (x ∷ xs)) ≡ b'.'
unfolding join_slash
dots-head x [] d = ap head_code (codes_eq-eq x dot_dot d)
dots-head x (y ∷ ys) d = rw (codes_eq-eq x dot_dot d)

or_dot-head : (s : List ℕ) → head_code s ≡ b'.' → head_code (or_dot s) ≡ b'.'
or_dot-head [] h = refl
or_dot-head (c ∷ cs) h = h

normpath_relative :
    (path : List ℕ) (x : List ℕ) (xs : List (List ℕ))
    → is_absolute path ≡ false
    → parts_of path ≡ x ∷ xs
    → codes_eq x dot_dot ≡ true
    → head_code (normpath path) ≡ b'.'
unfolding normpath
normpath_relative path x xs a e d =
    rw (leading_of_relative path a, e) (or_dot-head (join_slash (x ∷ xs)) (dots-head x xs d))

plain_of_head :
    (path : List ℕ) (parts : List (List ℕ))
    → parts_of path ≡ parts
    → Shape (is_absolute path) parts
    → head_code (normpath path) ≢ b'.'
    → AllPlain parts
plain_of_head path [] e s h = tt
plain_of_head path (x ∷ xs) e (inl p) h = p
plain_of_head path (x ∷ xs) e (inr (a, d, rest)) h = absurd (h (normpath_relative path x xs a e d))

abbrev pub NotHidden : List String → Type 0
NotHidden [] = Unit
NotHidden (p ∷ ps) = (head_code (normpath (codes p)) ≢ b'.') × NotHidden ps

is_prefix-append : (p t : List ℕ) → is_prefix p t ≡ true → (rest : List ℕ) × (t ≡ p ++ rest)
unfolding is_prefix
is_prefix-append [] t h = (t, refl)
is_prefix-append (c ∷ p) [] h = absurd (ground arith)
is_prefix-append (c ∷ p) (d ∷ t) h =
    let (rest, e) = is_prefix-append p t (ground arith) in
    (rest, ground (arith, h, e, nat_eq_iff c d))

-- The path is the base, or the base, a slash and something behind it.
abbrev pub Below : List ℕ → List ℕ → Type 0
Below path base = (path ≡ base) ⊎ (rest : List ℕ) × (path ≡ (rstrip b'/' base ++ b'/' ∷ []) ++ rest)

under-Below : (path base : List ℕ) → under path base ≡ true → Below path base
unfolding under
under-Below path base h = elim (Bool-cases (codes_eq path base)) [
  | inl same ↦ inl (codes_eq-eq path base same)
  | inr other ↦
      inr (is_prefix-append (rstrip b'/' base ++ b'/' ∷ []) path (ground (arith, h, other)))
]

-- A path below one of the prefixes.
pub record IsBelow (path : String) (prefixes : List String) : Type 0 where
  pub prefix : String
  pub listed : member prefix prefixes ≡ true
  pub below : Below (normpath (codes path)) (normpath (codes prefix))
  pub plain : AllPlain (parts_of (codes path))

-- If none of the prefixes, normalised, begins with a dot, then a path that is allowed is, normalised,
-- one of the prefixes or below it, and each of its parts is plain: not "", "." or "..", and with no
-- slash.
pub path_allowed-IsBelow :
    (path : String) (prefixes : List String)
    → NotHidden prefixes
    → path_allowed path prefixes ≡ true
    → IsBelow path prefixes
unfolding path_allowed any member
path_allowed-IsBelow path [] n h = absurd (ground arith)
path_allowed-IsBelow path (p ∷ ps) n h =
    elim (Bool-cases (under (normpath (codes path)) (normpath (codes p)))) [
      | inl here ↦ record {
        prefix = p;
        listed = rw (eq_refl p);
        below = under-Below (normpath (codes path)) (normpath (codes p)) here;
        plain =
            plain_of_head (codes path) (parts_of (codes path)) refl (parts_of-Shape (codes path))
              (ground (arith, n.0, under-head (normpath (codes path)) (normpath (codes p)) here));
      }
      | inr later ↦
          let b = path_allowed-IsBelow path ps n.1 (ground arith) in
          record {
            prefix = b.prefix;
            listed = ground (arith, b.listed);
            below = b.below;
            plain = b.plain;
          }
    ]

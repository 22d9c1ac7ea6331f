-- ===== src/Capability/Paths.antt =====
-- `os.path.normpath` of a POSIX system, as the capability manager uses it, over code points.
pub mod Laws
pub mod Containment
use constrails.Prelude.{
  ℕ, Bool, true, false, not, ◌&&◌, ◌||◌, List, [], ◌∷◌, ◌++◌, nat_eq, if◌then◌else◌, codes_eq,
  is_prefix,
}

abbrev pub dot : List ℕ
dot = b'.' ∷ []

abbrev pub dot_dot : List ℕ
dot_dot = b'.' ∷ b'.' ∷ []

abbrev add_head : ℕ → List (List ℕ) → List (List ℕ)
add_head c [] = (c ∷ []) ∷ []
add_head c (part ∷ parts) = (c ∷ part) ∷ parts

-- `path.split('/')`
unfoldable pub split_slash : List ℕ → List (List ℕ)
split_slash [] = [] ∷ []
split_slash (c ∷ cs) =
    let parts = split_slash cs in if nat_eq c b'/' then [] ∷ parts else add_head c parts

-- `'/'.join(parts)`
unfoldable pub join_slash : List (List ℕ) → List ℕ
join_slash [] = []
join_slash (part ∷ []) = part
join_slash (part ∷ next ∷ parts) = part ++ b'/' ∷ join_slash (next ∷ parts)

-- Whether the last of the parts, the head of the stack, is "..".
abbrev pub top_is_dots : List (List ℕ) → Bool
top_is_dots [] = false
top_is_dots (part ∷ parts) = codes_eq part dot_dot

abbrev is_nil {ℓ} : {A : Type ℓ} → List A → Bool
is_nil [] = true
is_nil (x ∷ xs) = false

abbrev tail {ℓ} : {A : Type ℓ} → List A → List A
tail [] = []
tail (x ∷ xs) = xs

-- One round of the loop. The stack has the last part at its head.
unfoldable pub push_part : Bool → List (List ℕ) → List ℕ → List (List ℕ)
push_part absolute stack part =
    if codes_eq part [] || codes_eq part dot
    then stack
    else if not (codes_eq part dot_dot) || (not absolute && is_nil stack) || top_is_dots stack
    then part ∷ stack
    else tail stack

unfoldable pub push_all : Bool → List (List ℕ) → List (List ℕ) → List (List ℕ)
push_all absolute stack [] = stack
push_all absolute stack (part ∷ parts) = push_all absolute (push_part absolute stack part) parts

unfoldable pub reverse_onto : List (List ℕ) → List (List ℕ) → List (List ℕ)
reverse_onto [] out = out
reverse_onto (part ∷ stack) out = reverse_onto stack (part ∷ out)

unfoldable pub is_absolute : List ℕ → Bool
is_absolute path = is_prefix (b'/' ∷ []) path

-- Two leading slashes stay two, and three or more become one.
unfoldable pub leading : List ℕ → List ℕ
unfolding is_absolute
leading path =
    if is_prefix (b'/' ∷ b'/' ∷ []) path && not (is_prefix (b'/' ∷ b'/' ∷ b'/' ∷ []) path)
    then b'/' ∷ b'/' ∷ []
    else if is_absolute path
    then b'/' ∷ []
    else []

abbrev pub or_dot : List ℕ → List ℕ
or_dot [] = dot
or_dot (c ∷ cs) = c ∷ cs

-- The parts that stay.
unfoldable pub parts_of : List ℕ → List (List ℕ)
parts_of path = reverse_onto (push_all (is_absolute path) [] (split_slash path)) []

unfoldable pub normpath : List ℕ → List ℕ
normpath path = or_dot (leading path ++ join_slash (parts_of path))

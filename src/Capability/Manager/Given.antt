-- ===== src/Capability/Manager/Given.antt =====
-- What the checks of names and of texts say of the parameters of a call.
use constrails.Prelude.{
  String, Bool, true, false, Option, none, some, List, [], ◌∷◌, ◌≡◌, ◌≢◌, ◌⊎◌, inl, inr, refl, ◌==◌,
  eq_iff, eq_refl, lookup, all, if◌then◌else◌, arith, Bool-cases,
}
use constrails.Models.{Value, null, bool, int, float, str, arr, obj, Dict}
use constrails.Capability.{is_true, text_arg}
use constrails.Capability.Manager.{keys, constraint}

-- Each parameter of the call has a name that passes a test.
abbrev pub Named : (String → Bool) → Dict → Type 0
Named p params = (k : String) (v : Value) → lookup k params ≡ some v → p k ≡ true

pub all_keys-Named :
    (p : String → Bool) (params : Dict) → all p (keys params) ≡ true → Named p params
unfolding all keys lookup
all_keys-Named p [] h k v e = absurd (ground arith)
all_keys-Named p ((k', v') ∷ params) h k v e = elim (Bool-cases (k' == k)) [
  | inl same ↦ ground (arith, h, eq_iff k' k)
  | inr other ↦ all_keys-Named p params (ground (arith, h)) k v (ground (arith, e, other))
]

pub Named-all_keys :
    (p : String → Bool) (params : Dict) → Named p params → all p (keys params) ≡ true
unfolding all keys lookup
Named-all_keys p [] h = refl
Named-all_keys p ((k', v') ∷ params) h =
    let first : p k' ≡ true = h k' v' (ground (arith, eq_refl k')) in
    let rest = Named-all_keys p params (λ k v e. elim (Bool-cases (k' == k)) [
      | inl same ↦ h k v' (ground (arith, same))
      | inr other ↦ h k v (ground (arith, e, other))
    ]) in
    ground (arith, first, rest)

-- The parameter is given as a text that is not empty and meets a condition.
abbrev pub Given : String → Dict → (String → Type 0) → Type 0
Given name params P = (s : String) × (lookup name params ≡ some (str s)) × ((s == "") ≡ false) × P s

-- A value of another type than a text meets no constraint.
abbrev no_text : Bool → Option (Option String)
no_text truth = if truth then none else some none

other_value :
    (test : String → Option Bool) (truth : Bool)
    → elim (no_text truth) [
      | none ↦ none
      | some arg ↦ elim arg [ none ↦ some false | some s ↦ test s ]
    ]
      ≢ some true
other_value test true h = ground arith
other_value test false h = ground arith

text_of_constraint :
    (test : String → Option Bool) (x : String) (xs : List String) (o : Option Value)
    → constraint test (x ∷ xs) o ≡ some true
    → (s : String) × (o ≡ some (str s)) × ((s == "") ≡ false) × (test s ≡ some true)
unfolding constraint text_arg
text_of_constraint test x xs none h = absurd (ground arith)
text_of_constraint test x xs (some (str s)) h = elim (Bool-cases (s == "")) [
  | inl empty ↦ absurd (ground (arith, h, empty))
  | inr full ↦ (s, refl, full, ground (arith, h, full))
]
text_of_constraint test x xs (some null) h = absurd (ground arith)
text_of_constraint test x xs (some (bool b)) h = absurd (other_value test (is_true (bool b)) h)
text_of_constraint test x xs (some (int n)) h = absurd (other_value test (is_true (int n)) h)
text_of_constraint test x xs (some (float n)) h = absurd (other_value test (is_true (float n)) h)
text_of_constraint test x xs (some (arr i)) h = absurd (other_value test (is_true (arr i)) h)
text_of_constraint test x xs (some (obj f)) h = absurd (other_value test (is_true (obj f)) h)

pub constraint-cases :
    (test : String → Option Bool) (xs : List String) (name : String) (params : Dict)
    → constraint test xs (lookup name params) ≡ some true
    → (xs ≡ []) ⊎ Given name params (λ s. test s ≡ some true)
constraint-cases test [] name params h = inl refl
constraint-cases test (x ∷ xs) name params h =
    inr (text_of_constraint test x xs (lookup name params) h)

pub Given-constraint :
    (test : String → Option Bool) (xs : List String) (name : String) (params : Dict)
    → (xs ≡ []) ⊎ Given name params (λ s. test s ≡ some true)
    → constraint test xs (lookup name params) ≡ some true
unfolding constraint text_arg
Given-constraint test [] name params h = refl
Given-constraint test (x ∷ xs) name params (inl e) = absurd (ground arith)
Given-constraint test (x ∷ xs) name params (inr (s, e, full, t)) = ground (arith, e, full, t)

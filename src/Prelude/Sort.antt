-- ===== src/Prelude/Sort.antt =====
-- `order_by`: a stable insertion sort. What a database does with equal keys is open; here they stay in
-- the order in which the rows were added.
use mathlib.Core.Path.{◌≡◌, refl}
use mathlib.Core.Bool.{Bool, true, false}
use mathlib.Core.List.{List, [], ◌∷◌, ◌++◌, map}
use native.Mathlib.Omega.{arith}
use constrails.Prelude.Tests.{if◌then◌else◌}

module _ {ℓ} {A : Type ℓ} (before : A → A → Bool) where
  unfoldable pub insert_by : A → List A → List A
  insert_by x [] = x ∷ []
  insert_by x (y ∷ ys) = if before x y then x ∷ y ∷ ys else y ∷ insert_by x ys

  unfoldable pub sort_by : List A → List A
  unfolding insert_by
  sort_by [] = []
  sort_by (x ∷ xs) = insert_by x (sort_by xs)

  abbrev pub AllBefore : A → List A → Type 0
  AllBefore x [] = Unit
  AllBefore x (y ∷ ys) = (before y x ≡ true) × AllBefore x ys

  abbrev pub NoneBefore : A → List A → Type 0
  NoneBefore x [] = Unit
  NoneBefore x (y ∷ ys) = (before y x ≡ false) × NoneBefore x ys

  insert_by-append :
      (x z : A) (ys : List A)
      → before x z ≡ true
      → insert_by x (ys ++ z ∷ []) ≡ insert_by x ys ++ z ∷ []
  unfolding insert_by
  insert_by-append x z [] h = ground arith
  insert_by-append x z (y ∷ ys) h = ground (arith, insert_by-append x z ys h)

  -- A row that no row comes after stays last.
  pub sort_by-append :
      (xs : List A) (z : A) → AllBefore z xs → sort_by (xs ++ z ∷ []) ≡ sort_by xs ++ z ∷ []
  unfolding sort_by
  sort_by-append [] z h = refl
  sort_by-append (x ∷ xs) z h = rw (sort_by-append xs z h.1) (insert_by-append x z (sort_by xs) h.0)

  -- A row that comes before all others is first, also if it was added last.
  pub sort_by-append_first :
      (xs : List A) (z : A) → NoneBefore z xs → sort_by (xs ++ z ∷ []) ≡ z ∷ sort_by xs
  unfolding sort_by insert_by
  sort_by-append_first [] z h = refl
  sort_by-append_first (x ∷ xs) z h = rw (sort_by-append_first xs z h.1) (ground arith)

  insert_by-map :
      (f : A → A) (x : A) (ys : List A)
      → ((a b : A) → before (f a) (f b) ≡ before a b)
      → insert_by (f x) (map f ys) ≡ map f (insert_by x ys)
  unfolding insert_by
  insert_by-map f x [] h = refl
  insert_by-map f x (y ∷ ys) h = ground (arith, h x y, insert_by-map f x ys h)

  -- A change of rows that keeps what they are ordered by commutes with the ordering.
  pub sort_by-map :
      (f : A → A) (xs : List A)
      → ((a b : A) → before (f a) (f b) ≡ before a b)
      → sort_by (map f xs) ≡ map f (sort_by xs)
  unfolding sort_by
  sort_by-map f [] h = refl
  sort_by-map f (x ∷ xs) h = rw (sort_by-map f xs h) (insert_by-map f x (sort_by xs) h)

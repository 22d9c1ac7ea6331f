-- ===== src/Prelude/All.antt =====
-- What holds of every row of a list holds of every row of what a query makes of it.
use Prim.Native.Nat.{ℕ, zero, suc}
use mathlib.Core.Path.{◌≡◌, refl}
use mathlib.Core.Bool.{Bool, true, ◌&&◌}
use mathlib.Core.List.{List, [], ◌∷◌}
use native.Mathlib.Omega.{arith}
use constrails.Prelude.Lists.{all, keep, take}
use constrails.Prelude.Sort.{sort_by, insert_by}

module _ {ℓ} {A : Type ℓ} (q : A → Bool) where
  pub all-keep :
      (p : A → Bool) (xs : List A) → ((x : A) → p x ≡ true → q x ≡ true) → all q (keep p xs) ≡ true
  unfolding all keep
  all-keep p [] h = refl
  all-keep p (x ∷ xs) h = ground (arith, all-keep p xs h, h x)

  pub all-take : (n : ℕ) (xs : List A) → all q xs ≡ true → all q (take n xs) ≡ true
  unfolding all
  all-take zero xs h = refl
  all-take (suc n) [] h = refl
  all-take (suc n) (x ∷ xs) h = ground (arith, h, all-take n xs)

  all-insert_by :
      (before : A → A → Bool) (x : A) (xs : List A)
      → all q (insert_by before x xs) ≡ (q x && all q xs)
  unfolding all insert_by
  all-insert_by before x [] = refl
  all-insert_by before x (y ∷ ys) = ground (arith, all-insert_by before x ys)

  pub all-sort_by : (before : A → A → Bool) (xs : List A) → all q (sort_by before xs) ≡ all q xs
  unfolding all sort_by
  all-sort_by before [] = refl
  all-sort_by before (x ∷ xs) =
      ground (arith, all-sort_by before xs, all-insert_by before x (sort_by before xs))

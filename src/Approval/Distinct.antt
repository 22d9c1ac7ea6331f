-- ===== src/Approval/Distinct.antt =====
-- Outboxes whose items have identifiers of their own, and the open items in them.
use constrails.Prelude.{
  ℕ, zero, suc, ◌+◌, ◌-◌, Bool, true, false, ◌||◌, Option, none, some, List, [], ◌∷◌, ◌≡◌, refl,
  ◌∙◌, arith, nat_eq, length, take, any, all, find, keep, count, update_first, sort_by, insert_by,
  Bool-cases, inl, inr,
}
use constrails.Models.{Uuid, Time}
use constrails.Approval.{OutboxItem}
use constrails.Approval.Outbox.{by_outbox_id, is_open, deliver_item, older_first}

-- No two items share an identifier.
unfoldable pub Distinct : List OutboxItem → Type 0
Distinct [] = Unit
Distinct (x ∷ xs) = (any (by_outbox_id x.outbox_id) xs ≡ false) × Distinct xs

abbrev is_open_item : Option OutboxItem → Bool
is_open_item none = false
is_open_item (some i) = is_open i

abbrev pub open_found : List OutboxItem → OutboxItem → Bool
open_found outbox row = is_open_item (find (by_outbox_id row.outbox_id) outbox)

module _ (q : OutboxItem → Bool) where
  any-keep :
      (p : OutboxItem → Bool) (xs : List OutboxItem) → any q xs ≡ false → any q (keep p xs) ≡ false
  unfolding any keep
  any-keep p [] h = refl
  any-keep p (x ∷ xs) h = ground (arith, any-keep p xs, h)

  any-take : (n : ℕ) (xs : List OutboxItem) → any q xs ≡ false → any q (take n xs) ≡ false
  unfolding any
  any-take zero xs h = refl
  any-take (suc n) [] h = refl
  any-take (suc n) (x ∷ xs) h = ground (arith, any-take n xs, h)

  any-insert_by :
      (x : OutboxItem) (ys : List OutboxItem)
      → any q (insert_by older_first x ys) ≡ (q x || any q ys)
  unfolding any insert_by
  any-insert_by x [] = refl
  any-insert_by x (y ∷ ys) = ground (arith, any-insert_by x ys)

  any-sort_by : (xs : List OutboxItem) → any q (sort_by older_first xs) ≡ any q xs
  unfolding any sort_by
  any-sort_by [] = refl
  any-sort_by (x ∷ xs) = ground (arith, any-sort_by xs, any-insert_by x (sort_by older_first xs))

pub Distinct-keep :
    (p : OutboxItem → Bool) (xs : List OutboxItem) → Distinct xs → Distinct (keep p xs)
unfolding Distinct keep
Distinct-keep p [] h = tt
Distinct-keep p (x ∷ xs) h = elim (Bool-cases (p x)) [
  | inl on ↦ rw on (any-keep (by_outbox_id x.outbox_id) p xs h.0, Distinct-keep p xs h.1)
  | inr off ↦ rw off (Distinct-keep p xs h.1)
]

other :
    (x y : OutboxItem) (ys : List OutboxItem)
    → any (by_outbox_id x.outbox_id) (y ∷ ys) ≡ false
    → any (by_outbox_id y.outbox_id) ys ≡ false
    → (by_outbox_id y.outbox_id x || any (by_outbox_id y.outbox_id) ys) ≡ false
unfolding any
other x y ys n h = ground (arith, n, h)

Distinct-insert_by :
    (x : OutboxItem) (ys : List OutboxItem)
    → any (by_outbox_id x.outbox_id) ys ≡ false
    → Distinct ys
    → Distinct (insert_by older_first x ys)
unfolding Distinct insert_by
Distinct-insert_by x [] n h = (n, h)
Distinct-insert_by x (y ∷ ys) n h = elim (Bool-cases (older_first x y)) [
  | inl first ↦ rw first (n, h)
  | inr later ↦ rw later (
    any-insert_by (by_outbox_id y.outbox_id) x ys ∙ other x y ys n h.0,
    Distinct-insert_by x ys (unfold any in ground (arith, n)) h.1,
  )
]

pub Distinct-sort_by : (xs : List OutboxItem) → Distinct xs → Distinct (sort_by older_first xs)
unfolding Distinct sort_by
Distinct-sort_by [] h = h
Distinct-sort_by (x ∷ xs) h =
    Distinct-insert_by x (sort_by older_first xs) (any-sort_by (by_outbox_id x.outbox_id) xs ∙ h.0)
      (Distinct-sort_by xs h.1)

pub Distinct-take : (n : ℕ) (xs : List OutboxItem) → Distinct xs → Distinct (take n xs)
unfolding Distinct
Distinct-take zero xs h = tt
Distinct-take (suc n) [] h = h
Distinct-take (suc n) (x ∷ xs) h =
    (any-take (by_outbox_id x.outbox_id) n xs h.0, Distinct-take n xs h.1)

module _ (now : Time) where
  any-deliver :
      (j k : Uuid) (xs : List OutboxItem)
      → any (by_outbox_id j) (update_first (by_outbox_id k) (deliver_item now) xs)
        ≡ any (by_outbox_id j) xs
  unfolding any update_first
  any-deliver j k [] = refl
  any-deliver j k (x ∷ xs) = ground (arith, any-deliver j k xs)

  pub Distinct-deliver :
      (k : Uuid) (xs : List OutboxItem)
      → Distinct xs
      → Distinct (update_first (by_outbox_id k) (deliver_item now) xs)
  unfolding Distinct update_first
  Distinct-deliver k [] h = h
  Distinct-deliver k (x ∷ xs) h = elim (Bool-cases (by_outbox_id k x)) [
    | inl same ↦ rw same h
    | inr differs ↦ rw differs (any-deliver x.outbox_id k xs ∙ h.0, Distinct-deliver k xs h.1)
  ]

  pub count-deliver :
      (row : OutboxItem) (xs : List OutboxItem)
      → open_found xs row ≡ true
      → count is_open (update_first (by_outbox_id row.outbox_id) (deliver_item now) xs) + 1
        ≡ count is_open xs
  unfolding count update_first find
  count-deliver row [] h = ground (arith, h)
  count-deliver row (x ∷ xs) h = ground (arith, h, count-deliver row xs)

  found-deliver :
      (k : Uuid) (row : OutboxItem) (xs : List OutboxItem)
      → nat_eq row.outbox_id k ≡ false
      → open_found (update_first (by_outbox_id k) (deliver_item now) xs) row ≡ open_found xs row
  unfolding update_first find
  found-deliver k row [] h = refl
  found-deliver k row (x ∷ xs) h = ground (arith, h, found-deliver k row xs)

  pub all_found-deliver :
      (k : Uuid) (rows xs : List OutboxItem)
      → any (by_outbox_id k) rows ≡ false
      → all (open_found xs) rows ≡ true
      → all (open_found (update_first (by_outbox_id k) (deliver_item now) xs)) rows ≡ true
  unfolding any all
  all_found-deliver k [] xs n h = refl
  all_found-deliver k (row ∷ rows) xs n h =
      ground (arith, n, h, found-deliver k row xs, all_found-deliver k rows xs)

-- The open items of an outbox with distinct identifiers are found in it by their identifiers.
all_found-cons :
    (x : OutboxItem) (rows xs : List OutboxItem)
    → any (by_outbox_id x.outbox_id) rows ≡ false
    → all (open_found xs) rows ≡ true
    → all (open_found (x ∷ xs)) rows ≡ true
unfolding any all find
all_found-cons x [] xs n h = refl
all_found-cons x (row ∷ rows) xs n h = ground (arith, n, h, all_found-cons x rows xs)

self_found :
    (x : OutboxItem) (xs : List OutboxItem) → is_open x ≡ true → open_found (x ∷ xs) x ≡ true
unfolding find
self_found x xs h = ground (arith, h)

pub all_found-keep :
    (xs : List OutboxItem) → Distinct xs → all (open_found xs) (keep is_open xs) ≡ true
unfolding all keep Distinct
all_found-keep [] h = refl
all_found-keep (x ∷ xs) h =
    let rest =
      all_found-cons x (keep is_open xs) xs (any-keep (by_outbox_id x.outbox_id) is_open xs h.0)
        (all_found-keep xs h.1) in
    elim (Bool-cases (is_open x)) [
      | inl on ↦ ground (arith, on, rest, self_found x xs on)
      | inr off ↦ ground (arith, off, rest)
    ]

length-insert_by :
    (x : OutboxItem) (ys : List OutboxItem) → length (insert_by older_first x ys) ≡ suc (length ys)
unfolding insert_by
length-insert_by x [] = refl
length-insert_by x (y ∷ ys) = ground (arith, length-insert_by x ys)

pub length-sort_by : (xs : List OutboxItem) → length (sort_by older_first xs) ≡ length xs
unfolding sort_by
length-sort_by [] = refl
length-sort_by (x ∷ xs) =
    omega (arith, length-sort_by xs, length-insert_by x (sort_by older_first xs))

pub rest-take : (n : ℕ) (xs : List OutboxItem) → length xs - length (take n xs) ≡ length xs - n
rest-take zero xs = omega arith
rest-take (suc n) [] = omega arith
rest-take (suc n) (x ∷ xs) = omega (arith, rest-take n xs)

-- ===== src/Auth/Registry.antt =====
-- The registry of signing keys: which keys are active.
use constrails.Prelude.{
  ℕ, ◌+◌, ◌≤◌, String, none, some, List, [], ◌∷◌, ◌++◌, ◌≡◌, refl, arith, any, concat, show,
  if◌then◌else◌, count, count-append, find, update_first, Option-cases, Bool-cases, inl, inr,
  truthy,
}
use constrails.Models.{Time}
use constrails.Auth.{
  Jwt, AuthState, SigningKey, seconds_of, is_active, has_key_id, add_keys, retire, new_key,
  active_key, previous_key, rotate_secret, ensure_key_registry,
}
use constrails.Auth.Bearer.{revoke_token}
use constrails.Auth.Steps.{Step, revoke, rotate, ensure, Reach, here, next}

abbrev pub active_count : AuthState → ℕ
active_count st = count is_active st.keys

find-none-count : (keys : List SigningKey) → find is_active keys ≡ none → count is_active keys ≡ 0
unfolding find count
find-none-count [] h = refl
find-none-count (k ∷ ks) h = ground (arith, find-none-count ks)

find-some-count :
    (keys : List SigningKey) (k : SigningKey)
    → find is_active keys ≡ some k
    → 1 ≤ count is_active keys
unfolding find count
find-some-count [] k h = ground arith
find-some-count (k' ∷ ks) k h = ground (arith, find-some-count ks k)

count-retire :
    (now : Time) (keys : List SigningKey)
    → count is_active keys ≡ 1
    → count is_active (update_first is_active (retire now) keys) ≡ 0
unfolding count update_first
count-retire now [] h = refl
count-retire now (k ∷ ks) h = ground (arith, count-retire now ks)

add_keys-count :
    (more keys keys' : List SigningKey)
    → add_keys more keys ≡ some keys'
    → count is_active keys' ≡ count is_active keys + count is_active more
unfolding add_keys count
add_keys-count [] keys keys' h = ground arith
add_keys-count (k ∷ ks) keys keys' h = elim (Bool-cases (any (has_key_id k.key_id) keys)) [
  | inl there ↦ absurd (ground (arith, there))
  | inr fresh ↦
      ground (
        arith,
        add_keys-count ks (keys ++ k ∷ []) keys',
        fresh,
        count-append is_active keys (k ∷ []),
      )
]

abbrev added : Time → SigningKey
added now = new_key (concat ("key-" ∷ show (seconds_of now) ∷ [])) active_key now

rotate-count :
    (now : Time) (new_secret : String) (st : AuthState)
    → active_count st ≡ 1
    → active_count (rotate_secret now new_secret st).1 ≡ 1
unfolding rotate_secret count
rotate-count now new_secret st h =
    let rest = update_first is_active (retire now) st.keys in
    elim (Option-cases (add_keys (added now ∷ []) rest)) [
      | inl full ↦ ground (arith, full, h)
      | inr (keys, e) ↦
          ground (arith, e, add_keys-count (added now ∷ []) rest keys e, count-retire now st.keys h)
    ]

abbrev initial : Time → AuthState → List SigningKey
initial now st =
    let previous =
      if truthy st.settings.previous_secret_key
      then new_key "key-previous" previous_key now ∷ []
      else [] in
    new_key "key-current" active_key now ∷ previous

count-initial : (now : Time) (st : AuthState) → count is_active (initial now st) ≡ 1
unfolding count
count-initial now st = ground arith

ensure-count :
    (now : Time) (st st' : AuthState)
    → ensure_key_registry now st ≡ some st'
    → active_count st ≤ 1
    → active_count st' ≡ 1
unfolding ensure_key_registry
ensure-count now st st' h le = elim (Option-cases (find is_active st.keys)) [
  | inl missing ↦ elim (Option-cases (add_keys (initial now st) st.keys)) [
    | inl full ↦ absurd (ground (arith, h, missing, full))
    | inr (keys, e) ↦ ground (
      arith,
      h,
      missing,
      e,
      add_keys-count (initial now st) st.keys keys e,
      count-initial now st,
      find-none-count st.keys missing,
    )
  ]
  | inr (k, e) ↦ ground (arith, h, e, le, find-some-count st.keys k e)
]

Step-count :
    {jwt : Jwt} {st st' : AuthState} → Step jwt st st' → active_count st ≡ 1 → active_count st' ≡ 1
unfolding revoke_token
Step-count (revoke token st) h = ground (arith, h)
Step-count (rotate now new_secret st) h = rotate-count now new_secret st h
Step-count (ensure now e) h = ensure-count now _ _ e (omega (arith, h))

-- Once the service is constructed on a registry with at most one active key, a new one included, exactly
-- one key is active after any sequence of revocations, rotations and constructions, those rotations included whose commit fails.
pub active_count-Reach :
    {jwt : Jwt} {st st' : AuthState} (now : Time) (start : AuthState)
    → active_count start ≤ 1
    → ensure_key_registry now start ≡ some st
    → Reach jwt st st'
    → active_count st' ≡ 1
active_count-Reach now start le e here = ensure-count now start _ e le
active_count-Reach now start le e (next r s) = Step-count s (active_count-Reach now start le e r)

-- ===== src/Auth/Revoked.antt =====
-- What a revocation does to a bearer token.
use constrails.Prelude.{
  String, Bool, true, false, ◌||◌, Option, none, some, List, [], ◌∷◌, ◌++◌, ◌≡◌, sym, subst, ap,
  ◌∙◌, arith, any, eq_refl, Option-cases, Bool-cases, inl, inr, truthy, or_default, ◌==◌,
}
use constrails.Models.{Time}
use constrails.Config.{Settings}
use constrails.Auth.{
  Claims, Jwt, AuthState, RevokedToken, revoked_id, is_revoked_id, revoked_row, is_token_revoked,
  rotate_secret, ensure_key_registry,
}
use constrails.Auth.Bearer.{
  revoke_token, decode_with_secrets, principal_of, authenticate_bearer_token,
}
use constrails.Auth.Steps.{Step, revoke, rotate, ensure, Reach, here, next}

-- The library's promise on one token: the claims that pass are the claims that are in it.
abbrev pub Coherent : Jwt → String → Type 0
Coherent jwt t =
    (key aud iss : String) (now : Time) (c : Claims)
    → jwt.decode t key now aud iss ≡ some c
    → jwt.get_unverified_claims t ≡ some c

any-append :
    (p : RevokedToken → Bool) (xs : List RevokedToken) (y : RevokedToken)
    → any p (xs ++ y ∷ []) ≡ (any p xs || p y)
unfolding any
any-append p [] y = ground arith
any-append p (x ∷ xs) y = ground (arith, any-append p xs y)

abbrev has : String → AuthState → Bool
has id st = any (is_revoked_id id) st.revoked

module _ (jwt : Jwt) where
  revoke-has :
      (id token : String) (st : AuthState)
      → has id st ≡ true
      → has id (revoke_token jwt token st).1 ≡ true
  unfolding revoke_token
  revoke-has id token st h = elim (Option-cases (jwt.get_unverified_claims token)) [
    | inl bad ↦ ground (arith, bad, h)
    | inr (c, e) ↦ elim (Option-cases c.jti) [
      | inl no_id ↦ ground (arith, e, no_id, h)
      | inr (i, is) ↦
          ground (arith, e, is, h, any-append (is_revoked_id id) st.revoked (revoked_row i c))
    ]
  ]

  revoked-at :
      (id token i : String) (st : AuthState) (c : Claims)
      → jwt.get_unverified_claims token ≡ some c
      → c.jti ≡ some i
      → (revoke_token jwt token st).0 ≡ revoked_id id
      → (i ≡ id) × ((i == "") ≡ false) × (has i (revoke_token jwt token st).1 ≡ true)
  unfolding revoke_token
  revoked-at id token i st c e is h = elim (Bool-cases (i == "")) [
    | inl empty ↦ absurd (ground (arith, e, is, empty, h))
    | inr set ↦ elim (Bool-cases (has i st)) [
      | inl there ↦ ground (arith, e, is, set, there, h)
      | inr new ↦ ground (
        arith,
        e,
        is,
        set,
        new,
        h,
        any-append (is_revoked_id i) st.revoked (revoked_row i c),
        eq_refl i,
      )
    ]
  ]

  -- A revocation that reports `id` found it in the claims of the token, and it is in the table now.
  revoked-accepted :
      (id token : String) (st : AuthState)
      → (revoke_token jwt token st).0 ≡ revoked_id id
      → (c : Claims) × (jwt.get_unverified_claims token ≡ some c)
        × (c.jti ≡ some id)
        × ((id == "") ≡ false)
        × (has id (revoke_token jwt token st).1 ≡ true)
  revoked-accepted id token st h = elim (Option-cases (jwt.get_unverified_claims token)) [
    | inl bad ↦ absurd (unfold revoke_token in ground (arith, bad, h))
    | inr (c, e) ↦ elim (Option-cases c.jti) [
      | inl no_id ↦ absurd (unfold revoke_token in ground (arith, e, no_id, h))
      | inr (i, is) ↦
          let r = revoked-at id token i st c e is h in
          (
            c,
            e,
            is ∙ ap some r.0,
            subst (λ k. (k == "") ≡ false) r.0 r.1,
            subst (λ k. has k (revoke_token jwt token st).1 ≡ true) r.0 r.2,
          )
    ]
  ]

Step-has :
    {jwt : Jwt} {st st' : AuthState} (id : String)
    → Step jwt st st'
    → has id st ≡ true
    → has id st' ≡ true
unfolding rotate_secret ensure_key_registry
Step-has id (revoke token st) h = revoke-has _ id token st h
Step-has id (rotate now new_secret st) h = ground (arith, h)
Step-has id (ensure now e) h = ground (arith, h, e)

Reach-has :
    {jwt : Jwt} {st st' : AuthState} (id : String)
    → Reach jwt st st'
    → has id st ≡ true
    → has id st' ≡ true
Reach-has id here h = h
Reach-has id (next r s) h = Step-has id s (Reach-has id r h)

module _ (jwt : Jwt) (now : Time) (t : String) (coherent : Coherent jwt t) where
  decoded-unverified :
      (s : Settings) (c : Claims) (key_id : String)
      → decode_with_secrets jwt now t s ≡ some (c, key_id)
      → jwt.get_unverified_claims t ≡ some c
  unfolding decode_with_secrets
  decoded-unverified s c key_id h =
      elim (Option-cases (jwt.decode t s.secret_key now s.token_audience s.token_issuer)) [
        | inr (c', e) ↦
            coherent s.secret_key s.token_audience s.token_issuer now c' e ∙ ground (arith, h, e)
        | inl off ↦ elim (Bool-cases (truthy s.previous_secret_key)) [
          | inl set ↦
              elim (Option-cases (
                jwt.decode t (or_default s.previous_secret_key "") now s.token_audience
                  s.token_issuer)) [
                    | inl off' ↦ absurd (ground (arith, h, off, set, off'))
                    | inr (c', e) ↦
                        coherent (or_default s.previous_secret_key "") s.token_audience
                          s.token_issuer now c' e
                        ∙ ground (arith, h, off, set, e)
                  ]
          | inr unset ↦ absurd (ground (arith, h, off, unset))
        ]
      ]

principal_of-revoked :
    (jwt : Jwt) (t key_id : String) (revoked : List RevokedToken) (c : Claims)
    → is_token_revoked revoked c.jti ≡ true
    → principal_of jwt t revoked c key_id ≡ none
unfolding principal_of
principal_of-revoked jwt t key_id revoked c h = ground (arith, h)

abbrev jti_of : Option Claims → Option String
jti_of none = none
jti_of (some c) = c.jti

revoked_jti :
    (id : String) (c : Claims) (revoked : List RevokedToken)
    → c.jti ≡ some id
    → (id == "") ≡ false
    → any (is_revoked_id id) revoked ≡ true
    → is_token_revoked revoked c.jti ≡ true
unfolding is_token_revoked
revoked_jti id c revoked is set there = ground (arith, is, set, there)

-- Once a revocation of a token has reported success, the token is refused at any time, after any further
-- revocations, rotations and constructions of the service.
pub authenticate_bearer_token-revoked :
    (jwt : Jwt) {st : AuthState} (token id : String) (before : AuthState) (now : Time)
    → Coherent jwt token
    → (revoke_token jwt token before).0 ≡ revoked_id id
    → Reach jwt (revoke_token jwt token before).1 st
    → authenticate_bearer_token jwt now token st ≡ none
unfolding authenticate_bearer_token
authenticate_bearer_token-revoked jwt {st} token id before now coherent h r =
    let (c, e, is, set, there) = revoked-accepted jwt id token before h in
    elim (Option-cases (decode_with_secrets jwt now token st.settings)) [
      | inl off ↦ ground (arith, off)
      | inr (d, on) ↦
          let same = decoded-unverified jwt now token coherent st.settings d.0 d.1 on in
          let revoked =
            revoked_jti id d.0 st.revoked (ap jti_of (sym same ∙ e) ∙ is) set
              (Reach-has id r there) in
          ground (arith, on, principal_of-revoked jwt token d.1 st.revoked d.0 revoked)
    ]

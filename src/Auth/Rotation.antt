-- ===== src/Auth/Rotation.antt =====
-- How long a minted token is good for: its time, the revocations, and the rotations of the secret.
use constrails.Prelude.{
  ℕ, suc, ◌+◌, ◌*◌, String, Bool, true, false, not, ◌&&◌, Option, none, some, List, [], ◌∷◌, ◌≡◌,
  ◌≢◌, refl, sym, ap, ◌∙◌, arith, if◌then◌else◌, leb, length, eq_iff, or_default, Bool-cases, inl,
  inr, subst, ◌==◌,
}
use constrails.Models.{Time}
use constrails.Config.{Settings}
use constrails.Auth.{
  AuthPrincipal, Claims, Jwt, AuthState, Grant, claims_of, lifetime, seconds_of, is_token_revoked,
  rotate_secret,
}
use constrails.Auth.Bearer.{mint_token, decode_with_secrets, authenticate_bearer_token}
use constrails.Auth.Tokens.{
  is_current, Verifies, Rejects, token_id_of, minted_principal, reading, principal_of-claims,
  current-claims, if_not, decode-current, decode-previous, decode-none, authenticate-some,
  authenticate-none,
}

-- The rotations of the secret, the first one first.
unfoldable pub rotations : List (Time × String) → AuthState → AuthState
rotations [] st = st
rotations ((now, new_secret) ∷ more) st = rotations more (rotate_secret now new_secret st).1

unfoldable pub AllReject : Jwt → Claims → String → List (Time × String) → Type 0
AllReject jwt c secret [] = Unit
AllReject jwt c secret ((now, new_secret) ∷ more) =
    Rejects jwt c secret new_secret × AllReject jwt c secret more

module _ (now : Time) (new_secret : String) (st : AuthState) where
  rotated_settings : (rotate_secret now new_secret st).1.settings ≡ record st.settings {
    secret_key = new_secret;
    previous_secret_key = some st.settings.secret_key;
  }
  unfolding rotate_secret
  rotated_settings = ground arith

  rotated_revoked : (rotate_secret now new_secret st).1.revoked ≡ st.revoked
  unfolding rotate_secret
  rotated_revoked = ground arith

or_default_empty : (s : String) → or_default (some s) "" ≡ s
or_default_empty s = ground (arith, eq_iff s "")

module _ (jwt : Jwt) (c : Claims) (secret : String) where
  -- Neither secret of the settings is one that lets the token through.
  abbrev Shut : Settings → Type 0
  Shut s =
      Rejects jwt c secret s.secret_key × Rejects jwt c secret (or_default s.previous_secret_key "")

  rotate-Shut :
      (now : Time) (new_secret : String) (st : AuthState)
      → Rejects jwt c secret new_secret
      → Rejects jwt c secret st.settings.secret_key
      → Shut (rotate_secret now new_secret st).1.settings
  rotate-Shut now new_secret st h old =
      subst Shut (sym (rotated_settings now new_secret st))
        (h, subst (Rejects jwt c secret) (sym (or_default_empty st.settings.secret_key)) old)

  rotations-Shut :
      (rots : List (Time × String)) (st : AuthState)
      → AllReject jwt c secret rots
      → Shut st.settings
      → Shut (rotations rots st).settings
  unfolding rotations AllReject
  rotations-Shut [] st h s = s
  rotations-Shut ((now, new_secret) ∷ more) st h s =
      rotations-Shut more (rotate_secret now new_secret st).1 h.1
        (rotate-Shut now new_secret st h.0 s.0)

  Shut-rejects :
      (now : Time) (st : AuthState)
      → Shut st.settings
      → authenticate_bearer_token jwt now (jwt.encode c secret) st ≡ none
  Shut-rejects now st h = authenticate-none jwt now (jwt.encode c secret) st (
      decode-none jwt now (jwt.encode c secret) st.settings
        (h.0.1 now st.settings.token_audience st.settings.token_issuer)
        (h.1.1 now st.settings.token_audience st.settings.token_issuer))

two_or_more : (n : ℕ) → leb (suc (suc n)) 1 ≡ false
two_or_more n = ground arith

-- A token of `g` that was minted at `minted` in `st` is used at `now`.
module _ (jwt : Jwt) (minted now : Time) (g : Grant) (st : AuthState) where
  abbrev pub claims : Claims
  claims = claims_of st.settings minted g

  abbrev pub token : String
  token = mint_token jwt minted g st

  abbrev pub in_time : Bool
  in_time =
      leb (seconds_of now) (seconds_of (minted + lifetime st.settings g.expires_minutes * 60000000))

  -- Who a request with the token is, by the table of revoked tokens.
  abbrev pub bearer : AuthState → Option AuthPrincipal
  bearer later =
      if in_time && not (is_token_revoked later.revoked (some (token_id_of minted g)))
      then some (minted_principal token minted g)
      else none

  claims_kid : (d : String) → or_default claims.kid d ≡ "key-current"
  unfolding claims_of ◌==◌
  claims_kid d = refl

  -- The settings have the audience and the issuer that the token was minted for.
  abbrev SameNames : Settings → Type 0
  SameNames s =
      (s.token_audience ≡ st.settings.token_audience) × (s.token_issuer ≡ st.settings.token_issuer)

  module _ (later : AuthState) (named : g.subject ≢ "") where
    bearer_accepted :
        later.settings.secret_key ≢ ""
        → in_time ≡ true
        → decode_with_secrets jwt now token later.settings ≡ some (claims, "key-current")
        → authenticate_bearer_token jwt now token later ≡ bearer later
    bearer_accepted set on h =
        authenticate-some jwt now token later claims "key-current" set h
        ∙ principal_of-claims jwt minted g st.settings token later named
        ∙ rw on (
            if_not (is_token_revoked later.revoked (some (token_id_of minted g))) none
              (some (minted_principal token minted g)))

    bearer_late :
        in_time ≡ false
        → decode_with_secrets jwt now token later.settings ≡ none
        → authenticate_bearer_token jwt now token later ≡ bearer later
    bearer_late late h = authenticate-none jwt now token later h ∙ rw late refl

  module _ (h : Verifies jwt claims st.settings.secret_key) where
    current_claims :
        (s : Settings)
        → SameNames s
        → is_current claims now s.token_audience s.token_issuer ≡ in_time
    current_claims s same = rw (same.0, same.1) (current-claims jwt minted g st.settings now)

    reading_late :
        (s : Settings) (key : String)
        → SameNames s
        → in_time ≡ false
        → reading jwt now token s key ≡ none
    unfolding mint_token
    reading_late s key same late =
        h.1 key now s.token_audience s.token_issuer (current_claims s same ∙ late)

    reading_own :
        (s : Settings)
        → SameNames s
        → in_time ≡ true
        → reading jwt now token s st.settings.secret_key ≡ some claims
    unfolding mint_token
    reading_own s same on = h.0 now s.token_audience s.token_issuer (current_claims s same ∙ on)

    module _ (later : AuthState) (named : g.subject ≢ "") (set : st.settings.secret_key ≢ "")
        (same : SameNames later.settings) where
      late : in_time ≡ false → authenticate_bearer_token jwt now token later ≡ bearer later
      late off = bearer_late later named off (
          decode-none jwt now token later.settings
            (reading_late later.settings later.settings.secret_key same off)
            (reading_late later.settings (or_default later.settings.previous_secret_key "") same
              off))

      unrotated :
          later.settings.secret_key ≡ st.settings.secret_key
          → authenticate_bearer_token jwt now token later ≡ bearer later
      unrotated e = elim (Bool-cases in_time) [
        | inl on ↦
            bearer_accepted later named (λ z. set (sym e ∙ z)) on
              (decode-current jwt now token later.settings claims
                  (rw e (reading_own later.settings same on))
                ∙ ap (λ k. some (claims, k)) (claims_kid "key-current"))
        | inr off ↦ late off
      ]

      rotated_once :
          (new_secret : String)
          → Rejects jwt claims st.settings.secret_key new_secret
          → later.settings.secret_key ≡ new_secret
          → later.settings.previous_secret_key ≡ some st.settings.secret_key
          → authenticate_bearer_token jwt now token later ≡ bearer later
      unfolding mint_token
      rotated_once new_secret r e p = elim (Bool-cases in_time) [
        | inl on ↦
            bearer_accepted later named (λ z. r.0 (sym e ∙ z)) on
              (decode-previous jwt now token later.settings claims st.settings.secret_key
                  (rw e (r.1 now later.settings.token_audience later.settings.token_issuer)) p set
                  (reading_own later.settings same on)
                ∙ ap (λ k. some (claims, k)) (claims_kid "key-previous"))
        | inr off ↦ late off
      ]

  -- The token is used at `now` after any rotations to other secrets, in a state of the same settings
  -- and of any table of revoked tokens. Until the second rotation it stands for the role, the tenant,
  -- the namespace and the agent that it was minted for, as long as its time has not come and its
  -- identifier is not in the table; else, and after two rotations, it stands for nobody.
  pub authenticate_bearer_token-rotations :
      (rots : List (Time × String)) (later : AuthState)
      → Verifies jwt claims st.settings.secret_key
      → AllReject jwt claims st.settings.secret_key rots
      → later.settings ≡ st.settings
      → st.settings.secret_key ≢ ""
      → g.subject ≢ ""
      → authenticate_bearer_token jwt now token (rotations rots later)
        ≡ (if leb (length rots) 1 then bearer later else none)
  unfolding rotations AllReject mint_token
  authenticate_bearer_token-rotations [] later h rejects same set named =
      unrotated h later named set
        (ap (λ (s : Settings). s.token_audience) same, ap (λ (s : Settings). s.token_issuer) same)
        (ap (λ (s : Settings). s.secret_key) same)
  authenticate_bearer_token-rotations ((t, k) ∷ []) later h rejects same set named =
      let e = rotated_settings t k later in
      rotated_once h (rotate_secret t k later).1 named set
        (
          ap (λ (s : Settings). s.token_audience) e ∙ ap (λ (s : Settings). s.token_audience) same,
          ap (λ (s : Settings). s.token_issuer) e ∙ ap (λ (s : Settings). s.token_issuer) same,
        )
        k rejects.0 (ap (λ (s : Settings). s.secret_key) e)
        (ap (λ (s : Settings). s.previous_secret_key) e
          ∙ ap (λ (s : Settings). some s.secret_key) same)
      ∙ ap
          (λ rows.
            if in_time && not (is_token_revoked rows (some (token_id_of minted g)))
            then some (minted_principal token minted g)
            else none)
          (rotated_revoked t k later)
  authenticate_bearer_token-rotations ((t, k) ∷ (t', k') ∷ more) later h rejects same set named =
      let once = (rotate_secret t k later).1 in
      let twice = (rotate_secret t' k' once).1 in
      Shut-rejects jwt claims st.settings.secret_key now (rotations more twice) (
        rotations-Shut jwt claims st.settings.secret_key more twice rejects.1.1 (
          rotate-Shut jwt claims st.settings.secret_key t' k' once rejects.1.0 (
            subst (Rejects jwt claims st.settings.secret_key)
              (sym (ap (λ (s : Settings). s.secret_key) (rotated_settings t k later))) rejects.0)))
      ∙ sym (ap (λ b. if b then bearer later else none) (two_or_more (length more)))

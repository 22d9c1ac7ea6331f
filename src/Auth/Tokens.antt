-- ===== src/Auth/Tokens.antt =====
-- Tokens of `mint_token`, and what the two secrets make of a token.
use constrails.Prelude.{
  ℕ, ◌+◌, ◌*◌, String, Bool, true, false, not, ◌&&◌, Option, none, some, [], ◌∷◌, ◌≡◌, ◌≢◌, refl,
  arith, if◌then◌else◌, leb, opt_eq, eq_refl, eq_iff, truthy, or_default, concat, show, ◌==◌,
}
use constrails.Models.{Time}
use constrails.Config.{Settings}
use constrails.Auth.{
  Role, agent_role, admin_role, role_text, parse_role, AuthPrincipal, Claims, Jwt, AuthState, Grant,
  claims_of, lifetime, seconds_of, is_token_revoked,
}
use constrails.Auth.Bearer.{decode_with_secrets, principal_of, authenticate_bearer_token}

abbrev not_before : Option ℕ → ℕ → Bool
not_before none now = true
not_before (some exp) now = leb now exp

-- What `jwt.decode` verifies of claims with an audience and an issuer.
abbrev pub is_current : Claims → Time → String → String → Bool
is_current c now aud iss =
    opt_eq c.aud (some aud) && opt_eq c.iss (some iss) && not_before c.exp (seconds_of now)

-- The library's promise on a token that it signed: a reader with the same secret gets the claims while
-- they are current, and nobody gets them when they are not.
abbrev pub Verifies : Jwt → Claims → String → Type 0
Verifies jwt c secret =
    ((now : Time) (aud iss : String)
      → is_current c now aud iss ≡ true
      → jwt.decode (jwt.encode c secret) secret now aud iss ≡ some c)
    × ((key : String) (now : Time) (aud iss : String)
        → is_current c now aud iss ≡ false
        → jwt.decode (jwt.encode c secret) key now aud iss ≡ none)

-- And for a reader with another secret, which is not empty.
abbrev pub Rejects : Jwt → Claims → String → String → Type 0
Rejects jwt c secret key =
    (key ≢ "")
    × ((now : Time) (aud iss : String) → jwt.decode (jwt.encode c secret) key now aud iss ≡ none)

abbrev pub token_id_of : Time → Grant → String
token_id_of now g = concat ("tok-" ∷ show (seconds_of now) ∷ "-" ∷ g.subject ∷ [])

-- Whom a minted token stands for.
abbrev pub minted_principal : String → Time → Grant → AuthPrincipal
minted_principal token now g = record {
  key = token;
  role = g.role;
  tenant_id = g.tenant_id;
  namespace = g.namespace;
  subject = if truthy g.agent_id then g.agent_id else some g.subject;
  auth_type = "bearer";
  token_id = some (token_id_of now g);
  key_id = some "key-current";
}

parse-role_text : (r : Role) → parse_role (some (role_text r)) ≡ some r
unfolding parse_role ◌==◌
parse-role_text agent_role = refl
parse-role_text admin_role = refl

subject-truthy : (s : String) → s ≢ "" → truthy (some s) ≡ true
subject-truthy s h = ground (arith, eq_iff s "", h)

module _ (jwt : Jwt) (minted : Time) (g : Grant) where
  pub principal_of-claims :
      (settings : Settings) (token : String) (st : AuthState)
      → g.subject ≢ ""
      → principal_of jwt token st.revoked (claims_of settings minted g) "key-current" ≡ (
          if is_token_revoked st.revoked (some (token_id_of minted g))
          then none
          else some (minted_principal token minted g))
  unfolding principal_of claims_of
  principal_of-claims settings token st h =
      ground (arith, parse-role_text g.role, subject-truthy g.subject h)

  pub current-claims :
      (settings : Settings) (now : Time)
      → is_current (claims_of settings minted g) now settings.token_audience settings.token_issuer
        ≡ leb
            (seconds_of now)
            (seconds_of (minted + lifetime settings g.expires_minutes * 60000000))
  unfolding claims_of
  current-claims settings now =
      ground (arith, eq_refl settings.token_audience, eq_refl settings.token_issuer)

pub if_not {ℓ} : {A : Type ℓ} (b : Bool) (x y : A) → (if b then x else y) ≡ (if not b then y else x)
if_not true x y = refl
if_not false x y = refl

-- What the two secrets make of a token.
module _ (jwt : Jwt) (now : Time) (t : String) (s : Settings) where
  abbrev pub reading : String → Option Claims
  reading key = jwt.decode t key now s.token_audience s.token_issuer

  pub decode-current :
      (c : Claims)
      → reading s.secret_key ≡ some c
      → decode_with_secrets jwt now t s ≡ some (c, or_default c.kid "key-current")
  unfolding decode_with_secrets
  decode-current c h = ground (arith, h)

  pub decode-previous :
      (c : Claims) (key : String)
      → reading s.secret_key ≡ none
      → s.previous_secret_key ≡ some key
      → key ≢ ""
      → reading key ≡ some c
      → decode_with_secrets jwt now t s ≡ some (c, or_default c.kid "key-previous")
  unfolding decode_with_secrets
  decode-previous c key none_now p set h = ground (arith, h, none_now, p, eq_iff key "")

  pub decode-none :
      reading s.secret_key ≡ none
      → reading (or_default s.previous_secret_key "") ≡ none
      → decode_with_secrets jwt now t s ≡ none
  unfolding decode_with_secrets
  decode-none h h' = ground (arith, h, h')

module _ (jwt : Jwt) (now : Time) (t : String) (st : AuthState) where
  pub authenticate-some :
      (c : Claims) (key_id : String)
      → st.settings.secret_key ≢ ""
      → decode_with_secrets jwt now t st.settings ≡ some (c, key_id)
      → authenticate_bearer_token jwt now t st ≡ principal_of jwt t st.revoked c key_id
  unfolding authenticate_bearer_token
  authenticate-some c key_id set h = ground (arith, h, eq_iff st.settings.secret_key "")

  pub authenticate-none :
      decode_with_secrets jwt now t st.settings ≡ none
      → authenticate_bearer_token jwt now t st ≡ none
  unfolding authenticate_bearer_token
  authenticate-none h = ground (arith, h)

-- ===== src/Auth/Bearer.antt =====
-- src/constrail/auth.py: minting, revoking and authenticating bearer tokens, and the choice between a token
-- and a key.
use constrails.Prelude.{
  String, not, Option, none, some, List, [], ◌∷◌, ◌++◌, ◌==◌, if◌then◌else◌, truthy, or_default,
  any,
}
use constrails.Models.{Time}
use constrails.Config.{Settings}
use constrails.Auth.{
  parse_role, AuthPrincipal, Claims, Jwt, RevokedToken, AuthState, authenticate_api_key, Grant,
  claims_of, is_revoked_id, is_token_revoked, revoked_row, Revocation, malformed, missing_jti,
  revoked_id,
}

module _ (jwt : Jwt) where
  unfoldable pub mint_token : Time → Grant → AuthState → String
  unfolding claims_of
  mint_token now g st = jwt.encode (claims_of st.settings now g) st.settings.secret_key

  unfoldable pub revoke_token : String → AuthState → Revocation × AuthState
  revoke_token token st = elim (jwt.get_unverified_claims token) [
    | none ↦ (malformed, st)
    | some c ↦ elim c.jti [
      | none ↦ (missing_jti, st)
      | some id ↦
          if id == ""
          then (missing_jti, st)
          else if any (is_revoked_id id) st.revoked
          then (revoked_id id, st)
          else (revoked_id id, record st { revoked = st.revoked ++ revoked_row id c ∷ [] })
    ]
  ]

  -- `_decode_with_secrets`: the claims, and the identifier of the key.
  unfoldable pub decode_with_secrets : Time → String → Settings → Option (Claims × String)
  decode_with_secrets now token s =
      elim (jwt.decode token s.secret_key now s.token_audience s.token_issuer) [
        | some c ↦ some (c, or_default c.kid "key-current")
        | none ↦
            if not (truthy s.previous_secret_key)
            then none
            else elim (jwt.decode token (or_default s.previous_secret_key "") now s.token_audience
                s.token_issuer) [ some c ↦ some (c, or_default c.kid "key-previous") | none ↦ none ]
      ]

  -- The part of `authenticate_bearer_token` behind the signature.
  unfoldable pub principal_of : String → List RevokedToken → Claims → String → Option AuthPrincipal
  unfolding parse_role is_token_revoked
  principal_of token revoked c key_id = elim (parse_role c.role) [
    | none ↦ none
    | some role ↦
        if not (truthy c.sub)
        then none
        else if is_token_revoked revoked c.jti
        then none
        else some (record {
          key = token;
          role = role;
          tenant_id = c.tenant_id;
          namespace = c.namespace;
          subject = if truthy c.agent_id then c.agent_id else c.sub;
          auth_type = "bearer";
          token_id = c.jti;
          key_id = some key_id;
        })
  ]

  unfoldable pub authenticate_bearer_token : Time → String → AuthState → Option AuthPrincipal
  authenticate_bearer_token now token st =
      if st.settings.secret_key == ""
      then none
      else elim (decode_with_secrets now token st.settings) [
        | none ↦ none
        | some (c, key_id) ↦ principal_of token st.revoked c key_id
      ]

  unfoldable pub authenticate : Time → String → AuthState → Option AuthPrincipal
  authenticate now credential st = elim (authenticate_bearer_token now credential st) [
    | some p ↦ some p
    | none ↦ authenticate_api_key st.settings credential
  ]

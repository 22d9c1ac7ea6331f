-- ===== src/Examples/Tokens.antt =====
-- A token library for one set of claims, and what becomes of its token.
use constrails.Prelude.{
  ◌≤◌, String, Bool, true, false, ◌&&◌, none, some, [], ◌∷◌, ◌≡◌, refl, arith, concat,
  if◌then◌else◌, ◌==◌, eq_refl, any, find, show, count,
}
use constrails.Models.{Time}
use constrails.Config.{default_settings}
use constrails.Auth.{
  agent_role, active_key, Claims, Jwt, Grant, AuthState, claims_of, rotate_secret, revoked_id,
  ensure_key_registry, add_keys,
}
use constrails.Auth.Bearer.{mint_token, revoke_token, authenticate_bearer_token}
use constrails.Auth.Tokens.{is_current, Rejects, token_id_of}
use constrails.Auth.Rotation.{rotations, AllReject, bearer, authenticate_bearer_token-rotations}
use constrails.Auth.Steps.{here, next, rotate}
use constrails.Auth.Registry.{active_count, active_count-Reach}
use constrails.Auth.Revoked.{Coherent, authenticate_bearer_token-revoked}

abbrev pub grant : Grant
grant = record {
  role = agent_role;
  subject = "alice";
  tenant_id = some "default";
  namespace = some "dev";
  agent_id = none;
  expires_minutes = none;
}

abbrev pub alice_claims : Claims
alice_claims = claims_of default_settings 5000000 grant

abbrev signed : String → String
signed secret = concat ("signed with " ∷ secret ∷ [])

-- It signs these claims alone.
abbrev pub jwt : Jwt
jwt = record {
  encode = λ c secret. signed secret;
  decode = λ t key now aud iss.
      if t == signed key && is_current alice_claims now aud iss then some alice_claims else none;
  get_unverified_claims = λ t. some alice_claims;
}

abbrev pub auth_state : AuthState
auth_state = record { settings = default_settings; revoked = []; keys = [] }

accepted :
    (now : Time) (aud iss : String)
    → is_current alice_claims now aud iss ≡ true
    → jwt.decode
        (jwt.encode alice_claims default_settings.secret_key)
        default_settings.secret_key
        now
        aud
        iss
      ≡ some alice_claims
accepted now aud iss h = ground (arith, h, eq_refl (signed default_settings.secret_key))

late :
    (key : String) (now : Time) (aud iss : String)
    → is_current alice_claims now aud iss ≡ false
    → jwt.decode (jwt.encode alice_claims default_settings.secret_key) key now aud iss ≡ none
late key now aud iss h = ground (arith, h)

other_secret : Rejects jwt alice_claims default_settings.secret_key "second"
unfolding concat ◌==◌
other_secret = (λ h. cc, λ now aud iss. refl)

rejected : AllReject jwt alice_claims default_settings.secret_key ((6000000, "second") ∷ [])
unfolding AllReject
rejected = (other_secret, tt)

authenticate_bearer_token-rotations_example :
    authenticate_bearer_token jwt 7000000
      (mint_token jwt 5000000 grant auth_state)
      (rotations ((6000000, "second") ∷ []) auth_state)
    ≡ bearer jwt 5000000 7000000 grant auth_state auth_state
authenticate_bearer_token-rotations_example =
    authenticate_bearer_token-rotations jwt 5000000 7000000 grant auth_state
      ((6000000, "second") ∷ []) auth_state (accepted, late) rejected refl (λ h. cc) (λ h. cc)

kept :
    (b : Bool) (c : Claims)
    → (if b then some alice_claims else none) ≡ some c
    → some alice_claims ≡ some c
kept true c h = h
kept false c h = ground (arith, h)

its_own : Coherent jwt "a token"
its_own key aud iss now c h =
    kept ("a token" == signed key && is_current alice_claims now aud iss) c h

revoked : (revoke_token jwt "a token" auth_state).0 ≡ revoked_id (token_id_of 5000000 grant)
unfolding revoke_token claims_of ◌==◌ concat any show
revoked = refl

authenticate_bearer_token-revoked_example :
    authenticate_bearer_token jwt 7000000 "a token"
      (rotate_secret 6000000 "second" (revoke_token jwt "a token" auth_state).1).1
    ≡ none
authenticate_bearer_token-revoked_example =
    authenticate_bearer_token-revoked jwt "a token" (token_id_of 5000000 grant) auth_state 7000000
      its_own revoked
      (next here (rotate 6000000 "second" (revoke_token jwt "a token" auth_state).1))

abbrev started : AuthState
started = record auth_state {
  keys =
      record { key_id = "key-current"; status = active_key; created_at = 10; retired_at = none }
      ∷ [];
}

starts : ensure_key_registry 10 auth_state ≡ some started
unfolding ensure_key_registry add_keys any find
starts = refl

few : active_count auth_state ≤ 1
unfolding count
few = omega arith

active_count-Reach_example : active_count (rotate_secret 6000000 "second" started).1 ≡ 1
active_count-Reach_example =
    active_count-Reach {jwt = jwt} 10 auth_state few starts
      (next here (rotate 6000000 "second" started))

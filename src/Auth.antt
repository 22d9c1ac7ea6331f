-- ===== src/Auth.antt =====
-- src/constrail/auth.py: API keys, bearer tokens, their revocation, and the rotation of the signing secret.
-- The JWT library is a `Jwt`. Times are microseconds since 1970, and what a token holds is whole seconds.
-- The claims of a token are texts and numbers; claims of other kinds are not modelled. The time of a
-- revocation, which nothing reads, is left out.
pub mod Bearer
pub mod Tokens
pub mod Rotation
pub mod Steps
pub mod Registry
pub mod Revoked
use Prim.Native.Nat.{◌/◌}
use constrails.Prelude.{
  ℕ, ◌+◌, ◌*◌, String, Bool, true, false, not, ◌&&◌, ◌||◌, Option, none, some, List, [], ◌∷◌, ◌++◌,
  ◌==◌, if◌then◌else◌, leb, nat_eq, opt_eq, truthy, or_default, is_some, find, any, update_first,
  concat, show,
}
use constrails.Models.{Time}
use constrails.Config.{Settings}

pub data Role : Type 0 where
  agent_role admin_role : Role

abbrev pub role_text : Role → String
role_text agent_role = "agent"
role_text admin_role = "admin"

-- `role not in {'agent', 'admin'}`
unfoldable pub parse_role : Option String → Option Role
parse_role none = none
parse_role (some s) =
    if s == "agent" then some agent_role else if s == "admin" then some admin_role else none

pub record AuthPrincipal : Type 0 where
  pub key : String
  pub role : Role
  pub tenant_id : Option String
  pub namespace : Option String
  pub subject : Option String
  pub auth_type : String
  pub token_id : Option String
  pub key_id : Option String

pub record Claims : Type 0 where
  pub kid : Option String
  pub jti : Option String
  pub role : Option String
  pub sub : Option String
  pub iss : Option String
  pub aud : Option String
  pub iat : Option ℕ
  pub exp : Option ℕ
  pub tenant_id : Option String
  pub namespace : Option String
  pub agent_id : Option String

-- `jwt.encode`, `jwt.decode` with the time, the audience and the issuer, and `jwt.get_unverified_claims`.
-- `none` is a `JWTError`.
pub record Jwt : Type 0 where
  pub encode : Claims → String → String
  pub decode : String → String → Time → String → String → Option Claims
  pub get_unverified_claims : String → Option Claims

pub record RevokedToken : Type 0 where
  pub token_id : String
  pub subject : String
  pub role : String
  pub expires_at : Option Time

pub data KeyStatus : Type 0 where
  active_key previous_key : KeyStatus

pub record SigningKey : Type 0 where
  pub key_id : String
  pub status : KeyStatus
  pub created_at : Time
  pub retired_at : Option Time

-- The settings, of which a rotation writes the two secrets, and the two tables.
pub record AuthState : Type 0 where
  pub settings : Settings
  pub revoked : List RevokedToken
  pub keys : List SigningKey

abbrev pub scoped : AuthPrincipal → Bool
scoped p = truthy p.tenant_id || truthy p.namespace

unfoldable pub allows_agent : Settings → AuthPrincipal → String → Bool
allows_agent settings p agent_id =
    if not (scoped p)
    then true
    else agent_id == settings.agent_api_key
      || agent_id == or_default p.subject settings.agent_api_key

abbrev pub is_active : SigningKey → Bool
is_active k = elim k.status [ active_key ↦ true | previous_key ↦ false ]

abbrev pub has_key_id : String → SigningKey → Bool
has_key_id id k = k.key_id == id

-- Rows are added one by one: `none` is the error of a key that is there already.
unfoldable pub add_keys : List SigningKey → List SigningKey → Option (List SigningKey)
add_keys [] keys = some keys
add_keys (k ∷ more) keys =
    let rest = add_keys more (keys ++ k ∷ []) in
    if any (has_key_id k.key_id) keys then none else rest

abbrev pub new_key : String → KeyStatus → Time → SigningKey
new_key id status now = record { key_id = id; status = status; created_at = now; retired_at = none }

-- `_ensure_key_registry`: `none` is the error of the commit.
unfoldable pub ensure_key_registry : Time → AuthState → Option AuthState
ensure_key_registry now st = elim (find is_active st.keys) [
  | some k ↦ some st
  | none ↦
      let previous =
        if truthy st.settings.previous_secret_key
        then new_key "key-previous" previous_key now ∷ []
        else [] in
      elim (add_keys (new_key "key-current" active_key now ∷ previous) st.keys) [
        | none ↦ none
        | some keys ↦ some (record st { keys = keys })
      ]
]

unfoldable pub authenticate_api_key : Settings → String → Option AuthPrincipal
authenticate_api_key settings api_key =
    if api_key == settings.admin_api_key
    then some (record {
      key = api_key;
      role = admin_role;
      tenant_id = settings.admin_tenant_id;
      namespace = settings.admin_namespace;
      subject = some "admin";
      auth_type = "api_key";
      token_id = none;
      key_id = none;
    })
    else if api_key == settings.agent_api_key
    then some (record {
      key = api_key;
      role = agent_role;
      tenant_id = settings.agent_tenant_id;
      namespace = settings.agent_namespace;
      subject = some settings.agent_api_key;
      auth_type = "api_key";
      token_id = none;
      key_id = none;
    })
    else none

-- `int(now.timestamp())`
abbrev pub seconds_of : Time → ℕ
seconds_of now = now / 1000000

-- `expires_minutes or settings.token_expire_minutes`
abbrev pub lifetime : Settings → Option ℕ → ℕ
lifetime settings none = settings.token_expire_minutes
lifetime settings (some n) = if nat_eq n 0 then settings.token_expire_minutes else n

-- The arguments of `mint_token`.
pub record Grant : Type 0 where
  pub role : Role
  pub subject : String
  pub tenant_id : Option String
  pub namespace : Option String
  pub agent_id : Option String
  pub expires_minutes : Option ℕ

unfoldable pub claims_of : Settings → Time → Grant → Claims
claims_of settings now g = record {
  kid = some "key-current";
  jti = some (concat ("tok-" ∷ show (seconds_of now) ∷ "-" ∷ g.subject ∷ []));
  role = some (role_text g.role);
  sub = some g.subject;
  iss = some settings.token_issuer;
  aud = some settings.token_audience;
  iat = some (seconds_of now);
  exp = some (seconds_of (now + lifetime settings g.expires_minutes * 60000000));
  tenant_id = g.tenant_id;
  namespace = g.namespace;
  agent_id = g.agent_id;
}

abbrev pub is_revoked_id : String → RevokedToken → Bool
is_revoked_id id row = row.token_id == id

unfoldable pub is_token_revoked : List RevokedToken → Option String → Bool
is_token_revoked revoked none = false
is_token_revoked revoked (some id) = if id == "" then false else any (is_revoked_id id) revoked

abbrev or_unknown : Option String → String
or_unknown none = "unknown"
or_unknown (some s) = s

-- A time that is missing, or 0, is no time.
abbrev expiry_of : Option ℕ → Option Time
expiry_of none = none
expiry_of (some n) = if nat_eq n 0 then none else some (n * 1000000)

-- The row of a revoked token; what its claims lack is unknown.
abbrev pub revoked_row : String → Claims → RevokedToken
revoked_row id c = record {
  token_id = id;
  subject = or_unknown c.sub;
  role = or_unknown c.role;
  expires_at = expiry_of c.exp;
}

pub data Revocation : Type 0 where
  malformed missing_jti : Revocation
  revoked_id : String → Revocation

abbrev pub retire : Time → SigningKey → SigningKey
retire now k = record k { status = previous_key; retired_at = some now }

-- `rotate_secret`, with the new secret. The result is whether the commit succeeded; where it does not,
-- the exception leaves the method, and the settings have the new secrets all the same.
unfoldable pub rotate_secret : Time → String → AuthState → Bool × AuthState
rotate_secret now new_secret st =
    let settings' = record st.settings {
      secret_key = new_secret;
      previous_secret_key = some st.settings.secret_key;
    } in
    let added = new_key (concat ("key-" ∷ show (seconds_of now) ∷ [])) active_key now in
    elim (add_keys (added ∷ []) (update_first is_active (retire now) st.keys)) [
      | none ↦ (false, record st { settings = settings' })
      | some keys ↦ (true, record st { settings = settings'; keys = keys })
    ]

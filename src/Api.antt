-- ===== src/Api.antt =====
-- src/constrail/kernel.py: the HTTP API. Who a request is from, and what it may do.
-- Parsing a request and printing a response are the framework's, and not modelled: a handler takes the
-- values that the framework read, and gives a value or an `HTTPException`.
pub mod Actions
pub mod Approvals
pub mod Listings
pub mod Monitoring
pub mod Access
pub mod Scope
use Prim.Native.Char.{code}
use Prim.Native.String
use constrails.Prelude.{
  ℕ, String, Bool, true, false, not, ◌&&◌, Option, none, some, List, [], ◌∷◌, ◌==◌, if◌then◌else◌,
  is_prefix, lower, codes, nat_eq,
}
use constrails.Models.{Time, Decision}
use constrails.Config.{Settings}
use constrails.Capability.{is_space}
use constrails.CapabilityStore.{Store}
use constrails.Auth.{Role, agent_role, admin_role, AuthPrincipal, Jwt, AuthState, allows_agent}
use constrails.Auth.Bearer.{authenticate}
use constrails.Kernel.{State, Env}

-- What a handler gives: a value, or the status and the detail of an `HTTPException`.
pub data Response (A : Type 0) : Type 0 where
  ok : A → Response A
  http_error : ℕ → String → Response A

-- The two headers that are read.
pub record Headers : Type 0 where
  pub authorization : Option String
  pub x_api_key : Option String

-- What the handlers share: the settings and the tables of the authentication, the state of the kernel,
-- and the stored manifests.
pub record Server : Type 0 where
  pub auth : AuthState
  pub kernel : State
  pub manifests : Store

-- What lies outside. `decision_filter` is what the database makes of a comparison of its column of decisions
-- with a text: the rows that it keeps, or `none`, an exception. The settings are those of the server, and replace those of `env`.
pub record World : Type 0 where
  pub jwt : Jwt
  pub env : Env
  pub decision_filter : String → Option (Decision → Bool)

abbrev pub env_of : World → Server → Env
env_of world server = record world.env { settings = server.auth.settings }

-- `text.split(' ', 1)[1]`
unfoldable pub after_space : String → String
after_space String.[] = ""
after_space (String.◌∷◌ c s) = let rest = after_space s in if nat_eq (code c) 32 then s else rest

unfoldable pub strip_start : String → String
strip_start String.[] = ""
strip_start (String.◌∷◌ c s) =
    let rest = strip_start s in if is_space (code c) then rest else String.◌∷◌ c s

unfoldable pub strip_end : String → String
strip_end String.[] = ""
strip_end (String.◌∷◌ c s) =
    let rest = strip_end s in if is_space (code c) && rest == "" then "" else String.◌∷◌ c rest

abbrev pub strip : String → String
strip s = strip_end (strip_start s)

-- `auth_header.lower().startswith('bearer ')`
abbrev pub is_bearer : String → Bool
is_bearer header = is_prefix (codes "bearer ") (lower (codes header))

unfoldable pub extract_credential : Headers → Response String
extract_credential headers =
    let by_key : Response String = elim headers.x_api_key [
      | none ↦ http_error 401 "Missing credentials"
      | some key ↦ if key == "" then http_error 401 "Missing credentials" else ok key
    ] in
    elim headers.authorization [
      | none ↦ by_key
      | some header ↦ if is_bearer header then ok (strip (after_space header)) else by_key
    ]

module _ (jwt : Jwt) (now : Time) (headers : Headers) (st : AuthState) where
  unfoldable pub authenticate_agent_request : Response AuthPrincipal
  authenticate_agent_request = elim (extract_credential headers) [
    | http_error status detail ↦ http_error status detail
    | ok credential ↦ elim (authenticate jwt now credential st) [
      | none ↦ http_error 403 "Invalid agent credentials"
      | some p ↦ ok p
    ]
  ]

  unfoldable pub authenticate_admin_request : Response AuthPrincipal
  authenticate_admin_request = elim (extract_credential headers) [
    | http_error status detail ↦ http_error status detail
    | ok credential ↦ elim (authenticate jwt now credential st) [
      | none ↦ http_error 403 "Admin credentials required"
      | some p ↦ elim p.role [
        | agent_role ↦ http_error 403 "Admin credentials required"
        | admin_role ↦ ok p
      ]
    ]
  ]

-- Whether `enforce_admin_agent_scope` raises nothing.
unfoldable pub enforce_admin_agent_scope : Settings → AuthPrincipal → Option String → Bool
enforce_admin_agent_scope settings p none = true
enforce_admin_agent_scope settings p (some agent_id) = allows_agent settings p agent_id

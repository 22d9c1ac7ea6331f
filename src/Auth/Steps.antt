-- ===== src/Auth/Steps.antt =====
-- What changes the settings and the tables of src/constrail/auth.py, as a step relation.
use constrails.Prelude.{String, some, ◌≡◌}
use constrails.Models.{Time}
use constrails.Auth.{Jwt, AuthState, rotate_secret, ensure_key_registry}
use constrails.Auth.Bearer.{revoke_token}

-- The calls of the service that write; the others only read.
pub data Step (jwt : Jwt) : AuthState → AuthState → Type 0 where
  revoke : (token : String) (st : AuthState) → Step jwt st (revoke_token jwt token st).1
  rotate :
      (now : Time) (new_secret : String) (st : AuthState)
      → Step jwt st (rotate_secret now new_secret st).1
  ensure :
      (now : Time) {st st' : AuthState} → ensure_key_registry now st ≡ some st' → Step jwt st st'

pub data Reach (jwt : Jwt) (s : AuthState) : AuthState → Type 0 where
  here : Reach jwt s s
  next : {t u : AuthState} → Reach jwt s t → Step jwt t u → Reach jwt s u

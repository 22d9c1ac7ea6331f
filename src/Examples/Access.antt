-- ===== src/Examples/Access.antt =====
-- Requests to the API with the keys of the settings.
use constrails.Prelude.{true, none, some, [], ◌≡◌, ◌⊎◌, refl, ◌==◌}
use constrails.Models.{ActionRequest}
use constrails.Config.{Settings, default_settings}
use constrails.Auth.{admin_role, agent_role, AuthPrincipal, Jwt, authenticate_api_key}
use constrails.Auth.Bearer.{authenticate, authenticate_bearer_token, decode_with_secrets}
use constrails.Api.{
  ok, Headers, Server, World, extract_credential, authenticate_agent_request,
  authenticate_admin_request,
}
use constrails.Api.Actions.{execute_action}
use constrails.Api.Approvals.{
  ApprovalDecisionRequest, review, replay_approved_request, list_approvals, allowed_row,
}
use constrails.Api.Listings.{
  AuditQuery, SandboxQuery, list_sandbox_executions, list_audit_records, own_agent,
}
use constrails.Api.Access.{Authorized, review-Authorized, execute_action-agent}
use constrails.Api.Scope.{all_shown, is_of, runs_for, lists-scope}
use constrails.Examples.Data.{env, reading, read_request}
use constrails.Examples.KernelRuns.{granted_state}

-- A library that accepts no token.
abbrev jwt : Jwt
jwt = record {
  encode = λ c secret. "token";
  decode = λ t key now aud iss. none;
  get_unverified_claims = λ t. none;
}

abbrev world : World
world = record { jwt = jwt; env = env; decision_filter = λ text. none }

-- The admin is the admin of one tenant.
abbrev settings : Settings
settings = record default_settings { admin_tenant_id = some "default" }

abbrev server : Server
server = record {
  auth = record { settings = settings; revoked = []; keys = [] };
  kernel = granted_state;
  manifests = record { rows = []; next_id = 1 };
}

abbrev agent_headers : Headers
agent_headers = record { authorization = none; x_api_key = some "dev-agent" }

abbrev admin_headers : Headers
admin_headers = record { authorization = none; x_api_key = some "dev-admin" }

abbrev agent : AuthPrincipal
agent = record {
  key = "dev-agent";
  role = agent_role;
  tenant_id = some "default";
  namespace = some "dev";
  subject = some "dev-agent";
  auth_type = "api_key";
  token_id = none;
  key_id = none;
}

abbrev admin : AuthPrincipal
admin = record {
  key = "dev-admin";
  role = admin_role;
  tenant_id = some "default";
  namespace = none;
  subject = some "admin";
  auth_type = "api_key";
  token_id = none;
  key_id = none;
}

agent_known : authenticate_agent_request jwt 1000 agent_headers server.auth ≡ ok agent
unfolding authenticate_agent_request extract_credential authenticate authenticate_bearer_token
    authenticate_api_key decode_with_secrets ◌==◌
agent_known = refl

admin_known : authenticate_admin_request jwt 1000 admin_headers server.auth ≡ ok admin
unfolding authenticate_admin_request extract_credential authenticate authenticate_bearer_token
    authenticate_api_key decode_with_secrets ◌==◌
admin_known = refl

abbrev body : ApprovalDecisionRequest
body = record { approver_id = "bob"; comment = none }

review-Authorized_example :
    (((review world reading admin_headers true 7 body server).1 ≡ server)
      ⊎ Authorized world reading admin_headers 7 server)
    × (((replay_approved_request world reading admin_headers 7 server).1 ≡ server)
        ⊎ Authorized world reading admin_headers 7 server)
review-Authorized_example = review-Authorized world reading admin_headers server 7 true body

-- The request of the agent as somebody else.
abbrev as_root : ActionRequest
as_root = record read_request {
  agent = record read_request.agent { agent_id = "root"; tenant_id = none; namespace = none };
  context = record read_request.context { auth = none };
}

execute_action-agent_example :
    execute_action world reading agent_headers as_root server
    ≡ execute_action world reading agent_headers read_request server
execute_action-agent_example =
    execute_action-agent world reading agent_headers server agent read_request "root" none none none
      agent_known refl

abbrev query : AuditQuery
query = record {
  limit = 20;
  offset = 0;
  agent_id = none;
  tool = none;
  decision = none;
  approval_id = none;
  sandbox_id = none;
}

abbrev sandbox_query : SandboxQuery
sandbox_query = record {
  limit = 20;
  offset = 0;
  agent_id = none;
  tool = none;
  executor = none;
  status = some "failed";
  approval_id = none;
}

lists-scope_example :
    (all_shown
        (is_of (own_agent settings admin))
        (list_audit_records world reading admin_headers query server)
      ≡ true)
    × (all_shown
          (runs_for (own_agent settings admin))
          (list_sandbox_executions world reading admin_headers sandbox_query server)
        ≡ true)
    × (all_shown (allowed_row settings admin) (list_approvals world reading admin_headers server)
        ≡ true)
unfolding ◌==◌
lists-scope_example =
    lists-scope world reading admin_headers admin server query sandbox_query admin_known refl

-- ===== src/Api/Actions.antt =====
-- src/constrail/kernel.py: `execute_action`.
use constrails.Prelude.{none, some, or_default}
use constrails.Models.{ActionRequest, ActionResponse, AuthContext}
use constrails.Config.{Settings}
use constrails.Auth.{agent_role, admin_role, role_text, AuthPrincipal}
use constrails.Kernel.{Reading}
use constrails.Kernel.Process.{process}
use constrails.Api.{
  Response, ok, http_error, Headers, Server, World, env_of, authenticate_agent_request,
}

abbrev pub auth_context : AuthPrincipal → AuthContext
auth_context p = record {
  auth_type = some p.auth_type;
  auth_subject = p.subject;
  auth_token_id = p.token_id;
  auth_key_id = p.key_id;
  role = some (role_text p.role);
}

-- The request as the kernel gets it: an agent is who its credential says, and an admin who the request
-- says.
unfoldable pub identified : Settings → AuthPrincipal → ActionRequest → ActionRequest
identified settings p request = record request {
  agent = elim p.role [
    | admin_role ↦ request.agent
    | agent_role ↦ record request.agent {
      agent_id = or_default p.subject settings.agent_api_key;
      tenant_id = p.tenant_id;
      namespace = p.namespace;
    }
  ];
  context = record request.context { auth = some (auth_context p) };
}

unfoldable pub execute_action :
    World → Reading → Headers → ActionRequest → Server → Response ActionResponse × Server
execute_action world rd headers request server =
    elim (authenticate_agent_request world.jwt rd.now headers server.auth) [
      | http_error status detail ↦ (http_error status detail, server)
      | ok p ↦
          let (reply, kernel) =
            process (env_of world server) rd (identified server.auth.settings p request)
              server.kernel in
          (
            elim reply [
              | some response ↦ ok response
              | none ↦ http_error 500 "Internal Server Error"
            ],
            record server { kernel = kernel },
          )
    ]

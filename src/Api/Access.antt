-- ===== src/Api/Access.antt =====
-- Who may do what over the HTTP API.
use constrails.Prelude.{
  ℕ, String, Bool, true, false, Option, none, some, List, ◌≡◌, ◌⊎◌, inl, inr, refl, sym, subst, ap,
  ◌∙◌, arith, Option-cases, Bool-cases, eq_iff, truthy, or_default,
}
use constrails.Models.{Uuid, Time, ActionRequest, ActionResponse, AuthContext}
use constrails.Config.{Settings}
use constrails.Auth.{
  Role, agent_role, admin_role, parse_role, AuthPrincipal, Claims, Jwt, AuthState, RevokedToken,
  allows_agent, authenticate_api_key, is_token_revoked,
}
use constrails.Auth.Bearer.{
  decode_with_secrets, principal_of, authenticate_bearer_token, authenticate,
}
use constrails.Approval.{ApprovalRequest, get_request}
use constrails.Kernel.{Reading}
use constrails.Kernel.Process.{process}
use constrails.Api.{
  Response, ok, http_error, Headers, Server, World, env_of, extract_credential,
  authenticate_admin_request, authenticate_agent_request,
}
use constrails.Api.Actions.{identified, execute_action}
use constrails.Api.Approvals.{
  ApprovalDecisionRequest, visible_request, review, replay_approved_request,
}

-- A credential of an admin: the key of the settings, or a token that is signed, current and not revoked,
-- and says so.
pub data AdminCredential (jwt : Jwt) (now : Time) (credential : String) (st : AuthState)
    : Type 0 where
  admin_key : credential ≡ st.settings.admin_api_key → AdminCredential jwt now credential st
  admin_token :
      (c : Claims) (key_id : String)
      → decode_with_secrets jwt now credential st.settings ≡ some (c, key_id)
      → c.role ≡ some "admin"
      → is_token_revoked st.revoked c.jti ≡ false
      → AdminCredential jwt now credential st

-- The admin is bound to no tenant and no namespace, or the agent is that of the settings, or the admin's own.
abbrev pub MayReview : Settings → AuthPrincipal → String → Type 0
MayReview settings p agent_id =
    (truthy p.tenant_id ≡ false) × (truthy p.namespace ≡ false)
    ⊎ (agent_id ≡ settings.agent_api_key)
    ⊎ (agent_id ≡ or_default p.subject settings.agent_api_key)

allows_agent-MayReview :
    (settings : Settings) (p : AuthPrincipal) (agent_id : String)
    → allows_agent settings p agent_id ≡ true
    → MayReview settings p agent_id
unfolding allows_agent
allows_agent-MayReview settings p agent_id h = ground (
  arith,
  h,
  eq_iff agent_id settings.agent_api_key,
  eq_iff agent_id (or_default p.subject settings.agent_api_key),
)

parse-admin : (role : Option String) → parse_role role ≡ some admin_role → role ≡ some "admin"
unfolding parse_role
parse-admin none h = ground (arith, h)
parse-admin (some s) h = ap some ((eq_iff s "admin").0 (ground (arith, h)))

api_key-admin :
    (settings : Settings) (key : String) (p : AuthPrincipal)
    → authenticate_api_key settings key ≡ some p
    → p.role ≡ admin_role
    → key ≡ settings.admin_api_key
unfolding authenticate_api_key
api_key-admin settings key p h r = (eq_iff key settings.admin_api_key).0 (ground (arith, h, r))

principal_of-admin :
    (jwt : Jwt) (t key_id : String) (revoked : List RevokedToken) (c : Claims) (p : AuthPrincipal)
    → principal_of jwt t revoked c key_id ≡ some p
    → p.role ≡ admin_role
    → (c.role ≡ some "admin") × (is_token_revoked revoked c.jti ≡ false)
unfolding principal_of
principal_of-admin jwt t key_id revoked c p h r = elim (Option-cases (parse_role c.role)) [
  | inl bad ↦ absurd (ground (arith, h, bad))
  | inr (role, e) ↦
      let named : role ≡ admin_role = ground (arith, h, e, r) in
      (parse-admin c.role (e ∙ ap some named), ground (arith, h, e))
]

-- Whoever is authenticated as an admin gave the admin key, or an admin's token that is not revoked.
authenticate-AdminCredential :
    (jwt : Jwt) (now : Time) (credential : String) (st : AuthState) (p : AuthPrincipal)
    → authenticate jwt now credential st ≡ some p
    → p.role ≡ admin_role
    → AdminCredential jwt now credential st
unfolding authenticate
authenticate-AdminCredential jwt now credential st p h r =
    elim (Option-cases (authenticate_bearer_token jwt now credential st)) [
      | inl off ↦ admin_key (api_key-admin st.settings credential p (ground (arith, h, off)) r)
      | inr (q, on) ↦ elim (Option-cases (decode_with_secrets jwt now credential st.settings)) [
        | inl bad ↦ absurd (unfold authenticate_bearer_token in ground (arith, on, bad))
        | inr (d, e) ↦
            let f =
              principal_of-admin jwt credential d.1 st.revoked d.0 p
                (unfold authenticate_bearer_token in ground (arith, h, on, e)) r in
            admin_token d.0 d.1 e f.0 f.1
      ]
    ]

Response-cases :
    {A : Type 0} (r : Response A)
    → ((a : A) × (r ≡ ok a)) ⊎ ((status : ℕ) × (detail : String) × (r ≡ http_error status detail))
Response-cases (ok a) = inl (a, refl)
Response-cases (http_error status detail) = inr (status, detail, refl)

Role-cases : (r : Role) → (r ≡ agent_role) ⊎ (r ≡ admin_role)
Role-cases agent_role = inl refl
Role-cases admin_role = inr refl

same_identity :
    (settings : Settings) (p : AuthPrincipal) (request : ActionRequest) (agent_id : String)
    (tenant_id namespace : Option String) (auth : Option AuthContext)
    → p.role ≡ agent_role
    → identified settings p (record request {
      agent = record request.agent {
        agent_id = agent_id;
        tenant_id = tenant_id;
        namespace = namespace;
      };
      context = record request.context { auth = auth };
    })
      ≡ identified settings p request
unfolding identified
same_identity settings p request agent_id tenant_id namespace auth r = ground (arith, r)

module _ (world : World) (rd : Reading) (headers : Headers) where
  -- The request has the credential of an admin who may see the agent of the approval request.
  pub record Authorized (id : Uuid) (server : Server) : Type 0 where
    pub credential : String
    pub principal : AuthPrincipal
    pub row : ApprovalRequest
    pub sent : extract_credential headers ≡ ok credential
    pub known : authenticate world.jwt rd.now credential server.auth ≡ some principal
    pub admin : AdminCredential world.jwt rd.now credential server.auth
    pub found : get_request id server.kernel.approvals ≡ some row
    pub allowed : MayReview server.auth.settings principal row.agent_id

  module _ (server : Server) where
    admin-known :
        (p : AuthPrincipal)
        → authenticate_admin_request world.jwt rd.now headers server.auth ≡ ok p
        → (credential : String) × (extract_credential headers ≡ ok credential)
          × (authenticate world.jwt rd.now credential server.auth ≡ some p)
          × (p.role ≡ admin_role)
    unfolding authenticate_admin_request
    admin-known p h = elim (Response-cases (extract_credential headers)) [
      | inr (status, detail, e) ↦ absurd (ground (arith, h, e))
      | inl (credential, e) ↦
          elim (Option-cases (authenticate world.jwt rd.now credential server.auth)) [
            | inl none_of ↦ absurd (ground (arith, h, e, none_of))
            | inr (q, k) ↦ elim (Role-cases q.role) [
              | inl agent ↦ absurd (ground (arith, h, e, k, agent))
              | inr admin ↦
                  (let same : q ≡ p = ground (arith, h, e, k, admin) in
                    (
                      credential,
                      e,
                      k ∙ ap some same,
                      subst (λ (x : AuthPrincipal). x.role ≡ admin_role) same admin,
                    ))
            ]
          ]
    ]

    visible-Authorized :
        (id : Uuid) (row : ApprovalRequest)
        → visible_request world rd headers id server ≡ ok row
        → Authorized id server
    unfolding visible_request
    visible-Authorized id row h =
        elim (Response-cases (authenticate_admin_request world.jwt rd.now headers server.auth)) [
          | inr (status, detail, e) ↦ absurd (ground (arith, h, e))
          | inl (p, e) ↦ elim (Option-cases (get_request id server.kernel.approvals)) [
            | inl missing ↦ absurd (ground (arith, h, e, missing))
            | inr (found, f) ↦
                elim (Bool-cases (allows_agent server.auth.settings p found.agent_id)) [
                  | inr off ↦ absurd (ground (arith, h, e, f, off))
                  | inl on ↦
                      let (credential, sent, known, admin) = admin-known p e in
                      record {
                        credential = credential;
                        principal = p;
                        row = found;
                        sent = sent;
                        known = known;
                        admin =
                            authenticate-AdminCredential world.jwt rd.now credential server.auth p
                              known admin;
                        found = f;
                        allowed = allows_agent-MayReview server.auth.settings p found.agent_id on;
                      }
                ]
          ]
        ]

    -- A review or a replay leaves the server as it was, unless the request has the admin key or an admin's
    -- token, in time and not revoked, and that admin may see the agent of the approval request.
    pub review-Authorized :
        (id : Uuid) (verdict : Bool) (body : ApprovalDecisionRequest)
        → (((review world rd headers verdict id body server).1 ≡ server) ⊎ Authorized id server)
          × (((replay_approved_request world rd headers id server).1 ≡ server)
              ⊎ Authorized id server)
    unfolding review replay_approved_request
    review-Authorized id verdict body =
        elim (Response-cases (visible_request world rd headers id server)) [
          | inl (row, e) ↦ (inr (visible-Authorized id row e), inr (visible-Authorized id row e))
          | inr (status, detail, e) ↦ (inl (ground (arith, e)), inl (ground (arith, e)))
        ]

    -- What `execute_action` does with a request of a principal.
    abbrev performed : Server → ActionRequest → Response ActionResponse × Server
    performed before request =
        let (reply, kernel) = process (env_of world before) rd request before.kernel in
        (
          elim reply [
            | some response ↦ ok response
            | none ↦ http_error 500 "Internal Server Error"
          ],
          record before { kernel = kernel },
        )

    executed :
        {p : AuthPrincipal}
        → authenticate_agent_request world.jwt rd.now headers server.auth ≡ ok p
        → (request : ActionRequest)
        → execute_action world rd headers request server
          ≡ performed server (identified server.auth.settings p request)
    unfolding execute_action
    executed h request = ground (arith, h)

    -- An agent is who its credential says: of two actions that differ in the agent's name, tenant and
    -- namespace and in the entry "auth" of the context alone, both get the same answer and leave the server the same.
    pub execute_action-agent :
        (p : AuthPrincipal) (request : ActionRequest) (agent_id : String)
        (tenant_id namespace : Option String) (auth : Option AuthContext)
        → authenticate_agent_request world.jwt rd.now headers server.auth ≡ ok p
        → p.role ≡ agent_role
        → execute_action world rd headers
            (record request {
              agent = record request.agent {
                agent_id = agent_id;
                tenant_id = tenant_id;
                namespace = namespace;
              };
              context = record request.context { auth = auth };
            })
            server
          ≡ execute_action world rd headers request server
    execute_action-agent p request agent_id tenant_id namespace auth h r =
        executed h _
        ∙ ap (performed server)
            (same_identity server.auth.settings p request agent_id tenant_id namespace auth r)
        ∙ sym (executed h request)

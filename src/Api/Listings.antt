-- ===== src/Api/Listings.antt =====
-- src/constrail/kernel.py: the handlers that list audit rows, quota events and manifests, and show one row.
-- The answer about a row is the row.
use constrails.Prelude.{
  ℕ, String, Bool, true, false, not, ◌&&◌, Option, none, some, List, [], ◌∷◌, ◌==◌, if◌then◌else◌,
  keep, find, sort_by, take, leb, nat_eq, truthy, or_default, opt_eq, zero, suc,
}
use constrails.Models.{Value, str, Uuid, Decision}
use constrails.Config.{Settings}
use constrails.Auth.{AuthPrincipal, scoped, allows_agent}
use constrails.Audit.{AuditRecord}
use constrails.RateLimits.{QuotaEvent, QuotaSummary, list_events, summary}
use constrails.CapabilityStore.{StoredManifest, list_manifests}
use constrails.Kernel.{Reading, SandboxExecution}
use constrails.Kernel.Replay.{get_execution}
use constrails.Api.{
  Response, ok, http_error, Headers, Server, World, authenticate_admin_request,
  enforce_admin_agent_scope,
}

-- The query of `list_audit_records`.
pub record AuditQuery : Type 0 where
  pub limit : ℕ
  pub offset : ℕ
  pub agent_id : Option String
  pub tool : Option String
  pub decision : Option String
  pub approval_id : Option Uuid
  pub sandbox_id : Option String

-- `if value: query.filter(column == value)`
abbrev text_is : Option String → String → Bool
text_is f s = if truthy f then s == or_default f "" else true

abbrev id_is : Option Uuid → Option Uuid → Bool
id_is none id = true
id_is (some f) none = false
id_is (some f) (some id) = nat_eq id f

abbrev sandbox_is : Option String → Option String → Bool
sandbox_is f s = if truthy f then opt_eq s f else true

-- The agent whose rows a scoped admin sees.
abbrev pub own_agent : Settings → AuthPrincipal → String
own_agent settings p = or_default p.subject settings.agent_api_key

unfoldable pub in_query :
    Settings → AuthPrincipal → (Decision → Bool) → AuditQuery → AuditRecord → Bool
in_query settings p decided q row =
    (if scoped p then row.agent_id == own_agent settings p else true)
    && (text_is q.agent_id row.agent_id
        && (text_is q.tool row.tool
            && (decided row.final_decision
                && (id_is q.approval_id row.approval_id
                    && sandbox_is q.sandbox_id row.sandbox_id))))

abbrev pub newest_first : AuditRecord → AuditRecord → Bool
newest_first a b = leb b.start_time a.start_time

-- `offset(n)`
unfoldable pub drop {ℓ} : {A : Type ℓ} → ℕ → List A → List A
drop zero rows = rows
drop (suc n) [] = []
drop (suc n) (row ∷ rows) = drop n rows

-- The query of `list_sandbox_executions`.
pub record SandboxQuery : Type 0 where
  pub limit : ℕ
  pub offset : ℕ
  pub agent_id : Option String
  pub tool : Option String
  pub executor : Option String
  pub status : Option String
  pub approval_id : Option Uuid

abbrev executor_is : Option String → Option Value → Bool
executor_is f v =
    if not (truthy f)
    then true
    else elim v [ some w ↦ elim w [ str s ↦ s == or_default f "" | _ ↦ false ] | none ↦ false ]

abbrev pub status_text : SandboxExecution → String
status_text row = if row.completed then "completed" else "failed"

unfoldable pub in_sandbox_query : Settings → AuthPrincipal → SandboxQuery → SandboxExecution → Bool
in_sandbox_query settings p q row =
    (if scoped p then row.agent_id == own_agent settings p else true)
    && (text_is q.agent_id row.agent_id
        && (text_is q.tool row.tool
            && (executor_is q.executor row.executor
                && (text_is q.status (status_text row) && id_is q.approval_id row.approval_id))))

abbrev pub newest_execution : SandboxExecution → SandboxExecution → Bool
newest_execution a b = leb b.created_at a.created_at

abbrev by_request : Uuid → AuditRecord → Bool
by_request id row = nat_eq row.request_id id

module _ (world : World) (rd : Reading) (headers : Headers) where
  -- The filter by the decision, where one is asked for.
  unfoldable pub decision_of : AuditQuery → Option (Decision → Bool)
  decision_of q =
      if truthy q.decision
      then world.decision_filter (or_default q.decision "")
      else some (λ d. true)

  unfoldable pub list_audit_records : AuditQuery → Server → Response (List AuditRecord)
  list_audit_records q server =
      elim (authenticate_admin_request world.jwt rd.now headers server.auth) [
        | http_error status detail ↦ http_error status detail
        | ok p ↦
            if not (enforce_admin_agent_scope server.auth.settings p q.agent_id)
            then http_error 403 "Requested agent is outside admin scope"
            else elim (decision_of q) [
              | none ↦ http_error 500 "Internal Server Error"
              | some decided ↦ ok (
                  take q.limit (
                    drop q.offset (
                      sort_by newest_first
                        (keep (in_query server.auth.settings p decided q) server.kernel.audit))))
            ]
      ]

  unfoldable pub get_audit_record : Uuid → Server → Response AuditRecord
  get_audit_record request_id server =
      elim (authenticate_admin_request world.jwt rd.now headers server.auth) [
        | http_error status detail ↦ http_error status detail
        | ok p ↦ elim (find (by_request request_id) (sort_by newest_first server.kernel.audit)) [
          | none ↦ http_error 404 "Audit record not found"
          | some row ↦
              if not (allows_agent server.auth.settings p row.agent_id)
              then http_error 403 "Audit record is outside admin scope"
              else ok row
        ]
      ]

  unfoldable pub list_sandbox_executions : SandboxQuery → Server → Response (List SandboxExecution)
  list_sandbox_executions q server =
      elim (authenticate_admin_request world.jwt rd.now headers server.auth) [
        | http_error status detail ↦ http_error status detail
        | ok p ↦
            if not (enforce_admin_agent_scope server.auth.settings p q.agent_id)
            then http_error 403 "Requested agent is outside admin scope"
            else ok (
                take q.limit (
                  drop q.offset (
                    sort_by newest_execution
                      (keep (in_sandbox_query server.auth.settings p q) server.kernel.sandboxes))))
      ]

  unfoldable pub get_sandbox_execution : String → Server → Response SandboxExecution
  get_sandbox_execution sandbox_id server =
      elim (authenticate_admin_request world.jwt rd.now headers server.auth) [
        | http_error status detail ↦ http_error status detail
        | ok p ↦ elim (get_execution sandbox_id server.kernel.sandboxes) [
          | none ↦ http_error 404 "Sandbox execution not found"
          | some row ↦
              if not (allows_agent server.auth.settings p row.agent_id)
              then http_error 403 "Sandbox execution is outside admin scope"
              else ok row
        ]
      ]

  -- The checks of the two quota handlers: the tenant that they ask for.
  unfoldable pub quota_tenant : Option String → Option String → Server → Response (Option String)
  quota_tenant agent_id tenant_id server =
      elim (authenticate_admin_request world.jwt rd.now headers server.auth) [
        | http_error status detail ↦ http_error status detail
        | ok p ↦
            if not (enforce_admin_agent_scope server.auth.settings p agent_id)
            then http_error 403 "Requested agent is outside admin scope"
            else if truthy p.tenant_id && (truthy tenant_id && not (opt_eq tenant_id p.tenant_id))
            then http_error 403 "Requested tenant is outside admin scope"
            else ok (if truthy tenant_id then tenant_id else p.tenant_id)
      ]

  unfoldable pub quota_events :
      Option String
      → Option String
      → Option String
      → Option ℕ
      → ℕ
      → Server
      → Response (List QuotaEvent)
  quota_events agent_id tenant_id tool window_seconds limit server =
      elim (quota_tenant agent_id tenant_id server) [
        | http_error status detail ↦ http_error status detail
        | ok tenant ↦
            ok (list_events rd.now agent_id tenant tool window_seconds limit server.kernel.quota)
      ]

  unfoldable pub quota_summary :
      Option String → Option String → Option ℕ → Server → Response QuotaSummary
  quota_summary agent_id tenant_id window_seconds server =
      elim (quota_tenant agent_id tenant_id server) [
        | http_error status detail ↦ http_error status detail
        | ok tenant ↦ ok (summary rd.now agent_id tenant window_seconds server.kernel.quota)
      ]

  unfoldable pub list_capability_manifests :
      Option String → Option Bool → Server → Response (List StoredManifest)
  list_capability_manifests agent_id active server =
      elim (authenticate_admin_request world.jwt rd.now headers server.auth) [
        | http_error status detail ↦ http_error status detail
        | ok p ↦
            if not (enforce_admin_agent_scope server.auth.settings p agent_id)
            then http_error 403 "Requested agent is outside admin scope"
            else ok (list_manifests agent_id active p.tenant_id p.namespace server.manifests)
      ]

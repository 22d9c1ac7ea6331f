-- ===== src/Api/Approvals.antt =====
-- src/constrail/kernel.py: the handlers for approval requests.
-- The answer about an approval request is its row.
use constrails.Prelude.{
  String, Bool, true, false, not, Option, none, some, List, if◌then◌else◌, keep,
}
use constrails.Models.{Uuid, ActionResponse}
use constrails.Config.{Settings}
use constrails.Auth.{AuthPrincipal, scoped, allows_agent}
use constrails.Approval.{ApprovalRequest, get_request}
use constrails.Approval.Outbox.{decide}
use constrails.Approval.Queries.{list_requests}
use constrails.Kernel.{Reading}
use constrails.Kernel.Replay.{
  ReplayReply, refused, answered, not_found, not_approved, expired, replay_approved,
}
use constrails.Api.{
  Response, ok, http_error, Headers, Server, World, env_of, authenticate_admin_request,
}

-- `ApprovalDecisionRequest`
pub record ApprovalDecisionRequest : Type 0 where
  pub approver_id : String
  pub comment : Option String

abbrev pub allowed_row : Settings → AuthPrincipal → ApprovalRequest → Bool
allowed_row settings p row = allows_agent settings p row.agent_id

module _ (world : World) (rd : Reading) (headers : Headers) where
  unfoldable pub list_approvals : Server → Response (List ApprovalRequest)
  list_approvals server = elim (authenticate_admin_request world.jwt rd.now headers server.auth) [
    | http_error status detail ↦ http_error status detail
    | ok p ↦
        let rows = list_requests none none none server.kernel.approvals in
        ok (if scoped p then keep (allowed_row server.auth.settings p) rows else rows)
  ]

  -- The lines that the next four handlers begin with: the row of an approval request that the admin may see.
  unfoldable pub visible_request : Uuid → Server → Response ApprovalRequest
  visible_request approval_id server =
      elim (authenticate_admin_request world.jwt rd.now headers server.auth) [
        | http_error status detail ↦ http_error status detail
        | ok p ↦ elim (get_request approval_id server.kernel.approvals) [
          | none ↦ http_error 404 "Approval request not found"
          | some row ↦
              if not (allows_agent server.auth.settings p row.agent_id)
              then http_error 403 "Approval request is outside admin scope"
              else ok row
        ]
      ]

  unfoldable pub get_approval : Uuid → Server → Response ApprovalRequest
  get_approval = visible_request

  -- `approve_request` and `deny_request`
  unfoldable pub review :
      Bool → Uuid → ApprovalDecisionRequest → Server → Response ApprovalRequest × Server
  review verdict approval_id body server = elim (visible_request approval_id server) [
    | http_error status detail ↦ (http_error status detail, server)
    | ok row ↦
        let (row', db) =
          decide server.auth.settings world.env.net rd.now rd.outbox_id approval_id verdict
            body.approver_id body.comment server.kernel.approvals in
        (
          elim row' [ some (some r) ↦ ok r | _ ↦ http_error 500 "Internal Server Error" ],
          record server { kernel = record server.kernel { approvals = db } },
        )
  ]

  abbrev pub approve_request :
      Uuid → ApprovalDecisionRequest → Server → Response ApprovalRequest × Server
  approve_request = review true

  abbrev pub deny_request :
      Uuid → ApprovalDecisionRequest → Server → Response ApprovalRequest × Server
  deny_request = review false

  abbrev replay_response : ReplayReply → Response ActionResponse
  replay_response (answered response) = ok response
  replay_response (refused not_found) = http_error 500 "Internal Server Error"
  replay_response (refused not_approved) = http_error 400 "Approval request is not approved"
  replay_response (refused expired) = http_error 400 "Approval request expired"

  unfoldable pub replay_approved_request : Uuid → Server → Response ActionResponse × Server
  replay_approved_request approval_id server = elim (visible_request approval_id server) [
    | http_error status detail ↦ (http_error status detail, server)
    | ok row ↦
        let (reply, kernel) = replay_approved (env_of world server) rd approval_id server.kernel in
        (replay_response reply, record server { kernel = kernel })
  ]

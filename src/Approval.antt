-- ===== src/Approval.antt =====
-- src/constrail/approval.py: approval requests, and the webhooks that report them.
-- One reading of the clock, `now`, and the new identifiers are arguments of an operation. What the
-- receiver of the webhooks answers is the parameter `net`, from the POST requests so far.
-- The signature header of a POST is left out.
pub mod Outbox
pub mod Laws
pub mod Decide
pub mod Create
pub mod Attempts
pub mod Queries
pub mod Distinct
pub mod Drain
pub mod Refinement
use constrails.Prelude.{
  ℕ, ◌+◌, ◌*◌, String, Bool, true, false, not, ◌&&◌, ◌||◌, Option, none, some, List, [], ◌∷◌, ◌++◌,
  ◌==◌, ◌≡◌, if◌then◌else◌, or_default, leb, ltb, nat_eq, truthy, find, keep, update_first, sort_by,
}
use constrails.Models.{Uuid, Time, Float, Dict, RiskLevel, PolicyEvaluation}
use constrails.Config.{Settings}

pub data WebhookStatus : Type 0 where
  not_configured pending delivered failed exhausted : WebhookStatus

pub record ApprovalRequest : Type 0 where
  pub approval_id : Uuid
  pub request_id : Uuid
  pub agent_id : String
  pub tool : String
  pub parameters : Dict
  pub risk_score : Float
  pub risk_level : RiskLevel
  pub policy_evaluation : PolicyEvaluation
  pub created_at : Time
  pub expires_at : Option Time
  pub approved : Option Bool
  pub approver_id : Option String
  pub reviewed_at : Option Time
  pub review_comment : Option String
  pub webhook_delivery_status : WebhookStatus
  pub webhook_delivery_attempts : ℕ
  pub webhook_last_attempt_at : Option Time
  pub webhook_last_response_code : Option ℕ
  pub webhook_last_error : Option String

pub data Event : Type 0 where
  created approved denied retry : Event

pub data Status : Type 0 where
  is_approved is_denied is_pending : Status

-- The body of a webhook, with the fields that depend on the event or on the row as options.
pub record Payload : Type 0 where
  pub event : Event
  pub approval_id : Uuid
  pub request_id : Uuid
  pub agent_id : String
  pub tool : String
  pub status : Status
  pub webhook_delivery_attempts : ℕ
  pub risk : Option (Float × RiskLevel)
  pub approver_id : Option String
  pub review_comment : Option String
  pub last_delivery : Option (WebhookStatus × Option String)

pub data DeliveryStatus : Type 0 where
  waiting sent broken : DeliveryStatus

pub record OutboxItem : Type 0 where
  pub outbox_id : Uuid
  pub approval_id : Uuid
  pub event_type : Event
  pub payload : Payload
  pub delivery_status : DeliveryStatus
  pub attempt_count : ℕ
  pub last_attempt_at : Option Time
  pub last_error : Option String
  pub created_at : Time
  pub delivered_at : Option Time

-- How a POST ended: a response, or an exception with its text.
pub data Answer : Type 0 where
  response : Option ℕ → Answer
  raised : String → Answer

-- The two tables, and the POST requests made so far, the last first.
pub record ApprovalDb : Type 0 where
  pub approvals : List ApprovalRequest
  pub outbox : List OutboxItem
  pub posts : List Payload

-- What `urllib` does: `refuses` gives the text of the exception that `Request` raises at an address, if it
-- raises one, as at an address without a scheme; `post` ends a POST, after those made so far.
pub record Net : Type 0 where
  pub refuses : String → Option String
  pub post : List Payload → Payload → Answer

abbrev pub webhook_url : Settings → String
webhook_url settings = or_default settings.approval_webhook_url ""

-- The address of the webhook, if there is one, is one that `Request` takes.
abbrev pub Sendable : Settings → Net → Type 0
Sendable settings net =
    truthy settings.approval_webhook_url ≡ true → net.refuses (webhook_url settings) ≡ none

abbrev pub by_id : Uuid → ApprovalRequest → Bool
by_id approval_id a = nat_eq a.approval_id approval_id

abbrev pub by_request : Uuid → ApprovalRequest → Bool
by_request request_id a = nat_eq a.request_id request_id

unfoldable pub get_request : Uuid → ApprovalDb → Option ApprovalRequest
get_request approval_id db = find (by_id approval_id) db.approvals

unfoldable pub status_for : ApprovalRequest → Status
status_for a = elim a.approved [ none ↦ is_pending | some b ↦ if b then is_approved else is_denied ]

abbrev truthy_only : Option String → Option String
truthy_only t = if truthy t then t else none

abbrev is_created : Event → Bool
is_created created = true
is_created _ = false

unfoldable pub build_event_payload : ApprovalRequest → Event → Payload
unfolding status_for
build_event_payload a event = record {
  event = event;
  approval_id = a.approval_id;
  request_id = a.request_id;
  agent_id = a.agent_id;
  tool = a.tool;
  status = status_for a;
  webhook_delivery_attempts = a.webhook_delivery_attempts;
  risk = if is_created event then some (a.risk_score, a.risk_level) else none;
  approver_id = truthy_only a.approver_id;
  review_comment = truthy_only a.review_comment;
  last_delivery = none;
}

unfoldable pub build_retry_payload : ApprovalRequest → Payload
unfolding build_event_payload
build_retry_payload a = record (build_event_payload a retry) {
  last_delivery = some (a.webhook_delivery_status, a.webhook_last_error);
}

unfoldable pub enqueue_webhook : Time → Uuid → Uuid → Event → Payload → ApprovalDb → ApprovalDb
enqueue_webhook now outbox_id approval_id event payload db =
    let item : OutboxItem = record {
      outbox_id = outbox_id;
      approval_id = approval_id;
      event_type = event;
      payload = payload;
      delivery_status = waiting;
      attempt_count = 0;
      last_attempt_at = none;
      last_error = none;
      created_at = now;
      delivered_at = none;
    } in
    record db { outbox = db.outbox ++ item ∷ [] }

abbrev pub delivery_of :
    Time → WebhookStatus → Option ℕ → Option String → ApprovalRequest → ApprovalRequest
delivery_of now status code error a = record a {
  webhook_delivery_status = status;
  webhook_delivery_attempts = a.webhook_delivery_attempts + 1;
  webhook_last_attempt_at = some now;
  webhook_last_response_code = code;
  webhook_last_error = error;
}

unfoldable pub record_webhook_delivery :
    Time → Uuid → WebhookStatus → Option ℕ → Option String → ApprovalDb → ApprovalDb
record_webhook_delivery now approval_id status code error db = record db {
  approvals = update_first (by_id approval_id) (delivery_of now status code error) db.approvals;
}

abbrev pub or_text : Option String → String → Option String
or_text t d = if truthy t then t else some d

abbrev pub exhaust : ApprovalRequest → ApprovalRequest
exhaust a = record a {
  webhook_delivery_status = exhausted;
  webhook_last_error = or_text a.webhook_last_error "max webhook attempts reached";
}

-- What `_emit_webhook` records of the answer, with the number of attempts before it.
unfoldable pub record_answer : Settings → Time → Uuid → ℕ → Bool → Answer → ApprovalDb → ApprovalDb
unfolding record_webhook_delivery
record_answer settings now approval_id attempts allow_exhausted (response code) db =
    record_webhook_delivery now approval_id delivered code none db
record_answer settings now approval_id attempts allow_exhausted (raised error) db =
    let status : WebhookStatus =
      if allow_exhausted
      then failed
      else if ltb (attempts + 1) settings.approval_webhook_max_attempts
      then failed
      else exhausted in
    record_webhook_delivery now approval_id status none (some error) db

-- `false` is the exception of `Request`, which is built outside the `try`.
unfoldable pub emit_webhook :
    Settings → Net → Time → Uuid → Payload → Bool → ApprovalDb → Bool × ApprovalDb
unfolding record_answer get_request
emit_webhook settings net now approval_id payload allow_exhausted db =
    if not (truthy settings.approval_webhook_url)
    then (true, db)
    else elim (get_request approval_id db) [
      | none ↦ (true, db)
      | some a ↦
          let attempts = a.webhook_delivery_attempts in
          if leb settings.approval_webhook_max_attempts attempts && not allow_exhausted
          then (
            true,
            record db { approvals = update_first (by_id approval_id) exhaust db.approvals },
          )
          else elim (net.refuses (webhook_url settings)) [
            | some error ↦ (false, db)
            | none ↦ (
              true,
              record_answer settings now approval_id attempts allow_exhausted
                  (net.post db.posts payload) (record db { posts = payload ∷ db.posts }),
            )
          ]
    ]

-- ===== src/Examples/Approvals.antt =====
-- Approval requests: a table with one request, a decision on it, and a second request.
use constrails.Prelude.{arith, false, true, none, some, [], ◌∷◌, ◌≡◌, refl, nat_eq, if◌then◌else◌}
use mathlib.Core.Option
use constrails.Models.{low, approval_required}
use constrails.Config.{Settings, default_settings}
use constrails.Approval.{ApprovalRequest, ApprovalDb, pending, get_request}
use constrails.Approval.Outbox.{create_request, decide}
use constrails.Approval.Laws.{core}
use constrails.Approval.Decide.{get_request-decide}
use constrails.Approval.Attempts.{IsWithin, attempts-IsWithin}
use constrails.Examples.Data.{net, delete_request}

abbrev pub settings : Settings
settings = record default_settings {
  approval_webhook_url = some "https://hooks.example.com";
  approval_outbox_auto_drain = true;
}

abbrev pub request : ApprovalRequest
request = record {
  approval_id = 7;
  request_id = 2;
  agent_id = "alice";
  tool = "delete_file";
  parameters = delete_request.call.parameters;
  risk_score = 0;
  risk_level = low;
  policy_evaluation = record { decision = approval_required; rule_ids = []; message = none };
  created_at = 0;
  expires_at = none;
  approved = none;
  approver_id = none;
  reviewed_at = none;
  review_comment = none;
  webhook_delivery_status = pending;
  webhook_delivery_attempts = 0;
  webhook_last_attempt_at = none;
  webhook_last_response_code = none;
  webhook_last_error = none;
}

abbrev again : ApprovalRequest
again = record request { approval_id = 9; tool = "write_file" }

abbrev another : ApprovalRequest
another = record again { request_id = 3 }

abbrev empty : ApprovalDb
empty = record { approvals = []; outbox = []; posts = [] }

abbrev pub db : ApprovalDb
db = record { approvals = request ∷ []; outbox = []; posts = [] }

get_request-decide_example :
    Option.map core (get_request 7 (decide settings net 100 8 7 true "bob" none db).1) ≡ (
      if nat_eq 7 7
      then Option.map
          (λ a. record (core a) {
            approved = some true;
            approver_id = some "bob";
            reviewed_at = some 100;
            review_comment = none;
          })
          (get_request 7 db)
      else Option.map core (get_request 7 db))
get_request-decide_example = get_request-decide settings net 100 8 7 true "bob" none 7 db

none_sent : IsWithin settings net 100 db
none_sent = (omega arith, tt)

attempts-IsWithin_example :
    IsWithin settings net 100 (create_request settings net 100 8 another db).1
    × IsWithin settings net 100 (decide settings net 100 8 7 false "bob" none db).1
attempts-IsWithin_example =
    attempts-IsWithin settings net 100 8 7 false "bob" none another db refl none_sent

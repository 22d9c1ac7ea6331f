-- ===== src/Examples/KernelRuns.antt =====
-- Requests and replays in the example's world.
use constrails.Prelude.{
  length, true, false, none, some, [], ◌∷◌, ◌≡◌, ◌≢◌, ◌⊎◌, ◌↔◌, refl, arith, ◌==◌, lookup, concat,
  find, rstrip, codes_eq, is_prefix, any, member, all, count, insert, truthy,
}
use constrails.Models.{ActionResponse, allow, approval_required, sandbox, low, high, critical}
use constrails.Capability.{find_manifest, manifest_key, text_arg, path_allowed, under}
use constrails.Capability.Paths.{
  normpath, leading, parts_of, push_all, push_part, split_slash, join_slash, reverse_onto,
  is_absolute,
}
use constrails.Capability.Manager.{
  is_tool_allowed, allowance_permits, allowed_check, deny_check, path_check, domain_check,
  command_check, constraint, keys,
}
use constrails.Config.{default_settings}
use constrails.Kernel.{
  Env, Reading, State, SandboxExecution, normalize_call, rate_limit, exceeded, execute_tool, audit,
  sandbox_id_of, tool_broker, determine_final_decision,
}
use constrails.Kernel.Decisions.{is_gated, determine-eq-allow_iff}
use constrails.Kernel.Execution.{permitted, process-trace}
use constrails.Kernel.Gates.{process-gated_waits, process_ignores_policy}
use constrails.Kernel.Process.{assessed, process}
use constrails.Kernel.Trail.{Logged, process-Logged}
use constrails.Kernel.Refused.{Unanswered, process-Unanswered}
use constrails.Approval.{ApprovalRequest, not_configured, response, get_request}
use constrails.Kernel.Replay.{
  Refusal, answered, refused, replay_request, replay_approved, run_approved, record_execution,
}
use constrails.Kernel.Replay.Repeats.{InTime, replays, replays_any_number}
use constrails.Kernel.Replay.Laws.{
  IsGranted, Granted, replay_approved-IsGranted, replay_approved-answered,
}
use constrails.Broker.{execute, execute_direct, register_adapter}
use constrails.Risk.{assess}
use constrails.RateLimits.{record_and_check, thresholds}
use constrails.Examples.Data.{
  env, lenient_env, reading, denying, empty_state, read_request, delete_request, env_with,
}

process-trace_example :
    ((process env reading read_request empty_state).1.trace ≡ [])
    ⊎ (permitted env reading read_request ≡ some true)
      × ((process env reading read_request empty_state).1.trace
          ≡ normalize_call read_request.call ∷ [])
      × (r : ActionResponse) × ((process env reading read_request empty_state).0 ≡ some r)
      × ((r.decision ≡ allow) ⊎ (r.decision ≡ sandbox))
process-trace_example = process-trace env reading read_request empty_state

process-gated_waits_example : (process env reading delete_request empty_state).1.trace ≡ []
unfolding member ◌==◌
process-gated_waits_example =
    process-gated_waits env reading delete_request empty_state refl refl
      (unfold constrails.Kernel.limited_decision in ground arith)

delete_is_permitted : permitted lenient_env denying delete_request ≡ some true
unfolding is_tool_allowed allowance_permits allowed_check deny_check path_check domain_check
    command_check constraint keys find_manifest manifest_key text_arg path_allowed under normpath
    leading parts_of push_all push_part split_slash join_slash reverse_onto is_absolute ◌==◌ lookup
    concat find any all member rstrip codes_eq is_prefix
delete_is_permitted = refl

is_low_risk : (assessed lenient_env denying delete_request empty_state).risk.level ≡ low
unfolding assessed assess ◌==◌
is_low_risk = refl

within_quota : exceeded (rate_limit lenient_env.settings 1000 delete_request []).0 ≡ false
unfolding rate_limit record_and_check ◌==◌ lookup thresholds count
within_quota = refl

process_ignores_policy_example :
    (process lenient_env denying delete_request empty_state).1.trace
    ≡ normalize_call delete_request.call ∷ []
unfolding member ◌==◌
process_ignores_policy_example =
    process_ignores_policy lenient_env denying delete_request empty_state delete_is_permitted refl
      refl is_low_risk within_quota

process-Logged_example :
    Logged lenient_env denying delete_request []
      (process lenient_env denying delete_request empty_state)
unfolding get_request find
process-Logged_example =
    process-Logged lenient_env denying delete_request refl (λ on. refl) empty_state
      delete_is_permitted refl

-- The webhook has an address without a scheme, which is refused.
abbrev misconfigured : Env
misconfigured =
    record (env_with
      (record default_settings { approval_webhook_url = some "hooks.example.com" })) {
        net = record {
          refuses = λ url. some "unknown url type";
          post = λ posts payload. response (some 200);
        };
      }

has_url : truthy misconfigured.settings.approval_webhook_url ≡ true
unfolding ◌==◌
has_url = refl

misconfigured_permits : permitted misconfigured reading delete_request ≡ some true
unfolding is_tool_allowed allowance_permits allowed_check deny_check path_check domain_check
    command_check constraint keys find_manifest manifest_key text_arg path_allowed under normpath
    leading parts_of push_all push_part split_slash join_slash reverse_onto is_absolute ◌==◌ lookup
    concat find any all member rstrip codes_eq is_prefix
misconfigured_permits = refl

in_quota : exceeded (rate_limit misconfigured.settings 1000 delete_request []).0 ≡ false
unfolding rate_limit record_and_check ◌==◌ lookup thresholds count
in_quota = refl

process-Unanswered_example :
    Unanswered misconfigured reading delete_request empty_state
      (process misconfigured reading delete_request empty_state)
unfolding member find get_request ◌==◌
process-Unanswered_example =
    process-Unanswered misconfigured reading delete_request "unknown url type" has_url refl
      (omega arith) empty_state misconfigured_permits refl refl in_quota refl refl

determine-eq-allow_iff_example :
    (determine_final_decision default_settings "read_file" allow high ≡ allow)
    ↔ ((allow ≡ allow) × (high ≢ critical) × (is_gated "read_file" ≡ false))
determine-eq-allow_iff_example = determine-eq-allow_iff default_settings "read_file" allow high

-- An approval of the deletion, granted and without an end.
abbrev approval : ApprovalRequest
approval = record {
  approval_id = 7;
  request_id = 2;
  agent_id = "alice";
  tool = "delete_file";
  parameters = delete_request.call.parameters;
  risk_score = 0;
  risk_level = low;
  policy_evaluation = record { decision = approval_required; rule_ids = []; message = none };
  created_at = 0;
  expires_at = none;
  approved = some true;
  approver_id = some "bob";
  reviewed_at = some 10;
  review_comment = none;
  webhook_delivery_status = not_configured;
  webhook_delivery_attempts = 0;
  webhook_last_attempt_at = none;
  webhook_last_response_code = none;
  webhook_last_error = none;
}

abbrev pub granted_state : State
granted_state = record empty_state {
  approvals = record { approvals = approval ∷ []; outbox = []; posts = [] };
}

replay_trace :
    (replay_approved env reading 7 granted_state).1.trace
    ≡ normalize_call (replay_request env reading approval).call ∷ []
unfolding replay_approved get_request find run_approved audit record_execution sandbox_id_of lookup
    execute_tool execute execute_direct tool_broker register_adapter insert normalize_call
    replay_request ◌==◌
replay_trace = refl

replay_runs : (replay_approved env reading 7 granted_state).1.trace ≢ []
replay_runs h = ground (arith, replay_trace)

replay_approved-IsGranted_example :
    (a : ApprovalRequest) × IsGranted env reading 7 granted_state a
    × ((replay_approved env reading 7 granted_state).1.trace
        ≡ normalize_call (replay_request env reading a).call ∷ [])
replay_approved-IsGranted_example =
    replay_approved-IsGranted env reading 7 granted_state replay_runs

replay_approved-answered_example :
    (Granted env reading 7 granted_state
      → (r : ActionResponse) × ((replay_approved env reading 7 granted_state).0 ≡ answered r))
    × (¬ Granted env reading 7 granted_state
        → (reason : Refusal) × (replay_approved env reading 7 granted_state
            ≡ (refused reason, granted_state)))
replay_approved-answered_example = replay_approved-answered env reading 7 granted_state

approval_found : get_request 7 granted_state.approvals ≡ some approval
unfolding get_request find
approval_found = refl

has_adapter : lookup "delete_file" (tool_broker env) ≢ none
unfolding tool_broker register_adapter insert lookup ◌==◌
has_adapter h = cc

two-InTime : InTime env 7 approval (reading ∷ reading ∷ [])
unfolding InTime
two-InTime = (refl, (refl, tt))

replays_any_number_example :
    ((replays env 7 approval (reading ∷ reading ∷ []) granted_state).approvals
      ≡ granted_state.approvals)
    × (length (replays env 7 approval (reading ∷ reading ∷ []) granted_state).trace ≡ 2)
replays_any_number_example =
    replays_any_number env 7 approval granted_state (reading ∷ reading ∷ []) approval_found refl
      has_adapter (λ h. cc) two-InTime

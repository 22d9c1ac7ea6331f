-- ===== src/Examples/Monitoring.antt =====
-- The metrics of a state with twelve quota events, ten of them of the last hour.
use constrails.Prelude.{none, [], ◌∷◌, ◌≡◌, ◌==◌, refl, concat, show, count, keep, contains}
use constrails.Models.{Time}
use constrails.Config.{default_settings}
use constrails.Kernel.{State}
use constrails.RateLimits.{QuotaEvent, summary, selected, seconds}
use constrails.Sandbox.{sandbox_health, checks_of, production_ready}
use constrails.Approval.Queries.{outbox_summary}
use constrails.Metrics.{get_metrics_snapshot, metrics_lines}
use constrails.Examples.Data.{host}
use constrails.Examples.Data.{empty_state}

abbrev event_at : Time → QuotaEvent
event_at time = record {
  agent_id = "a";
  tenant_id = none;
  tool = "read_file";
  event_type = "request";
  created_at = time;
}

abbrev busy : State
busy = record empty_state {
  quota =
      event_at 1
      ∷ event_at 2
      ∷ event_at (seconds 5000)
      ∷ event_at (seconds 5000)
      ∷ event_at (seconds 5000)
      ∷ event_at (seconds 5000)
      ∷ event_at (seconds 5000)
      ∷ event_at (seconds 5000)
      ∷ event_at (seconds 5000)
      ∷ event_at (seconds 5000)
      ∷ event_at (seconds 5000)
      ∷ event_at (seconds 5000)
      ∷ [];
}

metrics_lines_test :
    metrics_lines (get_metrics_snapshot default_settings host (seconds 5000) busy)
    ≡ "# HELP constrail_approval_outbox_total Total approval outbox items"
      ∷ "# TYPE constrail_approval_outbox_total gauge" ∷ "constrail_approval_outbox_total 0"
      ∷ "constrail_approval_outbox_pending 0" ∷ "constrail_approval_outbox_failed 0"
      ∷ "constrail_approval_outbox_delivered 0"
      ∷ "# HELP constrail_quota_events_total Total quota events persisted"
      ∷ "# TYPE constrail_quota_events_total gauge" ∷ "constrail_quota_events_total 12"
      ∷ "constrail_quota_events_last_hour 10"
      ∷ "# HELP constrail_audit_records_total Total audit records persisted"
      ∷ "# TYPE constrail_audit_records_total gauge" ∷ "constrail_audit_records_total 0"
      ∷ "constrail_audit_records_last_hour 0"
      ∷ "# HELP constrail_sandbox_executions_total Total sandbox executions persisted"
      ∷ "# TYPE constrail_sandbox_executions_total gauge" ∷ "constrail_sandbox_executions_total 0"
      ∷ "constrail_sandbox_failed_total 0"
      ∷ "# HELP constrail_sandbox_production_ready Whether sandbox posture is production ready"
      ∷ "# TYPE constrail_sandbox_production_ready gauge" ∷ "constrail_sandbox_production_ready 0"
      ∷ []
unfolding get_metrics_snapshot metrics_lines concat show sandbox_health checks_of production_ready
    summary selected outbox_summary count keep contains ◌==◌
metrics_lines_test = refl

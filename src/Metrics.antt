-- ===== src/Metrics.antt =====
-- src/constrail/metrics.py: the counts over the tables, as data and as the text that Prometheus reads.
-- `now` is the clock's reading.
use constrails.Prelude.{
  ℕ, ◌-◌, String, Bool, none, some, List, [], ◌∷◌, not, if◌then◌else◌, leb, count, length, show,
  concat,
}
use constrails.Models.{Time}
use constrails.Config.{Settings}
use constrails.Audit.{AuditRecord}
use constrails.RateLimits.{QuotaSummary, seconds, summary}
use constrails.Approval.Queries.{OutboxSummary, outbox_summary}
use constrails.Sandbox.{Host, SandboxHealth, sandbox_health, join}
use constrails.Kernel.{SandboxExecution, State}

pub record Metrics : Type 0 where
  pub approvals : OutboxSummary
  pub quotas_last_hour : QuotaSummary
  pub quota_events_total : ℕ
  pub quota_events_last_hour : ℕ
  pub audit_records_total : ℕ
  pub audit_records_last_hour : ℕ
  pub sandbox_executions_total : ℕ
  pub sandbox_failed_total : ℕ
  pub sandbox_health : SandboxHealth

abbrev started_since : Time → AuditRecord → Bool
started_since start row = leb start row.start_time

abbrev is_failed_run : SandboxExecution → Bool
is_failed_run row = not row.completed

unfoldable pub get_metrics_snapshot : Settings → Host → Time → State → Metrics
get_metrics_snapshot settings host now st =
    let quota_summary = summary now none none (some 3600) st.quota in
    record {
      approvals = outbox_summary st.approvals;
      quotas_last_hour = quota_summary;
      quota_events_total = length st.quota;
      quota_events_last_hour = quota_summary.total_events;
      audit_records_total = length st.audit;
      audit_records_last_hour = count (started_since (now - seconds 3600)) st.audit;
      sandbox_executions_total = length st.sandboxes;
      sandbox_failed_total = count is_failed_run st.sandboxes;
      sandbox_health = sandbox_health settings host;
    }

-- A line that gives a name its value.
abbrev sample : String → ℕ → String
sample name value = concat (name ∷ " " ∷ show value ∷ [])

unfoldable pub metrics_lines : Metrics → List String
metrics_lines snapshot =
    "# HELP constrail_approval_outbox_total Total approval outbox items"
    ∷ "# TYPE constrail_approval_outbox_total gauge"
    ∷ sample "constrail_approval_outbox_total" snapshot.approvals.total
    ∷ sample "constrail_approval_outbox_pending" snapshot.approvals.pending_count
    ∷ sample "constrail_approval_outbox_failed" snapshot.approvals.failed_count
    ∷ sample "constrail_approval_outbox_delivered" snapshot.approvals.delivered_count
    ∷ "# HELP constrail_quota_events_total Total quota events persisted"
    ∷ "# TYPE constrail_quota_events_total gauge"
    ∷ sample "constrail_quota_events_total" snapshot.quota_events_total
    ∷ sample "constrail_quota_events_last_hour" snapshot.quota_events_last_hour
    ∷ "# HELP constrail_audit_records_total Total audit records persisted"
    ∷ "# TYPE constrail_audit_records_total gauge"
    ∷ sample "constrail_audit_records_total" snapshot.audit_records_total
    ∷ sample "constrail_audit_records_last_hour" snapshot.audit_records_last_hour
    ∷ "# HELP constrail_sandbox_executions_total Total sandbox executions persisted"
    ∷ "# TYPE constrail_sandbox_executions_total gauge"
    ∷ sample "constrail_sandbox_executions_total" snapshot.sandbox_executions_total
    ∷ sample "constrail_sandbox_failed_total" snapshot.sandbox_failed_total
    ∷ "# HELP constrail_sandbox_production_ready Whether sandbox posture is production ready"
    ∷ "# TYPE constrail_sandbox_production_ready gauge"
    ∷ sample "constrail_sandbox_production_ready"
        (if snapshot.sandbox_health.production_ready then 1 else 0)
    ∷ []

unfoldable pub render_prometheus_metrics : Settings → Host → Time → State → String
render_prometheus_metrics settings host now st =
    concat (join "\n" (metrics_lines (get_metrics_snapshot settings host now st)) ∷ "\n" ∷ [])

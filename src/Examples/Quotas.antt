-- ===== src/Examples/Quotas.antt =====
-- Quota events: an agent with one call in the window and one long before.
use constrails.Prelude.{ℕ, ◌≤◌, String, true, none, some, List, [], ◌∷◌, ◌≡◌, ◌↔◌, arith}
use constrails.Config.{Settings, default_settings}
use constrails.RateLimits.{
  QuotaEvent, record_and_check, prune_events, tenant_threshold_of, tool_threshold_of,
}
use constrails.RateLimits.Laws.{
  limit_for, prior_for, record_and_check-blocked_iff, record_and_check-prune_events,
}

abbrev settings : Settings
settings = record default_settings { rate_limit_tool_thresholds = some (("exec", 1) ∷ []) }

abbrev event : String → ℕ → QuotaEvent
event tool at = record {
  agent_id = "alice";
  tenant_id = some "default";
  tool = tool;
  event_type = "action";
  created_at = at;
}

abbrev events : List QuotaEvent
events = event "read_file" 5 ∷ event "exec" 500000000 ∷ []

-- The limit that holds is the tool's.
record_and_check-blocked_iff_example :
    ((record_and_check settings 500000001 "alice" (some "default") "exec" "action" events).0.blocked
      ≡ true)
    ↔ (limit_for settings 500000001 "alice"
          (some "default")
          "exec"
          "action"
          (tenant_threshold_of settings (some "default"))
          (tool_threshold_of settings "exec")
        ≤ prior_for settings 500000001 "alice"
            (some "default")
            "exec"
            "action"
            (tenant_threshold_of settings (some "default"))
            (tool_threshold_of settings "exec")
            events)
record_and_check-blocked_iff_example =
    record_and_check-blocked_iff settings 500000001 "alice" (some "default") "exec" "action" events

record_and_check-prune_events_example :
    (record_and_check settings 500000001 "alice" none "exec" "action"
      (prune_events 500000000 100 events).1).0
    ≡ (record_and_check settings 500000001 "alice" none "exec" "action" events).0
record_and_check-prune_events_example =
    record_and_check-prune_events settings 500000000 500000001 100 "alice" none "exec" "action"
      events (omega arith) (omega arith)

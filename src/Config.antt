-- ===== src/Config.antt =====
-- src/constrail/config.py: the settings that the modelled components read, with their defaults.
-- The two threshold tables are JSON texts in the source, and are read here as parsed: `none` is a
-- text that does not parse.
use constrails.Prelude.{ℕ, String, Bool, true, false, Option, none, some, List, []}
use constrails.Models.{Float}

pub record Settings : Type 0 where
  pub secret_key : String
  pub previous_secret_key : Option String
  pub token_expire_minutes : ℕ
  pub token_issuer : String
  pub token_audience : String
  pub agent_api_key : String
  pub admin_api_key : String
  pub agent_tenant_id : Option String
  pub agent_namespace : Option String
  pub admin_tenant_id : Option String
  pub admin_namespace : Option String
  pub sandbox_type : String
  pub sandbox_strict_mode : Bool
  pub docker_socket : Option String
  pub sandbox_image : String
  pub sandbox_timeout_seconds : ℕ
  pub sandbox_memory_limit_mb : ℕ
  pub sandbox_require_image_digest : Bool
  pub sandbox_allow_host_network : Bool
  pub sandbox_workspace_mount_readonly : Bool
  pub sandbox_tmpfs_size_mb : ℕ
  pub policy_availability_mode : String
  pub opa_url : String
  pub risk_threshold_medium : Float
  pub risk_threshold_high : Float
  pub risk_threshold_critical : Float
  pub approval_webhook_url : Option String
  pub approval_auto_approve_low_risk : Bool
  pub approval_webhook_max_attempts : ℕ
  pub approval_outbox_auto_drain : Bool
  pub approval_outbox_auto_drain_limit : ℕ
  pub approval_expire_minutes : ℕ
  pub anomaly_detection_enabled : Bool
  pub anomaly_burst_threshold : ℕ
  pub rate_limit_window_seconds : ℕ
  pub rate_limit_enforcement_mode : String
  pub rate_limit_tool_thresholds : Option (List (String × ℕ))
  pub rate_limit_tenant_thresholds : Option (List (String × ℕ))
  pub exfiltration_lookback_limit : ℕ
  pub exfiltration_read_then_network_enabled : Bool

-- The defaults of the source; the three float patterns are 0.3, 0.7 and 0.9.
abbrev pub default_settings : Settings
default_settings = record {
  secret_key = "change-me-in-production";
  previous_secret_key = none;
  token_expire_minutes = 30;
  token_issuer = "constrails";
  token_audience = "constrails-api";
  agent_api_key = "dev-agent";
  admin_api_key = "dev-admin";
  agent_tenant_id = some "default";
  agent_namespace = some "dev";
  admin_tenant_id = none;
  admin_namespace = none;
  sandbox_type = "dev";
  sandbox_strict_mode = false;
  docker_socket = none;
  sandbox_image = "python:3.11-alpine";
  sandbox_timeout_seconds = 300;
  sandbox_memory_limit_mb = 512;
  sandbox_require_image_digest = false;
  sandbox_allow_host_network = false;
  sandbox_workspace_mount_readonly = true;
  sandbox_tmpfs_size_mb = 64;
  policy_availability_mode = "degraded";
  opa_url = "http://localhost:8181";
  risk_threshold_medium = 0x3FD3333333333333;
  risk_threshold_high = 0x3FE6666666666666;
  risk_threshold_critical = 0x3FECCCCCCCCCCCCD;
  approval_webhook_url = none;
  approval_auto_approve_low_risk = false;
  approval_webhook_max_attempts = 3;
  approval_outbox_auto_drain = false;
  approval_outbox_auto_drain_limit = 20;
  approval_expire_minutes = 60;
  anomaly_detection_enabled = true;
  anomaly_burst_threshold = 100;
  rate_limit_window_seconds = 60;
  rate_limit_enforcement_mode = "quarantine";
  rate_limit_tool_thresholds = some [];
  rate_limit_tenant_thresholds = some [];
  exfiltration_lookback_limit = 20;
  exfiltration_read_then_network_enabled = true;
}

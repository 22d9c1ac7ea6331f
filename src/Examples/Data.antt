-- ===== src/Examples/Data.antt =====
-- An agent with a manifest, its requests, and a world to run them in.
use constrails.Prelude.{
  ℕ, ◌+◌, ◌-◌, String, true, false, Option, none, some, List, [], ◌∷◌, ◌≡◌, refl, arith, ltb, leb,
  concat, or_default,
}
use constrails.Models.{
  Value, str, AgentIdentity, ActionRequest, low, allow, ToolResult, success, RiskAssessment,
}
use constrails.Config.{Settings, default_settings}
use constrails.Policy.{failed, replied}
use constrails.Capability.{
  AllowanceFields, ManifestFields, Manifests, CapabilityManifest, ToolAllowance,
}
use constrails.Audit.{AuditPayload, AuditEntry}
use constrails.Risk.{Floats}
use constrails.Approval.{Net, response}
use constrails.Sandbox.{Host}
use constrails.Broker.{Adapter, returned}
use constrails.Kernel.{State, Env, Reading}

abbrev pub alice : AgentIdentity
alice = record {
  agent_id = "alice";
  tenant_id = some "default";
  namespace = some "dev";
  session_id = none;
  capability_hash = none;
  trust_level = 0x3FE0000000000000;
}

-- A request of the agent, with one parameter.
abbrev pub asks : ℕ → String → String → String → ActionRequest
asks id tool name value = record {
  agent = alice;
  call = record { tool = tool; parameters = (name, str value) ∷ []; call_id = id };
  context = record { auth = none; entries = [] };
  request_id = id;
  timestamp = 0;
}

abbrev pub read_request : ActionRequest
read_request = asks 1 "read_file" "path" "/data/notes.txt"

abbrev pub delete_request : ActionRequest
delete_request = asks 2 "delete_file" "path" "/data/notes.txt"

abbrev pub network_request : ActionRequest
network_request = asks 3 "http_request" "url" "https://example.com/a"

abbrev pub unknown_request : ActionRequest
unknown_request = asks 4 "shell" "command" "ls"

abbrev pub allowance : String → List String → ToolAllowance
allowance tool prefixes = record {
  tool_name = tool;
  allowed_parameters = none;
  deny_parameters = some ("mode" ∷ []);
  max_calls_per_minute = none;
  require_approval = false;
  path_prefixes = prefixes;
  allowed_domains = [];
  command_allowlist = [];
}

abbrev pub manifest : CapabilityManifest
manifest = record {
  agent_id = "alice";
  tenant_id = some "default";
  namespace = some "dev";
  version = 1;
  allowances =
      allowance "read_file" ("/data" ∷ [])
      ∷ allowance "delete_file" ("/data" ∷ [])
      ∷ allowance "http_request" []
      ∷ [];
  expires_at = none;
}

abbrev pub manifests : Manifests
manifests = ("default::dev::alice", manifest) ∷ []

abbrev allowance_fields : AllowanceFields
allowance_fields = record {
  tool = some "read_file";
  allowed_parameters = none;
  deny_parameters = none;
  max_calls_per_minute = none;
  require_approval = none;
  path_prefixes = none;
  allowed_domains = none;
  command_allowlist = none;
}

-- What a file parses to, and a file that does not parse.
abbrev pub files : List (Option ManifestFields)
files =
    none
    ∷ some (record {
      allowances = some (allowance_fields ∷ []);
      agent_id = some "alice";
      tenant_id = some "default";
      namespace = none;
      version = none;
      expires_at = none;
    })
    ∷ []

pub ltb_irrefl : (a : ℕ) → ltb a a ≡ false
ltb_irrefl a = ground arith

pub ltb_asymm : (a b : ℕ) → ltb a b ≡ true → ltb b a ≡ false
ltb_asymm a b h = ground arith

pub leb_trans : (a b c : ℕ) → leb b a ≡ true → leb c b ≡ true → leb c a ≡ true
leb_trans a b c h k = ground arith

-- Patterns of floats that are not negative are in the order of the numbers.
abbrev pub floats : Floats
floats = record {
  add = λ a b. a + b;
  sub = λ a b. a - b;
  mul = λ a b. 0;
  lt = ltb;
  ge = λ a b. leb b a;
  repr = λ a. "x";
  fixed2 = λ a. "x";
  context_text = λ c. [];
  lt_irrefl = ltb_irrefl;
  lt_asymm = ltb_asymm;
  ge_trans = leb_trans;
  zero_lt_one = refl;
}

abbrev pub digest : AuditPayload → String
digest p = concat (p.tool ∷ "|" ∷ or_default p.prev_hash "" ∷ [])

abbrev pub net : Net
net = record { refuses = λ url. none; post = λ posts payload. response (some 200) }

abbrev pub done : ToolResult
done = record { success = true; error = none; payload = none; metadata = []; status = success }

abbrev pub adapter : Adapter
adapter trace call = returned done

abbrev pub host : Host
host = record {
  docker_path = some "/usr/bin/docker";
  docker_host = some "unix:///var/run/docker.sock";
}

abbrev pub text_of : Value → String
text_of v = "?"

abbrev pub hostname : String → Option (Option String)
hostname url = some (some "example.com")

abbrev pub env_with : Settings → Env
env_with settings = record {
  settings = settings;
  host = host;
  manifests = manifests;
  profiles = [];
  floats = floats;
  digest = digest;
  net = net;
  filesystem = adapter;
  http = adapter;
  exec = adapter;
  text_of = text_of;
  uuid_text = λ id. "id";
  hostname = hostname;
}

abbrev pub env : Env
env = env_with default_settings

-- Low risks are approved automatically.
abbrev pub lenient_env : Env
lenient_env = env_with (record default_settings { approval_auto_approve_low_risk = true })

abbrev pub reading : Reading
reading = record {
  request_id = 1;
  now = 1000;
  duration_ms = 5;
  approval_id = 7;
  outbox_id = 8;
  opa = failed;
  audit_up = true;
}

-- The policy server denies.
abbrev pub denying : Reading
denying = record reading {
  opa = replied (record { decision = some "deny"; message = none; rule_ids = none });
}

abbrev pub empty_state : State
empty_state = record {
  audit = [];
  approvals = record { approvals = []; outbox = []; posts = [] };
  quota = [];
  sandboxes = [];
  trace = [];
}

abbrev pub low_risk : RiskAssessment
low_risk = record { score = 0; level = low; factors = []; explanation = none }

abbrev pub allowed_entry : AuditEntry
allowed_entry = record {
  request_id = 1;
  risk = low_risk;
  policy = record { decision = allow; rule_ids = []; message = none };
  final_decision = allow;
  execution_result = some done;
  error = none;
  sandbox_id = none;
  duration_ms = 5;
  approval_id = none;
  approver_id = none;
  replayed_from_approval_id = none;
}

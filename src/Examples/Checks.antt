-- ===== src/Examples/Checks.antt =====
-- The checks of the policy, the capabilities, the sandbox and the broker on concrete calls.
use constrails.Prelude.{
  true, false, none, some, [], ◌∷◌, ◌≡◌, ◌≢◌, ◌↔◌, inl, refl, arith, member, ◌==◌, lookup, codes,
  is_prefix, any, concat, rstrip, codes_eq, insert,
}
use constrails.Models.{allow}
use constrails.Config.{Settings, default_settings}
use constrails.Policy.{
  OpaResult, failed, replied, evaluate, evaluate_simple, opa_enabled, evaluate_opa, decision_map,
  word,
}
use constrails.Policy.Laws.{IsOpen, evaluate_simple-eq-allow_iff, evaluate_failed-ne-allow}
use constrails.Capability.{
  find_manifest, load_manifests, path_allowed, under, manifest_key, parse_manifest,
  CapabilityManifest,
}
use constrails.Capability.Isolation.{IsFor, Plain, no_colon, find_manifest-IsFor}
use constrails.Capability.Manager.{is_tool_allowed}
use constrails.Capability.Manager.Laws.{Permits, is_tool_allowed_iff}
use constrails.Capability.Paths.{
  normpath, leading, join_slash, parts_of, reverse_onto, push_all, split_slash, push_part,
  is_absolute,
}
use constrails.Capability.Paths.Laws.{head_code}
use constrails.Capability.Paths.Containment.{IsBelow, path_allowed-IsBelow}
use constrails.Examples.Data.{
  alice, manifests, files, hostname, text_of, low_risk, read_request, delete_request,
  network_request,
}

evaluate_simple-eq-allow_iff_example :
    ((evaluate_simple text_of network_request low_risk).decision ≡ allow)
    ↔ IsOpen text_of network_request low_risk
evaluate_simple-eq-allow_iff_example = evaluate_simple-eq-allow_iff text_of network_request low_risk

abbrev strict : Settings
strict = record default_settings { policy_availability_mode = "strict" }

abbrev permission : OpaResult
permission = record { decision = some "ALLOW"; message = none; rule_ids = none }

opa_is_enabled : opa_enabled strict ≡ true
unfolding opa_enabled rstrip
opa_is_enabled = refl

opa_permits :
    (evaluate text_of strict (replied permission) delete_request low_risk).decision ≡ allow
unfolding evaluate opa_enabled rstrip evaluate_opa decision_map word
opa_permits = refl

evaluate_failed-ne-allow_example :
    (evaluate text_of strict failed delete_request low_risk).decision ≢ allow
unfolding member ◌==◌
evaluate_failed-ne-allow_example =
    evaluate_failed-ne-allow text_of strict delete_request low_risk opa_is_enabled (inl refl)
      (inl refl)

is_tool_allowed_iff_example :
    (is_tool_allowed hostname manifests alice "read_file" read_request.call.parameters ≡ some true)
    ↔ Permits hostname manifests alice "read_file" read_request.call.parameters
is_tool_allowed_iff_example =
    is_tool_allowed_iff hostname manifests alice "read_file" read_request.call.parameters

path_is_allowed : path_allowed "/data/a/../notes.txt" ("/data/" ∷ []) ≡ true
unfolding path_allowed any under codes_eq rstrip normpath leading is_prefix join_slash parts_of
    reverse_onto push_all split_slash push_part
path_is_allowed = refl

data_is_not_hidden : head_code (normpath (codes "/data/")) ≡ b'/'
unfolding codes_eq is_absolute normpath leading is_prefix join_slash parts_of reverse_onto push_all
    split_slash push_part
data_is_not_hidden = refl

path_allowed-IsBelow_example : IsBelow "/data/a/../notes.txt" ("/data/" ∷ [])
path_allowed-IsBelow_example =
    path_allowed-IsBelow "/data/a/../notes.txt" ("/data/" ∷ [])
      ((λ e. ground (arith, data_is_not_hidden, e)), tt) path_is_allowed

abbrev loaded : CapabilityManifest
loaded = record {
  agent_id = "alice";
  tenant_id = some "default";
  namespace = none;
  version = 1;
  allowances =
      record {
        tool_name = "read_file";
        allowed_parameters = none;
        deny_parameters = none;
        max_calls_per_minute = none;
        require_approval = false;
        path_prefixes = [];
        allowed_domains = [];
        command_allowlist = [];
      }
      ∷ [];
  expires_at = none;
}

alice_has_loaded : find_manifest (load_manifests [] files) alice ≡ some loaded
unfolding find_manifest lookup load_manifests insert manifest_key concat parse_manifest
alice_has_loaded = refl

alice_is_Plain : Plain alice.tenant_id alice.namespace
unfolding no_colon ◌==◌
alice_is_Plain = (refl, refl)

loaded_is_Plain : Plain loaded.tenant_id loaded.namespace
unfolding no_colon ◌==◌
loaded_is_Plain = (refl, refl)

find_manifest-IsFor_example : IsFor alice loaded
find_manifest-IsFor_example =
    find_manifest-IsFor files alice loaded alice_is_Plain loaded_is_Plain alice_has_loaded

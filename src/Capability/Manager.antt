-- ===== src/Capability/Manager.antt =====
-- src/constrail/capability/manager.py: `is_tool_allowed`.
-- The host of an address, `urlparse(url).hostname`, is the parameter `hostname`: `none` is the
-- exception of a malformed address, `some none` an address with no host.
-- A check gives `none` where it raises an exception, which the caller does not catch.
pub mod Given
pub mod Laws
use constrails.Prelude.{
  String, Option, none, some, List, [], ◌∷◌, map, Bool, true, false, not, ◌==◌, if◌then◌else◌,
  or_default, find, all, any, member, lookup,
}
use constrails.Models.{Value, Dict, AgentIdentity}
use constrails.Capability.{
  ToolAllowance, CapabilityManifest, Manifests, find_manifest, text_arg, path_allowed,
  command_allowed,
}

-- `parameters.keys()`
unfoldable pub keys : Dict → List String
keys [] = []
keys ((k, v) ∷ m) = k ∷ keys m

abbrev pub fetch {ℓ} : {A : Type ℓ} → Option A → List A
fetch none = []
fetch (some a) = a ∷ []

unfoldable pub allowed_check : Option (List String) → Dict → Bool
allowed_check none params = true
allowed_check (some names) params = all (λ p. member p names) (keys params)

unfoldable pub deny_check : Option (List String) → Dict → Bool
deny_check none params = true
deny_check (some names) params = all (λ p. not (member p names)) (keys params)

-- A constraint that is an empty list is no constraint; another wants its parameter.
unfoldable pub constraint : (String → Option Bool) → List String → Option Value → Option Bool
unfolding text_arg
constraint test [] v = some true
constraint test (x ∷ xs) v = elim (text_arg v) [
  | none ↦ none
  | some arg ↦ elim arg [ none ↦ some false | some s ↦ test s ]
]

-- One check after another: the first that fails or raises ends the method.
abbrev pub then_check : Option Bool → Option Bool → Option Bool
then_check none next = none
then_check (some false) next = some false
then_check (some true) next = next

module _ (hostname : String → Option (Option String)) where
  unfoldable pub domain_allowed : List String → String → Option Bool
  domain_allowed domains url = elim (hostname url) [
    | none ↦ none
    | some host ↦ some (member (or_default host "") domains)
  ]

  unfoldable pub path_check : ToolAllowance → Dict → Option Bool
  path_check a params =
      constraint (λ s. some (path_allowed s a.path_prefixes)) a.path_prefixes (lookup "path" params)

  unfoldable pub domain_check : ToolAllowance → Dict → Option Bool
  domain_check a params =
      constraint (domain_allowed a.allowed_domains) a.allowed_domains (lookup "url" params)

  unfoldable pub command_check : ToolAllowance → Dict → Option Bool
  command_check a params =
      constraint (λ s. some (command_allowed s a.command_allowlist)) a.command_allowlist
        (lookup "command" params)

  unfoldable pub allowance_permits : ToolAllowance → Dict → Option Bool
  allowance_permits a params = then_check (some (allowed_check a.allowed_parameters params)) (
      then_check (some (deny_check a.deny_parameters params)) (
        then_check (path_check a params)
          (then_check (domain_check a params) (command_check a params))))

  abbrev pub allowance_for : CapabilityManifest → String → Option ToolAllowance
  allowance_for m tool = find (λ a. a.tool_name == tool) m.allowances

  unfoldable pub is_tool_allowed : Manifests → AgentIdentity → String → Dict → Option Bool
  is_tool_allowed ms agent tool params = elim (find_manifest ms agent) [
    | none ↦ some false
    | some m ↦ elim (allowance_for m tool) [
      | none ↦ some false
      | some a ↦ allowance_permits a params
    ]
  ]

-- `get_allowed_tools`
unfoldable pub get_allowed_tools : Manifests → AgentIdentity → List String
get_allowed_tools ms agent = elim (find_manifest ms agent) [
  | none ↦ []
  | some m ↦ map (λ a. a.tool_name) m.allowances
]

-- ===== src/Capability.antt =====
-- src/constrail/capability/manager.py: the manifests, and the check of a tool call against them.
pub mod Paths
pub mod Manager
pub mod Isolation
use constrails.Prelude.{
  ℕ, String, Option, none, some, List, [], ◌∷◌, ◌++◌, map, Bool, true, false, not, ◌&&◌, ◌||◌, ◌==◌,
  if◌then◌else◌, or_default, opt_eq, is_some, find, any, all, member, lookup, insert, concat, codes,
  is_prefix, codes_eq, rstrip, leb, nat_eq, zero, ℤ, pos,
}
use constrails.Models.{Value, null, bool, int, float, str, arr, nil, obj, end, Dict, AgentIdentity}
use constrails.Capability.Paths.{normpath}

pub record ToolAllowance : Type 0 where
  pub tool_name : String
  pub allowed_parameters : Option (List String)
  pub deny_parameters : Option (List String)
  pub max_calls_per_minute : Option ℕ
  pub require_approval : Bool
  pub path_prefixes : List String
  pub allowed_domains : List String
  pub command_allowlist : List String

pub record CapabilityManifest : Type 0 where
  pub agent_id : String
  pub tenant_id : Option String
  pub namespace : Option String
  pub version : ℕ
  pub allowances : List ToolAllowance
  pub expires_at : Option String

-- An entry of "allowances" in a file, with the keys that it has.
pub record AllowanceFields : Type 0 where
  pub tool : Option String
  pub allowed_parameters : Option (List String)
  pub deny_parameters : Option (List String)
  pub max_calls_per_minute : Option ℕ
  pub require_approval : Option Bool
  pub path_prefixes : Option (List String)
  pub allowed_domains : Option (List String)
  pub command_allowlist : Option (List String)

pub record ManifestFields : Type 0 where
  pub allowances : Option (List AllowanceFields)
  pub agent_id : Option String
  pub tenant_id : Option String
  pub namespace : Option String
  pub version : Option ℕ
  pub expires_at : Option String

abbrev get_or {ℓ} : {A : Type ℓ} → Option A → A → A
get_or none d = d
get_or (some a) d = a

abbrev allowance_of : String → AllowanceFields → ToolAllowance
allowance_of tool f = record {
  tool_name = tool;
  allowed_parameters = f.allowed_parameters;
  deny_parameters = f.deny_parameters;
  max_calls_per_minute = f.max_calls_per_minute;
  require_approval = get_or f.require_approval false;
  path_prefixes = get_or f.path_prefixes [];
  allowed_domains = get_or f.allowed_domains [];
  command_allowlist = get_or f.command_allowlist [];
}

-- The loop of `_parse_manifest`: an entry with no tool is skipped.
unfoldable pub parse_allowances : List AllowanceFields → List ToolAllowance
parse_allowances [] = []
parse_allowances (f ∷ fs) =
    let rest = parse_allowances fs in
    elim f.tool [
      | none ↦ rest
      | some tool ↦ if tool == "" then rest else allowance_of tool f ∷ rest
    ]

unfoldable pub parse_manifest : ManifestFields → CapabilityManifest
unfolding parse_allowances
parse_manifest f = record {
  agent_id = get_or f.agent_id "unknown";
  tenant_id = f.tenant_id;
  namespace = f.namespace;
  version = get_or f.version 1;
  allowances = parse_allowances (get_or f.allowances []);
  expires_at = f.expires_at;
}

-- Text formatting of the three parts of a key.
unfoldable pub manifest_key : String → Option String → Option String → String
manifest_key agent_id tenant_id namespace =
    concat (or_default tenant_id "_" ∷ "::" ∷ or_default namespace "_" ∷ "::" ∷ agent_id ∷ [])

abbrev pub key_of : CapabilityManifest → String
key_of m = manifest_key m.agent_id m.tenant_id m.namespace

abbrev pub Manifests : Type 0
Manifests = List (String × CapabilityManifest)

-- `_load_manifests`, from what the files of the directory parse to, in the order of the listing;
-- `none` is a file that could not be read or parsed, which is reported and skipped.
unfoldable pub load_manifests : Manifests → List (Option ManifestFields) → Manifests
load_manifests ms [] = ms
load_manifests ms (file ∷ files) =
    load_manifests
      (elim file [ none ↦ ms | some f ↦ let m = parse_manifest f in insert (key_of m) m ms ]) files

-- `reload`: clear, and load again.
unfoldable pub reload : Manifests → List (Option ManifestFields) → Manifests
reload ms files = load_manifests [] files

-- The loop of `_find_manifest` over the values.
abbrev pub suits : AgentIdentity → String × CapabilityManifest → Bool
suits agent (k, m) =
    m.agent_id == agent.agent_id
    && not (
        is_some agent.tenant_id
        && not (opt_eq m.tenant_id none || opt_eq m.tenant_id agent.tenant_id))

abbrev pub value {ℓ} : {A : Type ℓ} → Option (String × A) → Option A
value none = none
value (some (k, m)) = some m

abbrev pub or_else {ℓ} : {A : Type ℓ} → Option A → Option A → Option A
or_else none other = other
or_else (some a) other = some a

unfoldable pub find_manifest : Manifests → AgentIdentity → Option CapabilityManifest
find_manifest ms agent =
    or_else (lookup (manifest_key agent.agent_id agent.tenant_id agent.namespace) ms) (
      or_else (lookup (manifest_key agent.agent_id agent.tenant_id none) ms) (
        or_else (lookup (manifest_key agent.agent_id none none) ms)
          (value (find (suits agent) ms))))

-- Python's truth of a value.
abbrev pub is_true : Value → Bool
is_true null = false
is_true (bool b) = b
is_true (int (pos zero)) = false
is_true (int _) = true
is_true (float x) = not (nat_eq x 0 || nat_eq x 0x8000000000000000)
is_true (str s) = not (s == "")
is_true (arr nil) = false
is_true (arr _) = true
is_true (obj end) = false
is_true (obj _) = true

-- The text of a truthy value: `some none` where it is missing or false, and `none` where it is no
-- text, on which the methods that the checks call raise an exception.
unfoldable pub text_arg : Option Value → Option (Option String)
text_arg none = some none
text_arg (some (str s)) = some (if s == "" then none else some s)
text_arg (some v) = if is_true v then none else some none

unfoldable pub under : List ℕ → List ℕ → Bool
under normalized base =
    codes_eq normalized base || is_prefix (rstrip b'/' base ++ b'/' ∷ []) normalized

unfoldable pub path_allowed : String → List String → Bool
path_allowed path prefixes = any (λ p. under (normpath (codes path)) (normpath (codes p))) prefixes

-- The white space that `strip` removes.
abbrev pub is_space : ℕ → Bool
is_space c =
    leb 9 c && leb c 13
    || leb 28 c && leb c 32
    || nat_eq c 0x85
    || nat_eq c 0xA0
    || nat_eq c 0x1680
    || leb 0x2000 c && leb c 0x200A
    || leb 0x2028 c && leb c 0x2029
    || nat_eq c 0x202F
    || nat_eq c 0x205F
    || nat_eq c 0x3000

unfoldable pub lstrip : List ℕ → List ℕ
lstrip [] = []
lstrip (c ∷ cs) = let rest = lstrip cs in if is_space c then rest else c ∷ cs

unfoldable pub rstrip_space : List ℕ → List ℕ
rstrip_space [] = []
rstrip_space (c ∷ cs) = elim (rstrip_space cs) [
  | [] ↦ if is_space c then [] else c ∷ []
  | d ∷ ds ↦ c ∷ d ∷ ds
]

unfoldable pub strip : List ℕ → List ℕ
unfolding lstrip rstrip_space
strip s = rstrip_space (lstrip s)

unfoldable pub command_allowed : String → List String → Bool
command_allowed command allowlist =
    let c = strip (codes command) in
    any (λ a. codes_eq c (codes a) || is_prefix (codes a ++ b' ' ∷ []) c) allowlist

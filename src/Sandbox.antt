-- ===== src/Sandbox.antt =====
-- src/constrail/sandbox.py: the posture of the sandbox, its enforcement, and the choice of an executor.
-- What the host says, the path of the docker command and the variable DOCKER_HOST, is a `Host`.
pub mod Laws
use constrails.Prelude.{
  ℕ, String, Bool, true, false, not, ◌&&◌, ◌||◌, Option, none, some, List, [], ◌∷◌, ◌++◌, ◌==◌,
  if◌then◌else◌, ltb, truthy, is_some, contains, concat,
}
use constrails.Config.{Settings}

pub record Host : Type 0 where
  pub docker_path : Option String
  pub docker_host : Option String

-- The checks of `sandbox_health`.
pub record Checks : Type 0 where
  pub docker_mode_enabled : Bool
  pub docker_cli_available : Bool
  pub image_pinned_by_digest : Bool
  pub workspace_mount_readonly : Bool
  pub host_network_disabled : Bool
  pub tmpfs_configured : Bool
  pub memory_limit_configured : Bool
  pub timeout_configured : Bool
  pub docker_socket_configured : Bool

-- `settings.docker_socket or os.environ.get('DOCKER_HOST')`
abbrev pub docker_host_of : Settings → Host → Option String
docker_host_of settings host =
    if truthy settings.docker_socket then settings.docker_socket else host.docker_host

unfoldable pub checks_of : Settings → Host → Checks
checks_of settings host = record {
  docker_mode_enabled = settings.sandbox_type == "docker";
  docker_cli_available = is_some host.docker_path;
  image_pinned_by_digest =
      contains settings.sandbox_image "@sha256:" || not settings.sandbox_require_image_digest;
  workspace_mount_readonly = settings.sandbox_workspace_mount_readonly;
  host_network_disabled = not settings.sandbox_allow_host_network;
  tmpfs_configured = ltb 0 settings.sandbox_tmpfs_size_mb;
  memory_limit_configured = ltb 0 settings.sandbox_memory_limit_mb;
  timeout_configured = ltb 0 settings.sandbox_timeout_seconds;
  docker_socket_configured =
      truthy (docker_host_of settings host) || not (settings.sandbox_type == "docker");
}

unfoldable pub production_ready : Checks → Bool
production_ready c =
    c.docker_mode_enabled && c.docker_cli_available && c.image_pinned_by_digest
    && c.workspace_mount_readonly && c.host_network_disabled && c.tmpfs_configured
    && c.memory_limit_configured && c.timeout_configured && c.docker_socket_configured

-- `if not check: warnings.append(text)`
abbrev pub warn : Bool → String → List String → List String
warn ok text rest = if ok then rest else text ∷ rest

unfoldable pub warnings_of : Checks → List String
warnings_of c = warn c.docker_mode_enabled "sandbox_type is not docker" (
    warn c.docker_cli_available "docker CLI not found" (
      warn c.image_pinned_by_digest "sandbox image is not pinned by digest" (
        warn c.workspace_mount_readonly "workspace mount is writable" (
          warn c.host_network_disabled "sandbox network is not isolated" (
            warn c.tmpfs_configured "sandbox tmpfs is not configured" (
              warn c.memory_limit_configured "sandbox memory limit is not configured" (
                warn c.timeout_configured "sandbox timeout is not configured"
                  (warn c.docker_socket_configured "docker socket/host is not configured" []))))))))

unfoldable pub join : String → List String → String
join separator [] = ""
join separator (s ∷ []) = s
join separator (s ∷ t ∷ ts) = concat (s ∷ separator ∷ join separator (t ∷ ts) ∷ [])

-- What `sandbox_health` reports. The settings that it repeats are left out.
pub record SandboxHealth : Type 0 where
  pub sandbox_image_has_digest : Bool
  pub docker_cli_found : Bool
  pub docker_path : Option String
  pub docker_socket : Option String
  pub checks : Checks
  pub production_ready : Bool
  pub warnings : List String

unfoldable pub sandbox_health : Settings → Host → SandboxHealth
sandbox_health settings host =
    let checks = checks_of settings host in
    record {
      sandbox_image_has_digest = contains settings.sandbox_image "@sha256:";
      docker_cli_found = is_some host.docker_path;
      docker_path = host.docker_path;
      docker_socket = docker_host_of settings host;
      checks = checks;
      production_ready = production_ready checks;
      warnings = warnings_of checks;
    }

-- The message of the `SandboxEnforcementError`, if one is raised.
unfoldable pub enforce_sandbox_posture : Settings → Host → String → Option String
enforce_sandbox_posture settings host operation =
    if not settings.sandbox_strict_mode
    then none
    else (let checks = checks_of settings host in
        if production_ready checks
        then none
        else some (
            concat (
              "Strict sandbox mode blocked "
              ∷ operation
              ∷ ": "
              ∷ join "; " (warnings_of checks)
              ∷ [])))

pub data Executor : Type 0 where
  dev docker : Executor

-- `get_sandbox_executor`, with the executor that was chosen before.
unfoldable pub get_sandbox_executor : Settings → Option Executor → Option Executor
get_sandbox_executor settings (some e) = some e
get_sandbox_executor settings none =
    if settings.sandbox_type == "dev"
    then some dev
    else if settings.sandbox_type == "docker"
    then some docker
    else none

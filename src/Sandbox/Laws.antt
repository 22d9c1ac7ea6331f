-- ===== src/Sandbox/Laws.antt =====
-- The posture: the verdict and the warnings agree, and strict mode lets nothing through without it.
use constrails.Prelude.{
  ◌<◌, String, true, false, none, some, ◌≡◌, ◌≢◌, ◌↔◌, ◌⊎◌, ◌==◌, arith, eq_iff, truthy, contains,
  Bool-cases, inl, inr,
}
use constrails.Config.{Settings}
use constrails.Sandbox.{
  Host, checks_of, production_ready, enforce_sandbox_posture, docker, get_sandbox_executor,
  docker_host_of,
}

-- A posture that is fit for production, as its documentation lists it.
pub record IsReady (settings : Settings) (host : Host) : Type 0 where
  pub docker_mode : settings.sandbox_type ≡ "docker"
  pub docker_cli : host.docker_path ≢ none
  pub pinned :
      settings.sandbox_require_image_digest ≡ true
      → contains settings.sandbox_image "@sha256:" ≡ true
  pub readonly : settings.sandbox_workspace_mount_readonly ≡ true
  pub isolated : settings.sandbox_allow_host_network ≡ false
  pub tmpfs : 0 < settings.sandbox_tmpfs_size_mb
  pub memory : 0 < settings.sandbox_memory_limit_mb
  pub time : 0 < settings.sandbox_timeout_seconds
  pub socket : truthy (docker_host_of settings host) ≡ true

module _ (settings : Settings) (host : Host) where
  IsReady-of_checks : production_ready (checks_of settings host) ≡ true → IsReady settings host
  unfolding production_ready checks_of
  IsReady-of_checks h =
      let e = eq_iff settings.sandbox_type "docker" in
      record {
        docker_mode = ground (arith, e);
        docker_cli = ground (arith, e);
        pinned = ground (arith, e);
        readonly = ground (arith, e);
        isolated = ground (arith, e);
        tmpfs = ground (arith, e);
        memory = ground (arith, e);
        time = ground (arith, e);
        socket = ground (arith, e);
      }

  checks_of_ready : IsReady settings host → production_ready (checks_of settings host) ≡ true
  unfolding production_ready checks_of
  checks_of_ready r = ground (arith, r.pinned, eq_iff settings.sandbox_type "docker")

  -- Enforcement lets an operation pass exactly if strict mode is off or the posture is fit: docker is
  -- the sandbox and its command is there, the image has a digest if one is required, the workspace is
  -- mounted read-only, the host's network is off, the three limits are positive, and a socket is set.
  pub enforce_sandbox_posture-eq-none_iff :
      (operation : String)
      → (enforce_sandbox_posture settings host operation ≡ none)
        ↔ ((settings.sandbox_strict_mode ≡ false) ⊎ IsReady settings host)
  unfolding enforce_sandbox_posture
  enforce_sandbox_posture-eq-none_iff operation = (
    λ h. elim (Bool-cases settings.sandbox_strict_mode) [
      | inl strict ↦ inr (IsReady-of_checks (ground arith))
      | inr lax ↦ inl lax
    ],
    λ h. elim h [ inl lax ↦ rw lax | inr ready ↦ ground (arith, checks_of_ready ready) ],
  )

  -- Where strict mode lets an operation pass and no executor was chosen before, the executor is docker.
  pub strict_executor :
      (operation : String)
      → settings.sandbox_strict_mode ≡ true
      → enforce_sandbox_posture settings host operation ≡ none
      → get_sandbox_executor settings none ≡ some docker
  unfolding get_sandbox_executor ◌==◌
  strict_executor operation strict h = elim ((enforce_sandbox_posture-eq-none_iff operation).0 h) [
    | inl lax ↦ absurd (ground arith)
    | inr ready ↦ rw ready.docker_mode
  ]

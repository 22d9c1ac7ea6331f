-- ===== src/Adapters/Docker.antt =====
-- src/constrail/sandbox.py: what the Docker executor runs, and what it reports.
-- The command, the directory and the variables are texts here. How the process ends is a parameter.
use constrails.Prelude.{
  ℕ, ℤ, String, Bool, true, false, not, ◌&&◌, Option, none, some, List, [], ◌∷◌, ◌++◌,
  if◌then◌else◌, nat_eq, concat, or_default, truthy, show, contains,
}
use constrails.Config.{Settings}
use constrails.Sandbox.{Host, docker_host_of}
use constrails.Adapters.Exec.{Execution, ran, failed}

-- The directory of the process, and whether it is one.
pub record Workspace : Type 0 where
  pub path : String
  pub is_dir : Bool

-- The arguments of `execute`.
pub record Job : Type 0 where
  pub command : String
  pub cwd : Option String
  pub env : Option (List (String × String))
  pub timeout : Option ℕ

unfoldable pub env_args : List (String × String) → List String
env_args [] = []
env_args ((key, value) ∷ env) = "-e" ∷ concat (key ∷ "=" ∷ value ∷ []) ∷ env_args env

-- `if env`: no dictionary, and an empty one, give no words.
abbrev variables : Option (List (String × String)) → List (String × String)
variables none = []
variables (some env) = env

unfoldable pub volume_args : Settings → Workspace → List String
volume_args settings workspace =
    let mount_mode = if settings.sandbox_workspace_mount_readonly then "ro" else "rw" in
    if workspace.is_dir
    then "-v" ∷ concat (workspace.path ∷ ":/workspace:" ∷ mount_mode ∷ []) ∷ []
    else []

-- `['env', f'DOCKER_HOST={docker_host}']`, where one is set
unfoldable pub prefix : Option String → List String
prefix docker_host =
    if truthy docker_host
    then "env" ∷ concat ("DOCKER_HOST=" ∷ or_default docker_host "" ∷ []) ∷ []
    else []

abbrev pub network_mode : Settings → String
network_mode settings = if not settings.sandbox_allow_host_network then "none" else "bridge"

abbrev pub tmpfs_spec : Settings → String
tmpfs_spec settings =
    concat ("/tmp:rw,noexec,nosuid,size=" ∷ show settings.sandbox_tmpfs_size_mb ∷ "m" ∷ [])

abbrev pub memory : Settings → String
memory settings = concat (show settings.sandbox_memory_limit_mb ∷ "m" ∷ [])

-- `docker run` and what follows it.
unfoldable pub run_command : Settings → Workspace → String → String → Job → List String
run_command settings workspace image sandbox_id job =
    "docker"
    ∷ "run"
    ∷ "--rm"
    ∷ "--name"
    ∷ sandbox_id
    ∷ "--network"
    ∷ network_mode settings
    ∷ "--memory"
    ∷ memory settings
    ∷ "--cpus"
    ∷ "0.5"
    ∷ "--read-only"
    ∷ "--cap-drop"
    ∷ "ALL"
    ∷ "--security-opt"
    ∷ "no-new-privileges:true"
    ∷ "--pids-limit"
    ∷ "128"
    ∷ "--tmpfs"
    ∷ tmpfs_spec settings
    ∷ "-w"
    ∷ or_default job.cwd "/workspace"
    ∷ (volume_args settings workspace
        ++ (env_args (variables job.env) ++ image ∷ "sh" ∷ "-lc" ∷ job.command ∷ []))

-- `cmd`
unfoldable pub docker_command : Settings → Host → Workspace → String → String → Job → List String
docker_command settings host workspace image sandbox_id job =
    prefix (docker_host_of settings host) ++ run_command settings workspace image sandbox_id job

-- How the process of a command line ended within a time limit; `not_started` is the error of
-- `create_subprocess_exec`.
pub data Ended : Type 0 where
  not_started : String → Ended
  timed_out : Ended
  finished : ℤ → String → String → Ended

-- `timeout or settings.sandbox_timeout_seconds`
abbrev pub time_limit : Settings → Option ℕ → ℕ
time_limit settings none = settings.sandbox_timeout_seconds
time_limit settings (some n) = if nat_eq n 0 then settings.sandbox_timeout_seconds else n

-- The messages of a download of the image are dropped.
abbrev pub shown_stderr : String → String
shown_stderr stderr =
    if contains stderr "Unable to find image" && contains stderr "Status: Downloaded newer image"
    then ""
    else stderr

-- `DockerSandboxExecutor.execute`
unfoldable pub execute :
    (List String → ℕ → Ended) → Settings → Host → Workspace → String → String → Job → Execution
unfolding docker_command
execute process settings host workspace image sandbox_id job =
    elim (process (docker_command settings host workspace image sandbox_id job)
      (time_limit settings job.timeout)) [
        | not_started e ↦ failed e
        | timed_out ↦ ran (record {
          sandbox_id = sandbox_id;
          exit_code = none;
          stdout = "";
          stderr = "";
          timeout = true;
          executor = "docker";
        })
        | finished code stdout stderr ↦ ran (record {
          sandbox_id = sandbox_id;
          exit_code = some code;
          stdout = stdout;
          stderr = shown_stderr stderr;
          timeout = false;
          executor = "docker";
        })
      ]

-- `DevSandboxExecutor.execute`: `shell` is the shell, with the command, the directory, the variables
-- and the time limit; without variables it has those of the program.
unfoldable pub execute_dev :
    (String → Option String → Option (List (String × String)) → ℕ → Ended)
    → Settings
    → String
    → Job
    → Execution
execute_dev shell settings sandbox_id job =
    elim (shell job.command job.cwd job.env (time_limit settings job.timeout)) [
      | not_started e ↦ failed e
      | timed_out ↦ ran (record {
        sandbox_id = sandbox_id;
        exit_code = none;
        stdout = "";
        stderr = "";
        timeout = true;
        executor = "dev";
      })
      | finished code stdout stderr ↦ ran (record {
        sandbox_id = sandbox_id;
        exit_code = some code;
        stdout = stdout;
        stderr = stderr;
        timeout = false;
        executor = "dev";
      })
    ]

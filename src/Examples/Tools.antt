-- ===== src/Examples/Tools.antt =====
-- Calls of the adapters, on a world of one file.
use constrails.Prelude.{
  concat, show, pos, Bool, true, false, none, some, [], ◌∷◌, ◌++◌, ◌≡◌, ◌↔◌, refl, is_some, ◌&&◌,
  lookup, ◌==◌,
}
use constrails.Models.{str, obj, field, end, low, ToolCall, ActionRequest, allow}
use constrails.Config.{default_settings}
use constrails.Capability.{is_true}
use constrails.Kernel.{execute_tool}
use constrails.Adapters.Exec
use constrails.Adapters.Exec.{
  SandboxExecutor, SandboxExecutionResult, ran, Clean, execute-success_iff,
}
use constrails.Adapters.Docker.{Workspace, Job, run_command, volume_args, env_args}
use constrails.Adapters.Filesystem
use constrails.Adapters.Filesystem.{Parts, Files, Messages, value, relative_to, world_after}
use constrails.Adapters.Filesystem.Effects.{
  Confined, execute-Confined, execute_tool-read_file_deletes,
}
use constrails.Adapters.Http.{Words, HttpRequest, request, prepare, with_body, with_content_type}
use constrails.Adapters.Http.Laws.{prepare-body}
use constrails.Examples.Data.{env, read_request, text_of}

abbrev list_files : ToolCall
list_files = record { tool = "exec"; parameters = ("command", str "ls") ∷ []; call_id = 1 }

abbrev ended : SandboxExecutionResult
ended = record {
  sandbox_id = "box";
  exit_code = some (pos 0);
  stdout = "";
  stderr = "";
  timeout = false;
  executor = "docker";
}

abbrev shell_box : SandboxExecutor
shell_box command cwd variables timeout = ran ended

execute-success_iff_example :
    ((Exec.execute (some shell_box) false list_files).success ≡ true)
    ↔ Clean (some shell_box) list_files
execute-success_iff_example = execute-success_iff (some shell_box) false list_files

abbrev workspace : Workspace
workspace = record { path = "/srv"; is_dir = true }

-- The command and a variable try to be options.
abbrev job : Job
job = record {
  command = "--privileged";
  cwd = none;
  env = some (("A", "1 --network host") ∷ []);
  timeout = none;
}

run_command_test :
    run_command default_settings workspace "python:3.11-alpine" "box" job
    ≡ "docker" ∷ "run" ∷ "--rm" ∷ "--name" ∷ "box" ∷ "--network" ∷ "none" ∷ "--memory" ∷ "512m"
      ∷ "--cpus" ∷ "0.5" ∷ "--read-only" ∷ "--cap-drop" ∷ "ALL" ∷ "--security-opt"
      ∷ "no-new-privileges:true" ∷ "--pids-limit" ∷ "128" ∷ "--tmpfs"
      ∷ "/tmp:rw,noexec,nosuid,size=64m" ∷ "-w" ∷ "/workspace" ∷ "-v" ∷ "/srv:/workspace:ro" ∷ "-e"
      ∷ "A=1 --network host" ∷ "python:3.11-alpine" ∷ "sh" ∷ "-lc" ∷ "--privileged" ∷ []
unfolding run_command concat show volume_args env_args ◌==◌
run_command_test = refl

-- A world in which one file is there or not, whatever its path.
abbrev files : Files Bool
files = record {
  resolve = λ there base path. value (base ++ path ∷ []);
  exists = λ there path. there;
  is_file = λ there path. there;
  is_dir = λ there path. false;
  read_text = λ there path. value "text";
  iterdir = λ there path. value [];
  make_dirs = λ there path. (none, there);
  write_text = λ there path text. (none, true);
  unlink = λ there path. (none, false);
  rmtree = λ there path. (none, false);
  path_text = λ path. "path";
}

abbrev messages : Messages
messages = record { text_of = text_of; no_path = text_of; no_text = text_of }

abbrev base : Parts
base = "srv" ∷ []

abbrev sly_call : ToolCall
sly_call = record {
  tool = "read_file";
  parameters = ("path", str "notes.txt") ∷ ("operation", str "delete") ∷ [];
  call_id = 1;
}

execute-Confined_example :
    Confined files base true (Filesystem.execute files messages base sly_call true).1
execute-Confined_example = execute-Confined files messages base sly_call true

abbrev sly : ActionRequest
sly = record read_request { call = sly_call }

says_delete : lookup "operation" sly_call.parameters ≡ some (str "delete")
unfolding lookup ◌==◌
says_delete = refl

names_path : lookup "path" sly_call.parameters ≡ some (str "notes.txt")
unfolding lookup ◌==◌
names_path = refl

not_empty : ("notes.txt" == "") ≡ false
unfolding ◌==◌
not_empty = refl

below : relative_to ("srv" ∷ "notes.txt" ∷ []) base ≡ true
unfolding relative_to ◌==◌
below = refl

execute_tool-read_file_deletes_example :
    world_after files messages base true (execute_tool env sly allow 1 low []).1 ≡ false
unfolding world_after
execute_tool-read_file_deletes_example =
    execute_tool-read_file_deletes files messages base true env sly 1 low [] "notes.txt"
      ("srv" ∷ "notes.txt" ∷ []) refl says_delete names_path not_empty refl below refl refl

abbrev words : Words
words = record { text_of = text_of; type_of = text_of; upper = λ s. s; no_dict = text_of }

abbrev fetch : ToolCall
fetch = record {
  tool = "http_request";
  parameters = ("url", str "https://example.com/") ∷ ("body", str "text") ∷ [];
  call_id = 1;
}

abbrev sent : HttpRequest
sent = record {
  method = "GET";
  url = str "https://example.com/";
  headers = some (obj (field "Content-Type" (str "text/plain") end));
  params = none;
  json = none;
  content = some "text";
  timeout = none;
}

is_sent : prepare words fetch ≡ request sent
unfolding prepare with_body with_content_type lookup ◌==◌
is_sent = refl

prepare-body_example :
    (lookup "url" fetch.parameters ≡ some (str "https://example.com/"))
    × (is_true (str "https://example.com/") ≡ true)
    × (is_some sent.json && is_some sent.content ≡ false)
    × (is_some (lookup "json" fetch.parameters) ≡ true → sent.json ≡ lookup "json" fetch.parameters)
unfolding ◌==◌
prepare-body_example = prepare-body words fetch sent is_sent

-- ===== src/Codex/Container.antt =====
-- apps/server/src/container-codex-runner.ts: the name and the arguments of an agent's container, and the
-- environment of the engine's process; runner-factory.ts. What the run of a container does otherwise is
-- as in codex-runner.ts.
use Prim.Native.Char.{code}
use Prim.Native.String.{◌++◌}
use mathlib.Core.List
use tik_tok_jam.Base.{
  ℕ, String, Bool, false, ◌||◌, Option, List, [], ◌∷◌, nat_eq, leb, if◌then◌else◌, Eq-String,
}
use tik_tok_jam.Text.{is_alphanumeric, lower_codes, codes, codes_same, take_text}
use tik_tok_jam.Config.{AppConfig, RuntimeProvider}
use tik_tok_jam.Codex.{CodexRequest, build_codex_args, credentials, inherited, Variable}
use tik_tok_jam.Codex.Outcome.{Wording, codex_wording, container_wording}

-- `/[a-zA-Z0-9_.-]/`; any other unit of UTF-16 becomes a dash.
abbrev pub is_safe : ℕ → Bool
is_safe c = is_alphanumeric c || nat_eq c b'_' || nat_eq c b'.' || nat_eq c b'-'

unfoldable pub safe_text : String → String
safe_text String.[] = ""
safe_text (String.◌∷◌ c s) =
    if is_safe (code c)
    then String.◌∷◌ c (safe_text s)
    else if leb 0x10000 (code c)
    then "--" ++ safe_text s
    else "-" ++ safe_text s

unfoldable pub container_name : String → String → String
unfolding safe_text take_text
container_name agent_id instance_id =
    "launchpad-" ++ take_text 32 (safe_text instance_id) ++ "-" ++ take_text 48 (safe_text agent_id)

abbrev is_separator : ℕ → Bool
is_separator c = nat_eq c b'/' || nat_eq c 92

unfoldable has_separator : String → Bool
has_separator String.[] = false
has_separator (String.◌∷◌ c s) = is_separator (code c) || has_separator s

-- `engine.split(/[\\/]/).at(-1)`
unfoldable base_name : String → String
unfolding has_separator
base_name String.[] = ""
base_name (String.◌∷◌ c s) =
    let rest = base_name s in
    if has_separator s then rest else if is_separator (code c) then s else String.◌∷◌ c s

-- `base_name(engine).toLowerCase() === "podman"`
unfoldable pub is_podman : String → Bool
unfolding lower_codes codes_same base_name
is_podman engine = codes_same (lower_codes (base_name engine)) (codes "podman")

module _ (stringify : String → String) (show_number : ℕ → String) where
  unfoldable pub build_container_run_args : CodexRequest → AppConfig → List String
  unfolding container_name is_podman build_codex_args
  build_container_run_args request config =
      List.◌++◌
        ("run"
          ∷ "--rm"
          ∷ "--init"
          ∷ "--name"
          ∷ container_name request.agent_id config.runtime_instance_id
          ∷ "--label"
          ∷ "io.codejam.launchpad=agent-runtime"
          ∷ "--label"
          ∷ ("io.codejam.agent-id=" ++ request.agent_id)
          ∷ "--label"
          ∷ ("io.codejam.instance-id=" ++ config.runtime_instance_id)
          ∷ (if is_podman config.container_engine then "--userns" ∷ "keep-id" ∷ [] else []))
        ("--network"
          ∷ "bridge"
          ∷ "--add-host"
          ∷ "host.docker.internal:host-gateway"
          ∷ "--security-opt"
          ∷ "no-new-privileges"
          ∷ "--cap-drop"
          ∷ "ALL"
          ∷ "--cpus"
          ∷ show_number config.container_cpu_limit
          ∷ "--memory"
          ∷ config.container_memory_limit
          ∷ "--pids-limit"
          ∷ show_number config.container_pids_limit
          ∷ "--user"
          ∷ config.container_user
          ∷ "--env"
          ∷ (if config.llm_proxy_enabled then "AGENT_TOKEN" else "ARK_API_KEY")
          ∷ "--env"
          ∷ "CODEX_HOME=/codex-home"
          ∷ "--env"
          ∷ "HOME=/tmp"
          ∷ "--env"
          ∷ "NO_COLOR=1"
          ∷ "--mount"
          ∷ ("type=bind,src=" ++ request.workspace_path ++ ",dst=/workspace")
          ∷ "--mount"
          ∷ ("type=bind,src=" ++ config.codex_home ++ ",dst=/codex-home")
          ∷ "--workdir"
          ∷ "/workspace"
          ∷ config.container_runtime_image
          ∷ "codex"
          ∷ build_codex_args stringify request config.codex_sandbox_mode config.gateway_url
              "/workspace")

abbrev pub engine_names : List String
engine_names = "PATH" ∷ "HOME" ∷ "TMPDIR" ∷ "LANG" ∷ "LC_ALL" ∷ "XDG_RUNTIME_DIR" ∷ []

unfoldable pub engine_environment :
    AppConfig → (String → Option String) → Option String → List Variable
engine_environment config env token =
    record { name = "NO_COLOR"; value = "1" }
    ∷ List.◌++◌ (credentials config token) (inherited env engine_names)

-- `createRunner`, as the messages of the runner that it makes.
abbrev pub create_runner : AppConfig → Wording
create_runner config = elim config.runtime_provider [
  | RuntimeProvider.container ↦ container_wording config.container_engine
  | RuntimeProvider.local_process ↦ codex_wording
]

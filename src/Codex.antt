-- ===== src/Codex.antt =====
-- apps/server/src/codex-runner.ts: the arguments and the environment of a Codex process. `stringify` is
-- `JSON.stringify` of a text; a process environment is the value of each variable.
pub mod Events
pub mod Output
pub mod Lines
pub mod Chunks
pub mod Outcome
pub mod Endings
pub mod Processes
pub mod Cancelling
pub mod Ceiling
pub mod Container
use Prim.Native.String.{◌++◌}
use tik_tok_jam.Base.{
  ℕ, String, Bool, true, false, Option, none, some, List, [], ◌∷◌, map, leb, ◌==◌, if◌then◌else◌,
  Eq-String,
}
use mathlib.Core.List
use tik_tok_jam.Types.Enums.{Scope, Sandbox}
use tik_tok_jam.Types.Records.{AgentPermissions}
use tik_tok_jam.Config.{AppConfig, SandboxMode, strip_slashes}

-- `RunnerRequest`, whose token and permissions may be missing.
pub record CodexRequest : Type 0 where
  pub agent_id : String
  pub workspace_path : String
  pub prompt : String
  pub thread_id : Option String
  pub token : Option String
  pub permissions : Option AgentPermissions

abbrev pub scope_tool : Scope → String
scope_tool Scope.workspace_read = "workspace_read"
scope_tool Scope.workspace_write = "workspace_write"
scope_tool Scope.crm_read = "crm_read"
scope_tool Scope.crm_write = "crm_write"
scope_tool Scope.webhook_send = "webhook_send"

abbrev pub mode_of : Sandbox → SandboxMode
mode_of Sandbox.read_only = SandboxMode.read_only
mode_of Sandbox.workspace_write = SandboxMode.workspace_write

abbrev pub sandbox_rank : SandboxMode → ℕ
sandbox_rank SandboxMode.read_only = 0
sandbox_rank SandboxMode.workspace_write = 1
sandbox_rank SandboxMode.danger_full_access = 2

abbrev pub sandbox_text : SandboxMode → String
sandbox_text SandboxMode.read_only = "read-only"
sandbox_text SandboxMode.workspace_write = "workspace-write"
sandbox_text SandboxMode.danger_full_access = "danger-full-access"

unfoldable pub effective_sandbox_mode : SandboxMode → Option AgentPermissions → SandboxMode
effective_sandbox_mode configured none = configured
effective_sandbox_mode configured (some requested) =
    if leb (sandbox_rank (mode_of requested.sandbox)) (sandbox_rank configured)
    then mode_of requested.sandbox
    else configured

abbrev join_commas : List String → String
join_commas [] = ""
join_commas (x ∷ []) = x
join_commas (x ∷ y ∷ more) = x ++ "," ++ join_commas (y ∷ more)

abbrev bool_text : Bool → String
bool_text true = "true"
bool_text false = "false"

abbrev pub tools_of : Option AgentPermissions → List Scope
tools_of none = []
tools_of (some p) = p.tools

-- A token that is missing or empty is none.
abbrev pub given : Option String → Option String
given none = none
given (some s) = if s == "" then none else some s

module _ (stringify : String → String) where
  -- `tomlStringArray`
  abbrev pub toml_string_array : List String → String
  toml_string_array values = "[" ++ join_commas (map stringify values) ++ "]"

  abbrev pub permission_args : SandboxMode → Option AgentPermissions → List String
  permission_args mode none = []
  permission_args mode (some p) =
      "-c"
      ∷ ("sandbox_mode=" ++ stringify (sandbox_text mode))
      ∷ "-c"
      ∷ ("sandbox_workspace_write.network_access=" ++ bool_text p.network)
      ∷ "-c"
      ∷ ("web_search=" ++ stringify (if p.web_search then "live" else "disabled"))
      ∷ []

  abbrev pub token_args : Option String → Option AgentPermissions → String → List String
  token_args none permissions gateway_url = []
  token_args (some token) permissions gateway_url =
      "-c"
      ∷ ("mcp_servers.launchpad.url=" ++ stringify (strip_slashes gateway_url ++ "/mcp"))
      ∷ "-c"
      ∷ ("mcp_servers.launchpad.http_headers={Authorization="
          ++ stringify ("Bearer " ++ token)
          ++ "}")
      ∷ "-c"
      ∷ ("mcp_servers.launchpad.enabled_tools="
          ++ toml_string_array (map scope_tool (tools_of permissions)))
      ∷ []

  abbrev pub prompt_args : Option String → String → List String
  prompt_args none prompt = prompt ∷ []
  prompt_args (some thread_id) prompt = "resume" ∷ thread_id ∷ prompt ∷ []

  unfoldable pub build_codex_args : CodexRequest → SandboxMode → String → String → List String
  build_codex_args request configured gateway_url workspace_path =
      let mode = effective_sandbox_mode configured request.permissions in
      "exec"
      ∷ "--json"
      ∷ "--sandbox"
      ∷ sandbox_text mode
      ∷ "--skip-git-repo-check"
      ∷ "-C"
      ∷ workspace_path
      ∷ List.◌++◌ (permission_args mode request.permissions) (
          List.◌++◌ (token_args (given request.token) request.permissions gateway_url)
            (prompt_args (given request.thread_id) request.prompt))

-- An environment as its variables, in order.
pub record Variable : Type 0 where
  pub name : String
  pub value : String

abbrev pub variable : String → Option String → List Variable
variable name none = []
variable name (some value) = record { name = name; value = value } ∷ []

abbrev pub inherited : (String → Option String) → List String → List Variable
inherited env [] = []
inherited env (name ∷ names) = List.◌++◌ (variable name (env name)) (inherited env names)

abbrev pub credentials : AppConfig → Option String → List Variable
credentials config token =
    if config.llm_proxy_enabled
    then variable "AGENT_TOKEN" (given token)
    else record { name = "ARK_API_KEY"; value = config.ark_api_key } ∷ []

abbrev pub inherited_names : List String
inherited_names =
    "PATH" ∷ "HOME" ∷ "TMPDIR" ∷ "LANG" ∷ "LC_ALL" ∷ "SSL_CERT_FILE" ∷ "SSL_CERT_DIR" ∷ "HTTP_PROXY"
    ∷ "HTTPS_PROXY" ∷ "NO_PROXY" ∷ "NODE_EXTRA_CA_CERTS" ∷ "TERM" ∷ []

unfoldable pub child_environment :
    AppConfig → (String → Option String) → Option String → List Variable
child_environment config env token =
    record { name = "CODEX_HOME"; value = config.codex_home }
    ∷ record { name = "NO_COLOR"; value = "1" }
    ∷ List.◌++◌ (credentials config token) (inherited env inherited_names)

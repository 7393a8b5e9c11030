-- ===== src/Config.antt =====
-- apps/server/src/config.ts: the configuration that the environment gives. What `envSchema` of zod
-- makes of the environment, with its defaults and bounds, is a parameter, as are the working directory
-- that `path.resolve` starts from and the ids of the process's user and group.
pub mod Guard
use Prim.Native.Char.{code}
use Prim.Native.String.{◌++◌}
use tik_tok_jam.Base.{
  ℕ, suc, String, Bool, true, false, not, ◌&&◌, ◌||◌, Option, none, some, List, [], ◌∷◌, map, ◌==◌,
  includes, leb, ltb, ◌+◌, nat_eq, if◌then◌else◌, Eq-String,
}
use tik_tok_jam.Text.{trim}
use tik_tok_jam.Grants.{or_else}
use tik_tok_jam.Action.{Action, Result, ok, err, failure}
use tik_tok_jam.Gateway.Jail.{resolve, show_path, starts_with}
use tik_tok_jam.Gateway.Tools.{write_file}
use tik_tok_jam.Workspace.{join_path, join_lines}

pub data SandboxMode : Type 0 where
  read_only workspace_write danger_full_access : SandboxMode

pub data RuntimeProvider : Type 0 where
  local_process container : RuntimeProvider

pub data NodeEnv : Type 0 where
  development test production : NodeEnv

-- What `envSchema.parse` returns.
pub record Env : Type 0 where
  pub host : String
  pub port : ℕ
  pub log_level : String
  pub app_data_dir : String
  pub agent_workspace_root : String
  pub codex_home : String
  pub codex_bin : String
  pub codex_sandbox_mode : SandboxMode
  pub codex_timeout_ms : ℕ
  pub codex_max_output_bytes : ℕ
  pub runtime_provider : RuntimeProvider
  pub container_engine : String
  pub container_runtime_image : String
  pub container_cpu_limit : ℕ
  pub container_memory_limit : String
  pub container_pids_limit : ℕ
  pub container_user : Option String
  pub runtime_instance_id : String
  pub jwt_secret : String
  pub gateway_url : Option String
  pub database_url_admin : Option String
  pub database_url_agent : Option String
  pub permission_estimator_enabled : Bool
  pub llm_proxy_enabled : Bool
  pub seed_users : String
  pub ark_api_key : Option String
  pub ark_model : Option String
  pub ark_base_url : String
  pub node_env : NodeEnv

pub record AppConfig : Type 0 where
  pub host : String
  pub port : ℕ
  pub log_level : String
  pub data_directory : String
  pub workspace_root : String
  pub codex_home : String
  pub codex_bin : String
  pub codex_sandbox_mode : SandboxMode
  pub codex_timeout_ms : ℕ
  pub codex_max_output_bytes : ℕ
  pub runtime_provider : RuntimeProvider
  pub container_engine : String
  pub container_runtime_image : String
  pub container_cpu_limit : ℕ
  pub container_memory_limit : String
  pub container_pids_limit : ℕ
  pub container_user : String
  pub runtime_instance_id : String
  pub jwt_secret : String
  pub database_url_admin : Option String
  pub database_url_agent : Option String
  pub gateway_url : String
  pub permission_estimator_enabled : Bool
  pub llm_proxy_enabled : Bool
  pub seed_users : String
  pub ark_api_key : String
  pub ark_model : String
  pub ark_base_url : String
  pub node_env : NodeEnv

-- `text.replace(/\/+$/, "")`
unfoldable pub strip_slashes : String → String
strip_slashes String.[] = ""
strip_slashes (String.◌∷◌ c s) =
    let rest = strip_slashes s in
    if nat_eq (code c) b'/' && rest == "" then "" else String.◌∷◌ c rest

-- The units of UTF-16 that a character takes.
abbrev pub units : ℕ → ℕ
units c = if leb 0x10000 c then 2 else 1

-- `text.length`
unfoldable pub text_length : String → ℕ
text_length String.[] = 0
text_length (String.◌∷◌ c s) = units (code c) + text_length s

abbrev pub loopback_hosts : List String
loopback_hosts = "127.0.0.1" ∷ "::1" ∷ "localhost" ∷ []

abbrev is_production : NodeEnv → Bool
is_production NodeEnv.production = true
is_production NodeEnv.development = false
is_production NodeEnv.test = false

-- The guard's two conditions.
abbrev pub is_exposed : Env → Bool
is_exposed env = is_production env.node_env && not (includes loopback_hosts env.host)

abbrev pub is_weak : String → Bool
is_weak secret = ltb (text_length secret) 24 || starts_with secret "dev-only-"

-- `text || fallback`
abbrev pub or_text : String → String → String
or_text text fallback = if text == "" then fallback else text

abbrev trimmed : Option String → String
trimmed none = ""
trimmed (some s) = trim s

abbrev default_gateway : RuntimeProvider → String
default_gateway RuntimeProvider.container = "http://host.docker.internal:3000"
default_gateway RuntimeProvider.local_process = "http://127.0.0.1:3000"

abbrev stripped : Option String → String → String
stripped none fallback = fallback
stripped (some url) fallback = strip_slashes url

-- The part of the process that the configuration reads: the working directory as its segments, and the
-- user and the group, where the platform has them.
pub record Process : Type 0 where
  pub cwd : List String
  pub user : Option String

abbrev pub app_config : Process → Env → AppConfig
app_config process env = record {
  host = env.host;
  port = env.port;
  log_level = env.log_level;
  data_directory = show_path (resolve process.cwd env.app_data_dir);
  workspace_root = show_path (resolve process.cwd env.agent_workspace_root);
  codex_home = show_path (resolve process.cwd env.codex_home);
  codex_bin = env.codex_bin;
  codex_sandbox_mode = env.codex_sandbox_mode;
  codex_timeout_ms = env.codex_timeout_ms;
  codex_max_output_bytes = env.codex_max_output_bytes;
  runtime_provider = env.runtime_provider;
  container_engine = env.container_engine;
  container_runtime_image = env.container_runtime_image;
  container_cpu_limit = env.container_cpu_limit;
  container_memory_limit = env.container_memory_limit;
  container_pids_limit = env.container_pids_limit;
  container_user = or_text (trimmed env.container_user) (or_else process.user "1000:1000");
  runtime_instance_id = env.runtime_instance_id;
  jwt_secret = env.jwt_secret;
  database_url_admin = env.database_url_admin;
  database_url_agent = env.database_url_agent;
  gateway_url = stripped env.gateway_url (default_gateway env.runtime_provider);
  permission_estimator_enabled = env.permission_estimator_enabled;
  llm_proxy_enabled = env.llm_proxy_enabled;
  seed_users = env.seed_users;
  ark_api_key = trimmed env.ark_api_key;
  ark_model = trimmed env.ark_model;
  ark_base_url = strip_slashes env.ark_base_url;
  node_env = env.node_env;
}

unfoldable pub load_config : Process → Env → Result AppConfig
load_config process env =
    if is_exposed env && is_weak env.jwt_secret
    then err (
        failure
          "JWT_SECRET must contain at least 24 characters for a non-loopback production server")
    else ok (app_config process env)

-- `text.includes(part)`
abbrev pub has_part : String → String → Bool
has_part String.[] part = starts_with "" part
has_part (String.◌∷◌ c s) part = starts_with (String.◌∷◌ c s) part || has_part s part

unfoldable pub is_ark_configured : AppConfig → Bool
is_ark_configured config =
    not (config.ark_api_key == "")
    && not (starts_with config.ark_api_key "replace-")
    && not (config.ark_model == "")
    && not (has_part config.ark_model "replace-")

-- The file that Codex reads. `stringify` is `JSON.stringify` of a text.
unfoldable pub codex_toml : (String → String) → AppConfig → String
codex_toml stringify config = join_lines (
    "# Generated by Volc Agent Launchpad. Edit environment variables, not this file."
    ∷ ("model = " ++ stringify (or_text config.ark_model "ep-not-configured"))
    ∷ "model_provider = \"volcengine_ark\""
    ∷ ""
    ∷ "[model_providers.volcengine_ark]"
    ∷ "name = \"Volcengine Ark\""
    ∷ ("base_url = "
        ++ stringify (
            if config.llm_proxy_enabled then config.gateway_url ++ "/llm" else config.ark_base_url))
    ∷ ("env_key = "
        ++ stringify (if config.llm_proxy_enabled then "AGENT_TOKEN" else "ARK_API_KEY"))
    ∷ "wire_api = \"responses\""
    ∷ "requires_openai_auth = false"
    ∷ ""
    ∷ [])

unfoldable pub write_codex_config : (String → String) → AppConfig → Action (Unit {0})
write_codex_config stringify config =
    write_file (join_path config.codex_home "config.toml") (codex_toml stringify config)

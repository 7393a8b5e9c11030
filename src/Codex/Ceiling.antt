-- ===== src/Codex/Ceiling.antt =====
-- What the arguments and the environment of a Codex process keep.
use Prim.Native.String.{◌++◌}
use mathlib.Core.List
use tik_tok_jam.Base.{
  ◌≤◌, String, ◌≡◌, refl, true, false, Option, none, some, List, [], ◌∷◌, arith, All, includes,
  ◌==◌, Eq-String, if◌then◌else◌,
}
use tik_tok_jam.Types.Records.{AgentPermissions}
use tik_tok_jam.Config.{AppConfig, SandboxMode}
use tik_tok_jam.Codex.{
  sandbox_rank, sandbox_text, mode_of, bool_text, Variable, variable, credentials, inherited,
  inherited_names, child_environment, given,
}
use tik_tok_jam.Codex.Container.{engine_names, engine_environment}

-- What the agent asks for, and what is configured where it asks for nothing.
abbrev pub asked : SandboxMode → Option AgentPermissions → SandboxMode
asked configured none = configured
asked configured (some p) = mode_of p.sandbox

-- The mode is never more than either.
abbrev pub Ceiling : SandboxMode → Option AgentPermissions → SandboxMode → Type 0
Ceiling configured permissions mode =
    (sandbox_rank mode ≤ sandbox_rank configured)
    × (sandbox_rank mode ≤ sandbox_rank (asked configured permissions))

-- What an agent with permissions adds: the mode once more, its own network and its own web search.
abbrev pub Sandboxed :
    (String → String) → SandboxMode → Option AgentPermissions → List String → Type 0
Sandboxed stringify mode none args = (args ≡ [])
Sandboxed stringify mode (some p) args =
    (args
      ≡ "-c"
        ∷ ("sandbox_mode=" ++ stringify (sandbox_text mode))
        ∷ "-c"
        ∷ ("sandbox_workspace_write.network_access=" ++ bool_text p.network)
        ∷ "-c"
        ∷ ("web_search=" ++ stringify (if p.web_search then "live" else "disabled"))
        ∷ [])

-- What a token adds is about the gateway's server only.
abbrev pub Connected : Option String → List String → Type 0
Connected none args = (args ≡ [])
Connected (some token) args =
    (url : String) × (headers : String) × (tools : String) × (args
      ≡ "-c"
        ∷ ("mcp_servers.launchpad.url=" ++ url)
        ∷ "-c"
        ∷ ("mcp_servers.launchpad.http_headers={Authorization=" ++ headers)
        ∷ "-c"
        ∷ ("mcp_servers.launchpad.enabled_tools=" ++ tools)
        ∷ [])

-- No variable has the name.
abbrev pub Hides : String → List Variable → Type 0
Hides name vs = All (λ v. (v.name == name) ≡ false) vs

Hides-append :
    (name : String) (us vs : List Variable)
    → Hides name us
    → Hides name vs
    → Hides name (List.◌++◌ us vs)
Hides-append name [] vs h k = k
Hides-append name (u ∷ us) vs h k = (h.0, Hides-append name us vs h.1 k)

variable-Hides :
    (hidden name : String) (value : Option String)
    → (name == hidden) ≡ false
    → Hides hidden (variable name value)
variable-Hides hidden name none h = tt
variable-Hides hidden name (some v) h = (h, tt)

inherited-Hides :
    (env : String → Option String) (hidden : String) (names : List String)
    → includes names hidden ≡ false
    → Hides hidden (inherited env names)
inherited-Hides env hidden [] h = tt
inherited-Hides env hidden (n ∷ ns) h =
    Hides-append hidden (variable n (env n)) (inherited env ns)
      (variable-Hides hidden n (env n) (ground (arith, h)))
      (inherited-Hides env hidden ns (ground (arith, h)))

credentials-Hides :
    (config : AppConfig) (token : Option String)
    → config.llm_proxy_enabled ≡ true
    → Hides "ARK_API_KEY" (credentials config token)
credentials-Hides config token proxied =
    rw proxied (variable-Hides "ARK_API_KEY" "AGENT_TOKEN" (given token) refl)

-- Two environments of the server that differ in one variable at most.
abbrev pub Agree : String → (String → Option String) → (String → Option String) → Type 0
Agree hidden env env' = (name : String) → (name == hidden) ≡ false → env name ≡ env' name

inherited-Agree :
    (hidden : String) (env env' : String → Option String) (names : List String)
    → Agree hidden env env'
    → includes names hidden ≡ false
    → inherited env names ≡ inherited env' names
inherited-Agree hidden env env' [] same h = refl
inherited-Agree hidden env env' (n ∷ ns) same h =
    let one = same n (ground (arith, h)) in
    let more = inherited-Agree hidden env env' ns same (ground (arith, h)) in cc (one, more)

abbrev pub with_key : AppConfig → String → AppConfig
with_key config key = record config { ark_api_key = key }

credentials-with_key :
    (config : AppConfig) (key : String) (token : Option String)
    → config.llm_proxy_enabled ≡ true
    → credentials config token ≡ credentials (with_key config key) token
credentials-with_key config key token proxied = rw proxied refl

-- With the model proxy on, what either runner hands to its process does not depend on the key of the
-- model's endpoint, neither on the configuration's nor on the one in the server's own environment: with
-- another key in both, every variable has the same value. None of the variables is named after the key.
pub child_environment-with_key :
    (config : AppConfig) (env env' : String → Option String) (token : Option String) (key : String)
    → config.llm_proxy_enabled ≡ true
    → Agree "ARK_API_KEY" env env'
    → (child_environment config env token ≡ child_environment (with_key config key) env' token)
      × (engine_environment config env token ≡ engine_environment (with_key config key) env' token)
      × Hides "ARK_API_KEY" (child_environment config env token)
      × Hides "ARK_API_KEY" (engine_environment config env token)
unfolding child_environment engine_environment
child_environment-with_key config env env' token key proxied same =
    let keys = credentials-Hides config token proxied in
    let alike = credentials-with_key config key token proxied in
    (
      cc (alike, inherited-Agree "ARK_API_KEY" env env' inherited_names same refl),
      cc (alike, inherited-Agree "ARK_API_KEY" env env' engine_names same refl),
      (
        refl,
        (
          refl,
          Hides-append "ARK_API_KEY" (credentials config token) (inherited env inherited_names) keys
              (inherited-Hides env "ARK_API_KEY" inherited_names refl),
        ),
      ),
      (
        refl,
        Hides-append "ARK_API_KEY" (credentials config token) (inherited env engine_names) keys
            (inherited-Hides env "ARK_API_KEY" engine_names refl),
      ),
    )

-- ===== src/Config/Guard.antt =====
-- What the configuration promises of the secret that signs every token.
use tik_tok_jam.Base.{◌≤◌, ◌≡◌, false, arith, includes, Eq-String}
use tik_tok_jam.Action.{ok}
use tik_tok_jam.Gateway.Jail.{starts_with}
use tik_tok_jam.Config.{Process, Env, AppConfig, NodeEnv, load_config, loopback_hosts, text_length}

-- A server that starts in production on a host that is not loopback has a secret of at least 24
-- characters that does not begin with "dev-only-".
pub load_config_guards :
    (process : Process) (env : Env) (config : AppConfig)
    → load_config process env ≡ ok config
    → config.node_env ≡ NodeEnv.production
    → includes loopback_hosts config.host ≡ false
    → (24 ≤ text_length config.jwt_secret) × (starts_with config.jwt_secret "dev-only-" ≡ false)
unfolding load_config
load_config_guards process env config loaded production exposed =
    ground (arith, loaded, production, exposed)

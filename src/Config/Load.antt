-- ===== src/Config/Load.antt =====
-- config.go: `loadConfig`. The file and the YAML decoder are parameters: what opening the file
-- gives, and what decoding its text over a configuration gives.
pub mod Sound
use edge_proxy_go.Base.{Option, none, some, String, Float}
use edge_proxy_go.Config.Types.{Config, default_config}
use edge_proxy_go.Config.Defaults.{apply_rate_limit_defaults}
use edge_proxy_go.Config.Environment.{apply_env_overrides}
use edge_proxy_go.Config.Validate.{Result, err, unreadable, bad_yaml, validate}

pub data ConfigFile : Type 0 where
  missing : ConfigFile
  failing : ConfigFile
  text : String → ConfigFile

module _ ⦃F : Float⦄ (decode : String → Config → Option Config) (env : String → String) where
  unfoldable pub load_config : ConfigFile → Result Config
  load_config missing = validate (env "INPROC_BACKENDS") (apply_env_overrides env default_config)
  load_config failing = err unreadable
  load_config (text t) = elim (decode t default_config) [
    | none ↦ err bad_yaml
    | some c ↦
        validate (env "INPROC_BACKENDS") (apply_rate_limit_defaults (apply_env_overrides env c))
  ]

-- ===== src/Config/Load/Sound.antt =====
-- config.go: what `loadConfig` accepts.
use edge_proxy_go.Base.{◌≡◌, Option, String, Float, Option-cases, inl, inr}
use edge_proxy_go.Config.Types.{Config, default_config}
use edge_proxy_go.Config.Defaults.{apply_rate_limit_defaults}
use edge_proxy_go.Config.Environment.{apply_env_overrides}
use edge_proxy_go.Config.Validate.{ok}
use edge_proxy_go.Config.Validate.Sound.{IsSound, validate-IsSound}
use edge_proxy_go.Config.Load.{ConfigFile, missing, failing, text, load_config}

pub load_config-IsSound :
    ⦃F : Float⦄ (decode : String → Config → Option Config) (env : String → String)
    (file : ConfigFile) {c : Config}
    → load_config decode env file ≡ ok c
    → IsSound c
unfolding load_config
load_config-IsSound decode env missing h = (validate-IsSound (env "INPROC_BACKENDS") _ h).0
load_config-IsSound decode env failing h = cc
load_config-IsSound decode env (text t) h = elim (Option-cases (decode t default_config)) [
  | inl bad ↦ let h' = rw (bad, load_config) at h in cc
  | inr (c, good) ↦
      (validate-IsSound (env "INPROC_BACKENDS")
        (apply_rate_limit_defaults (apply_env_overrides env c)) (rw (good, load_config) at h)).0
]

-- ===== src/Control/Cli.antt =====
-- main.go: `runCLI`, `parseConfigFlag`, `defaultConfigPath` and `validateConfigCommand`. What is
-- printed is not modelled.
use edge_proxy_go.Base.{
  ℕ, ◌↔◌, ◌≡◌, refl, inl, inr, Bool, true, false, not, ◌||◌, List, [], ◌∷◌, Option, none, some,
  String, Float, Option-cases, if◌then◌else◌, ◌==ₛ◌, starts_with, trim_space,
}
use edge_proxy_go.Config.Types.{Config}
use edge_proxy_go.Config.Validate.{Result, ok, err}
use edge_proxy_go.Config.Load.{ConfigFile, load_config}
use edge_proxy_go.Config.Load.Sound.{load_config-IsSound}
use edge_proxy_go.Config.Validate.Sound.{IsSound}

unfoldable pub default_config_path : (String → String) → String
default_config_path env =
    let value = trim_space (env "EDGE_PROXY_CONFIG") in
    if not (value ==ₛ "") then value else "config.yaml"

abbrev pub is_empty_list : List String → Bool
is_empty_list [] = true
is_empty_list (x ∷ xs) = false

abbrev pub without_rest : Option (String × List String) → Option String
without_rest none = none
without_rest (some (path, rest)) = if is_empty_list rest then some path else none

-- `flags` is the flag set of Go's library: the value of `-config`, given its default, and the
-- arguments that are left; `none` for an error.
unfoldable pub parse_config_flag :
    (String → List String → Option (String × List String))
    → (String → String)
    → List String
    → Option String
parse_config_flag flags env args = without_rest (flags (default_config_path env) args)

-- The command and its arguments: `run`, unless the first argument is not an option.
unfoldable pub split_command : List String → String × List String
split_command [] = ("run", [])
split_command (a ∷ as') = if starts_with a "-" then ("run", a ∷ as') else (a, as')

abbrev pub code_of {ℓ} : {A : Type ℓ} → Result A → ℕ
code_of (ok a) = 0
code_of (err e) = 1

code_of-zero {ℓ} : {A : Type ℓ} (x : Result A) → code_of x ≡ 0 → (a : A) × (x ≡ ok a)
code_of-zero (ok a) h = (a, refl)
code_of-zero (err e) h = cc

module _ ⦃F : Float⦄ (decode : String → Config → Option Config) (env : String → String)
    (file_at : String → ConfigFile)
    (flags : String → List String → Option (String × List String)) where
  unfoldable pub validate_config_command : String → ℕ
  validate_config_command path = code_of (load_config decode env (file_at path))

  -- `run_proxy` is whether `runProxy` comes back without an error.
  unfoldable pub run_cli : (String → Bool) → List String → ℕ
  run_cli run_proxy args =
      let (command, rest) = split_command args in
      if command ==ₛ "run"
      then elim (parse_config_flag flags env rest) [
        | none ↦ 2
        | some path ↦ if run_proxy path then 0 else 1
      ]
      else if command ==ₛ "validate"
      then elim (parse_config_flag flags env rest) [
        | none ↦ 2
        | some path ↦ validate_config_command path
      ]
      else if command ==ₛ "version"
          || command ==ₛ "help"
          || command ==ₛ "-h"
          || command ==ₛ "--help"
      then 0
      else 2

  -- A first argument that is an option runs the proxy with it, `-h` and `--help` included: the cases
  -- that the commands have for those two are never met.
  pub option_first :
      (run_proxy : String → Bool) (option : String) (args : List String)
      → starts_with option "-" ≡ true
      → run_cli run_proxy (option ∷ args) ≡ run_cli run_proxy ("run" ∷ option ∷ args)
  unfolding run_cli split_command
  option_first run_proxy option args h = rw h refl

  -- The arguments name a file whose configuration loads, and that is sound.
  abbrev pub NamesSound : List String → Type 0
  NamesSound args =
      (path : String) × (c : Config) × (parse_config_flag flags env args ≡ some path)
      × (load_config decode env (file_at path) ≡ ok c)
      × IsSound c

  -- The command `validate` exits with 0 exactly if its arguments name a file whose configuration
  -- loads, and every configuration that loads is sound.
  pub validated_iff :
      (run_proxy : String → Bool) (args : List String)
      → (run_cli run_proxy ("validate" ∷ args) ≡ 0) ↔ NamesSound args
  unfolding run_cli split_command validate_config_command ◌==ₛ◌
  validated_iff run_proxy args = (
    λ h. elim (Option-cases (parse_config_flag flags env args)) [
      | inl bad ↦ let h' = rw (bad, run_cli) at h in cc
      | inr (path, good) ↦
          let (c, loaded) =
            code_of-zero (load_config decode env (file_at path)) (rw (good, run_cli) at h) in
          (path, c, good, loaded, load_config-IsSound decode env (file_at path) loaded)
    ],
    λ v. rw (v.2, v.3) refl,
  )

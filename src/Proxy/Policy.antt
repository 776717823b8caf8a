-- ===== src/Proxy/Policy.antt =====
-- main.go: `resolveRateLimitConfig` and its helpers, and `identifyRequester`.
pub mod Under
pub mod Resolution
use Prim.Native.String
use edge_proxy_go.Base.{
  ◌≡◌, refl, ap, ◌⊎◌, inl, inr, Bool, true, false, ◌&&◌, ◌||◌, List, [], ◌∷◌, ◌++◌, String,
  starts_with, Float, ◌==ₛ◌, if◌then◌else◌, All, Bool-cases, trim_space, is_blank, to_lower,
  equal_fold,
}
use edge_proxy_go.Config.Types.{RateLimitConfig, PolicyConfig, Config}
use edge_proxy_go.Config.Defaults.{apply_policy_overrides, apply_rate_limit_defaults_to_config}

unfoldable pub contains_fold : List String → String → Bool
contains_fold [] target = false
contains_fold (v ∷ vs) target = equal_fold (trim_space v) target || contains_fold vs target

unfoldable pub contains_exact : List String → String → Bool
contains_exact [] target = false
contains_exact (v ∷ vs) target = trim_space v ==ₛ target || contains_exact vs target

abbrev is_empty {ℓ} : {A : Type ℓ} → List A → Bool
is_empty [] = true
is_empty (x ∷ xs) = false

-- What the loop reads of the request.
pub record Request : Type 0 where
  pub path : String
  pub method : String
  pub identifier : String

-- The three tests of a round.
unfoldable pub policy_applies : ⦃F : Float⦄ → Request → PolicyConfig → Bool
policy_applies r p =
    (p.route_prefix ==ₛ "" || starts_with r.path p.route_prefix)
    && (is_empty p.methods || contains_fold p.methods r.method)
    && (is_empty p.api_keys || contains_exact p.api_keys r.identifier)

unfoldable pub under_policy : ⦃F : Float⦄ → RateLimitConfig → PolicyConfig → RateLimitConfig
under_policy base p =
    apply_rate_limit_defaults_to_config (apply_policy_overrides (record base { name = p.name }) p)

unfoldable pub resolve_from :
    ⦃F : Float⦄ → Request → RateLimitConfig → List PolicyConfig → RateLimitConfig
resolve_from r base [] = base
resolve_from r base (p ∷ ps) =
    let rest = resolve_from r base ps in if policy_applies r p then under_policy base p else rest

unfoldable pub resolve_rate_limit_config : ⦃F : Float⦄ → Request → Config → RateLimitConfig
resolve_rate_limit_config r cfg =
    resolve_from r (record cfg.rate_limit { name = "default" }) cfg.policies

-- `identifyRequester`: the user and the identifier. `get` is `http.Header.Get`.
unfoldable pub identify_requester : String → (String → String) → String → String × String
identify_requester host get header =
    let value = trim_space (get (to_lower header)) in
    if equal_fold (trim_space header) "ip" || is_blank header
    then (String.◌++◌ "ip:" host, host)
    else if value ==ₛ ""
    then (String.◌++◌ "ip:" host, host)
    else (String.◌++◌ "api_key:" value, value)

-- ===== src/Config/Validate.antt =====
-- config.go: `Validate`. It returns the configuration with its mode normalised, or the error.
pub mod Sound
use edge_proxy_go.Base.{
  ℕ, suc, ℤ, pos, Bool, true, false, not, ◌&&◌, ◌||◌, List, [], ◌∷◌, String, Float, is_le_0,
  is_lt_0, starts_with, ◌==ₛ◌, if◌then◌else◌, trim_space, is_blank, to_lower, has_colon,
}
use edge_proxy_go.Config.Types.{
  BackendConfig, RouteConfig, ProxyConfig, StatsConfig, RateLimitConfig, PolicyConfig,
  HealthCheckConfig, TracingConfig, Config,
}
use edge_proxy_go.Config.Defaults.{float_le_0}

-- One constructor for each message, in the order of the tests.
pub data ConfigError : Type 0 where
  proxy_port_required stats_port_required bad_mode tcp_backend_required : ConfigError
  bad_backend_address : String → ConfigError
  bad_route_path negative_route_number bad_route_health_path no_route_backends : ℕ → ConfigError
  bad_route_address : ℕ → ℕ → ConfigError
  bad_route_weight : ℕ → ℕ → ConfigError
  no_backends tls_files_required tls_files_together : ConfigError
  auth_username_required auth_password_required : ConfigError
  negative_rate_limit bad_rps bad_burst bad_sliding_window bad_block_seconds : ConfigError
  bad_health_interval bad_health_timeout bad_health_path bad_proxy_sizes : ConfigError
  tracing_service_required tracing_endpoint_required bad_sample_ratio : ConfigError
  policy_name_required : ConfigError
  duplicate_policy : String → ConfigError
  unreadable bad_yaml : ConfigError

pub data Result {ℓ} (A : Type ℓ) : Type ℓ where
  ok : A → Result A
  err : ConfigError → Result A

infixl 5 ◌>>=◌ ◌>>◌
unfoldable pub ◌>>=◌ {ℓ κ} : {A : Type ℓ} {B : Type κ} → Result A → (A → Result B) → Result B
ok a >>= f = f a
err e >>= f = err e

unfoldable pub ◌>>◌ {ℓ} : {B : Type ℓ} → Result (Unit {0}) → Result B → Result B
unfolding ◌>>=◌
m >> k = m >>= λ _. k

-- `if bad { return error }`
unfoldable pub refuse : Bool → ConfigError → Result (Unit {0})
refuse true e = err e
refuse false e = ok tt

-- The test of `validateAddress`.
abbrev pub bad_address : String → Bool
bad_address address = is_blank address || not (has_colon address)

unfoldable pub validate_backends : List String → Result (Unit {0})
validate_backends [] = ok tt
validate_backends (a ∷ as') = do
  refuse (bad_address a) (bad_backend_address a)
  validate_backends as'

unfoldable pub validate_route_backends : ℕ → ℕ → List BackendConfig → Result (Unit {0})
validate_route_backends i j [] = ok tt
validate_route_backends i j (b ∷ bs) = do
  refuse (bad_address b.address) (bad_route_address i j)
  refuse (is_le_0 b.weight) (bad_route_weight i j)
  validate_route_backends i (suc j) bs

abbrev is_empty {ℓ} : {A : Type ℓ} → List A → Bool
is_empty [] = true
is_empty (x ∷ xs) = false

unfoldable pub validate_route : ℕ → RouteConfig → Result (Unit {0})
validate_route i r = do
  refuse (is_blank r.path || not (starts_with r.path "/")) (bad_route_path i)
  refuse (is_lt_0 r.timeout_ms || is_lt_0 r.retries) (negative_route_number i)
  refuse (not (r.health_path ==ₛ "") && not (starts_with r.health_path "/"))
      (bad_route_health_path i)
  refuse (is_empty r.backends) (no_route_backends i)
  validate_route_backends i 0 r.backends

unfoldable pub validate_routes : ℕ → List RouteConfig → Result (Unit {0})
validate_routes i [] = ok tt
validate_routes i (r ∷ rs) = do validate_route i r; validate_routes (suc i) rs

unfoldable pub validate_tls : ProxyConfig → Result (Unit {0})
validate_tls p = do
  refuse (p.tls.enabled && (no_cert || no_key)) tls_files_required
  refuse (not p.tls.enabled && (not no_cert || not no_key) && (no_cert || no_key))
      tls_files_together
  where
    no_cert : Bool
    no_cert = is_blank p.tls.cert_file

    no_key : Bool
    no_key = is_blank p.tls.key_file

unfoldable pub validate_auth : StatsConfig → Result (Unit {0})
validate_auth s = do
  refuse (s.auth.enabled && is_blank s.auth.username) auth_username_required
  refuse (s.auth.enabled && is_blank s.auth.password) auth_password_required

unfoldable pub validate_rate_limit : ⦃F : Float⦄ → RateLimitConfig → Result (Unit {0})
validate_rate_limit r = do
  refuse (is_lt_0 r.window_seconds || is_lt_0 r.requests) negative_rate_limit
  refuse (float_le_0 r.base_requests_per_second) bad_rps
  refuse (float_le_0 r.burst_capacity) bad_burst
  refuse (is_le_0 r.sliding_window_seconds) bad_sliding_window
  refuse (is_le_0 r.block_seconds) bad_block_seconds

unfoldable pub validate_health : HealthCheckConfig → Result (Unit {0})
validate_health h = do
  refuse (h.enabled && is_le_0 h.interval_seconds) bad_health_interval
  refuse (h.enabled && is_le_0 h.timeout_seconds) bad_health_timeout
  refuse (h.enabled && (h.path ==ₛ "" || not (starts_with h.path "/"))) bad_health_path

unfoldable pub validate_sizes : ProxyConfig → Result (Unit {0})
validate_sizes p =
    refuse
      (is_le_0 p.max_header_bytes || is_le_0 p.max_body_bytes || is_le_0 p.max_response_body_bytes)
      bad_proxy_sizes

unfoldable pub validate_tracing : ⦃F : Float⦄ → TracingConfig → Result (Unit {0})
validate_tracing ⦃F⦄ t = do
  refuse (t.enabled && is_blank t.service_name) tracing_service_required
  refuse (t.enabled && is_blank t.endpoint) tracing_endpoint_required
  refuse
      (t.enabled
        && (F.lt t.sample_ratio (F.of_int (pos 0)) || F.lt (F.of_int (pos 1)) t.sample_ratio))
      bad_sample_ratio

abbrev pub holds : String → List String → Bool
holds a [] = false
holds a (b ∷ bs) = b ==ₛ a || holds a bs

-- The loop over the policies, with the names seen so far.
unfoldable pub validate_policies : ⦃F : Float⦄ → List String → List PolicyConfig → Result (Unit {0})
validate_policies seen [] = ok tt
validate_policies seen (p ∷ ps) = do
  refuse (is_blank p.name) policy_name_required
  refuse (holds p.name seen) (duplicate_policy p.name)
  validate_policies (p.name ∷ seen) ps

unfoldable pub normalize_mode : String → String
normalize_mode m = let mode = to_lower (trim_space m) in if mode ==ₛ "" then "http" else mode

-- `inproc` is the value of the variable INPROC_BACKENDS.
unfoldable pub validate : ⦃F : Float⦄ → String → Config → Result Config
validate inproc c = do
  refuse (is_blank c.proxy.port) proxy_port_required
  refuse (is_blank c.stats.port) stats_port_required
  let mode = normalize_mode c.mode
  refuse (not (mode ==ₛ "http") && not (mode ==ₛ "tcp")) bad_mode
  refuse (mode ==ₛ "tcp" && is_blank c.tcp_backend) tcp_backend_required
  validate_backends c.backends
  validate_routes 0 c.routes
  refuse
      (mode ==ₛ "http"
        && is_empty c.backends
        && is_empty c.routes
        && not (trim_space inproc ==ₛ "1"))
      no_backends
  validate_tls c.proxy
  validate_auth c.stats
  validate_rate_limit c.rate_limit
  validate_health c.health_check
  validate_sizes c.proxy
  validate_tracing c.tracing
  validate_policies [] c.policies
  ok (record c { mode = mode })

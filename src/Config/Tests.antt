-- ===== src/Config/Tests.antt =====
-- The theorems about configurations at a small one.
use edge_proxy_go.Base.{
  ◌≡◌, refl, [], ◌∷◌, pos, trim_space, trim_left, trim_right, to_lower, has_colon, ◌==ₛ◌,
}
use edge_proxy_go.Samples.{thousandths}
use edge_proxy_go.Config.Types.{
  RouteConfig, PolicyConfig, Config, default_config, default_proxy, default_rate_limit,
}
use edge_proxy_go.Config.Validate.{
  ok, validate, normalize_mode, ◌>>◌, ◌>>=◌, refuse, validate_backends, validate_routes,
  validate_route, validate_route_backends, validate_tls, validate_auth, validate_rate_limit,
  validate_health, validate_sizes, validate_policies, validate_tracing,
}
use edge_proxy_go.Config.Validate.Sound.{IsSound, validate-IsSound}

abbrev login : PolicyConfig
login = record {
  name = "login";
  route_prefix = "/login";
  methods = "POST" ∷ [];
  api_keys = [];
  requests = pos 3;
  window_seconds = pos 60;
  base_requests_per_second = pos 0;
  burst_capacity = pos 0;
  sliding_window_seconds = pos 0;
  soft_throttle_milliseconds = pos 0;
  block_seconds = pos 0;
  repeated_abuse_threshold = pos 0;
  event_retention_seconds = pos 0;
  top_n = pos 0;
}

abbrev api : RouteConfig
api = record {
  path = "/api";
  backends = record { address = "api-1:8000"; weight = pos 2 } ∷ [];
  health_path = "";
  timeout_ms = pos 500;
  retries = pos 1;
}

-- The default configuration with a route, a policy, and a mode to normalise.
abbrev small : Config
small = record default_config { mode = " HTTP "; routes = api ∷ []; policies = login ∷ [] }

abbrev normal : Config
normal = record small { mode = normalize_mode " HTTP " }

accepted : validate "127.0.0.1:9100" small ≡ ok normal
unfolding validate ◌>>◌ ◌>>=◌ refuse ◌==ₛ◌ trim_space trim_left trim_right default_config
    default_proxy default_rate_limit normalize_mode to_lower has_colon validate_backends
    validate_routes validate_route validate_route_backends validate_tls validate_auth
    validate_rate_limit validate_health validate_sizes validate_policies validate_tracing
accepted = refl

validate-IsSound_example :
    IsSound normal × (normal ≡ record small { mode = normalize_mode " HTTP " })
unfolding default_config
validate-IsSound_example = validate-IsSound "127.0.0.1:9100" small accepted

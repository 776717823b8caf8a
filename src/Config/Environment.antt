-- ===== src/Config/Environment.antt =====
-- config.go: `applyEnvOverrides` and `normalizePort`. The environment is a parameter: it answers the
-- empty text for a variable that is not set, as `os.Getenv` does.
use edge_proxy_go.Base.{
  ℤ, Bool, true, false, not, ◌&&◌, ◌||◌, List, [], ◌∷◌, Option, none, some, String, Float,
  starts_with, ◌==ₛ◌, if◌then◌else◌, trim_space, to_lower, equal_fold, split, atoi,
}
use Prim.Native.String
use edge_proxy_go.Config.Types.{ProxyConfig, StatsConfig, RateLimitConfig, TracingConfig, Config}
use edge_proxy_go.Config.Defaults.{apply_rate_limit_defaults}

unfoldable pub normalize_port : String → String
normalize_port v =
    let port = trim_space v in
    if port ==ₛ "" || starts_with port ":" then port else String.◌++◌ ":" port

-- `if v := os.Getenv(name); v != "" { field = v }`
unfoldable pub set_text : String → String → String
set_text v old = if v ==ₛ "" then old else v

unfoldable pub parsed_or {ℓ} : {A : Type ℓ} → Option A → A → A
parsed_or none old = old
parsed_or (some new) old = new

-- `... if parsed, err := strconv.Atoi(v); err == nil { field = parsed }`
unfoldable pub set_int : String → ℤ → ℤ
unfolding parsed_or
set_int v old = if v ==ₛ "" then old else parsed_or (atoi v) old

unfoldable pub set_float : ⦃F : Float⦄ → String → F.Num → F.Num
unfolding parsed_or
set_float ⦃F⦄ v old = if v ==ₛ "" then old else parsed_or (F.parse v) old

-- The loop over the parts of `BACKENDS`.
unfoldable pub non_blank : List String → List String
non_blank [] = []
non_blank (b ∷ bs) = if trim_space b ==ₛ "" then non_blank bs else trim_space b ∷ non_blank bs

abbrev first_unless_empty {ℓ} : {A : Type ℓ} → List A → List A → List A
first_unless_empty [] old = old
first_unless_empty (x ∷ xs) old = x ∷ xs

unfoldable pub set_backends : String → List String → List String
unfolding non_blank
set_backends v old = if v ==ₛ "" then old else first_unless_empty (non_blank (split b',' v)) old

unfoldable pub env_proxy : (String → String) → ProxyConfig → ProxyConfig
unfolding normalize_port set_text
env_proxy env p =
    let cert = set_text (env "TLS_CERT") p.tls.cert_file in
    let key = set_text (env "TLS_KEY") p.tls.key_file in
    record p {
      port = if env "PORT" ==ₛ "" then p.port else normalize_port (env "PORT");
      tls = record {
        enabled = p.tls.enabled || (not (cert ==ₛ "") && not (key ==ₛ ""));
        cert_file = cert;
        key_file = key;
      };
    }

unfoldable pub env_stats : (String → String) → StatsConfig → StatsConfig
unfolding normalize_port set_text
env_stats env s = record {
  port = if env "STATS_PORT" ==ₛ "" then s.port else normalize_port (env "STATS_PORT");
  auth = record {
    enabled = s.auth.enabled || not (env "DASHBOARD_PASS" ==ₛ "");
    username = set_text (env "DASHBOARD_USER") s.auth.username;
    password = set_text (env "DASHBOARD_PASS") s.auth.password;
  };
}

unfoldable pub env_rate_limit : ⦃F : Float⦄ → (String → String) → RateLimitConfig → RateLimitConfig
unfolding set_text set_int set_float
env_rate_limit env r = record r {
  identifier_header = set_text (env "RATE_LIMIT_IDENTIFIER_HEADER") r.identifier_header;
  base_requests_per_second = set_float (env "RATE_LIMIT_RPS") r.base_requests_per_second;
  burst_capacity = set_float (env "RATE_LIMIT_BURST") r.burst_capacity;
  sliding_window_seconds = set_int (env "RATE_LIMIT_WINDOW_SECONDS") r.sliding_window_seconds;
  soft_throttle_milliseconds =
      set_int (env "RATE_LIMIT_SOFT_THROTTLE_MS") r.soft_throttle_milliseconds;
  block_seconds = set_int (env "RATE_LIMIT_BLOCK_SECONDS") r.block_seconds;
  repeated_abuse_threshold = set_int (env "RATE_LIMIT_ABUSE_THRESHOLD") r.repeated_abuse_threshold;
  event_retention_seconds =
      set_int (env "RATE_LIMIT_EVENT_RETENTION_SECONDS") r.event_retention_seconds;
  top_n = set_int (env "RATE_LIMIT_TOP_N") r.top_n;
  redis = record {
    addr = set_text (env "REDIS_ADDR") r.redis.addr;
    password = set_text (env "REDIS_PASSWORD") r.redis.password;
    db = set_int (env "REDIS_DB") r.redis.db;
  };
}

abbrev is_parsed {ℓ} : {A : Type ℓ} → Option A → Bool
is_parsed none = false
is_parsed (some a) = true

unfoldable pub env_tracing : ⦃F : Float⦄ → (String → String) → TracingConfig → TracingConfig
unfolding set_text set_float
env_tracing ⦃F⦄ env t =
    let insecure = env "OTEL_EXPORTER_OTLP_INSECURE" in
    let ratio = env "OTEL_SAMPLE_RATIO" in
    record {
      enabled =
          t.enabled
          || not (env "OTEL_EXPORTER_OTLP_ENDPOINT" ==ₛ "")
          || (not (ratio ==ₛ "") && is_parsed (F.parse ratio));
      service_name = set_text (env "OTEL_SERVICE_NAME") t.service_name;
      endpoint = set_text (env "OTEL_EXPORTER_OTLP_ENDPOINT") t.endpoint;
      insecure =
          if insecure ==ₛ "" then t.insecure else equal_fold insecure "true" || insecure ==ₛ "1";
      sample_ratio = set_float ratio t.sample_ratio;
    }

unfoldable pub apply_env_overrides : ⦃F : Float⦄ → (String → String) → Config → Config
unfolding env_proxy env_stats env_rate_limit env_tracing set_backends apply_rate_limit_defaults
apply_env_overrides env cfg = apply_rate_limit_defaults (record cfg {
  mode = if env "MODE" ==ₛ "" then cfg.mode else to_lower (trim_space (env "MODE"));
  proxy = env_proxy env cfg.proxy;
  stats = env_stats env cfg.stats;
  backends = set_backends (env "BACKENDS") cfg.backends;
  tcp_backend =
      if env "TCP_BACKEND" ==ₛ "" then cfg.tcp_backend else trim_space (env "TCP_BACKEND");
  rate_limit = env_rate_limit env cfg.rate_limit;
  tracing = env_tracing env cfg.tracing;
})

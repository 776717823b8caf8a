-- ===== src/Config/Types.antt =====
-- config.go: the configuration's types and `defaultConfig`.
use edge_proxy_go.Base.{◌*◌, ℤ, pos, Bool, true, false, List, [], ◌∷◌, String, Float}

pub record BackendConfig : Type 0 where
  pub address : String
  pub weight : ℤ

pub record RouteConfig : Type 0 where
  pub path : String
  pub backends : List BackendConfig
  pub health_path : String
  pub timeout_ms : ℤ
  pub retries : ℤ

pub record TlsConfig : Type 0 where
  pub enabled : Bool
  pub cert_file : String
  pub key_file : String

pub record ProxyConfig : Type 0 where
  pub port : String
  pub tls : TlsConfig
  pub read_timeout_ms : ℤ
  pub read_header_timeout_ms : ℤ
  pub write_timeout_ms : ℤ
  pub idle_timeout_ms : ℤ
  pub connect_timeout_ms : ℤ
  pub response_header_ms : ℤ
  pub max_header_bytes : ℤ
  pub max_body_bytes : ℤ
  pub max_response_body_bytes : ℤ

pub record AuthConfig : Type 0 where
  pub enabled : Bool
  pub username : String
  pub password : String

pub record StatsConfig : Type 0 where
  pub port : String
  pub auth : AuthConfig

pub record RedisConfig : Type 0 where
  pub addr : String
  pub password : String
  pub db : ℤ

pub record RateLimitConfig ⦃F : Float⦄ : Type 0 where
  pub name : String
  pub requests : ℤ
  pub window_seconds : ℤ
  pub identifier_header : String
  pub key : String
  pub enabled : Bool
  pub base_requests_per_second : F.Num
  pub burst_capacity : F.Num
  pub sliding_window_seconds : ℤ
  pub soft_throttle_milliseconds : ℤ
  pub block_seconds : ℤ
  pub repeated_abuse_threshold : ℤ
  pub event_retention_seconds : ℤ
  pub top_n : ℤ
  pub redis : RedisConfig

pub record PolicyConfig ⦃F : Float⦄ : Type 0 where
  pub name : String
  pub route_prefix : String
  pub methods : List String
  pub api_keys : List String
  pub requests : ℤ
  pub window_seconds : ℤ
  pub base_requests_per_second : F.Num
  pub burst_capacity : F.Num
  pub sliding_window_seconds : ℤ
  pub soft_throttle_milliseconds : ℤ
  pub block_seconds : ℤ
  pub repeated_abuse_threshold : ℤ
  pub event_retention_seconds : ℤ
  pub top_n : ℤ

pub record HealthCheckConfig : Type 0 where
  pub enabled : Bool
  pub interval_seconds : ℤ
  pub timeout_seconds : ℤ
  pub path : String

pub record TracingConfig ⦃F : Float⦄ : Type 0 where
  pub enabled : Bool
  pub service_name : String
  pub endpoint : String
  pub insecure : Bool
  pub sample_ratio : F.Num

pub record Config ⦃F : Float⦄ : Type 0 where
  pub mode : String
  pub proxy : ProxyConfig
  pub stats : StatsConfig
  pub backends : List String
  pub routes : List RouteConfig
  pub tcp_backend : String
  pub rate_limit : RateLimitConfig
  pub policies : List PolicyConfig
  pub health_check : HealthCheckConfig
  pub tracing : TracingConfig

unfoldable pub default_proxy : ProxyConfig
default_proxy = record {
  port = ":8080";
  tls = record { enabled = false; cert_file = ""; key_file = "" };
  read_timeout_ms = pos 15000;
  read_header_timeout_ms = pos 5000;
  write_timeout_ms = pos 30000;
  idle_timeout_ms = pos 60000;
  connect_timeout_ms = pos 3000;
  response_header_ms = pos 15000;
  max_header_bytes = pos 1_048_576;
  max_body_bytes = pos (10 * 1_048_576);
  max_response_body_bytes = pos (50 * 1_048_576);
}

unfoldable pub default_rate_limit : ⦃F : Float⦄ → RateLimitConfig
default_rate_limit ⦃F⦄ = record {
  name = "default";
  requests = pos 5;
  window_seconds = pos 10;
  identifier_header = "X-API-Key";
  key = "ip";
  enabled = true;
  base_requests_per_second = F.of_int (pos 5);
  burst_capacity = F.of_int (pos 10);
  sliding_window_seconds = pos 10;
  soft_throttle_milliseconds = pos 250;
  block_seconds = pos 30;
  repeated_abuse_threshold = pos 3;
  event_retention_seconds = pos 3600;
  top_n = pos 10;
  redis = record { addr = ""; password = ""; db = pos 0 };
}

unfoldable pub default_config : ⦃F : Float⦄ → Config
unfolding default_proxy default_rate_limit
default_config ⦃F⦄ = record {
  mode = "http";
  proxy = default_proxy;
  stats = record {
    port = ":8081";
    auth = record { enabled = false; username = "admin"; password = "changeme" };
  };
  backends = "localhost:9000" ∷ "localhost:9001" ∷ "localhost:9002" ∷ [];
  routes = [];
  tcp_backend = "";
  rate_limit = default_rate_limit;
  policies = [];
  health_check = record {
    enabled = true;
    interval_seconds = pos 10;
    timeout_seconds = pos 2;
    path = "/health";
  };
  tracing = record {
    enabled = false;
    service_name = "edge-proxy";
    endpoint = "";
    insecure = true;
    sample_ratio = F.of_int (pos 1);
  };
}

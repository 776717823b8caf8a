-- ===== src/Control/Tests.antt =====
-- The theorems about starting, reloading and administering the proxy, at a small configuration.
use edge_proxy_go.Base.{
  ◌↔◌, ℕ, suc, ◌≡◌, ◌≢◌, refl, inl, Bool, true, false, List, [], ◌∷◌, Option, none, some, String,
  pos, trim_space, trim_left, trim_right, to_lower, has_colon, ◌==ₛ◌, Bool-cases, is_blank, inr,
  arith,
}
use edge_proxy_go.Samples.{thousandths}
use edge_proxy_go.Config.Types.{
  AuthConfig, Config, TracingConfig, default_config, default_proxy, default_rate_limit,
}
use edge_proxy_go.Config.Defaults.{apply_rate_limit_defaults_to_config}
use edge_proxy_go.Config.Environment.{apply_env_overrides}
use edge_proxy_go.Config.Validate.{
  ok, validate, normalize_mode, ◌>>◌, ◌>>=◌, refuse, validate_backends, validate_routes,
  validate_route, validate_route_backends, validate_tls, validate_auth, validate_rate_limit,
  validate_health, validate_sizes, validate_policies, validate_tracing,
}
use edge_proxy_go.Limiter.Redis.Evaluate.{new_rate_limiter, ping}
use edge_proxy_go.Pool.Startup.{new_backend_pool_from_config}
use edge_proxy_go.Base.{map}
use edge_proxy_go.Pool.Entry.{BackendEntry, IsDistinct}
use edge_proxy_go.Pool.Startup.{
  new_backend_pool, new_entries, new_entry, configure, start_of, add_routes_from,
}
use edge_proxy_go.Proxy.Backends.{add_address, add_addresses, add_routes, backend_addresses}
use edge_proxy_go.Control.System.Listed.{started-IsListed}
use edge_proxy_go.Config.Load.{ConfigFile, missing, load_config}
use edge_proxy_go.Limiter.Redis.{failed, exec_failed, Redis, Library, Limiter}
use edge_proxy_go.Pool.Admin.{set_backend_state}
use edge_proxy_go.Pool.Tests.{two_to_one}
use edge_proxy_go.Proxy.Recorder.{no_stats}
use edge_proxy_go.Proxy.Upstream.{Network}
use edge_proxy_go.Proxy.Handler.{Services, Runtime}
use edge_proxy_go.Control.Reload.{Reloads, checked, reload_runtime_config, start_up, reload-Reloads}
use edge_proxy_go.Control.Admin.{asked, set_state, view, view-set_backend_state}
use edge_proxy_go.Control.System.{IsRunning, begins, continues, commands, started-IsRunning}
use edge_proxy_go.Control.Cli.{run_cli, validated_iff, NamesSound}
use edge_proxy_go.Control.Server.{
  reload, AdminRequest, Outside, dashboard, answered, stats_server, stats_server-guards,
}

-- No file, no environment, and no Redis server.
abbrev pub decode : String → Config → Option Config
decode t c = none

abbrev pub env : String → String
env name = ""

abbrev offline : Redis ℕ
offline = record {
  ping = λ n. (n, true);
  ttl = λ key n. (n, none);
  run = λ command n. (n, failed);
  exec = λ commands n. (n, [], exec_failed);
}

abbrev pub library : Library ℕ
library = record {
  now = λ n. (suc n, n);
  new_client = λ c. offline;
  decimal = λ n. "";
  atoi_value = λ s. pos 0;
  marshal = λ e. none;
  unmarshal = λ s. none;
}

abbrev running : Runtime ℕ (Limiter ℕ)
running = record {
  config = default_config;
  net = 0;
  limiter = record {
    client = none;
    cfg = default_config.rate_limit;
    local = record { buckets = []; events = [] };
  };
  pool = two_to_one;
  stats = no_stats;
  request_seq = 0;
}

reload-Reloads_example :
    let (rt', error) = reload_runtime_config library decode env missing running in
    Reloads library decode env missing running rt' error
    × (rt'.stats ≡ running.stats)
    × (rt'.request_seq ≡ running.request_seq)
reload-Reloads_example = reload-Reloads library decode env running missing

view-set_backend_state_example :
    view (set_backend_state "api-1:8000" "drain" two_to_one).0
    ≡ set_state "api-1:8000" (asked "drain") (view two_to_one)
view-set_backend_state_example = view-set_backend_state "api-1:8000" "drain" two_to_one

abbrev outside : Outside ℕ
outside = record {
  mux = λ path. dashboard;
  unescape = some;
  file = missing;
  dashboard = none;
  now = 100;
}

abbrev anonymous : AdminRequest
anonymous = record { method = "POST"; path = "/-/reload"; action = none; credentials = none }

not_admin : anonymous.credentials ≢ some ("admin", "changeme")
not_admin h = cc

stats_server-guards_example :
    stats_server library decode env outside
      record { enabled = true; username = "admin"; password = "changeme" }
      anonymous
      running
    ≡ (running, answered 401)
stats_server-guards_example =
    stats_server-guards library decode env outside
      record { enabled = true; username = "admin"; password = "changeme" } anonymous running refl
      not_admin

abbrev silent : Network ℕ
silent = record { now = λ n. (suc n, n); send = λ n backend. (n, none) }

abbrev services : Services ℕ (Limiter ℕ)
services = record {
  network = silent;
  evaluate = λ user identifier c nl. (nl, none);
  wait = λ n delay. (n, true);
  with_timeout = λ timeout n. n;
  expired = λ n. false;
  split_host = λ address. none;
  decimal = λ n. "";
  format = λ n. "";
}

abbrev pub tracing : TracingConfig → ℕ → ℕ × Bool
tracing c n = (n, true)

abbrev pub first_config : Config
first_config = record (apply_env_overrides env default_config) { mode = normalize_mode "http" }

loaded : load_config decode env missing ≡ ok first_config
unfolding load_config apply_env_overrides validate ◌>>◌ ◌>>=◌ refuse ◌==ₛ◌ trim_space trim_left
    trim_right default_config default_proxy default_rate_limit normalize_mode to_lower has_colon
    validate_backends validate_routes validate_route validate_route_backends validate_tls
    validate_auth validate_rate_limit validate_health validate_sizes validate_policies
    validate_tracing apply_rate_limit_defaults_to_config
loaded = refl

abbrev pub first_runtime : Runtime ℕ (Limiter ℕ)
first_runtime = record {
  config = first_config;
  net = 0;
  limiter = new_rate_limiter library first_config.rate_limit;
  pool = new_backend_pool_from_config first_config;
  stats = no_stats;
  request_seq = 0;
}

online :
    (c : Config)
    → checked library decode env c (new_rate_limiter library c.rate_limit) 0 ≡ (0, true)
unfolding new_rate_limiter ping
online c = elim (Bool-cases (is_blank c.rate_limit.redis.addr)) [
  | inl e ↦ rw e (ground arith)
  | inr e ↦ rw e (ground arith)
]

pub starts : start_up library decode env tracing missing 0 ≡ (0, inl first_runtime)
unfolding start_up
starts = rw (loaded, start_up, online first_config) refl

started : (start_up library decode env tracing missing 0).1 ≡ inl first_runtime
started = rw starts refl

abbrev admin : Outside ℕ
admin = record outside { mux = λ path. reload }

abbrev no_auth : AuthConfig
no_auth = record { enabled = false; username = ""; password = "" }

started-IsRunning_example :
    IsRunning (stats_server library decode env admin no_auth anonymous first_runtime).0
started-IsRunning_example =
    started-IsRunning library decode env services tracing missing 0 started
      (continues begins (commands admin no_auth anonymous))

abbrev flags : String → List String → Option (String × List String)
flags path args = some (path, args)

abbrev file_at : String → ConfigFile
file_at path = missing

abbrev never : String → Bool
never path = false

validated_iff_example :
    (run_cli decode env file_at flags never ("validate" ∷ []) ≡ 0)
    ↔ NamesSound decode env file_at flags []
validated_iff_example = validated_iff decode env file_at flags never []

listed_once : IsDistinct first_config.backends
unfolding apply_env_overrides default_config ◌==ₛ◌ trim_space trim_left trim_right
listed_once = (refl, (refl, (refl, tt)))

started-IsListed_example :
    let rt = (stats_server library decode env admin no_auth anonymous first_runtime).0 in
    map (λ (e : BackendEntry). e.address) rt.pool.backends ≡ backend_addresses rt.config
started-IsListed_example =
    started-IsListed library decode env services tracing missing 0 started listed_once
      (continues begins (commands admin no_auth anonymous))

-- A backend that is listed twice is there twice after a start, and once after a reload.
abbrev listed_twice : Config
listed_twice = record first_config { backends = "api:1" ∷ "api:1" ∷ [] }

twice_started :
    map (λ (e : BackendEntry). e.address) (new_backend_pool_from_config listed_twice).backends
    ≡ "api:1" ∷ "api:1" ∷ []
unfolding new_backend_pool_from_config new_backend_pool new_entries new_entry configure start_of
    add_routes_from apply_env_overrides default_config trim_space trim_left trim_right ◌==ₛ◌
twice_started = refl

once_reloaded : backend_addresses listed_twice ≡ "api:1" ∷ []
unfolding backend_addresses add_addresses add_address add_routes apply_env_overrides default_config
    trim_space trim_left trim_right ◌==ₛ◌
once_reloaded = refl

-- ===== src/Proxy/Tests.antt =====
-- The theorems about the path of a request at small configurations.
use edge_proxy_go.Base.{
  ℕ, zero, suc, ◌≤◌, ◌≡◌, refl, ◌≢◌, true, false, some, List, [], ◌∷◌, String, pos, arith, length,
  ◌==ₛ◌, ne_of_==ₛ,
}
use edge_proxy_go.Samples.{thousandths}
use edge_proxy_go.Config.Types.{RouteConfig, Config, default_config}
use edge_proxy_go.Proxy.Routing.{match_route, IsMatch, match_route-IsMatch}
use edge_proxy_go.Proxy.Policy.{Request, resolve_rate_limit_config}
use edge_proxy_go.Proxy.Policy.Resolution.{IsResolution, resolve_rate_limit_config-IsResolution}
use edge_proxy_go.Proxy.Forward.{Upstream, forward, retries_for, answer, relayed}
use edge_proxy_go.Proxy.Forward.Outcomes.{answer-dry}
use edge_proxy_go.Proxy.Forward.Count.{counted, retries_of, forward-count}
use edge_proxy_go.Proxy.Headers.{Header}
use edge_proxy_go.Proxy.Recorder.{
  LogEntry, record_all, no_stats, limited_among, with_status, latest, record_all-counts,
}

abbrev root : RouteConfig
root = record {
  path = "/";
  backends = record { address = "api-1:8000"; weight = pos 1 } ∷ [];
  health_path = "";
  timeout_ms = pos 0;
  retries = pos 0;
}

abbrev api : RouteConfig
api = record root {
  path = "/api";
  backends = record { address = "api-2:8000"; weight = pos 1 } ∷ [];
  retries = pos 2;
}

abbrev routes : List RouteConfig
routes = root ∷ api ∷ root ∷ []

match_route-IsMatch_example : IsMatch "/api/x" routes (match_route "/api/x" routes)
match_route-IsMatch_example = match_route-IsMatch "/api/x" routes

abbrev config : Config
config = record default_config {
  backends = "api-1:8000" ∷ "api-1:8000" ∷ [];
  routes = routes;
  policies =
      record {
        name = "login";
        route_prefix = "/login";
        methods = "POST" ∷ [];
        api_keys = [];
        requests = pos 3;
        window_seconds = pos 60;
        base_requests_per_second = pos 0;
        burst_capacity = pos 0;
        sliding_window_seconds = pos 0;
        soft_throttle_milliseconds = pos 0;
        block_seconds = pos 0;
        repeated_abuse_threshold = pos 0;
        event_retention_seconds = pos 0;
        top_n = pos 0;
      }
      ∷ [];
}

abbrev post : Request
post = record { path = "/login/x"; method = "POST"; identifier = "127.0.0.1" }

resolve_rate_limit_config-IsResolution_example :
    IsResolution post
      (record config.rate_limit { name = "default" })
      config.policies
      (resolve_rate_limit_config post config)
resolve_rate_limit_config-IsResolution_example = resolve_rate_limit_config-IsResolution post config

abbrev chosen : String
chosen = "api-2:8000"

abbrev choice : ℕ → String
choice zero = chosen
choice (suc n) = ""

-- A backend that answers 503 and then is not available. The state counts the choices.
abbrev flaky : Upstream ℕ
flaky = record {
  rewind = some;
  choose = λ n. (suc n, choice n);
  round_trip = λ n b. (n, some 503);
  close = λ n. n;
}

some_choice : chosen ≢ ""
unfolding ◌==ₛ◌
some_choice = ne_of_==ₛ chosen "" refl

answer-dry_example :
    answer false (forward flaky (pos 2) 0).1 ≡ relayed "" record { status = 503; closed = true }
answer-dry_example =
    answer-dry flaky false 1 0 1 1 1 2 chosen 503 refl some_choice refl refl refl refl

forward-count_example :
    (forward (counted flaky) (retries_for (some api) "GET") (0, 0)).0.1
    ≤ suc (retries_of (some api) "GET")
forward-count_example = forward-count flaky (some api) "GET" 0

abbrev entry : LogEntry
entry = record {
  request_id = "req-1";
  policy_name = "default";
  time = "";
  ip = "127.0.0.1";
  method = "GET";
  path = "/";
  status = 200;
  latency_ms = pos 3;
  backend = "api-1:8000";
  limited = false;
}

abbrev entries : List LogEntry
entries = entry ∷ record entry { status = 429; limited = true } ∷ entry ∷ []

record_all-counts_example :
    let r = record_all entries no_stats in
    (r.total_requests ≡ length entries)
    × (r.total_limited ≡ limited_among entries)
    × (r.status_counts 429 ≡ with_status 429 entries)
    × (r.access_log ≡ latest entries)
record_all-counts_example = record_all-counts entries 429 (omega arith)

abbrev headers : Header
headers =
    ("Accept", "*/*" ∷ []) ∷ ("Upgrade", "h2c" ∷ []) ∷ ("X-Forwarded-For", "10.0.0.1" ∷ []) ∷ []

abbrev untraced : Header → Header
untraced h = h

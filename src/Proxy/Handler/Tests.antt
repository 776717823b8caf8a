-- ===== src/Proxy/Handler/Tests.antt =====
-- The handler on a small configuration, with a network that always answers.
mod Quota
mod Available
use edge_proxy_go.Base.{
  not, if◌then◌else◌, ◌==ₛ◌, ◌+ℤ◌, ◌-ℤ◌, ℕ, suc, ◌<◌, ◌≡◌, refl, Bool, true, false, none, some,
  List, [], ◌∷◌, String, pos, arith, length,
}
use edge_proxy_go.Proxy.Handler.{serve}
use edge_proxy_go.Proxy.Handler.{
  refuse_body, limit, heed, forward_request, relay, copied_status, timeout_for,
  client_ip_from_request, request_id_of,
}
use edge_proxy_go.Proxy.Forward.{
  forward, attempts, round, try_backend, after_trip, answer, retries_for,
}
use edge_proxy_go.Proxy.Upstream.{choose_for, round_trip_to_backend, close_body, finish_since}
use edge_proxy_go.Proxy.Routing.{match_route, match_from, route_backend_set}
use edge_proxy_go.Pool.Select.{
  next_for, collect, visit, candidate_score, choose, sort_stable, insert, less, tied, weighted,
  weight_at, total_weight, pick, mark_probe,
}
use edge_proxy_go.Pool.Entry.{backend_score, avg_latency_ms}
use edge_proxy_go.Pool.Requests.{find, start_request, finish, settle, record_start, record_finish}
use edge_proxy_go.Proxy.Policy.{identify_requester, resolve_rate_limit_config}
use edge_proxy_go.Config.Types.{default_config, default_proxy, default_rate_limit}
use edge_proxy_go.Samples.{thousandths}
use edge_proxy_go.Config.Types.{RateLimitConfig, default_config}
use edge_proxy_go.Limiter.Types.{RateLimitDecision, allow, block}
use edge_proxy_go.Pool.Invariant.{IsValid}
use edge_proxy_go.Pool.Requests.Accounting.{idle, sharing, active}
use edge_proxy_go.Proxy.Recorder.{no_stats, count_status}
use edge_proxy_go.Limiter.Redis.{failed, exec_failed, Redis, Library, Limiter}
use edge_proxy_go.Proxy.Handler.FailClosed.{IsUnreachable, with_limiter, handle-fails_closed}
use edge_proxy_go.Proxy.Upstream.{Network}
use edge_proxy_go.Proxy.Handler.{Incoming, Services, Runtime, Served, handle}
use edge_proxy_go.Proxy.Handler.Balance.{handle_all, handle_all-active}
use edge_proxy_go.Proxy.Handler.Outcomes.{decision_for, Ends, IsCounted, handle-Ends}
use edge_proxy_go.Pool.Tests.{two_to_one, two_to_one-IsValid}
use edge_proxy_go.Pool.Tests.Lifecycle.{no_active}

-- The clock ticks at each reading, and every backend answers 200 with a body of two bytes.
abbrev steady : Network ℕ
steady = record {
  now = λ n. (suc n, n);
  send = λ n backend. (suc n, some record { status = 200; content_length = pos 2 });
}

-- Allows a request, then blocks one, and so on.
abbrev verdict : Bool → String → String → RateLimitConfig → RateLimitDecision
verdict blocked user identifier c = record {
  action = if blocked then block else allow;
  policy_name = c.name;
  user = user;
  identifier = identifier;
  reason = "";
  retry_after = pos 1;
  throttle_delay = pos 0;
  observed_rps = pos 0;
  average_rps = pos 0;
  window_count = pos 0;
  abuse_count = pos 0;
}

abbrev services : Services ℕ Bool
services = record {
  network = steady;
  evaluate = λ user identifier c nl. ((nl.0, not nl.1), some (verdict nl.1 user identifier c));
  wait = λ n delay. (n, true);
  with_timeout = λ timeout n. n;
  expired = λ n. false;
  split_host = λ address. some address;
  decimal = λ n. "1";
  format = λ n. "";
}

abbrev get : Incoming
get = record {
  request_id = "";
  path = "/";
  uri = "/";
  method = "GET";
  remote_addr = "127.0.0.1";
  header = λ key. "";
  content_length = pos 0;
  body = some 0;
}

abbrev runtime : Runtime ℕ Bool
runtime = record {
  config = record default_config {
    rate_limit = record default_config.rate_limit { enabled = true };
  };
  net = 0;
  limiter = false;
  pool = two_to_one;
  stats = no_stats;
  request_seq = 0;
}

abbrev gets : List Incoming
gets = get ∷ get ∷ []

first_kept : 0 < length (handle_all services runtime gets).pool.heap
unfolding handle_all handle serve refuse_body limit heed forward_request relay forward attempts
    round try_backend after_trip answer choose_for round_trip_to_backend close_body finish_since
    copied_status timeout_for match_route match_from route_backend_set retries_for next_for collect
    visit candidate_score backend_score avg_latency_ms choose sort_stable insert less tied weighted
    weight_at total_weight pick mark_probe start_request finish settle record_start record_finish
    ◌==ₛ◌ ◌+ℤ◌ ◌-ℤ◌ client_ip_from_request identify_requester resolve_rate_limit_config
    request_id_of default_config default_proxy default_rate_limit find
first_kept = omega arith

handle_all-active_example :
    IsValid (handle_all services runtime gets).pool
    × (active (handle_all services runtime gets).pool 0 ≡ pos (sharing 0 []))
handle_all-active_example =
    handle_all-active services runtime gets [] two_to_one-IsValid (idle two_to_one no_active) 0
      first_kept

handle-Ends_example :
    let (rt', out) = handle services runtime get in
    (v : Served) × Ends runtime.config get
      (decision_for services runtime get)
      runtime.limiter
      rt'.limiter
      runtime.pool
      rt'.pool
      v
    × (out.status ≡ v.client_status)
    × (out.retry ≡ v.retry)
    × (rt'.config ≡ runtime.config)
    × IsCounted v runtime.stats rt'.stats
handle-Ends_example = handle-Ends services runtime get

-- A server that no command reaches.
abbrev cut_off : Redis ℕ
cut_off = record {
  ping = λ n. (n, false);
  ttl = λ key n. (n, none);
  run = λ command n. (n, failed);
  exec = λ commands n. (n, [], exec_failed);
}

abbrev library : Library ℕ
library = record {
  now = λ n. (suc n, n);
  new_client = λ c. cut_off;
  decimal = λ n. "";
  atoi_value = λ s. pos 0;
  marshal = λ e. none;
  unmarshal = λ s. none;
}

abbrev shared : Services ℕ (Limiter ℕ)
shared = record {
  network = steady;
  evaluate = λ user identifier c nl. (nl, none);
  wait = λ n delay. (n, true);
  with_timeout = λ timeout n. n;
  expired = λ n. false;
  split_host = λ address. some address;
  decimal = λ n. "1";
  format = λ n. "";
}

abbrev shared_runtime : Runtime ℕ (Limiter ℕ)
shared_runtime = record {
  config = runtime.config;
  net = 0;
  limiter = record {
    client = some cut_off;
    cfg = runtime.config.rate_limit;
    local = record { buckets = []; events = [] };
  };
  pool = two_to_one;
  stats = no_stats;
  request_seq = 0;
}

cut_off-IsUnreachable : IsUnreachable cut_off
cut_off-IsUnreachable = record { no_ttl = λ key n. refl; no_exec = λ commands n. refl }

accepted : refuse_body runtime.config.proxy.max_body_bytes get ≡ none
unfolding refuse_body default_config default_proxy default_rate_limit
accepted = refl

handle-fails_closed_example :
    let (rt', out) = handle (with_limiter library shared) shared_runtime get in
    (out.status ≡ 503)
    × (out.retry ≡ none)
    × (rt'.pool ≡ two_to_one)
    × (rt'.stats.status_counts ≡ count_status 503 no_stats.status_counts)
    × (rt'.stats.total_limited ≡ no_stats.total_limited)
handle-fails_closed_example =
    handle-fails_closed library shared shared_runtime get cut_off refl cut_off-IsUnreachable refl
      accepted

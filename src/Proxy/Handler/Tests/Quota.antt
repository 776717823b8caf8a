-- ===== src/Proxy/Handler/Tests/Quota.antt =====
-- Two requests of one client, to a limiter without Redis.
use edge_proxy_go.Base.{ℕ, ◌≤◌, refl, inl, [], ◌∷◌, none, arith, All, ◌==ₛ◌, ◌+ℤ◌, ◌-ℤ◌}
use edge_proxy_go.Base.{trim_space, trim_left, trim_right, equal_fold, to_lower}
use edge_proxy_go.Limiter.Local.{evaluate_local, verdict_for, judge, current_bucket}
use edge_proxy_go.Limiter.Redis.Evaluate.{evaluate}
use edge_proxy_go.Proxy.Handler.{
  serve, limit, heed, forward_request, relay, copied_status, timeout_for, client_ip_from_request,
  request_id_of,
}
use edge_proxy_go.Proxy.Forward.{
  forward, attempts, round, try_backend, after_trip, answer, retries_for,
}
use edge_proxy_go.Proxy.Upstream.{choose_for, round_trip_to_backend, close_body, finish_since}
use edge_proxy_go.Proxy.Routing.{match_route, match_from, route_backend_set}
use edge_proxy_go.Pool.Select.{
  next_for, collect, visit, candidate_score, choose, sort_stable, insert, less, tied, weighted,
  weight_at, total_weight, pick, mark_probe,
}
use edge_proxy_go.Pool.Entry.{backend_score, avg_latency_ms}
use edge_proxy_go.Pool.Requests.{find, start_request, finish, settle, record_start, record_finish}
use edge_proxy_go.Proxy.Policy.{identify_requester, resolve_rate_limit_config, resolve_from}
use edge_proxy_go.Samples.{thousandths}
use edge_proxy_go.Config.Types.{RateLimitConfig, default_config, default_proxy, default_rate_limit}
use edge_proxy_go.Limiter.Types.{lookup}
use edge_proxy_go.Limiter.Local.{bucket_key, window_of, limit_of}
use edge_proxy_go.Limiter.Window.{Within, IsOver}
use edge_proxy_go.Limiter.Redis.{Limiter}
use edge_proxy_go.Proxy.Handler.{Runtime, refuse_body, handle}
use edge_proxy_go.Proxy.Handler.Limiting.{settings}
use edge_proxy_go.Proxy.Handler.FailClosed.{with_limiter}
use edge_proxy_go.Proxy.Handler.Quota.{reading, readings, let_through, Asks, let_through-le-limit}
use edge_proxy_go.Proxy.Handler.Tests.{get, library, shared, shared_runtime, accepted}

abbrev local_runtime : Runtime ℕ (Limiter ℕ)
local_runtime = record shared_runtime {
  net = 5;
  limiter = record shared_runtime.limiter { client = none };
}

abbrev policy : RateLimitConfig
policy = settings shared local_runtime.config "127.0.0.1" get

asks :
    All
      (Asks library shared local_runtime.config "ip:127.0.0.1" "127.0.0.1" policy)
      (get ∷ get ∷ [])
unfolding identify_requester trim_space trim_left trim_right equal_fold to_lower
    client_ip_from_request default_config default_proxy default_rate_limit ◌==ₛ◌
asks = ((refl, refl), ((refl, refl), tt))

over :
    IsOver
      (window_of policy)
      (reading library shared local_runtime).0
      (lookup (bucket_key policy.name "ip:127.0.0.1") local_runtime.limiter.local.buckets)
unfolding IsOver lookup
over = inl refl

within :
    Within (reading library shared local_runtime).0 (window_of policy) (
      readings library shared (handle (with_limiter library shared) local_runtime get).0 (get ∷ []))
unfolding readings handle serve refuse_body limit heed forward_request relay forward attempts round
    try_backend after_trip answer choose_for round_trip_to_backend close_body finish_since
    copied_status timeout_for match_route match_from route_backend_set retries_for next_for collect
    visit candidate_score backend_score avg_latency_ms choose sort_stable insert less tied weighted
    weight_at total_weight pick mark_probe start_request finish settle record_start record_finish
    ◌==ₛ◌ ◌+ℤ◌ ◌-ℤ◌ client_ip_from_request identify_requester resolve_rate_limit_config
    request_id_of default_config default_proxy default_rate_limit find evaluate evaluate_local
    verdict_for judge current_bucket window_of lookup limit_of resolve_from
within = (omega arith, tt)

let_through-le-limit_example :
    let_through library shared local_runtime (get ∷ get ∷ []) ≤ limit_of policy
let_through-le-limit_example =
    let_through-le-limit library shared "ip:127.0.0.1" "127.0.0.1" policy local_runtime get
      (get ∷ []) refl refl asks accepted (omega arith) over within

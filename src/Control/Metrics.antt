-- ===== src/Control/Metrics.antt =====
-- main.go: `buildStats`, `metricsHandler` and `breakerStateValue`. The lines of text are not modelled,
-- but the numbers in them.
use edge_proxy_go.Base.{
  ℕ, suc, ◌≡◌, refl, ap, ℤ, List, [], ◌∷◌, map, Option, none, some, String, Float, arith,
  if◌then◌else◌, ◌==ₛ◌, length,
}
use edge_proxy_go.Config.Types.{Config}
use edge_proxy_go.Limiter.Types.{UserTrafficInsight}
use edge_proxy_go.Pool.Entry.{
  BackendStats, BackendEntry, BackendPool, BreakerState, closed, opened, half_open,
  backend_available,
}
use edge_proxy_go.Pool.Select.{visit, count_available, available_count}
use edge_proxy_go.Pool.Admin.{BackendStatus, status_of, status, count_healthy, healthy_count}
use edge_proxy_go.Proxy.Recorder.{Stats, LogEntry}

unfoldable pub breaker_state_value : BreakerState → ℕ
breaker_state_value opened = 1
breaker_state_value half_open = 2
breaker_state_value closed = 0

-- The numbers of one backend.
pub record BackendMetrics ⦃F : Float⦄ : Type 0 where
  pub backend : String
  pub requests : ℕ
  pub errors : ℕ
  pub active_requests : ℤ
  pub average_latency_ms : F.Num
  pub breaker_state : ℕ
  pub consecutive_errors : ℕ

pub record Metrics ⦃F : Float⦄ : Type 0 where
  pub requests_total : ℕ
  pub rate_limited_total : ℕ
  pub responses_total : ℕ → ℕ
  pub active_connections : ℕ
  pub healthy_backends : ℕ
  pub total_backends : ℕ
  pub available_backends : ℕ
  pub backends : List BackendMetrics

pub record RateLimitInfo ⦃F : Float⦄ : Type 0 where
  pub requests : ℤ
  pub window_seconds : ℤ
  pub identifier_header : String
  pub base_requests_per_second : F.Num
  pub burst_capacity : F.Num
  pub block_seconds : ℤ
  pub redis_addr : String

-- `ip_counts` is an association list, the latest entry of a key first.
pub record StatsResponse ⦃F : Float⦄ : Type 0 where
  pub total_requests : ℕ
  pub total_limited : ℕ
  pub active_conns : ℕ
  pub ip_counts : List (String × ℤ)
  pub backends : List BackendStatus
  pub rate_limit : RateLimitInfo
  pub log : List LogEntry

module _ ⦃F : Float⦄ where
  unfoldable pub count_status_healthy : List BackendStatus → ℕ
  count_status_healthy [] = 0
  count_status_healthy (s ∷ ss) =
      if s.healthy then suc (count_status_healthy ss) else count_status_healthy ss

  unfoldable pub count_status_available : List BackendStatus → ℕ
  count_status_available [] = 0
  count_status_available (s ∷ ss) =
      if s.available then suc (count_status_available ss) else count_status_available ss

  unfoldable pub metrics_of_backend : BackendStatus → BackendMetrics
  unfolding breaker_state_value
  metrics_of_backend s = record {
    backend = s.address;
    requests = s.requests;
    errors = s.errors;
    active_requests = s.active_requests;
    average_latency_ms = s.avg_latency_ms;
    breaker_state = breaker_state_value s.breaker_state;
    consecutive_errors = s.consecutive_err;
  }

  unfoldable pub metrics : ℕ → Stats → BackendPool → Metrics
  metrics now s p =
      let statuses = status now p in
      record {
        requests_total = s.total_requests;
        rate_limited_total = s.total_limited;
        responses_total = s.status_counts;
        active_connections = s.active_conns;
        healthy_backends = count_status_healthy statuses;
        total_backends = length statuses;
        available_backends = count_status_available statuses;
        backends = map metrics_of_backend statuses;
      }

  -- The identifier of an abuser, or the user if it is empty.
  unfoldable pub label_of : UserTrafficInsight → String
  label_of abuser = if abuser.identifier ==ₛ "" then abuser.user else abuser.identifier

  abbrev pub counts_from : List (String × ℤ) → List UserTrafficInsight → List (String × ℤ)
  counts_from counts [] = counts
  counts_from counts (abuser ∷ abusers) =
      counts_from ((label_of abuser, abuser.abuse_count) ∷ counts) abusers

  abbrev pub ip_counts_of : Option (List UserTrafficInsight) → List (String × ℤ)
  ip_counts_of none = []
  ip_counts_of (some abusers) = counts_from [] abusers

  -- `top` is what `TopAbusers` gives, `none` for an error.
  unfoldable pub build_stats :
      Option (List UserTrafficInsight) → ℕ → Config → Stats → BackendPool → StatsResponse
  build_stats top now c s p = record {
    total_requests = s.total_requests;
    total_limited = s.total_limited;
    active_conns = s.active_conns;
    ip_counts = ip_counts_of top;
    backends = status now p;
    rate_limit = record {
      requests = c.rate_limit.requests;
      window_seconds = c.rate_limit.sliding_window_seconds;
      identifier_header = c.rate_limit.identifier_header;
      base_requests_per_second = c.rate_limit.base_requests_per_second;
      burst_capacity = c.rate_limit.burst_capacity;
      block_seconds = c.rate_limit.block_seconds;
      redis_addr = c.rate_limit.redis.addr;
    };
    log = s.access_log;
  }

  available-visit : (now : ℕ) (e : BackendEntry) → backend_available now e ≡ (visit now none e).1
  unfolding backend_available visit
  available-visit now e = ground arith

  healthy-count :
      (heap : List BackendStats) (now : ℕ) (es : List BackendEntry)
      → count_status_healthy (map (status_of heap now) es) ≡ count_healthy es
  unfolding count_status_healthy count_healthy status_of
  healthy-count heap now [] = refl
  healthy-count heap now (e ∷ es) =
      ap (λ n. if e.healthy then suc n else n) (healthy-count heap now es)

  available-count :
      (heap : List BackendStats) (now : ℕ) (es : List BackendEntry)
      → count_status_available (map (status_of heap now) es) ≡ (count_available now es).1
  unfolding count_status_available count_available status_of
  available-count heap now [] = refl
  available-count heap now (e ∷ es) = rw (available-visit now e, available-count heap now es) refl

  length-map : {A B : Type 0} (f : A → B) (xs : List A) → length (map f xs) ≡ length xs
  length-map f [] = refl
  length-map f (x ∷ xs) = ap suc (length-map f xs)

  -- The numbers of backends in the metrics are those that the pool itself counts: all of them, the
  -- healthy ones, and those that `availableCount` finds.
  pub metrics-counts :
      (now : ℕ) (s : Stats) (p : BackendPool)
      → let m = metrics now s p in
        (m.total_backends ≡ length p.backends)
        × (m.healthy_backends ≡ healthy_count p)
        × (m.available_backends ≡ (available_count now p).1)
  unfolding metrics status healthy_count available_count
  metrics-counts now s p = (
    length-map (status_of p.heap now) p.backends,
    healthy-count p.heap now p.backends,
    available-count p.heap now p.backends,
  )

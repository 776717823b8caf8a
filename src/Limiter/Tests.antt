-- ===== src/Limiter/Tests.antt =====
-- The theorems about the process-local limiter at a policy of two requests a minute.
use edge_proxy_go.Base.{ℕ, ◌*◌, ◌≤◌, ◌≡◌, refl, ◌⊎◌, List, [], ◌∷◌, ◌++◌, pos, arith, length, ◌==ₛ◌}
use edge_proxy_go.Samples.{thousandths}
use edge_proxy_go.Config.Types.{RateLimitConfig, default_rate_limit}
use edge_proxy_go.Pool.Entry.{second}
use edge_proxy_go.Limiter.Types.{allow, block, InsightEvent, RateLimiter, zero_bucket, lookup}
use edge_proxy_go.Limiter.Local.{bucket_key, evaluate_local}
use edge_proxy_go.Limiter.Window.{decisions}
use edge_proxy_go.Limiter.Cooldown.{block_seconds_idle, Reports, IsLast, evaluate_local-events}

abbrev two_a_minute : RateLimitConfig
two_a_minute = record default_rate_limit {
  name = "p";
  requests = pos 2;
  window_seconds = pos 60;
  sliding_window_seconds = pos 60;
}

-- A limiter that has served another user twice, and has an event.
abbrev event : InsightEvent
event = record {
  time = 3;
  policy_name = "p";
  user = "u2";
  identifier = "u2";
  action = block;
  reason = "window_exceeded";
  observed_rps = pos 0;
  average_rps = pos 0;
  window_count = pos 2;
  abuse_count = pos 2;
  retry_after = pos 60;
  throttle_ms = pos 0;
}

abbrev limiter : RateLimiter
limiter = record {
  buckets = ("p:u2", record { window_start = 1; count = 2; blocked_till = 30 * second }) ∷ [];
  events = event ∷ [];
}

-- Three further requests within the minute.
abbrev times : List (ℕ × ℕ)
times = (6, 6) ∷ (7, 8) ∷ (9, 9) ∷ []

unseen : lookup (bucket_key "p" "u1") limiter.buckets ≡ zero_bucket
unfolding lookup ◌==ₛ◌
unseen = refl

block_seconds_idle_example :
    decisions limiter "u1" "u1" (record two_a_minute { block_seconds = pos 3600 }) times
    ≡ decisions limiter "u1" "u1" two_a_minute times
unfolding default_rate_limit
block_seconds_idle_example =
    block_seconds_idle "u1" "u1" two_a_minute limiter times (pos 3600) unseen

evaluate_local-events_example :
    let (r', d) = evaluate_local limiter "u2" "u2" two_a_minute 9 9 in
    length r'.events ≤ 1000
    × ((d.action ≡ allow × r'.events ≡ limiter.events)
        ⊎ (d.action ≡ block
            × ((e : InsightEvent) × Reports "u2" "u2" two_a_minute limiter 9 d e
                × IsLast (limiter.events ++ e ∷ []) r'.events)))
evaluate_local-events_example =
    evaluate_local-events "u2" "u2" two_a_minute limiter 9 9 (omega arith)

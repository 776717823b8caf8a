-- ===== src/Limiter/Local.antt =====
-- rate_limiter.go: `evaluateLocal`. `now` is its reading of the clock, and `later` the reading that
-- `time.Until` makes.
use Prim.Native.String
use edge_proxy_go.Base.{
  ℕ, suc, ◌+◌, ◌-◌, ◌*◌, ◌/◌, max, pos, pos_part, is_gt_0, Bool, true, false, ◌||◌, List, [], ◌∷◌,
  ◌++◌, String, Float, ltb, leb, ◌==◌, if◌then◌else◌, length, drop,
}
use edge_proxy_go.Pool.Entry.{second}
use edge_proxy_go.Config.Types.{RateLimitConfig}
use edge_proxy_go.Limiter.Types.{
  DecisionAction, allow, block, RateLimitDecision, InsightEvent, LocalBucket, RateLimiter, lookup,
  store,
}

-- The window in nanoseconds: a minute if neither setting is positive.
unfoldable pub window_of : ⦃F : Float⦄ → RateLimitConfig → ℕ
window_of c =
    let seconds = max (pos_part c.window_seconds) (pos_part c.sliding_window_seconds) in
    if seconds == 0 then 60 * second else seconds * second

-- `int(math.Ceil(effectiveCfg.BaseRequestsPerSecond * window.Seconds()))`, at least 1, unless the
-- number of requests is set.
unfoldable pub limit_of : ⦃F : Float⦄ → RateLimitConfig → ℕ
unfolding window_of
limit_of ⦃F⦄ c =
    if is_gt_0 c.requests
    then pos_part c.requests
    else max 1 (
        pos_part
          (F.ceil (F.mul c.base_requests_per_second (F.of_int (pos (window_of c / second))))))

-- The time in seconds from `later` until `till`, rounded up, and at least 1.
unfoldable pub retry_seconds : ℕ → ℕ → ℕ
retry_seconds till later = max 1 ((till - later + (second - 1)) / second)

-- The bucket that the request meets: a new one if there is none, or if its window is over.
unfoldable pub current_bucket : ℕ → ℕ → LocalBucket → LocalBucket
current_bucket window now b =
    if b.window_start == 0 || leb window (now - b.window_start)
    then record { window_start = now; count = 0; blocked_till = 0 }
    else b

pub record Verdict : Type 0 where
  pub bucket : LocalBucket
  pub action : DecisionAction
  pub reason : String
  pub retry_after : ℕ

-- The three branches, on the bucket that the request meets.
unfoldable pub judge : ℕ → ℕ → ℕ → ℕ → ℕ → LocalBucket → Verdict
unfolding retry_seconds
judge window limit block_for now later b =
    if ltb now b.blocked_till
    then record {
      bucket = b;
      action = block;
      reason = "cooldown_active";
      retry_after = retry_seconds b.blocked_till later;
    }
    else if leb limit b.count
    then record {
      bucket = record b { blocked_till = now + block_for };
      action = block;
      reason = "window_exceeded";
      retry_after = retry_seconds (b.window_start + window) later;
    }
    else record {
      bucket = record b { count = suc b.count };
      action = allow;
      reason = "";
      retry_after = 0;
    }

abbrev pub is_allow : DecisionAction → Bool
is_allow allow = true
is_allow _ = false

abbrev pub max_events : ℕ
max_events = 1000

-- `append`, and the cut to the last 1000.
unfoldable pub append_event {ℓ} : {A : Type ℓ} → List A → A → List A
append_event events e =
    let longer = events ++ e ∷ [] in
    if ltb max_events (length longer) then drop (length longer - max_events) longer else longer

abbrev pub bucket_key : String → String → String
bucket_key name user = String.◌++◌ name (String.◌++◌ ":" user)

unfoldable pub block_duration : ⦃F : Float⦄ → RateLimitConfig → ℕ
block_duration c = max 1 (pos_part c.block_seconds) * second

-- The verdict for a request of `user` at `now`.
unfoldable pub verdict_for : ⦃F : Float⦄ → RateLimiter → String → RateLimitConfig → ℕ → ℕ → Verdict
verdict_for r user c now later =
    let met = current_bucket (window_of c) now (lookup (bucket_key c.name user) r.buckets) in
    judge (window_of c) (limit_of c) (block_duration c) now later met

unfoldable pub evaluate_local :
    ⦃F : Float⦄
    → RateLimiter
    → String
    → String
    → RateLimitConfig
    → ℕ
    → ℕ
    → RateLimiter × RateLimitDecision
evaluate_local ⦃F⦄ r user identifier c now later =
    let met = current_bucket (window_of c) now (lookup (bucket_key c.name user) r.buckets) in
    let v = verdict_for r user c now later in
    let event : InsightEvent = record {
      time = now;
      policy_name = c.name;
      user = user;
      identifier = identifier;
      action = v.action;
      reason = v.reason;
      observed_rps = F.of_int (pos 0);
      average_rps = F.of_int (pos 0);
      window_count = pos v.bucket.count;
      abuse_count = pos v.bucket.count;
      retry_after = pos v.retry_after;
      throttle_ms = pos 0;
    } in
    (
      record {
        buckets = store (bucket_key c.name user) v.bucket r.buckets;
        events = if is_allow v.action then r.events else append_event r.events event;
      },
      record {
        action = v.action;
        policy_name = c.name;
        user = user;
        identifier = identifier;
        reason = v.reason;
        retry_after = pos v.retry_after;
        throttle_delay = pos 0;
        observed_rps = F.of_int (pos 0);
        average_rps = F.of_int (pos 0);
        window_count = pos met.count;
        abuse_count = if is_allow v.action then pos 0 else pos v.bucket.count;
      },
    )

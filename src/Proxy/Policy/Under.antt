-- ===== src/Proxy/Policy/Under.antt =====
-- main.go: what a policy makes of the base settings, setting by setting.
use edge_proxy_go.Base.{◌≡◌, refl, ℤ, pos, is_gt_0, not, ◌&&◌, Float, ◌==ₛ◌, if◌then◌else◌, arith}
use edge_proxy_go.Config.Types.{RateLimitConfig, PolicyConfig}
use edge_proxy_go.Config.Defaults.{
  float_le_0, float_gt_0, or_default, default_rps, default_burst,
  apply_rate_limit_defaults_to_config, override, override_float, apply_policy_overrides,
}
use edge_proxy_go.Proxy.Policy.{under_policy}

-- The first of the two that is positive, and else the third.
abbrev pub first_positive : ℤ → ℤ → ℤ → ℤ
first_positive a b default = if is_gt_0 a then a else if is_gt_0 b then b else default

-- What a policy makes of the base settings: each of its positive settings counts, else that of the
-- base, and where neither is positive, a default. A rate that is not positive is taken from the
-- requests in the window, and a burst that is not positive from the rate.
pub record IsUnder ⦃F : Float⦄ (base : RateLimitConfig) (p : PolicyConfig) (c : RateLimitConfig)
    : Type 0 where
  pub name : c.name ≡ (if p.name ==ₛ "" then "default" else p.name)
  pub requests : c.requests ≡ (if is_gt_0 p.requests then p.requests else base.requests)
  pub window_seconds :
      c.window_seconds
      ≡ (if is_gt_0 p.window_seconds then p.window_seconds else base.window_seconds)
  pub rate :
      let given =
        if float_gt_0 p.base_requests_per_second
        then p.base_requests_per_second
        else base.base_requests_per_second in
      let derived = F.div (F.of_int c.requests) (F.of_int c.window_seconds) in
      c.base_requests_per_second ≡ (
        if not (float_le_0 given)
        then given
        else if is_gt_0 c.requests && is_gt_0 c.window_seconds && not (float_le_0 derived)
        then derived
        else F.of_int (pos 1))
  pub burst :
      let given = if float_gt_0 p.burst_capacity then p.burst_capacity else base.burst_capacity in
      let capacity =
        if float_le_0 given then F.mul c.base_requests_per_second (F.of_int (pos 2)) else given in
      c.burst_capacity ≡ (if F.lt capacity (F.of_int (pos 1)) then F.of_int (pos 1) else capacity)
  pub sliding_window_seconds :
      c.sliding_window_seconds
      ≡ first_positive p.sliding_window_seconds base.sliding_window_seconds
          (first_positive c.window_seconds (pos 10) (pos 10))
  pub soft_throttle_milliseconds :
      c.soft_throttle_milliseconds
      ≡ first_positive p.soft_throttle_milliseconds base.soft_throttle_milliseconds (pos 250)
  pub block_seconds : c.block_seconds ≡ first_positive p.block_seconds base.block_seconds (pos 30)
  pub repeated_abuse_threshold :
      c.repeated_abuse_threshold
      ≡ first_positive p.repeated_abuse_threshold base.repeated_abuse_threshold (pos 3)
  pub event_retention_seconds :
      c.event_retention_seconds
      ≡ first_positive p.event_retention_seconds base.event_retention_seconds (pos 3600)
  pub top_n : c.top_n ≡ first_positive p.top_n base.top_n (pos 10)
  pub same_enabled : c.enabled ≡ base.enabled
  pub same_key : c.key ≡ base.key
  pub same_redis : c.redis ≡ base.redis

overridden : (a b default : ℤ) → or_default (override a b) default ≡ first_positive a b default
unfolding or_default override
overridden a b default = ground arith

overridden_window :
    (a b w : ℤ)
    → or_default (override a b) (if is_gt_0 w then w else pos 10)
      ≡ first_positive a b (first_positive w (pos 10) (pos 10))
unfolding or_default override
overridden_window a b w = ground arith

module _ ⦃F : Float⦄ where
  default_rate :
      (requests window : ℤ) (given : F.Num)
      → let derived = F.div (F.of_int requests) (F.of_int window) in
        default_rps requests window given ≡ (
          if not (float_le_0 given)
          then given
          else if is_gt_0 requests && is_gt_0 window && not (float_le_0 derived)
          then derived
          else F.of_int (pos 1))
  unfolding default_rps
  default_rate requests window given = ground arith

  pub under_policy-IsUnder :
      (base : RateLimitConfig) (p : PolicyConfig) → IsUnder base p (under_policy base p)
  unfolding under_policy apply_rate_limit_defaults_to_config apply_policy_overrides default_burst
      override_float
  under_policy-IsUnder base p = record {
    name = refl;
    requests = unfold override in refl;
    window_seconds = unfold override in refl;
    rate = default_rate _ _ _;
    burst = refl;
    sliding_window_seconds =
        overridden_window p.sliding_window_seconds base.sliding_window_seconds
          (override p.window_seconds base.window_seconds);
    soft_throttle_milliseconds =
        overridden p.soft_throttle_milliseconds base.soft_throttle_milliseconds (pos 250);
    block_seconds = overridden p.block_seconds base.block_seconds (pos 30);
    repeated_abuse_threshold =
        overridden p.repeated_abuse_threshold base.repeated_abuse_threshold (pos 3);
    event_retention_seconds =
        overridden p.event_retention_seconds base.event_retention_seconds (pos 3600);
    top_n = overridden p.top_n base.top_n (pos 10);
    same_enabled = refl;
    same_key = refl;
    same_redis = refl;
  }

-- ===== src/Config/Defaults.antt =====
-- config.go: the defaults of the rate limit and the policies that override it.
pub mod Idempotent
use edge_proxy_go.Base.{
  ℤ, pos, Bool, true, false, ◌&&◌, List, [], ◌∷◌, map, String, Float, is_le_0, is_gt_0, ◌==ₛ◌,
  if◌then◌else◌,
}
use edge_proxy_go.Config.Types.{RateLimitConfig, PolicyConfig, Config}

-- `x <= 0` and `x > 0` on a float.
abbrev pub float_le_0 : ⦃F : Float⦄ → F.Num → Bool
float_le_0 ⦃F⦄ x = F.le x (F.of_int (pos 0))

abbrev pub float_gt_0 : ⦃F : Float⦄ → F.Num → Bool
float_gt_0 ⦃F⦄ x = F.lt (F.of_int (pos 0)) x

-- `if value <= 0 { value = default }`
unfoldable pub or_default : ℤ → ℤ → ℤ
or_default value default = if is_le_0 value then default else value

-- The two tests on `BaseRequestsPerSecond`.
unfoldable pub default_rps : ⦃F : Float⦄ → ℤ → ℤ → F.Num → F.Num
default_rps ⦃F⦄ requests window_seconds rps =
    if float_le_0 derived then F.of_int (pos 1) else derived
  where
    derived : F.Num
    derived =
        if float_le_0 rps && is_gt_0 requests && is_gt_0 window_seconds
        then F.div (F.of_int requests) (F.of_int window_seconds)
        else rps

-- The two tests on `BurstCapacity`.
unfoldable pub default_burst : ⦃F : Float⦄ → F.Num → F.Num → F.Num
default_burst ⦃F⦄ rps burst = if F.lt doubled (F.of_int (pos 1)) then F.of_int (pos 1) else doubled
  where
    doubled : F.Num
    doubled = if float_le_0 burst then F.mul rps (F.of_int (pos 2)) else burst

unfoldable pub apply_rate_limit_defaults_to_config : ⦃F : Float⦄ → RateLimitConfig → RateLimitConfig
unfolding or_default default_rps default_burst
apply_rate_limit_defaults_to_config c =
    let rps = default_rps c.requests c.window_seconds c.base_requests_per_second in
    record c {
      name = if c.name ==ₛ "" then "default" else c.name;
      identifier_header = if c.identifier_header ==ₛ "" then "X-API-Key" else c.identifier_header;
      base_requests_per_second = rps;
      sliding_window_seconds =
          or_default c.sliding_window_seconds
            (if is_gt_0 c.window_seconds then c.window_seconds else pos 10);
      burst_capacity = default_burst rps c.burst_capacity;
      soft_throttle_milliseconds = or_default c.soft_throttle_milliseconds (pos 250);
      block_seconds = or_default c.block_seconds (pos 30);
      repeated_abuse_threshold = or_default c.repeated_abuse_threshold (pos 3);
      event_retention_seconds = or_default c.event_retention_seconds (pos 3600);
      top_n = or_default c.top_n (pos 10);
    }

-- `if override > 0 { value = override }`
unfoldable pub override : ℤ → ℤ → ℤ
override by value = if is_gt_0 by then by else value

unfoldable pub override_float : ⦃F : Float⦄ → F.Num → F.Num → F.Num
override_float by value = if float_gt_0 by then by else value

unfoldable pub apply_policy_overrides :
    ⦃F : Float⦄ → RateLimitConfig → PolicyConfig → RateLimitConfig
unfolding override override_float
apply_policy_overrides dst p = record dst {
  requests = override p.requests dst.requests;
  window_seconds = override p.window_seconds dst.window_seconds;
  base_requests_per_second = override_float p.base_requests_per_second dst.base_requests_per_second;
  burst_capacity = override_float p.burst_capacity dst.burst_capacity;
  sliding_window_seconds = override p.sliding_window_seconds dst.sliding_window_seconds;
  soft_throttle_milliseconds = override p.soft_throttle_milliseconds dst.soft_throttle_milliseconds;
  block_seconds = override p.block_seconds dst.block_seconds;
  repeated_abuse_threshold = override p.repeated_abuse_threshold dst.repeated_abuse_threshold;
  event_retention_seconds = override p.event_retention_seconds dst.event_retention_seconds;
  top_n = override p.top_n dst.top_n;
}

unfoldable pub policy_from_rate_limit_config :
    ⦃F : Float⦄ → RateLimitConfig → PolicyConfig → PolicyConfig
policy_from_rate_limit_config c p = record p {
  requests = c.requests;
  window_seconds = c.window_seconds;
  base_requests_per_second = c.base_requests_per_second;
  burst_capacity = c.burst_capacity;
  sliding_window_seconds = c.sliding_window_seconds;
  soft_throttle_milliseconds = c.soft_throttle_milliseconds;
  block_seconds = c.block_seconds;
  repeated_abuse_threshold = c.repeated_abuse_threshold;
  event_retention_seconds = c.event_retention_seconds;
  top_n = c.top_n;
}

-- One round of the loop of `applyRateLimitDefaults`.
unfoldable pub resolve_policy : ⦃F : Float⦄ → RateLimitConfig → PolicyConfig → PolicyConfig
unfolding apply_policy_overrides apply_rate_limit_defaults_to_config policy_from_rate_limit_config
resolve_policy c p =
    let merged = apply_policy_overrides (record c { name = p.name }) p in
    policy_from_rate_limit_config (apply_rate_limit_defaults_to_config merged) p

unfoldable pub apply_rate_limit_defaults : ⦃F : Float⦄ → Config → Config
apply_rate_limit_defaults cfg =
    let c = apply_rate_limit_defaults_to_config (record cfg.rate_limit { name = "default" }) in
    record cfg { rate_limit = c; policies = map (resolve_policy c) cfg.policies }

-- ===== src/Config/Defaults/Idempotent.antt =====
-- config.go: `loadConfig` applies the defaults twice, and the second time changes nothing.
use edge_proxy_go.Base.{
  ℤ, pos, ◌≡◌, refl, sym, ap, ◌∙◌, false, List, [], ◌∷◌, map, Float, HasUnits, arith, is_le_0,
  is_gt_0, ◌==ₛ◌, if◌then◌else◌,
}
use edge_proxy_go.Config.Types.{RateLimitConfig, PolicyConfig, Config}
use edge_proxy_go.Config.Defaults.{
  float_le_0, or_default, default_rps, default_burst, apply_rate_limit_defaults_to_config, override,
  override_float, apply_policy_overrides, resolve_policy, apply_rate_limit_defaults,
}

or_default_pos : (v d : ℤ) → is_le_0 d ≡ false → is_le_0 (or_default v d) ≡ false
unfolding or_default
or_default_pos v d h = ground arith

-- A resolved rate limit: what every default establishes.
pub record IsResolved ⦃F : Float⦄ (c : RateLimitConfig) : Type 0 where
  pub named : (c.name ==ₛ "") ≡ false
  pub header : (c.identifier_header ==ₛ "") ≡ false
  pub rps : float_le_0 c.base_requests_per_second ≡ false
  pub burst : float_le_0 c.burst_capacity ≡ false
  pub burst_one : F.lt c.burst_capacity (F.of_int (pos 1)) ≡ false
  pub sliding : is_le_0 c.sliding_window_seconds ≡ false
  pub throttle : is_le_0 c.soft_throttle_milliseconds ≡ false
  pub block : is_le_0 c.block_seconds ≡ false
  pub threshold : is_le_0 c.repeated_abuse_threshold ≡ false
  pub retention : is_le_0 c.event_retention_seconds ≡ false
  pub top : is_le_0 c.top_n ≡ false

default_not_empty : ("default" ==ₛ "") ≡ false
unfolding ◌==ₛ◌
default_not_empty = refl

header_not_empty : ("X-API-Key" ==ₛ "") ≡ false
unfolding ◌==ₛ◌
header_not_empty = refl

module _ ⦃F : Float⦄ (units : HasUnits F) where
  default_rps_pos :
      (requests window : ℤ) (rps : F.Num) → float_le_0 (default_rps requests window rps) ≡ false
  unfolding default_rps
  default_rps_pos requests window rps = ground (arith, units.one_not_le_0)

  default_burst_one :
      (rps burst : F.Num) → F.lt (default_burst rps burst) (F.of_int (pos 1)) ≡ false
  unfolding default_burst
  default_burst_one rps burst = ground (arith, units.one_not_lt_1)

  not_le_0 : (x : F.Num) → F.lt x (F.of_int (pos 1)) ≡ false → float_le_0 x ≡ false
  not_le_0 x h = ground (arith, units.lt_1_of_le_0 x)

  -- Whatever a rate limit was before, after its defaults it is resolved: it has a name and a header,
  -- and its rate, burst, window, throttle, block, threshold, retention and top count are positive.
  pub defaults-IsResolved :
      (c : RateLimitConfig) → IsResolved (apply_rate_limit_defaults_to_config c)
  unfolding apply_rate_limit_defaults_to_config
  defaults-IsResolved c = record {
    named = ground (arith, default_not_empty);
    header = ground (arith, header_not_empty);
    rps = default_rps_pos c.requests c.window_seconds c.base_requests_per_second;
    burst = not_le_0 _ (default_burst_one _ c.burst_capacity);
    burst_one = default_burst_one _ c.burst_capacity;
    sliding = or_default_pos c.sliding_window_seconds _ (ground arith);
    throttle = or_default_pos c.soft_throttle_milliseconds (pos 250) refl;
    block = or_default_pos c.block_seconds (pos 30) refl;
    threshold = or_default_pos c.repeated_abuse_threshold (pos 3) refl;
    retention = or_default_pos c.event_retention_seconds (pos 3600) refl;
    top = or_default_pos c.top_n (pos 10) refl;
  }

  -- A resolved rate limit has no default left to take.
  pub defaults_of_IsResolved :
      (c : RateLimitConfig) → IsResolved c → apply_rate_limit_defaults_to_config c ≡ c
  unfolding apply_rate_limit_defaults_to_config or_default default_rps default_burst
  defaults_of_IsResolved c h = ground arith

  default_name :
      (c : RateLimitConfig)
      → (apply_rate_limit_defaults_to_config (record c { name = "default" })).name ≡ "default"
  unfolding apply_rate_limit_defaults_to_config
  default_name c = rw default_not_empty

  int_stable :
      (v c d d' : ℤ)
      → is_le_0 c ≡ false
      → or_default (override (or_default (override v c) d) c) d' ≡ or_default (override v c) d
  unfolding or_default override
  int_stable v c d d' h = ground arith

  override_stable : (v c : ℤ) → override (override v c) c ≡ override v c
  unfolding override
  override_stable v c = ground arith

  rps_stable :
      (v c : F.Num) (r w r' w' : ℤ)
      → float_le_0 c ≡ false
      → default_rps r' w' (override_float (default_rps r w (override_float v c)) c)
        ≡ default_rps r w (override_float v c)
  unfolding default_rps override_float
  rps_stable v c r w r' w' h = ground (arith, units.not_le_0_of_gt_0 v)

  burst_stable :
      (v c rps rps' : F.Num)
      → float_le_0 c ≡ false
      → default_burst rps' (override_float (default_burst rps (override_float v c)) c)
        ≡ default_burst rps (override_float v c)
  unfolding default_burst override_float
  burst_stable v c rps rps' h =
      ground
        (arith, units.not_le_0_of_gt_0 v, units.one_not_le_0, units.one_not_lt_1, units.zero_lt_1)

  -- Resolving a resolved policy changes nothing.
  pub resolve_policy_idem :
      (c : RateLimitConfig) (p : PolicyConfig)
      → IsResolved c
      → resolve_policy c (resolve_policy c p) ≡ resolve_policy c p
  unfolding resolve_policy
  resolve_policy_idem c p h =
      let m = apply_policy_overrides (record c { name = p.name }) p in
      let m' = apply_policy_overrides (record c { name = p.name }) (resolve_policy c p) in
      let r = default_rps m.requests m.window_seconds m.base_requests_per_second in
      let r' = default_rps m'.requests m'.window_seconds m'.base_requests_per_second in
      λ i. record {
        name = p.name;
        route_prefix = p.route_prefix;
        methods = p.methods;
        api_keys = p.api_keys;
        requests = override_stable p.requests c.requests i;
        window_seconds = override_stable p.window_seconds c.window_seconds i;
        base_requests_per_second =
            rps_stable p.base_requests_per_second c.base_requests_per_second m.requests
              m.window_seconds m'.requests m'.window_seconds h.rps i;
        burst_capacity = burst_stable p.burst_capacity c.burst_capacity r r' h.burst i;
        sliding_window_seconds =
            int_stable p.sliding_window_seconds c.sliding_window_seconds
              (if is_gt_0 m.window_seconds then m.window_seconds else pos 10)
              (if is_gt_0 m'.window_seconds then m'.window_seconds else pos 10) h.sliding i;
        soft_throttle_milliseconds =
            int_stable p.soft_throttle_milliseconds c.soft_throttle_milliseconds (pos 250) (pos 250)
              h.throttle i;
        block_seconds = int_stable p.block_seconds c.block_seconds (pos 30) (pos 30) h.block i;
        repeated_abuse_threshold =
            int_stable p.repeated_abuse_threshold c.repeated_abuse_threshold (pos 3) (pos 3)
              h.threshold i;
        event_retention_seconds =
            int_stable p.event_retention_seconds c.event_retention_seconds (pos 3600) (pos 3600)
              h.retention i;
        top_n = int_stable p.top_n c.top_n (pos 10) (pos 10) h.top i;
      }

  map-resolve_idem :
      (c : RateLimitConfig) (ps : List PolicyConfig)
      → IsResolved c
      → map (resolve_policy c) (map (resolve_policy c) ps) ≡ map (resolve_policy c) ps
  map-resolve_idem c [] h = refl
  map-resolve_idem c (p ∷ ps) h = cc (resolve_policy_idem c p h, map-resolve_idem c ps h)

  -- Applying the defaults of the rate limit and the policies a second time changes nothing.
  pub apply_rate_limit_defaults_idem :
      (cfg : Config)
      → apply_rate_limit_defaults (apply_rate_limit_defaults cfg) ≡ apply_rate_limit_defaults cfg
  unfolding apply_rate_limit_defaults
  apply_rate_limit_defaults_idem cfg =
      ap (λ x. record cfg { rate_limit = x; policies = map (resolve_policy x) resolved }) again
      ∙ ap (λ ps. record cfg { rate_limit = c; policies = ps })
          (map-resolve_idem c cfg.policies c-IsResolved)
    where
      c : RateLimitConfig
      c = apply_rate_limit_defaults_to_config (record cfg.rate_limit { name = "default" })

      c-IsResolved : IsResolved c
      c-IsResolved = defaults-IsResolved (record cfg.rate_limit { name = "default" })

      resolved : List PolicyConfig
      resolved = map (resolve_policy c) cfg.policies

      again : apply_rate_limit_defaults_to_config (record c { name = "default" }) ≡ c
      again =
          ap apply_rate_limit_defaults_to_config
            (ap (λ n. record c { name = n }) (sym (default_name cfg.rate_limit)))
          ∙ defaults_of_IsResolved c c-IsResolved

-- ===== src/Limiter/Redis/Rates.antt =====
-- rate_limiter.go: what `Evaluate` computes from the answers of Redis: rates, tokens and the tests
-- of its branches.
use Prim.Native.String
use edge_proxy_go.Base.{
  ◌+◌, ◌-◌, ◌/◌, ℤ, pos, pos_part, is_gt_0, leb_ℤ, Bool, true, false, not, ◌&&◌, List, [], ◌∷◌,
  Option, none, some, String, Float, if◌then◌else◌, ◌==ₛ◌,
}
use edge_proxy_go.Pool.Entry.{second}
use edge_proxy_go.Config.Types.{RateLimitConfig}
use edge_proxy_go.Limiter.Types.{allow, throttle, block, RateLimitDecision}
use edge_proxy_go.Limiter.Redis.{
  Value, text, Answer, string, values, failed, parse_float, answer_at, number_of,
}

-- What the branches of `Evaluate` test: `windowCount`, `observedRPS`, `avgRPS`, `tokens` after the
-- refill, and the abuse count that is stored.
pub record Rates ⦃F : Float⦄ : Type 0 where
  pub window_count : ℤ
  pub observed : F.Num
  pub average : F.Num
  pub tokens : F.Num
  pub abuse_count : ℤ

module _ ⦃F : Float⦄ where
  unfoldable pub scope_of : RateLimitConfig → String
  scope_of c = if c.name ==ₛ "" then "default" else c.name

  -- `fmt.Sprintf("<kind>:%s:%s", scope, user)`
  unfoldable pub key_of : String → RateLimitConfig → String → String
  unfolding scope_of
  key_of kind c user =
      String.◌++◌ kind (String.◌++◌ ":" (String.◌++◌ (scope_of c) (String.◌++◌ ":" user)))

  -- The larger of the two, as `maxInt`.
  unfoldable pub max_int : ℤ → ℤ → ℤ
  max_int a b = if not (leb_ℤ a b) then a else b

  -- A duration in seconds, rounded up.
  unfoldable pub ceil_seconds : ℤ → ℤ
  ceil_seconds d = pos ((pos_part d + (second - 1)) / second)

  -- The tokens that are left of the stored ones and of those that have come in since.
  unfoldable pub refill : RateLimitConfig → ℤ → Answer → F.Num
  unfolding parse_float
  refill c now_unix stored =
      let now = F.of_int now_unix in
      let (tokens, last_refill) = stored_burst stored now in
      let elapsed = F.max (F.of_int (pos 0)) (F.sub now last_refill) in
      F.min c.burst_capacity (F.add tokens (F.mul elapsed c.base_requests_per_second))
    where
      or_parsed : Option Value → F.Num → F.Num
      or_parsed none default = default
      or_parsed (some v) default = parse_float v default

      stored_burst : Answer → F.Num → F.Num × F.Num
      stored_burst (values (t ∷ l ∷ [])) now = (or_parsed t c.burst_capacity, or_parsed l now)
      stored_burst _ now = (c.burst_capacity, now)

  -- The average of a user who has none yet is what is observed now.
  unfoldable pub average_rps : F.Num → Answer → F.Num
  unfolding parse_float
  average_rps observed (string s) =
      F.add (F.mul (parse_float (text s) observed) F.seven_tenths) (F.mul observed F.three_tenths)
  average_rps observed _ = observed

  abbrev pub stored_abuse : (String → ℤ) → Answer → ℤ
  stored_abuse atoi_value (string s) = atoi_value s
  stored_abuse atoi_value _ = pos 0

  unfoldable pub rates_of : (String → ℤ) → RateLimitConfig → ℤ → List Answer → Rates
  rates_of atoi_value c now_unix answers =
      let window_count = number_of (answer_at failed 2 answers) in
      let observed = F.div (F.of_int window_count) (F.of_int c.sliding_window_seconds) in
      record {
        window_count = window_count;
        observed = observed;
        average = average_rps observed (answer_at failed 5 answers);
        tokens = refill c now_unix (answer_at failed 4 answers);
        abuse_count = stored_abuse atoi_value (answer_at failed 6 answers);
      }

  unfoldable pub is_spiking : RateLimitConfig → Rates → Bool
  is_spiking c r =
      let threshold =
        F.max (F.mul c.base_requests_per_second (F.of_int (pos 2)))
          (F.mul r.average (F.of_int (pos 3))) in
      F.lt threshold r.observed && not (leb_ℤ r.window_count (F.ceil c.base_requests_per_second))

  unfoldable pub is_over_window : RateLimitConfig → Rates → Bool
  is_over_window c r = F.lt c.base_requests_per_second r.observed

  unfoldable pub is_over_burst : Rates → Bool
  is_over_burst r = F.lt r.tokens (F.of_int (pos 1))

  -- `decision` as the switch of `Evaluate` finds it.
  unfoldable pub rated : RateLimitConfig → String → String → Rates → RateLimitDecision
  rated c user identifier r = record {
    action = allow;
    policy_name = c.name;
    user = user;
    identifier = identifier;
    reason = "";
    retry_after = pos 0;
    throttle_delay = pos 0;
    observed_rps = r.observed;
    average_rps = r.average;
    window_count = r.window_count;
    abuse_count = r.abuse_count;
  }

  -- A throttled request: the delay, and the time to retry after, in whole seconds.
  unfoldable pub throttled : String → ℤ → RateLimitDecision → RateLimitDecision
  unfolding max_int
  throttled reason delay d = record d {
    action = throttle;
    reason = reason;
    throttle_delay = delay;
    retry_after = max_int (pos 1) (F.ceil (F.div (F.of_int delay) (F.of_int (pos 1000))));
  }

  abbrev pub is_failed : Answer → Bool
  is_failed failed = true
  is_failed _ = false

  -- A block that is in force: its time to live, if that is positive.
  abbrev pub in_force : Option ℤ → Option ℤ
  in_force none = none
  in_force (some t) = if is_gt_0 t then some t else none

  unfoldable pub cooling_down : RateLimitConfig → String → String → ℤ → RateLimitDecision
  unfolding ceil_seconds
  cooling_down c user identifier t =
      record (rated c user identifier record {
        window_count = pos 0;
        observed = F.of_int (pos 0);
        average = F.of_int (pos 0);
        tokens = F.of_int (pos 0);
        abuse_count = pos 0;
      }) { action = block; reason = "cooldown_active"; retry_after = ceil_seconds t }

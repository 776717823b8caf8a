-- ===== src/Limiter/Redis/Evaluate.antt =====
-- rate_limiter.go: `Evaluate`, `incrementAbuse` and `recordEvent`.
use Prim.Native.String
use edge_proxy_go.Base.{
  ℕ, ◌/◌, ℤ, pos, leb_ℤ, ◌+ℤ◌, ◌-ℤ◌, ◌*ℤ◌, Bool, true, ◌&&◌, ◌||◌, List, [], ◌∷◌, ◌++◌, Option,
  none, some, String, Float, if◌then◌else◌, ◌==ₛ◌, is_blank,
}
use edge_proxy_go.Pool.Entry.{second}
use edge_proxy_go.Config.Types.{RateLimitConfig}
use edge_proxy_go.Limiter.Types.{block, RateLimitDecision, InsightEvent}
use edge_proxy_go.Limiter.Local.{is_allow, evaluate_local}
use edge_proxy_go.Limiter.Redis.{
  text, integer, float, Command, z_rem_range_by_score, z_add, z_card, expire, hm_get, h_get, h_set,
  get, incr, set, Answer, number, ExecError, no_error, exec_failed, Redis, Library, Limiter,
  round_float, seconds,
}
use edge_proxy_go.Limiter.Redis.Rates.{
  Rates, key_of, rates_of, is_spiking, is_over_window, is_over_burst, rated, throttled, is_failed,
  in_force, cooling_down,
}

module _ ⦃F : Float⦄ {N : Type 0} (lib : Library N) where
  unfoldable pub increment_abuse : Redis N → String → ℤ → N → N × ℤ
  increment_abuse client key block_seconds n =
      let (n', answer) = client.run (incr key) n in incremented answer n'
    where
      incremented : Answer → N → N × ℤ
      incremented (number value) n' =
          ((client.run (expire key (seconds (block_seconds *ℤ pos 2))) n').0, value)
      incremented _ n' = (n', pos 1)

  abbrev pub event_of : ℕ → RateLimitDecision → InsightEvent
  event_of now d = record {
    time = now;
    policy_name = d.policy_name;
    user = d.user;
    identifier = d.identifier;
    action = d.action;
    reason = d.reason;
    observed_rps = round_float d.observed_rps;
    average_rps = round_float d.average_rps;
    window_count = d.window_count;
    abuse_count = d.abuse_count;
    retry_after = d.retry_after;
    throttle_ms = d.throttle_delay;
  }

  unfoldable pub event_commands : ℤ → ℕ → InsightEvent → String → List Command
  event_commands retention now e json =
      let score = F.of_int (pos (now / second)) in
      z_add "events:rate_limit" score json
      ∷ ((if e.reason ==ₛ "traffic_spike" then z_add "events:spikes" score json ∷ [] else [])
          ++ (z_add "events:abusers" (F.of_int e.abuse_count)
                (String.◌++◌ e.user (String.◌++◌ "|" e.identifier))
              ∷ expire "events:rate_limit" (seconds retention)
              ∷ expire "events:spikes" (seconds retention)
              ∷ expire "events:abusers" (seconds retention)
              ∷ []))

  -- The clock is read for the event's time, and again for its score.
  unfoldable pub record_event : Redis N → RateLimitConfig → RateLimitDecision → N → N
  record_event client cfg d n =
      let (n', now) = lib.now n in
      let e = event_of now d in
      elim (lib.marshal e) [
        | none ↦ n'
        | some json ↦
            let (n'', later) = lib.now n' in
            (client.exec (event_commands cfg.event_retention_seconds later e json) n'').0
      ]

  unfoldable pub observe_commands : RateLimitConfig → String → ℕ → List Command
  observe_commands c user now =
      let now_unix = pos (now / second) in
      let window_start = now_unix -ℤ c.sliding_window_seconds in
      z_rem_range_by_score (key_of "rate" c user) "0" (lib.decimal window_start)
      ∷ z_add (key_of "rate" c user) (F.of_int now_unix) (lib.decimal (pos now))
      ∷ z_card (key_of "rate" c user)
      ∷ expire (key_of "rate" c user) (seconds c.event_retention_seconds)
      ∷ hm_get (key_of "burst" c user) ("tokens" ∷ "last_refill" ∷ [])
      ∷ h_get (key_of "stats" c user) "avg_rps"
      ∷ get (key_of "abuse" c user)
      ∷ []

  unfoldable pub store_commands :
      RateLimitConfig → String → String → ℤ → F.Num → F.Num → List Command
  store_commands c user identifier now_unix tokens average =
      h_set (key_of "burst" c user)
        (("tokens", float tokens) ∷ ("last_refill", integer now_unix) ∷ [])
      ∷ expire (key_of "burst" c user) (seconds c.event_retention_seconds)
      ∷ h_set (key_of "stats" c user) (
          ("avg_rps", float average)
          ∷ ("last_seen", integer now_unix)
          ∷ ("identifier", text identifier)
          ∷ [])
      ∷ expire (key_of "stats" c user) (seconds c.event_retention_seconds)
      ∷ []

  -- The first case of the switch: `none` if the block cannot be stored.
  unfoldable pub penalise :
      Redis N → RateLimitConfig → Bool → RateLimitDecision → N → N × Option RateLimitDecision
  penalise client c spiking d n =
      let (n', count) = increment_abuse client (key_of "abuse" c d.user) c.block_seconds n in
      let counted = record d { abuse_count = count } in
      let reason = if spiking then "traffic_spike" else "burst_exceeded" in
      let (n'', answer) =
        client.run (set (key_of "block" c d.user) "1" (seconds c.block_seconds)) n' in
      if leb_ℤ c.repeated_abuse_threshold count
      then (
        n'',
        (if is_failed answer
            then none
            else some (record counted {
              action = block;
              reason = "repeated_abuse";
              retry_after = c.block_seconds;
            })),
      )
      else (n', some (throttled reason (c.soft_throttle_milliseconds *ℤ (count +ℤ pos 1)) counted))

  -- The switch: the state, the tokens after it, and the decision, or `none` for an error.
  unfoldable pub judge_rates :
      Redis N
      → RateLimitConfig
      → Rates
      → RateLimitDecision
      → N
      → N × F.Num × Option RateLimitDecision
  judge_rates client c r d n =
      let spiking = is_spiking c r in
      let over_window = is_over_window c r in
      let over_burst = is_over_burst r in
      let (n', penalty) = penalise client c spiking d n in
      if spiking || over_window && over_burst
      then (n', r.tokens, penalty)
      else if over_window || over_burst
      then (n, r.tokens, some (throttled "adaptive_throttle" c.soft_throttle_milliseconds d))
      else (n, F.sub r.tokens (F.of_int (pos 1)), some d)

  abbrev pub reported :
      Redis N
      → RateLimitConfig
      → RateLimitDecision
      → N × List Answer × ExecError
      → N × Option RateLimitDecision
  reported client cfg d (n, answers, no_error) =
      ((if is_allow d.action then n else record_event client cfg d n), some d)
  reported client cfg d (n, answers, _) = (n, none)

  -- The second pipeline, after the switch.
  abbrev pub stored :
      Redis N
      → RateLimitConfig
      → RateLimitConfig
      → String
      → ℤ
      → Rates
      → N × F.Num × Option RateLimitDecision
      → N × Option RateLimitDecision
  stored client cfg c identifier now_unix r (n, tokens, none) = (n, none)
  stored client cfg c identifier now_unix r (n, tokens, some d) =
      reported client cfg d
        (client.exec (store_commands c d.user identifier now_unix tokens r.average) n)

  abbrev pub observed :
      Redis N
      → RateLimitConfig
      → RateLimitConfig
      → String
      → String
      → ℤ
      → N × List Answer × ExecError
      → N × Option RateLimitDecision
  observed client cfg c user identifier now_unix (n, answers, exec_failed) = (n, none)
  observed client cfg c user identifier now_unix (n, answers, _) =
      let r = rates_of lib.atoi_value c now_unix answers in
      stored client cfg c identifier now_unix r
        (judge_rates client c r (rated c user identifier r) n)

  -- `Evaluate` with a client; `cfg` is that of the limiter and `c` the effective one.
  unfoldable pub evaluate_with :
      Redis N
      → RateLimitConfig
      → String
      → String
      → RateLimitConfig
      → N
      → N × Option RateLimitDecision
  evaluate_with client cfg user identifier c n =
      let (n1, now) = lib.now n in
      let (n2, ttl) = client.ttl (key_of "block" c user) n1 in
      elim (in_force ttl) [
        | some t ↦
            let d = cooling_down c user identifier t in (record_event client cfg d n2, some d)
        | none ↦
            observed client cfg c user identifier (pos (now / second))
              (client.exec (observe_commands c user now) n2)
      ]

  -- `Evaluate`. The process-local limiter reads the clock for a request, and once more for the time
  -- to retry after.
  unfoldable pub evaluate :
      String → String → RateLimitConfig → N × Limiter N → (N × Limiter N) × Option RateLimitDecision
  evaluate user identifier c (n, r) = elim r.client [
    | none ↦
        let (n', now) = lib.now n in
        let (n'', later) = lib.now n' in
        let (local, d) = evaluate_local r.local user identifier c now later in
        ((n'', record r { local = local }), some d)
    | some client ↦ let (n', d) = evaluate_with client r.cfg user identifier c n in ((n', r), d)
  ]

  unfoldable pub new_rate_limiter : RateLimitConfig → Limiter N
  new_rate_limiter c = record {
    client = if is_blank c.redis.addr then none else some (lib.new_client c.redis);
    cfg = c;
    local = record { buckets = []; events = [] };
  }

  -- True if there is no error.
  unfoldable pub ping : Limiter N → N → N × Bool
  ping r n = elim r.client [ none ↦ (n, true) | some client ↦ client.ping n ]

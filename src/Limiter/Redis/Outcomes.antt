-- ===== src/Limiter/Redis/Outcomes.antt =====
-- rate_limiter.go: the decisions of `Evaluate` with a Redis server, and its errors.
use edge_proxy_go.Base.{
  ◌≡◌, refl, ◌⊎◌, inl, inr, ◌≤◌, ◌<◌, ◌*◌, ◌+◌, ℕ, zero, suc, ℤ, pos, negsuc, pos_part, ◌*ℤ◌, ◌+ℤ◌,
  leb_ℤ, Bool, true, false, List, Option, none, some, String, Float, Bool-cases, Option-cases,
  arith, subst, if◌then◌else◌, ◌||◌, ◌&&◌,
}
use mathlib.Core.Option.{some-injective}
use edge_proxy_go.Pool.Entry.{second}
use edge_proxy_go.Config.Types.{RateLimitConfig}
use edge_proxy_go.Limiter.Types.{allow, throttle, block, RateLimitDecision}
use edge_proxy_go.Limiter.Redis.{
  Answer, ExecError, no_error, nil_error, exec_failed, Redis, Library, set, seconds,
}
use edge_proxy_go.Limiter.Redis.Rates.{
  Rates, rates_of, is_spiking, is_over_window, is_over_burst, rated, throttled, max_int, key_of,
  is_failed, in_force, ceil_seconds, cooling_down,
}
use edge_proxy_go.Limiter.Redis.Evaluate.{
  penalise, judge_rates, reported, stored, observed, evaluate_with, increment_abuse, store_commands,
}

-- A decision by the rates, under the effective settings `c`: an allowed request is within the base
-- rate, and has no delay; a throttled one is to retry after a second at least; a blocked one has
-- reached the threshold of abuse and stays blocked as long as the settings say.
pub IsRated : ⦃F : Float⦄ → RateLimitConfig → RateLimitDecision → Type 0
IsRated ⦃F⦄ c d = d.policy_name ≡ c.name × elim d.action [
  | allow ↦
      (F.lt c.base_requests_per_second d.observed_rps ≡ false)
      × (d.throttle_delay ≡ pos 0)
      × (d.retry_after ≡ pos 0)
      × (d.reason ≡ "")
  | throttle ↦
      (1 ≤ pos_part d.retry_after)
      × ((d.reason ≡ "traffic_spike")
          ⊎ (d.reason ≡ "burst_exceeded")
          ⊎ (d.reason ≡ "adaptive_throttle") × (d.throttle_delay ≡ c.soft_throttle_milliseconds))
  | block ↦
      (d.reason ≡ "repeated_abuse")
      × (leb_ℤ c.repeated_abuse_threshold d.abuse_count ≡ true)
      × (d.retry_after ≡ c.block_seconds)
]

-- A block of `t` nanoseconds more, told in whole seconds, rounded up.
pub record IsCooldown ⦃F : Float⦄ (c : RateLimitConfig) (t : ℕ) (d : RateLimitDecision)
    : Type 0 where
  pub policy : d.policy_name ≡ c.name
  pub blocked : d.action ≡ block
  pub reason : d.reason ≡ "cooldown_active"
  pub late_enough : t ≤ pos_part d.retry_after * second
  pub rounded : pos_part d.retry_after * second < t + second

-- The decision by the answer to the TTL command, in nanoseconds: `none` is an error.
pub IsJudged : ⦃F : Float⦄ → RateLimitConfig → Option ℤ → RateLimitDecision → Type 0
IsJudged c none d = IsRated c d
IsJudged c (some (negsuc t)) d = IsRated c d
IsJudged c (some (pos zero)) d = IsRated c d
IsJudged c (some (pos (suc t))) d = IsCooldown c (suc t) d

module _ ⦃F : Float⦄ where
  throttled-retry :
      (reason : String) (delay : ℤ) (d : RateLimitDecision)
      → 1 ≤ pos_part (throttled reason delay d).retry_after
  unfolding throttled max_int
  throttled-retry reason delay d = ground arith

abbrev spike_name : Bool → String
spike_name spiking = if spiking then "traffic_spike" else "burst_exceeded"

spike_name-cases :
    {P : Type 0} (b : Bool)
    → (spike_name b ≡ "traffic_spike") ⊎ (spike_name b ≡ "burst_exceeded") ⊎ P
spike_name-cases true = inl refl
spike_name-cases false = inr (inl refl)

module _ ⦃F : Float⦄ where
  IsJudged-of_rated :
      (c : RateLimitConfig) (ttl : Option ℤ) (d : RateLimitDecision)
      → in_force ttl ≡ none
      → IsRated c d
      → IsJudged c ttl d
  unfolding IsJudged
  IsJudged-of_rated c none d h r = r
  IsJudged-of_rated c (some (negsuc t)) d h r = r
  IsJudged-of_rated c (some (pos zero)) d h r = r
  IsJudged-of_rated c (some (pos (suc t))) d h r = cc h

  cooling_down-IsCooldown :
      (c : RateLimitConfig) (user identifier : String) (t : ℕ)
      → IsCooldown c t (cooling_down c user identifier (pos t))
  unfolding cooling_down ceil_seconds rated
  cooling_down-IsCooldown c user identifier t = record {
    policy = refl;
    blocked = refl;
    reason = refl;
    late_enough = omega arith;
    rounded = omega arith;
  }

  cooling_down-IsJudged :
      (c : RateLimitConfig) (user identifier : String) (ttl : Option ℤ) (t : ℤ)
      → in_force ttl ≡ some t
      → IsJudged c ttl (cooling_down c user identifier t)
  unfolding IsJudged
  cooling_down-IsJudged c user identifier none t h = cc h
  cooling_down-IsJudged c user identifier (some (negsuc k)) t h = cc h
  cooling_down-IsJudged c user identifier (some (pos zero)) t h = cc h
  cooling_down-IsJudged c user identifier (some (pos (suc k))) t h =
      subst (λ x. IsCooldown c (suc k) (cooling_down c user identifier x)) (some-injective _ t h)
        (cooling_down-IsCooldown c user identifier (suc k))

module _ ⦃F : Float⦄ {N : Type 0} (lib : Library N) (client : Redis N)
    (cfg c : RateLimitConfig) where
  penalise-IsRated :
      (spiking : Bool) (d e : RateLimitDecision) (n : N)
      → d.policy_name ≡ c.name
      → (penalise lib client c spiking d n).1 ≡ some e
      → IsRated c e
  unfolding penalise throttled IsRated
  penalise-IsRated spiking d e n name h =
      let (n', count) = increment_abuse lib client (key_of "abuse" c d.user) c.block_seconds n in
      let counted = record d { abuse_count = count } in
      let answer =
        (client.run (set (key_of "block" c d.user) "1" (seconds c.block_seconds)) n').1 in
      elim (Bool-cases (leb_ℤ c.repeated_abuse_threshold count)) [
        | inl reached ↦ elim (Bool-cases (is_failed answer)) [
          | inl f ↦ let h' = rw (reached, f) at h in cc
          | inr f ↦
              subst (IsRated c) (some-injective _ e (rw (reached, f) at h))
                (name, (refl, reached, refl))
        ]
        | inr below ↦ subst (IsRated c) (some-injective _ e (rw below at h)) (
          name,
          (
            throttled-retry (spike_name spiking) (c.soft_throttle_milliseconds *ℤ (count +ℤ pos 1))
                counted,
            spike_name-cases spiking,
          ),
        )
      ]

  judge_rates-IsRated :
      (r : Rates) (user identifier : String) (e : RateLimitDecision) (n : N)
      → (judge_rates lib client c r (rated c user identifier r) n).2 ≡ some e
      → IsRated c e
  unfolding judge_rates rated throttled is_over_window IsRated
  judge_rates-IsRated r user identifier e n h =
      elim (Bool-cases (is_spiking c r || is_over_window c r && is_over_burst r)) [
        | inl bad ↦
            penalise-IsRated (is_spiking c r) (rated c user identifier r) e n refl (rw bad at h)
        | inr fine ↦ elim (Bool-cases (is_over_window c r || is_over_burst r)) [
          | inl over ↦ subst (IsRated c) (some-injective _ e (rw (fine, over) at h)) (
            refl,
            (
              throttled-retry "adaptive_throttle" c.soft_throttle_milliseconds
                  (rated c user identifier r),
              inr (inr (refl, refl)),
            ),
          )
          | inr under ↦
              subst (IsRated c) (some-injective _ e (rw (fine, under) at h))
                (refl, (ground (arith, under), refl, refl, refl))
        ]
      ]

  reported-IsRated :
      (d e : RateLimitDecision) (x : N × List Answer × ExecError)
      → IsRated c d
      → (reported lib client cfg d x).1 ≡ some e
      → IsRated c e
  reported-IsRated d e (n, answers, no_error) j h = subst (IsRated c) (some-injective d e h) j
  reported-IsRated d e (n, answers, nil_error) j h = cc
  reported-IsRated d e (n, answers, exec_failed) j h = cc

  stored-IsRated :
      (identifier : String) (now_unix : ℤ) (r : Rates) (e : RateLimitDecision)
      (x : N × F.Num × Option RateLimitDecision)
      → ((d : RateLimitDecision) → x.2 ≡ some d → IsRated c d)
      → (stored lib client cfg c identifier now_unix r x).1 ≡ some e
      → IsRated c e
  stored-IsRated identifier now_unix r e (n, tokens, none) j h = cc
  stored-IsRated identifier now_unix r e (n, tokens, some d) j h =
      reported-IsRated d e
        (client.exec (store_commands lib c d.user identifier now_unix tokens r.average) n)
        (j d refl) h

  observed-IsRated :
      (user identifier : String) (now_unix : ℤ) (e : RateLimitDecision)
      (x : N × List Answer × ExecError)
      → (observed lib client cfg c user identifier now_unix x).1 ≡ some e
      → IsRated c e
  observed-IsRated user identifier now_unix e (n, answers, exec_failed) h = cc
  observed-IsRated user identifier now_unix e (n, answers, no_error) h =
      let r = rates_of lib.atoi_value c now_unix answers in
      stored-IsRated identifier now_unix r e _ (λ d. judge_rates-IsRated r user identifier d n) h
  observed-IsRated user identifier now_unix e (n, answers, nil_error) h =
      let r = rates_of lib.atoi_value c now_unix answers in
      stored-IsRated identifier now_unix r e _ (λ d. judge_rates-IsRated r user identifier d n) h

  -- A decision of the limiter with a Redis server, whatever the server answers. If it tells of a
  -- block that runs for some time yet, the request is blocked for that, in seconds, rounded up. If
  -- not, an allowed request is within the base rate and has no delay; a throttled one has a reason
  -- and is to retry after a second at least; and a blocked one has reached the threshold of abuse,
  -- and is blocked for as long as the settings say.
  pub evaluate_with-IsJudged :
      (user identifier : String) (n : N) (e : RateLimitDecision)
      → (evaluate_with lib client cfg user identifier c n).1 ≡ some e
      → IsJudged c (client.ttl (key_of "block" c user) (lib.now n).0).1 e
  unfolding evaluate_with
  evaluate_with-IsJudged user identifier n e h =
      let ttl = (client.ttl (key_of "block" c user) (lib.now n).0).1 in
      elim (Option-cases (in_force ttl)) [
        | inl idle ↦
            IsJudged-of_rated c ttl e idle
              (observed-IsRated user identifier _ e _ (rw (idle, evaluate_with) at h))
        | inr (t, running) ↦
            subst (IsJudged c ttl) (some-injective _ e (rw (running, evaluate_with) at h))
              (cooling_down-IsJudged c user identifier ttl t running)
      ]

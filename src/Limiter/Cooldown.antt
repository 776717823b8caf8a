-- ===== src/Limiter/Cooldown.antt =====
-- rate_limiter.go: what `block_seconds` and one key's traffic change in `evaluateLocal`.
use edge_proxy_go.Base.{
  ℤ, pos, pos_part, ℕ, ◌-◌, ◌≤◌, ◌<◌, ◌≡◌, refl, sym, ap, ◌∙◌, ◌≢◌, ◌⊎◌, inl, inr, ◌↔◌, false, List,
  [], ◌∷◌, ◌++◌, String, Float, arith, length, length-drop, take_append_drop, ltb, ltb→lt, min,
  take, Bool-cases, ℤ,
}
use edge_proxy_go.Config.Types.{RateLimitConfig}
use edge_proxy_go.Limiter.Types.{
  InsightEvent, allow, block, RateLimitDecision, LocalBucket, RateLimiter, lookup, lookup-store_ne,
  zero_bucket,
}
use edge_proxy_go.Limiter.Local.{
  current_bucket, judge, retry_seconds, append_event, max_events, window_of, limit_of,
  block_duration, bucket_key, verdict_for, evaluate_local,
}
use edge_proxy_go.Limiter.Window.{serve, decisions, decisions-serve}

-- A bucket with a cooldown has used up its limit.
IsSpent : ℕ → LocalBucket → Type 0
IsSpent limit b = (b.blocked_till ≡ 0) ⊎ (limit ≤ b.count)

-- Two buckets that differ in their cooldowns only.
IsAlike : ℕ → LocalBucket → LocalBucket → Type 0
unfolding IsSpent
IsAlike limit b b' =
    (b.window_start ≡ b'.window_start) × (b.count ≡ b'.count) × IsSpent limit b × IsSpent limit b'

current_bucket-IsAlike :
    (window limit now : ℕ) (b b' : LocalBucket)
    → IsAlike limit b b'
    → IsAlike limit (current_bucket window now b) (current_bucket window now b')
unfolding IsAlike IsSpent current_bucket
current_bucket-IsAlike window limit now b b' h = ground arith

judge-IsAlike :
    (window limit for_one for_two now later : ℕ) (b b' : LocalBucket)
    → IsAlike limit b b'
    → let v = judge window limit for_one now later b in
      let v' = judge window limit for_two now later b' in
      (v.action ≡ v'.action) × IsAlike limit v.bucket v'.bucket
unfolding IsAlike IsSpent judge
judge-IsAlike window limit for_one for_two now later b b' h = ground arith

cons_eq {ℓ} : {A : Type ℓ} {x y : A} {xs ys : List A} → x ≡ y → xs ≡ ys → x ∷ xs ≡ y ∷ ys
cons_eq e e' = cc (e, e')

serve-IsAlike :
    (window limit for_one for_two : ℕ) (times : List (ℕ × ℕ)) (b b' : LocalBucket)
    → IsAlike limit b b'
    → serve window limit for_one b times ≡ serve window limit for_two b' times
unfolding serve
serve-IsAlike window limit for_one for_two [] b b' h = refl
serve-IsAlike window limit for_one for_two ((now, later) ∷ times) b b' h =
    let met = current_bucket-IsAlike window limit now b b' h in
    let v = judge window limit for_one now later (current_bucket window now b) in
    let v' = judge window limit for_two now later (current_bucket window now b') in
    let step =
      judge-IsAlike window limit for_one for_two now later (current_bucket window now b)
        (current_bucket window now b') met in
    cons_eq step.0 (serve-IsAlike window limit for_one for_two times v.bucket v'.bucket step.1)

ltb-false : (a b : ℕ) → ltb a b ≡ false → b ≤ a
ltb-false a b h = ground arith

-- `kept` is the last 1000 of `all`, or all if there are fewer.
pub record IsLast {ℓ} {A : Type ℓ} (all kept : List A) : Type ℓ where
  pub dropped : List A
  pub whole : dropped ++ kept ≡ all
  pub kept_length : length kept ≡ min 1000 (length all)

append_event-IsLast {ℓ} :
    {A : Type ℓ} (events : List A) (e : A) → IsLast (events ++ e ∷ []) (append_event events e)
unfolding append_event
append_event-IsLast events e =
    let longer = events ++ e ∷ [] in
    elim (Bool-cases (ltb max_events (length longer))) [
      | inl l ↦ rw l record {
        dropped = take (length longer - max_events) longer;
        whole = take_append_drop (length longer - max_events) longer;
        kept_length = omega (arith, ltb→lt _ _ l, length-drop (length longer - max_events) longer);
      }
      | inr l ↦
          rw l record { dropped = []; whole = refl; kept_length = omega (arith, ltb-false _ _ l) }
    ]

judge_action :
    (window limit block_for now later : ℕ) (b : LocalBucket)
    → let v = judge window limit block_for now later b in (v.action ≡ allow) ⊎ (v.action ≡ block)
unfolding judge
judge_action window limit block_for now later b = ground arith

module _ ⦃F : Float⦄ (user identifier : String) (c : RateLimitConfig) where
  -- Whatever the times of its requests are, a user whose first request finds no bucket has the same
  -- of them allowed and blocked for any two values of `block_seconds`.
  pub block_seconds_idle :
      (r : RateLimiter) (times : List (ℕ × ℕ)) (n : ℤ)
      → lookup (bucket_key c.name user) r.buckets ≡ zero_bucket
      → decisions r user identifier (record c { block_seconds = n }) times
        ≡ decisions r user identifier c times
  unfolding IsAlike IsSpent window_of limit_of
  block_seconds_idle r times n e =
      let c' : RateLimitConfig = record c { block_seconds = n } in
      decisions-serve user identifier c' r times
      ∙ serve-IsAlike (window_of c) (limit_of c) (block_duration c') (block_duration c) times
          (lookup (bucket_key c.name user) r.buckets) (lookup (bucket_key c.name user) r.buckets)
          (refl, refl, inl (ap (λ b. b.blocked_till) e), inl (ap (λ b. b.blocked_till) e))
      ∙ sym (decisions-serve user identifier c r times)

  -- A request is allowed if and only if it meets a bucket without a running cooldown whose count is
  -- under the limit.
  pub evaluate_local-allow_iff :
      (r : RateLimiter) (now later : ℕ)
      → let met = current_bucket (window_of c) now (lookup (bucket_key c.name user) r.buckets) in
        ((evaluate_local r user identifier c now later).1.action ≡ allow)
        ↔ (met.blocked_till ≤ now × met.count < limit_of c)
  unfolding evaluate_local verdict_for judge
  evaluate_local-allow_iff r now later = ground arith

  -- A request that is not allowed is told to wait for a second at least.
  pub evaluate_local-retry_after :
      (r : RateLimiter) (now later : ℕ)
      → let d = (evaluate_local r user identifier c now later).1 in
        (d.action ≡ allow × d.retry_after ≡ pos 0) ⊎ (d.action ≡ block × 1 ≤ pos_part d.retry_after)
  unfolding evaluate_local verdict_for judge retry_seconds
  evaluate_local-retry_after r now later = ground arith

  -- A request changes the bucket of its own key only.
  pub evaluate_local-others :
      (r : RateLimiter) (now later : ℕ) (key : String)
      → key ≢ bucket_key c.name user
      → lookup key (evaluate_local r user identifier c now later).0.buckets ≡ lookup key r.buckets
  unfolding evaluate_local
  evaluate_local-others r now later key ne =
      lookup-store_ne (bucket_key c.name user) key (verdict_for r user c now later).bucket r.buckets
        ne

  -- The event of a blocked request.
  abbrev pub Reports : RateLimiter → ℕ → RateLimitDecision → InsightEvent → Type 0
  Reports r now d e =
      (e.time ≡ now)
      × (e.user ≡ user)
      × (e.identifier ≡ identifier)
      × (e.policy_name ≡ c.name)
      × (e.action ≡ block)
      × (e.reason ≡ d.reason)
      × (e.retry_after ≡ d.retry_after)
      × (e.abuse_count ≡ d.abuse_count)

  -- A limiter with at most 1000 events keeps at most 1000. An allowed request adds none. A blocked
  -- one adds an event of its time, its user, its policy and its decision: after it the events are
  -- the last 1000 of those before and this one, which are all of them while there are not more.
  pub evaluate_local-events :
      (r : RateLimiter) (now later : ℕ)
      → length r.events ≤ 1000
      → let (r', d) = evaluate_local r user identifier c now later in
        length r'.events ≤ 1000
        × ((d.action ≡ allow × r'.events ≡ r.events)
            ⊎ (d.action ≡ block
                × ((e : InsightEvent) × Reports r now d e × IsLast (r.events ++ e ∷ []) r'.events)))
  unfolding evaluate_local verdict_for
  evaluate_local-events r now later h =
      let met = current_bucket (window_of c) now (lookup (bucket_key c.name user) r.buckets) in
      elim (judge_action (window_of c) (limit_of c) (block_duration c) now later met) [
        | inl e ↦ rw e (h, inl (refl, refl))
        | inr e ↦ rw e (
          omega (arith, (append_event-IsLast r.events _).kept_length),
          inr (
            refl,
            (_, (refl, refl, refl, refl, refl, refl, refl, refl), append_event-IsLast r.events _),
          ),
        )
      ]

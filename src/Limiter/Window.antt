-- ===== src/Limiter/Window.antt =====
-- rate_limiter.go: what the process-local limiter lets through in a window.
use edge_proxy_go.Base.{
  ℕ, suc, ◌+◌, ◌-◌, ◌≤◌, ◌<◌, ◌≡◌, refl, sym, ap, ◌∙◌, ◌⊎◌, inl, inr, true, false, List, [], ◌∷◌,
  String, Float, arith, All, if◌then◌else◌,
}
use edge_proxy_go.Config.Types.{RateLimitConfig}
use edge_proxy_go.Limiter.Types.{DecisionAction, LocalBucket, RateLimiter, lookup, lookup-store}
use edge_proxy_go.Limiter.Local.{
  Verdict, current_bucket, judge, is_allow, window_of, limit_of, block_duration, bucket_key,
  verdict_for, evaluate_local,
}

-- Requests of one user under one policy, each with its two readings of the clock.
unfoldable pub serve : ℕ → ℕ → ℕ → LocalBucket → List (ℕ × ℕ) → List DecisionAction
serve window limit block_for b [] = []
serve window limit block_for b ((now, later) ∷ times) =
    let v = judge window limit block_for now later (current_bucket window now b) in
    v.action ∷ serve window limit block_for v.bucket times

abbrev pub allowed : List DecisionAction → ℕ
allowed [] = 0
allowed (a ∷ as') = if is_allow a then suc (allowed as') else allowed as'

-- Every request comes within `window` of `start`.
abbrev pub Within : ℕ → ℕ → List (ℕ × ℕ) → Type 0
Within start window = All λ t. t.0 < start + window

current_bucket-within :
    (window now : ℕ) (b : LocalBucket)
    → 0 < window
    → 0 < b.window_start
    → now < b.window_start + window
    → current_bucket window now b ≡ b
unfolding current_bucket
current_bucket-within window now b w s t = ground arith

-- A request leaves the start of the bucket that it meets alone, and adds one to the count, which
-- was under the limit, or nothing.
judge-count :
    (window limit block_for now later : ℕ) (b : LocalBucket)
    → let v = judge window limit block_for now later b in
      v.bucket.window_start ≡ b.window_start
      × (is_allow v.action ≡ true × b.count < limit × v.bucket.count ≡ suc b.count
          ⊎ is_allow v.action ≡ false × v.bucket.count ≡ b.count)
unfolding judge
judge-count window limit block_for now later b = ground arith

-- What `judge-count` says of a verdict.
abbrev IsCounted : ℕ → LocalBucket → Verdict → Type 0
IsCounted limit b v =
    v.bucket.window_start ≡ b.window_start
    × (is_allow v.action ≡ true × b.count < limit × v.bucket.count ≡ suc b.count
        ⊎ is_allow v.action ≡ false × v.bucket.count ≡ b.count)

-- The count after a verdict is within the limit, and bounds the count before with the verdict.
count_after :
    (limit : ℕ) (b : LocalBucket) (v : Verdict) (rest : ℕ)
    → b.count ≤ limit
    → IsCounted limit b v
    → v.bucket.count ≤ limit
      × (rest + v.bucket.count ≤ limit
          → (if is_allow v.action then suc rest else rest) + b.count ≤ limit)
count_after limit b v rest c (start, inl (a, less, count)) =
    (omega (arith, less, count), λ h. rw a (omega (arith, h, count)))
count_after limit b v rest c (start, inr (a, count)) =
    (omega (arith, c, count), λ h. rw a (omega (arith, h, count)))

allowed_from :
    (window limit block_for start : ℕ) (b : LocalBucket) (times : List (ℕ × ℕ))
    → 0 < window
    → 0 < start
    → b.window_start ≡ start
    → b.count ≤ limit
    → Within start window times
    → allowed (serve window limit block_for b times) + b.count ≤ limit
unfolding serve
allowed_from window limit block_for start b [] w s e c h = omega arith
allowed_from window limit block_for start b ((now, later) ∷ times) w s e c (t, h) =
    let met = current_bucket-within window now b w (rw e s) (rw e t) in
    let v = judge window limit block_for now later b in
    let counted = judge-count window limit block_for now later b in
    let rest = allowed (serve window limit block_for v.bucket times) in
    let after = count_after limit b v rest c counted in
    rw met (
      after.1
        (allowed_from window limit block_for start v.bucket times w s (counted.0 ∙ e) after.0 h))

-- The decisions on requests of one user under one policy.
unfoldable pub decisions :
    ⦃F : Float⦄
    → RateLimiter
    → String
    → String
    → RateLimitConfig
    → List (ℕ × ℕ)
    → List DecisionAction
decisions r user identifier c [] = []
decisions r user identifier c ((now, later) ∷ times) =
    let answer = evaluate_local r user identifier c now later in
    answer.1.action ∷ decisions answer.0 user identifier c times

module _ ⦃F : Float⦄ (user identifier : String) (c : RateLimitConfig) where
  pub decisions-serve :
      (r : RateLimiter) (times : List (ℕ × ℕ))
      → decisions r user identifier c times
        ≡ serve
            (window_of c)
            (limit_of c)
            (block_duration c)
            (lookup (bucket_key c.name user) r.buckets)
            times
  unfolding decisions serve evaluate_local verdict_for
  decisions-serve r [] = refl
  decisions-serve r ((now, later) ∷ times) =
      let v = verdict_for r user c now later in
      ap (λ rest. v.action ∷ rest)
        (decisions-serve (evaluate_local r user identifier c now later).0 times
          ∙ ap (λ b. serve (window_of c) (limit_of c) (block_duration c) b times)
              (lookup-store (bucket_key c.name user) v.bucket r.buckets))

window_of-pos : ⦃F : Float⦄ (c : RateLimitConfig) → 0 < window_of c
unfolding window_of
window_of-pos c = ground arith

pub limit_of-pos : ⦃F : Float⦄ (c : RateLimitConfig) → 0 < limit_of c
unfolding limit_of
limit_of-pos c = ground arith

-- The bucket is a new one, or its window is over.
unfoldable pub IsOver : ℕ → ℕ → LocalBucket → Type 0
IsOver window now b = (b.window_start ≡ 0) ⊎ (window ≤ now - b.window_start)

fresh_bucket :
    (window now : ℕ) (b : LocalBucket)
    → IsOver window now b
    → current_bucket window now b ≡ record { window_start = now; count = 0; blocked_till = 0 }
unfolding current_bucket IsOver
fresh_bucket window now b h = ground arith

-- Two buckets that a request meets alike are served alike.
serve_same :
    (window limit block_for : ℕ) (b b' : LocalBucket) (now later : ℕ) (times : List (ℕ × ℕ))
    → current_bucket window now b ≡ current_bucket window now b'
    → serve window limit block_for b ((now, later) ∷ times)
      ≡ serve window limit block_for b' ((now, later) ∷ times)
unfolding serve
serve_same window limit block_for b b' now later times e = rw e refl

module _ ⦃F : Float⦄ (r : RateLimiter) (user identifier : String) (c : RateLimitConfig) where
  -- If the first of the requests of a user under a policy finds no bucket, or one whose window is
  -- over, and the others come within the window that it opens, then no more of them are allowed
  -- than the limit.
  pub allowed_per_window :
      (now later : ℕ) (times : List (ℕ × ℕ))
      → 0 < now
      → IsOver (window_of c) now (lookup (bucket_key c.name user) r.buckets)
      → Within now (window_of c) times
      → allowed (decisions r user identifier c ((now, later) ∷ times)) ≤ limit_of c
  allowed_per_window now later times s over h =
      let new : LocalBucket = record { window_start = now; count = 0; blocked_till = 0 } in
      let w = window_of-pos c in
      let same = current_bucket-within (window_of c) now new w s (omega (arith, w)) in
      let met = fresh_bucket (window_of c) now (lookup (bucket_key c.name user) r.buckets) over in
      let all =
        allowed_from (window_of c) (limit_of c) (block_duration c) now new ((now, later) ∷ times) w
          s refl (omega arith) (omega (arith, w), h) in
      rw
        (
          decisions-serve user identifier c r ((now, later) ∷ times),
          serve_same _ _ _ _ new now later times (met ∙ sym same),
        )
        (omega (arith, all))

-- ===== src/Limiter/Types.antt =====
-- rate_limiter.go: decisions, events and the state of the process-local limiter. A time is a number
-- of nanoseconds since Go's zero time; an event keeps it as it is, unformatted.
use edge_proxy_go.Base.{
  ℕ, ℤ, ◌≡◌, refl, sym, ap, ◌≢◌, inl, inr, List, [], ◌∷◌, String, Float, ◌==ₛ◌, ==ₛ_refl, ==ₛ_false,
  eq_of_==ₛ, Bool-cases, if◌then◌else◌,
}

pub data DecisionAction : Type 0 where
  allow throttle block : DecisionAction

pub record RateLimitDecision ⦃F : Float⦄ : Type 0 where
  pub action : DecisionAction
  pub policy_name : String
  pub user : String
  pub identifier : String
  pub reason : String
  pub retry_after : ℤ
  pub throttle_delay : ℤ
  pub observed_rps : F.Num
  pub average_rps : F.Num
  pub window_count : ℤ
  pub abuse_count : ℤ

pub record InsightEvent ⦃F : Float⦄ : Type 0 where
  pub time : ℕ
  pub policy_name : String
  pub user : String
  pub identifier : String
  pub action : DecisionAction
  pub reason : String
  pub observed_rps : F.Num
  pub average_rps : F.Num
  pub window_count : ℤ
  pub abuse_count : ℤ
  pub retry_after : ℤ
  pub throttle_ms : ℤ

pub record UserTrafficInsight : Type 0 where
  pub user : String
  pub identifier : String
  pub abuse_count : ℤ

pub record LocalBucket : Type 0 where
  pub window_start : ℕ
  pub count : ℕ
  pub blocked_till : ℕ

-- The map `local` as an association list, and the events.
pub record RateLimiter ⦃F : Float⦄ : Type 0 where
  pub buckets : List (String × LocalBucket)
  pub events : List InsightEvent

abbrev pub zero_bucket : LocalBucket
zero_bucket = record { window_start = 0; count = 0; blocked_till = 0 }

-- `r.local[key]`: the zero bucket for a key that is missing.
unfoldable pub lookup : String → List (String × LocalBucket) → LocalBucket
lookup key [] = zero_bucket
lookup key ((k, b) ∷ m) = if k ==ₛ key then b else lookup key m

-- `r.local[key] = bucket`
unfoldable pub store :
    String → LocalBucket → List (String × LocalBucket) → List (String × LocalBucket)
store key b [] = (key, b) ∷ []
store key b ((k, c) ∷ m) = if k ==ₛ key then (key, b) ∷ m else (k, c) ∷ store key b m

pub lookup-store :
    (key : String) (b : LocalBucket) (m : List (String × LocalBucket))
    → lookup key (store key b m) ≡ b
unfolding lookup store
lookup-store key b [] = rw (==ₛ_refl key) refl
lookup-store key b ((k, c) ∷ m) = elim (Bool-cases (k ==ₛ key)) [
  | inl e ↦ rw (e, ==ₛ_refl key) refl
  | inr e ↦ rw (e, e) (lookup-store key b m)
]

pub lookup-store_ne :
    (key other : String) (b : LocalBucket) (m : List (String × LocalBucket))
    → other ≢ key
    → lookup other (store key b m) ≡ lookup other m
unfolding lookup store
lookup-store_ne key other b [] ne = rw (==ₛ_false key other (λ e. ne (sym e))) refl
lookup-store_ne key other b ((k, c) ∷ m) ne = elim (Bool-cases (k ==ₛ key)) [
  | inl e ↦
      let same = eq_of_==ₛ k key e in rw (e, same, ==ₛ_false key other (λ e'. ne (sym e'))) refl
  | inr e ↦ rw e (ap (λ x. if k ==ₛ other then c else x) (lookup-store_ne key other b m ne))
]

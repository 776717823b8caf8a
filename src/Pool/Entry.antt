-- ===== src/Pool/Entry.antt =====
-- health.go: the state of the pool and what is computed from one backend.
--
-- A `time.Time` is a number of nanoseconds since Go's zero time, so `IsZero` is `== 0`; the
-- monotonic reading is left out. `*backendStats` is a reference into `heap`, which holds each
-- statistics object that the pool ever allocated: an entry that was replaced and the requests that
-- were started on it still share theirs. A transport is kept as its two timeouts.
use edge_proxy_go.Base.{
  ◌≡◌, false, ℕ, ◌*◌, max, ℤ, pos, Bool, true, false, not, ◌&&◌, ◌||◌, List, [], ◌∷◌, Option, none,
  some, String, Float, ltb, ◌==ₛ◌, if◌then◌else◌,
}

pub record BackendStats : Type 0 where
  pub requests : ℕ
  pub errors : ℕ
  pub active_requests : ℤ
  pub total_latency_ns : ℕ
  pub last_status : ℕ

pub data BreakerState : Type 0 where
  closed opened half_open : BreakerState

pub record Transport : Type 0 where
  pub connect_timeout : ℕ
  pub response_header_timeout : ℕ

pub record BackendEntry : Type 0 where
  pub address : String
  pub weight : ℕ
  pub health_path : String
  pub healthy : Bool
  pub transport : Transport
  pub stats : ℕ
  pub breaker_state : BreakerState
  pub breaker_opened_until : ℕ
  pub consecutive_err : ℕ
  pub half_open_in_flight : Bool
  pub disabled : Bool
  pub draining : Bool

pub record BackendPool : Type 0 where
  pub backends : List BackendEntry
  pub current : ℕ
  pub stopped : Bool
  pub heap : List BackendStats

abbrev pub millisecond : ℕ
millisecond = 1_000_000

abbrev pub second : ℕ
second = 1_000_000_000

abbrev pub breaker_failure_threshold : ℕ
breaker_failure_threshold = 3

abbrev pub breaker_cooldown : ℕ
breaker_cooldown = 15 * second

-- `&backendStats{}`
abbrev pub zero_stats : BackendStats
zero_stats = record {
  requests = 0;
  errors = 0;
  active_requests = pos 0;
  total_latency_ns = 0;
  last_status = 0;
}

-- A read through a reference. References in a pool are always in range.
abbrev pub load : List BackendStats → ℕ → BackendStats
load [] i = zero_stats
load (s ∷ h) ℕ.zero = s
load (s ∷ h) (ℕ.suc i) = load h i

abbrev pub is_opened : BreakerState → Bool
is_opened opened = true
is_opened _ = false

abbrev pub is_half_open : BreakerState → Bool
is_half_open half_open = true
is_half_open _ = false

-- `backendStats` averages, in milliseconds: 0 before the first finished request.
unfoldable pub avg_latency_ms : ⦃F : Float⦄ → BackendStats → F.Num
avg_latency_ms ⦃F⦄ s =
    if ltb 0 s.requests
    then F.div (F.div (F.of_int (pos s.total_latency_ns)) (F.of_int (pos s.requests)))
        (F.of_int (pos millisecond))
    else F.of_int (pos 0)

unfoldable pub backend_score : ⦃F : Float⦄ → List BackendStats → BackendEntry → F.Num
backend_score ⦃F⦄ heap e = F.add (F.add active_penalty (avg_latency_ms s)) error_penalty
  where
    s : BackendStats
    s = load heap e.stats

    active_penalty : F.Num
    active_penalty =
        F.mul (F.div (F.of_int s.active_requests) (F.of_int (pos (max 1 e.weight))))
          (F.of_int (pos 1000))

    error_penalty : F.Num
    error_penalty = F.mul (F.of_int (pos e.consecutive_err)) (F.of_int (pos 200))

unfoldable pub new_backend_transport_with_timeout : ℕ → ℕ → Transport
new_backend_transport_with_timeout connect header = record {
  connect_timeout = if ltb 0 connect then connect else 5 * second;
  response_header_timeout = if ltb 0 header then header else 15 * second;
}

unfoldable pub new_backend_transport : Transport
unfolding new_backend_transport_with_timeout
new_backend_transport = new_backend_transport_with_timeout (5 * second) (15 * second)

unfoldable pub current_breaker_state : ℕ → BackendEntry → BreakerState
current_breaker_state now e =
    if is_opened e.breaker_state && not (ltb now e.breaker_opened_until)
    then half_open
    else e.breaker_state

unfoldable pub backend_available : ℕ → BackendEntry → Bool
backend_available now e =
    if not e.healthy
    then false
    else if e.disabled || e.draining
    then false
    else if is_opened e.breaker_state && ltb now e.breaker_opened_until
    then false
    else if is_half_open e.breaker_state && e.half_open_in_flight
    then false
    else true

-- The value of a key of `map[string]bool` that is nil (`none`) or holds `true` for each listed text.
abbrev pub contains : String → List String → Bool
contains a [] = false
contains a (b ∷ bs) = (b ==ₛ a) || contains a bs

-- No text stands twice.
abbrev pub IsDistinct : List String → Type 0
IsDistinct [] = Unit
IsDistinct (a ∷ as') = (contains a as' ≡ false) × IsDistinct as'

abbrev pub is_allowed : Option (List String) → String → Bool
is_allowed none a = true
is_allowed (some set) a = contains a set

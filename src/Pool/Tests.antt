-- ===== src/Pool/Tests.antt =====
-- Runs of the pool on small inputs, and the theorems about it at inputs that meet their hypotheses.
pub mod Choices
pub mod Lifecycle
mod Checks
use edge_proxy_go.Base.{
  ℕ, zero, suc, ◌+◌, ◌-◌, ◌*◌, ◌/◌, ◌%◌, ◌≤◌, ◌<◌, ℤ, pos, negsuc, ◌+ℤ◌, ◌-ℤ◌, leb_ℤ, ◌≡◌, refl,
  ◌≢◌, ◌↔◌, Bool, true, false, not, ◌&&◌, List, [], ◌∷◌, Option, none, some, String, Float,
  IsOrdered, arith, ne_of_==ₛ, ◌≢◌, length, All, ◌==ₛ◌, if◌then◌else◌, get_elem?, modify,
}
use edge_proxy_go.Samples.{thousandths, thousandths-IsOrdered}
use edge_proxy_go.Pool.Entry.{
  BackendStats, BackendEntry, BackendPool, BreakerState, closed, opened, half_open, second,
  millisecond, zero_stats, new_backend_transport, breaker_cooldown, backend_available, load,
  backend_score, avg_latency_ms,
}
use edge_proxy_go.Pool.Select.Rotation.{IsSteady}
use edge_proxy_go.Pool.Select.Eligible.{IsEligible}
use edge_proxy_go.Pool.Invariant.{IsValid, IsBreakerOk}
use edge_proxy_go.Pool.Select.{
  next_for, collect, visit, candidate_score, choose, sort_stable, insert, less, tied, weighted,
  weight_at, total_weight, pick, mark_probe, address_at, expire,
}

abbrev pub backend : String → ℕ → ℕ → BackendEntry
backend address weight stats = record {
  address = address;
  weight = weight;
  health_path = "";
  healthy = true;
  transport = record { connect_timeout = 5 * second; response_header_timeout = 15 * second };
  stats = stats;
  breaker_state = closed;
  breaker_opened_until = 0;
  consecutive_err = 0;
  half_open_in_flight = false;
  disabled = false;
  draining = false;
}

-- Two idle backends, of weights 2 and 1.
abbrev pub two_to_one : BackendPool
two_to_one = record {
  backends = backend "api-1:8000" 2 0 ∷ backend "api-2:8000" 1 1 ∷ [];
  current = 0;
  stopped = false;
  heap = zero_stats ∷ zero_stats ∷ [];
}

abbrev names : ℕ → BackendPool → List String
names zero p = []
names (suc k) p = let (q, a) = next_for 100 none p in a ∷ names k q

-- The distribution that the repository's own test asks for, over two rounds.
weighted_distribution :
    names 6 two_to_one
    ≡ "api-1:8000" ∷ "api-1:8000" ∷ "api-2:8000" ∷ "api-1:8000" ∷ "api-1:8000" ∷ "api-2:8000" ∷ []
unfolding next_for collect visit candidate_score backend_score avg_latency_ms choose sort_stable
    insert less tied weighted weight_at total_weight pick mark_probe ◌==ₛ◌ ◌+ℤ◌ ◌-ℤ◌
weighted_distribution = refl

pub first_choice : (next_for 100 none two_to_one).1 ≢ ""
unfolding next_for collect visit candidate_score backend_score avg_latency_ms choose sort_stable
    insert less tied weighted weight_at total_weight pick mark_probe ◌==ₛ◌ ◌+ℤ◌ ◌-ℤ◌
first_choice = ne_of_==ₛ (next_for 100 none two_to_one).1 "" refl

pub named : All (λ (e : BackendEntry). e.address ≢ "") two_to_one.backends
unfolding ◌==ₛ◌
named = (ne_of_==ₛ "api-1:8000" "" refl, (ne_of_==ₛ "api-2:8000" "" refl, tt))

pub steady : IsSteady two_to_one
steady = (refl, (refl, tt))

pub two_to_one-IsValid : IsValid two_to_one
two_to_one-IsValid = record {
  breakers = (
    record { counted = omega arith; probing = λ h. cc h },
    (record { counted = omega arith; probing = λ h. cc h }, tt),
  );
  owned = (omega arith, (omega arith, omega arith));
}

-- A backend whose breaker is open, with its cooldown over at 100.
abbrev pub cooled : BackendEntry
cooled = record (backend "api-1:8000" 1 0) {
  breaker_state = opened;
  breaker_opened_until = 100;
  consecutive_err = 3;
}

abbrev pub recovering : BackendPool
recovering = record two_to_one { backends = cooled ∷ [] }

pub cooled-IsEligible : IsEligible 100 none cooled
cooled-IsEligible = record {
  permitted = refl;
  up = refl;
  enabled = refl;
  staying = refl;
  admitting = omega arith;
}

pub cooled-IsBreakerOk : IsBreakerOk cooled
cooled-IsBreakerOk = record { counted = omega arith; probing = λ h. cc h }

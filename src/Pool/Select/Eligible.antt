-- ===== src/Pool/Select/Eligible.antt =====
-- When a backend may be given traffic, said of the backend alone, against the guards of `nextFor`
-- and of `backendAvailableLocked`.
use edge_proxy_go.Base.{ℕ, ◌≤◌, ◌≡◌, ◌↔◌, Bool, true, false, List, Option, none, String, arith}
use edge_proxy_go.Pool.Entry.{
  BackendEntry, BreakerState, closed, opened, half_open, is_allowed, backend_available,
}
use edge_proxy_go.Pool.Select.{visit, expire}

-- Closed, or open with the cooldown over, or half-open with no probe in flight.
abbrev pub Admits : ℕ → BreakerState → ℕ → Bool → Type 0
Admits now closed until probing = Unit
Admits now opened until probing = until ≤ now
Admits now half_open until probing = probing ≡ false

pub record IsEligible (now : ℕ) (allowed : Option (List String)) (e : BackendEntry) : Type 0 where
  pub permitted : is_allowed allowed e.address ≡ true
  pub up : e.healthy ≡ true
  pub enabled : e.disabled ≡ false
  pub staying : e.draining ≡ false
  pub admitting : Admits now e.breaker_state e.breaker_opened_until e.half_open_in_flight

pub IsEligible-of_visit :
    (now : ℕ) (allowed : Option (List String)) (e : BackendEntry)
    → (visit now allowed e).1 ≡ true
    → IsEligible now allowed e
unfolding visit
IsEligible-of_visit now allowed e h = ground arith

pub visit_of_IsEligible :
    (now : ℕ) (allowed : Option (List String)) (e : BackendEntry)
    → IsEligible now allowed e
    → visit now allowed e ≡ (expire now e, true)
unfolding visit
visit_of_IsEligible now allowed e h = ground arith

-- The flag that the status of a backend shows is true exactly when `next` could choose it.
pub backend_available_iff :
    (now : ℕ) (e : BackendEntry) → (backend_available now e ≡ true) ↔ IsEligible now none e
unfolding backend_available
backend_available_iff now e = (λ h. ground arith, λ h. ground arith)

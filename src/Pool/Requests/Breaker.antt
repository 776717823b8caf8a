-- ===== src/Pool/Requests/Breaker.antt =====
-- health.go: the circuit breaker of one backend, as `nextFor` and `finishRequest` drive it.
use edge_proxy_go.Base.{
  ℕ, ◌+◌, ◌≤◌, ◌≡◌, ◌≢◌, ◌↔◌, true, false, List, [], ◌∷◌, Option, String, arith, length,
}
use edge_proxy_go.Pool.Entry.{BackendEntry, closed, opened, breaker_cooldown, is_allowed}
use edge_proxy_go.Pool.Select.{expire, mark_probe}
use edge_proxy_go.Pool.Select.Eligible.{IsEligible}
use edge_proxy_go.Pool.Requests.{settle}
use edge_proxy_go.Pool.Invariant.{IsBreakerOk}

-- Requests that fail one after the other, at the listed times.
pub fail_all : List ℕ → BackendEntry → BackendEntry
fail_all [] e = e
fail_all (now ∷ times) e = fail_all times (settle now true e)

fail_all_opened :
    (times : List ℕ) (e : BackendEntry)
    → e.breaker_state ≡ opened
    → 2 ≤ e.consecutive_err
    → (fail_all times e).breaker_state ≡ opened
unfolding fail_all settle
fail_all_opened [] e h k = h
fail_all_opened (now ∷ times) e h k =
    fail_all_opened times (settle now true e) (ground arith) (ground arith)

-- From a closed breaker that has counted no failure, consecutive failures open it exactly if there
-- are at least three.
pub fail_all-opened_iff :
    (times : List ℕ) (e : BackendEntry)
    → e.breaker_state ≡ closed
    → e.consecutive_err ≡ 0
    → ((fail_all times e).breaker_state ≡ opened) ↔ (3 ≤ length times)
unfolding fail_all settle
fail_all-opened_iff [] e h k = (λ o. cc, λ l. absurd (omega arith))
fail_all-opened_iff (a ∷ []) e h k = (λ o. ground arith, λ l. absurd (omega arith))
fail_all-opened_iff (a ∷ b ∷ []) e h k = (λ o. ground arith, λ l. absurd (omega arith))
fail_all-opened_iff (a ∷ b ∷ c ∷ times) e h k = (
  λ o. omega arith,
  λ l.
      fail_all_opened times (settle c true (settle b true (settle a true e))) (ground arith)
        (ground arith),
)

-- A failure that trips the breaker keeps the backend from traffic for the cooldown, and no longer:
-- then a backend that is up, enabled and permitted is eligible again.
pub tripped-IsEligible_iff :
    (now later : ℕ) (allowed : Option (List String)) (e : BackendEntry)
    → 2 ≤ e.consecutive_err
    → e.healthy ≡ true
    → e.disabled ≡ false
    → e.draining ≡ false
    → is_allowed allowed e.address ≡ true
    → IsEligible later allowed (settle now true e) ↔ (now + breaker_cooldown ≤ later)
unfolding settle
tripped-IsEligible_iff now later allowed e n up enabled staying permitted =
    (λ g. ground arith, λ l. ground arith)

-- A probe that succeeds closes the breaker and clears the count; one that fails opens it again, for
-- a new cooldown. Either way no probe is in flight after it.
pub settle-probe :
    (now later : ℕ) (allowed : Option (List String)) (e : BackendEntry)
    → IsBreakerOk e
    → IsEligible now allowed e
    → e.breaker_state ≢ closed
    → let probed = mark_probe (expire now e) in
      ((settle later false probed).breaker_state ≡ closed)
      × ((settle later false probed).consecutive_err ≡ 0)
      × ((settle later false probed).half_open_in_flight ≡ false)
      × ((settle later true probed).breaker_state ≡ opened)
      × ((settle later true probed).breaker_opened_until ≡ later + breaker_cooldown)
      × ((settle later true probed).half_open_in_flight ≡ false)
unfolding settle mark_probe expire
settle-probe now later allowed e v g h = ground arith

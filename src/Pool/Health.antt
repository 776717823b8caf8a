-- ===== src/Pool/Health.antt =====
-- health.go: `startHealthChecker` and `probeHTTPBackend`. What the HTTP client answers is a
-- parameter of a round: the status of the response, or `none` for an error.
pub mod Round
use edge_proxy_go.Base.{
  ℕ, ◌+◌, ◌*◌, Bool, true, false, ◌&&◌, List, [], ◌∷◌, map, Option, none, some, String, ltb, leb,
  ◌==ₛ◌, if◌then◌else◌,
}
use edge_proxy_go.Pool.Entry.{BackendEntry, BackendPool, second}

-- `probeHTTPBackend`: an error is no health, and neither is a status outside 200 to 399.
unfoldable pub probe_http_backend : Option ℕ → Bool
probe_http_backend none = false
probe_http_backend (some status_code) = leb 200 status_code && ltb status_code 400

-- What a probe's result does to an entry with the probed address.
unfoldable pub apply_probe : String → Bool → BackendEntry → BackendEntry
apply_probe address ok e =
    if e.address ==ₛ address
    then if ok
      then record e { healthy = true }
      else record e { healthy = false; half_open_in_flight = false }
    else e

unfoldable pub apply_check : String → Bool → BackendPool → BackendPool
unfolding apply_probe
apply_check address ok p = record p { backends = map (apply_probe address ok) p.backends }

-- The snapshot `checks`: each backend's address with its own path or the configured one.
unfoldable pub check_of : String → BackendEntry → String × String
check_of path e = (e.address, if e.health_path ==ₛ "" then path else e.health_path)

unfoldable pub run_checks :
    (String → String → Option ℕ) → List (String × String) → BackendPool → BackendPool
unfolding probe_http_backend apply_check
run_checks get [] p = p
run_checks get ((address, path) ∷ checks) p =
    run_checks get checks (apply_check address (probe_http_backend (get address path)) p)

-- One tick of the loop, with the time `next_run` before and after. `now` and `now'` are the two
-- readings of the clock, and the configuration is its `enabled`, `interval_seconds` and `path`.
unfoldable pub health_tick :
    Bool → ℕ → String → ℕ → ℕ → (String → String → Option ℕ) → ℕ → BackendPool → BackendPool × ℕ
unfolding check_of run_checks
health_tick enabled interval path now now' get next_run p =
    if enabled
    then if ltb now next_run
      then (p, next_run)
      else (run_checks get (map (check_of path) p.backends) p, now' + interval * second)
    else (p, next_run)

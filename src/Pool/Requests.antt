-- ===== src/Pool/Requests.antt =====
-- health.go: what a request does to the pool: `startRequest`, the closure that it returns,
-- `finishRequest` with the circuit breaker, `transportFor`.
pub mod Breaker
pub mod Probing
pub mod Probe
pub mod Accounting
use edge_proxy_go.Base.{
  ℕ, suc, ◌+◌, pos, ◌+ℤ◌, ◌-ℤ◌, Bool, false, ◌||◌, List, [], ◌∷◌, Option, none, some, String, leb,
  ◌==ₛ◌, if◌then◌else◌, modify,
}
use edge_proxy_go.Pool.Entry.{
  BackendStats, BackendEntry, BackendPool, Transport, closed, opened, is_half_open,
  breaker_failure_threshold, breaker_cooldown, new_backend_transport,
}

-- What the closure of `startRequest` captures.
pub record Token : Type 0 where
  pub address : String
  pub stats : ℕ

-- The first entry with an address.
unfoldable pub find : String → List BackendEntry → Option BackendEntry
find address [] = none
find address (e ∷ es) = if e.address ==ₛ address then some e else find address es

unfoldable pub transport_for : String → BackendPool → Transport
transport_for address p = elim (find address p.backends) [
  | none ↦ new_backend_transport
  | some e ↦ e.transport
]

-- `stats.activeRequests.Add(1)`
unfoldable pub record_start : BackendStats → BackendStats
record_start s = record s { active_requests = s.active_requests +ℤ pos 1 }

-- `none` stands for the closure that does nothing.
unfoldable pub start_request : String → BackendPool → BackendPool × Option Token
start_request address p = elim (find address p.backends) [
  | none ↦ (p, none)
  | some e ↦ (
    record p { heap = modify e.stats record_start p.heap },
    some (record { address = address; stats = e.stats }),
  )
]

-- The body of the loop of `finishRequest`, at the entry with the address.
unfoldable pub settle : ℕ → Bool → BackendEntry → BackendEntry
settle now failed e =
    let probed =
      if is_half_open e.breaker_state then record e { half_open_in_flight = false } else e in
    let errors = suc e.consecutive_err in
    let tripped = record probed {
      consecutive_err = errors;
      breaker_state = opened;
      breaker_opened_until = now + breaker_cooldown;
    } in
    if failed
    then if leb breaker_failure_threshold errors
      then tripped
      else record probed { consecutive_err = errors }
    else record probed { consecutive_err = 0; breaker_state = closed; breaker_opened_until = 0 }

-- The loop of `finishRequest`: it returns at the first entry with the address.
unfoldable pub settle_at : ℕ → String → Bool → List BackendEntry → List BackendEntry
unfolding settle
settle_at now address failed [] = []
settle_at now address failed (e ∷ es) =
    if e.address ==ₛ address then settle now failed e ∷ es else e ∷ settle_at now address failed es

unfoldable pub finish_request : ℕ → String → Bool → BackendPool → BackendPool
unfolding settle_at
finish_request now address failed p = record p {
  backends = settle_at now address failed p.backends;
}

-- `err != nil || statusCode >= http.StatusInternalServerError`
unfoldable pub is_failure : ℕ → Bool → Bool
is_failure status_code err = err || leb 500 status_code

-- What the closure writes to the statistics that it captured.
unfoldable pub record_finish : ℕ → ℕ → Bool → BackendStats → BackendStats
record_finish status_code latency failed s = record s {
  active_requests = s.active_requests -ℤ pos 1;
  requests = suc s.requests;
  total_latency_ns = s.total_latency_ns + latency;
  last_status = status_code;
  errors = if failed then suc s.errors else s.errors;
}

-- The closure, called with a status, a latency and whether there was an error.
unfoldable pub finish : ℕ → Option Token → ℕ → ℕ → Bool → BackendPool → BackendPool
unfolding is_failure record_finish finish_request
finish now none status_code latency err p = p
finish now (some t) status_code latency err p =
    let failed = is_failure status_code err in
    finish_request now t.address failed
      (record p { heap = modify t.stats (record_finish status_code latency failed) p.heap })

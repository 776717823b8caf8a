-- ===== src/Pool/Admin.antt =====
-- health.go: `reconfigure` with `cloneBackendEntry`, `setBackendState`, `status`, `healthyCount`,
-- `close`, and the rounds of the health checker. Closing idle connections is not modelled.
pub mod Reconfigure
pub mod Kept
pub mod Stranding
use edge_proxy_go.Base.{
  ℕ, suc, ◌%◌, ℤ, Bool, true, false, List, [], ◌∷◌, ◌++◌, map, Option, none, some, String, Float,
  ◌==◌, ◌==ₛ◌, if◌then◌else◌, length,
}
use edge_proxy_go.Pool.Entry.{
  BackendStats, BackendEntry, BackendPool, BreakerState, closed, zero_stats, load, avg_latency_ms,
  new_backend_transport, current_breaker_state, backend_available,
}

-- The map `existing`: of two entries with one address the later is found.
unfoldable pub find_existing : String → List BackendEntry → Option BackendEntry
find_existing address [] = none
find_existing address (e ∷ es) = elim (find_existing address es) [
  | some later ↦ some later
  | none ↦ if e.address ==ₛ address then some e else none
]

-- A backend that `reconfigure` meets for the first time; its statistics stand at `stats`.
unfoldable pub fresh_entry : String → ℕ → BackendEntry
fresh_entry address stats = record {
  address = address;
  weight = 0;
  health_path = "";
  healthy = true;
  transport = new_backend_transport;
  stats = stats;
  breaker_state = closed;
  breaker_opened_until = 0;
  consecutive_err = 0;
  half_open_in_flight = false;
  disabled = false;
  draining = false;
}

-- `cloneBackendEntry`: the copied statistics are a new object, at `stats`.
unfoldable pub clone_backend_entry : BackendEntry → ℕ → BackendEntry
clone_backend_entry source stats = record source { stats = stats }

-- One round of the second loop. An object that is allocated goes to the end of the heap.
unfoldable pub entry_for :
    List BackendEntry → List BackendStats → String → BackendEntry × List BackendStats
unfolding fresh_entry clone_backend_entry
entry_for existing heap address = elim (find_existing address existing) [
  | some source ↦ (clone_backend_entry source (length heap), heap ++ load heap source.stats ∷ [])
  | none ↦ (fresh_entry address (length heap), heap ++ zero_stats ∷ [])
]

unfoldable pub rebuild :
    List BackendEntry → List BackendStats → List String → List BackendEntry × List BackendStats
rebuild existing heap [] = ([], heap)
rebuild existing heap (address ∷ rest) =
    let (e, heap') = entry_for existing heap address in
    let (es, heap'') = rebuild existing heap' rest in (e ∷ es, heap'')

unfoldable pub reconfigure : List String → BackendPool → BackendPool
unfolding rebuild
reconfigure addresses p =
    let (es, heap) = rebuild p.backends p.heap addresses in
    record p {
      backends = es;
      heap = heap;
      current = if length es == 0 then 0 else p.current % length es;
    }

pub data AdminError : Type 0 where
  unknown_action : String → AdminError
  not_found : String → AdminError

-- The `switch` of `setBackendState`.
unfoldable pub apply_action : String → BackendEntry → Option BackendEntry
apply_action action e =
    if action ==ₛ "disable"
    then some (record e { disabled = true; draining = false })
    else if action ==ₛ "enable"
    then some (record e { disabled = false; draining = false })
    else if action ==ₛ "drain"
    then some (record e { disabled = false; draining = true })
    else none

unfoldable pub set_state_at :
    String → String → List BackendEntry → List BackendEntry × Option AdminError
unfolding apply_action
set_state_at address action [] = ([], some (not_found address))
set_state_at address action (e ∷ es) =
    let (es', error) = set_state_at address action es in
    if e.address ==ₛ address
    then elim (apply_action action e) [
      | none ↦ (e ∷ es, some (unknown_action action))
      | some e' ↦ (e' ∷ es, none)
    ]
    else (e ∷ es', error)

unfoldable pub set_backend_state : String → String → BackendPool → BackendPool × Option AdminError
unfolding set_state_at
set_backend_state address action p =
    let (es, error) = set_state_at address action p.backends in (record p { backends = es }, error)

pub record BackendStatus ⦃F : Float⦄ : Type 0 where
  pub address : String
  pub weight : ℕ
  pub healthy : Bool
  pub available : Bool
  pub disabled : Bool
  pub draining : Bool
  pub breaker_state : BreakerState
  pub consecutive_err : ℕ
  pub requests : ℕ
  pub errors : ℕ
  pub active_requests : ℤ
  pub avg_latency_ms : F.Num
  pub last_status : ℕ

unfoldable pub status_of : ⦃F : Float⦄ → List BackendStats → ℕ → BackendEntry → BackendStatus
status_of heap now e = record {
  address = e.address;
  weight = e.weight;
  healthy = e.healthy;
  available = backend_available now e;
  disabled = e.disabled;
  draining = e.draining;
  breaker_state = current_breaker_state now e;
  consecutive_err = e.consecutive_err;
  requests = s.requests;
  errors = s.errors;
  active_requests = s.active_requests;
  avg_latency_ms = avg_latency_ms s;
  last_status = s.last_status;
}
  where
    s : BackendStats
    s = load heap e.stats

unfoldable pub status : ⦃F : Float⦄ → ℕ → BackendPool → List BackendStatus
unfolding status_of
status now p = map (status_of p.heap now) p.backends

unfoldable pub count_healthy : List BackendEntry → ℕ
count_healthy [] = 0
count_healthy (e ∷ es) = if e.healthy then suc (count_healthy es) else count_healthy es

unfoldable pub healthy_count : BackendPool → ℕ
unfolding count_healthy
healthy_count p = count_healthy p.backends

-- `close` of the stop channel happens once; a second call changes nothing.
unfoldable pub close : BackendPool → BackendPool
close p = record p { stopped = true }

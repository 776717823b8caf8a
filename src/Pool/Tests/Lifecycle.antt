-- ===== src/Pool/Tests/Lifecycle.antt =====
-- The theorems about requests, the breaker, reloads and administration at small pools.
use edge_proxy_go.Base.{
  max, ℕ, zero, suc, ◌+◌, ◌≤◌, ◌<◌, ◌≡◌, refl, ◌≢◌, ◌↔◌, true, false, List, [], ◌∷◌, none, some,
  String, arith, All, get_elem?, length, pos, ◌==ₛ◌, modify, map,
}
use edge_proxy_go.Samples.{thousandths}
use edge_proxy_go.Pool.Entry.{BackendEntry, BackendPool, closed, opened, breaker_cooldown, load}
use edge_proxy_go.Pool.Select.{mark_probe, visit}
use edge_proxy_go.Pool.Select.Eligible.{IsEligible}
use edge_proxy_go.Pool.Select.Sound.{Chosen, visited}
use edge_proxy_go.Pool.Requests.{Token, find, start_request, settle}
use edge_proxy_go.Pool.Requests.Breaker.{fail_all, fail_all-opened_iff, tripped-IsEligible_iff}
use edge_proxy_go.Pool.Requests.Accounting.{Traffic, idle, starts, sharing, active, Traffic-active}
use edge_proxy_go.Pool.Admin.{reconfigure, find_existing}
use edge_proxy_go.Pool.Select.{next_for}
use edge_proxy_go.Pool.Requests.Probe.{Pending, pending, Chosen-probe_exclusive}
use edge_proxy_go.Pool.Admin.Kept.{IsRenewed, reconfigure-entries}
use edge_proxy_go.Pool.Admin.Stranding.{Ending, finish_all, reconfigure_strands_active}
use edge_proxy_go.Pool.Invariant.{IsValid}
use edge_proxy_go.Config.Types.{RouteConfig, Config, default_config}
use edge_proxy_go.Pool.Startup.{start_of, new_backend_pool_from_config}
use edge_proxy_go.Pool.Startup.Weights.{weight_in, IsHeld, start-weights}
use edge_proxy_go.Pool.Steps.{Step, Reach, Reach-IsValid}
use edge_proxy_go.Pool.Tests.{
  backend, two_to_one, two_to_one-IsValid, cooled, recovering, cooled-IsEligible,
}

abbrev api_1 : BackendEntry
api_1 = backend "api-1:8000" 2 0

abbrev three_times : List ℕ
three_times = 1 ∷ 2 ∷ 3 ∷ []

fail_all-opened_iff_example :
    ((fail_all three_times api_1).breaker_state ≡ opened) ↔ (3 ≤ length three_times)
fail_all-opened_iff_example = fail_all-opened_iff three_times api_1 refl refl

abbrev failed_twice : BackendEntry
failed_twice = record api_1 { consecutive_err = 2 }

tripped-IsEligible_iff_example :
    IsEligible 20 none (settle 10 true failed_twice) ↔ (10 + breaker_cooldown ≤ 20)
tripped-IsEligible_iff_example =
    tripped-IsEligible_iff 10 20 none failed_twice (omega arith) refl refl refl refl

-- What `nextFor` leaves of `recovering`, and its account of the choice.
abbrev probing : BackendPool
probing = record recovering {
  backends = modify 0 mark_probe (map (visited 100 none) recovering.backends);
}

probe : Chosen 100 none recovering probing "api-1:8000"
unfolding visited visit
probe = record {
  index = 0;
  entry = cooled;
  stands = refl;
  eligible = cooled-IsEligible;
  named = refl;
  after = refl;
  marked = refl;
  same_heap = refl;
}

probe_open : probe.entry.breaker_state ≢ closed
unfolding probe
probe_open h = cc h

abbrev later : BackendPool
later = (start_request "api-2:8000" (next_for 101 none probing).0).0

waiting : Pending "api-1:8000" probing later
waiting = Pending.starts "api-2:8000" (Pending.selects 101 none pending)

Chosen-probe_exclusive_example :
    (e : BackendEntry) × (get_elem? later.backends probe.index ≡ some e)
    × (e.address ≡ "api-1:8000")
    × (¬ IsEligible 102 none e)
Chosen-probe_exclusive_example = Chosen-probe_exclusive probe probe_open waiting 102 none

found : find "api-1:8000" two_to_one.backends ≡ some api_1
unfolding find ◌==ₛ◌
found = refl

-- One request is in flight.
abbrev busy : BackendPool
busy = (start_request "api-1:8000" two_to_one).0

abbrev flying : List Token
flying = record { address = "api-1:8000"; stats = 0 } ∷ []

pub no_active : (r : ℕ) → (load two_to_one.heap r).active_requests ≡ pos 0
no_active zero = refl
no_active (suc zero) = refl
no_active (suc (suc r)) = refl

busy-Traffic : Traffic busy flying
unfolding start_request find ◌==ₛ◌
busy-Traffic = starts "api-1:8000" (idle two_to_one no_active)

Traffic-active_example : active busy 0 ≡ pos (sharing 0 flying)
unfolding start_request find ◌==ₛ◌
Traffic-active_example = Traffic-active busy-Traffic 0 (omega arith)

busy-IsValid : IsValid busy
busy-IsValid = Reach-IsValid (Reach.after Reach.here (Step.starts "api-1:8000")) two_to_one-IsValid

abbrev reloaded : List String
reloaded = "api-3:8000" ∷ "api-1:8000" ∷ []

reconfigure-entries_example :
    let q = reconfigure reloaded busy in
    (length q.backends ≡ length reloaded)
    × ((i : ℕ) (a : String)
        → get_elem? reloaded i ≡ some a
        → (e' : BackendEntry) × (get_elem? q.backends i ≡ some e')
          × (e'.stats ≡ length busy.heap + i)
          × IsRenewed busy a e' (load q.heap e'.stats))
    × ((r : ℕ) → r < length busy.heap → load q.heap r ≡ load busy.heap r)
reconfigure-entries_example = reconfigure-entries reloaded busy busy-IsValid

found_existing : find_existing "api-1:8000" busy.backends ≡ some api_1
unfolding find_existing start_request find ◌==ₛ◌
found_existing = refl

abbrev ends : List Ending
ends =
    record {
      token = record { address = "api-1:8000"; stats = 0 };
      now = 300;
      status_code = 200;
      latency = 5;
      err = false;
    }
    ∷ []

ends_before : All (λ (x : Ending). x.token.stats < length busy.heap) ends
unfolding start_request find ◌==ₛ◌
ends_before = (omega arith, tt)

reconfigure_strands_active_example :
    let q = reconfigure reloaded busy in
    (e' : BackendEntry) × (get_elem? q.backends 1 ≡ some e')
    × (e'.address ≡ "api-1:8000")
    × ((load (finish_all ends q).heap e'.stats).active_requests ≡ pos (sharing 0 flying))
reconfigure_strands_active_example =
    reconfigure_strands_active reloaded 1 "api-1:8000" api_1 ends busy-IsValid busy-Traffic
      found_existing refl ends_before

-- A configuration whose route gives one of its backends a weight of 3.
abbrev weighted_config : Config
weighted_config = record default_config {
  backends = "api-1:8000" ∷ [];
  routes =
      record {
        path = "/api";
        backends =
            record { address = "api-1:8000"; weight = pos 3 }
            ∷ record { address = "api-2:8000"; weight = pos 1 }
            ∷ [];
        health_path = "/ok";
        timeout_ms = pos 0;
        retries = pos 1;
      }
      ∷ [];
}

start-weights_example :
    All
      (λ (e : BackendEntry). e.weight ≡ max 1 (weight_in (start_of weighted_config) e.address))
      (new_backend_pool_from_config weighted_config).backends
    × All
        (λ (r : RouteConfig). All (IsHeld (start_of weighted_config)) r.backends)
        weighted_config.routes
start-weights_example = start-weights weighted_config

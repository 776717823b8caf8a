-- ===== src/Pool/Startup.antt =====
-- health.go: `newBackendPool` and `newBackendPoolFromConfig`, and main.go: `durationMs`.
pub mod Weights
use edge_proxy_go.Base.{
  ℕ, zero, suc, ◌*◌, ◌+◌, ◌≤◌, ◌<◌, max, ◌≡◌, refl, ap, ℤ, pos, pos_part, ltb, leb_ℤ, not, Bool,
  true, false, List, [], ◌∷◌, ◌++◌, map, String, Float, arith, length, replicate, All, ◌==ₛ◌,
  if◌then◌else◌,
}
use edge_proxy_go.Config.Types.{BackendConfig, RouteConfig, Config}
use edge_proxy_go.Pool.Entry.{
  BackendEntry, BackendPool, closed, zero_stats, millisecond, new_backend_transport,
  new_backend_transport_with_timeout,
}
use edge_proxy_go.Pool.Invariant.{IsBreakerOk, Ascending, refs, IsValid}
use edge_proxy_go.Pool.Steps.{Reach, Reach-IsValid}

-- The entry for an address, with its statistics at `stats`.
unfoldable pub new_entry : String → ℕ → BackendEntry
new_entry address stats = record {
  address = address;
  weight = 1;
  health_path = "";
  healthy = true;
  transport = new_backend_transport;
  stats = stats;
  breaker_state = closed;
  breaker_opened_until = 0;
  consecutive_err = 0;
  half_open_in_flight = false;
  disabled = false;
  draining = false;
}

unfoldable pub new_entries : ℕ → List String → List BackendEntry
new_entries r [] = []
new_entries r (a ∷ as') = new_entry a r ∷ new_entries (suc r) as'

unfoldable pub new_backend_pool : List String → BackendPool
new_backend_pool addresses = record {
  backends = new_entries 0 addresses;
  current = 0;
  stopped = false;
  heap = replicate (length addresses) zero_stats;
}

-- The three variables of the loops of `newBackendPoolFromConfig`; a map is an association list.
pub record Start : Type 0 where
  pub addresses : List String
  pub weights : List (String × ℤ)
  pub health_paths : List (String × String)

-- `m[key]`, with the zero value for a key that is missing. The latest entry of a key stands first.
unfoldable pub value_at {ℓ} : {A : Type ℓ} → A → String → List (String × A) → A
value_at default key [] = default
value_at default key ((k, v) ∷ m) = if k ==ₛ key then v else value_at default key m

unfoldable pub has_key {ℓ} : {A : Type ℓ} → String → List (String × A) → Bool
has_key key [] = false
has_key key ((k, v) ∷ m) = if k ==ₛ key then true else has_key key m

-- The body of the inner loop.
unfoldable pub add_backend : String → BackendConfig → Start → Start
add_backend health_path b s =
    let weight = value_at (pos 0) b.address s.weights in
    record {
      addresses =
          if has_key b.address s.weights then s.addresses else s.addresses ++ b.address ∷ [];
      weights = if leb_ℤ b.weight weight then s.weights else (b.address, b.weight) ∷ s.weights;
      health_paths =
          if health_path ==ₛ "" then s.health_paths else (b.address, health_path) ∷ s.health_paths;
    }

unfoldable pub add_backends : String → List BackendConfig → Start → Start
add_backends health_path [] s = s
add_backends health_path (b ∷ bs) s = add_backends health_path bs (add_backend health_path b s)

unfoldable pub add_routes_from : List RouteConfig → Start → Start
add_routes_from [] s = s
add_routes_from (r ∷ rs) s = add_routes_from rs (add_backends r.health_path r.backends s)

-- The variables after the loops.
unfoldable pub start_of : ⦃F : Float⦄ → Config → Start
start_of cfg = add_routes_from cfg.routes record {
  addresses = cfg.backends;
  weights = map (λ a. (a, pos 1)) cfg.backends;
  health_paths = [];
}

-- `durationMs`, in nanoseconds.
unfoldable pub duration_ms : ℤ → ℕ
duration_ms value = pos_part value * millisecond

-- The last loop, at one entry.
unfoldable pub configure : ℕ → ℕ → Start → BackendEntry → BackendEntry
configure connect header s e = record e {
  weight = max 1 (pos_part (value_at (pos 0) e.address s.weights));
  transport = new_backend_transport_with_timeout connect header;
  health_path = value_at "" e.address s.health_paths;
}

unfoldable pub new_backend_pool_from_config : ⦃F : Float⦄ → Config → BackendPool
new_backend_pool_from_config cfg =
    let s = start_of cfg in
    let connect = duration_ms cfg.proxy.connect_timeout_ms in
    let header = duration_ms cfg.proxy.response_header_ms in
    let p = new_backend_pool s.addresses in
    record p { backends = map (configure connect header s) p.backends }

length-replicate_zero : (n : ℕ) → length (replicate n zero_stats) ≡ n
length-replicate_zero zero = refl
length-replicate_zero (suc n) = ap suc (length-replicate_zero n)

module _ (connect header : ℕ) (s : Start) where
  configured-IsBreakerOk :
      (r : ℕ) (as' : List String)
      → All IsBreakerOk (map (configure connect header s) (new_entries r as'))
  unfolding new_entries new_entry configure
  configured-IsBreakerOk r [] = tt
  configured-IsBreakerOk r (a ∷ as') =
      (record { counted = omega arith; probing = λ h. cc h }, configured-IsBreakerOk (suc r) as')

  configured-Ascending :
      (r hi : ℕ) (as' : List String)
      → hi ≡ r + length as'
      → Ascending r (refs (map (configure connect header s) (new_entries r as'))) hi
  unfolding new_entries new_entry configure
  configured-Ascending r hi [] e = omega (arith, e)
  configured-Ascending r hi (a ∷ as') e =
      (omega arith, configured-Ascending (suc r) hi as' (omega (arith, e)))

module _ ⦃F : Float⦄ (cfg : Config) where
  start-IsValid : IsValid (new_backend_pool_from_config cfg)
  unfolding new_backend_pool_from_config new_backend_pool
  start-IsValid =
      let s = start_of cfg in
      record {
        breakers = configured-IsBreakerOk _ _ s 0 s.addresses;
        owned =
            configured-Ascending _ _ s 0 (length (replicate (length s.addresses) zero_stats))
              s.addresses (omega (arith, length-replicate_zero (length s.addresses)));
      }

  -- Every pool that the proxy reaches from the one it starts with, by any sequence of operations, is
  -- valid, whatever its configuration is.
  pub started-IsValid : {q : BackendPool} → Reach (new_backend_pool_from_config cfg) q → IsValid q
  started-IsValid reach = Reach-IsValid reach start-IsValid

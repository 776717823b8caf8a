-- ===== src/Pool/Health/Round.antt =====
-- health.go: what a round of `startHealthChecker` makes of the pool.
use edge_proxy_go.Base.{
  ℕ, ◌+◌, ◌*◌, ◌≡◌, refl, ap, ◌∙◌, Bool, true, false, List, [], ◌∷◌, map, Option, String, arith,
  All, ltb, ◌==ₛ◌, ==ₛ_refl, ==ₛ_sym, if◌then◌else◌,
}
use edge_proxy_go.Pool.Entry.{BackendEntry, BackendPool, second, contains, IsDistinct}
use edge_proxy_go.Pool.Health.{
  probe_http_backend, apply_probe, apply_check, check_of, run_checks, health_tick,
}

-- The address is that of none of the entries.
abbrev pub IsNew : String → List BackendEntry → Type 0
IsNew address = All λ e. (e.address ==ₛ address) ≡ false

-- No two entries have the same address.
abbrev pub HasDistinct : List BackendEntry → Type 0
HasDistinct [] = Unit
HasDistinct (e ∷ es) = IsNew e.address es × HasDistinct es

IsNew-of_contains :
    (a : String) (es : List BackendEntry)
    → contains a (map (λ (e : BackendEntry). e.address) es) ≡ false
    → IsNew a es
IsNew-of_contains a [] h = tt
IsNew-of_contains a (e ∷ es) h = (ground arith, IsNew-of_contains a es (ground arith))

-- Entries whose addresses are distinct.
pub HasDistinct-of_IsDistinct :
    (es : List BackendEntry)
    → IsDistinct (map (λ (e : BackendEntry). e.address) es)
    → HasDistinct es
HasDistinct-of_IsDistinct [] h = tt
HasDistinct-of_IsDistinct (e ∷ es) (new, h) =
    (IsNew-of_contains e.address es new, HasDistinct-of_IsDistinct es h)

-- An entry with the result of its own probe, which goes to its health path, or to the configured one.
abbrev pub probed : (String → String → Option ℕ) → String → BackendEntry → BackendEntry
probed get path e =
    let ok =
      probe_http_backend (get e.address (if e.health_path ==ₛ "" then path else e.health_path)) in
    if ok
    then record e { healthy = true }
    else record e { healthy = false; half_open_in_flight = false }

module _ (get : String → String → Option ℕ) (path : String) where
  abbrev probe_all : List (String × String) → BackendEntry → BackendEntry
  probe_all [] e = e
  probe_all ((address, at) ∷ checks) e =
      probe_all checks (apply_probe address (probe_http_backend (get address at)) e)

  map-map :
      (f g : BackendEntry → BackendEntry) (es : List BackendEntry)
      → map f (map g es) ≡ map (λ e. f (g e)) es
  map-map f g [] = refl
  map-map f g (e ∷ es) = ap (λ l. f (g e) ∷ l) (map-map f g es)

  map-id : (es : List BackendEntry) → es ≡ map (λ e. e) es
  map-id [] = refl
  map-id (e ∷ es) = ap (λ l. e ∷ l) (map-id es)

  -- A round treats each entry by itself.
  run_checks-map :
      (checks : List (String × String)) (p : BackendPool)
      → run_checks get checks p ≡ record p { backends = map (probe_all checks) p.backends }
  unfolding run_checks apply_check
  run_checks-map [] p = ap (λ es. record p { backends = es }) (map-id p.backends)
  run_checks-map ((address, at) ∷ checks) p =
      run_checks-map checks (apply_check address (probe_http_backend (get address at)) p)
      ∙ ap (λ es. record p { backends = es }) (map-map (probe_all checks) _ p.backends)

  probe-other :
      (address : String) (ok : Bool) (e : BackendEntry)
      → (e.address ==ₛ address) ≡ false
      → apply_probe address ok e ≡ e
  unfolding apply_probe
  probe-other address ok e h = rw h refl

  -- The probes of other addresses leave an entry alone.
  probe_all-other :
      (es : List BackendEntry) (e : BackendEntry)
      → IsNew e.address es
      → probe_all (map (check_of path) es) e ≡ e
  unfolding check_of
  probe_all-other [] e h = refl
  probe_all-other (f ∷ es) e (ne, h) =
      ap (probe_all (map (check_of path) es))
        (probe-other f.address _ e (==ₛ_sym e.address f.address ∙ ne))
      ∙ probe_all-other es e h

  probe_self :
      (e : BackendEntry)
      → apply_probe e.address
          (probe_http_backend
            (get e.address (if e.health_path ==ₛ "" then path else e.health_path)))
          e
        ≡ probed get path e
  unfolding apply_probe
  probe_self e = rw (==ₛ_refl e.address) refl

  address-probed : (e : BackendEntry) → (probed get path e).address ≡ e.address
  address-probed e = ground arith

  All-after :
      (e : BackendEntry) (checks : List (String × String)) (es : List BackendEntry)
      → IsNew e.address es
      → All (λ f. probe_all checks f ≡ probed get path f) es
      → All (λ f. probe_all (check_of path e ∷ checks) f ≡ probed get path f) es
  unfolding check_of
  All-after e checks [] h k = tt
  All-after e checks (f ∷ es) (ne, h) (same, k) =
      (ap (probe_all checks) (probe-other e.address _ f ne) ∙ same, All-after e checks es h k)

  probe_all-probed :
      (es : List BackendEntry)
      → HasDistinct es
      → All (λ e. probe_all (map (check_of path) es) e ≡ probed get path e) es
  unfolding check_of
  probe_all-probed [] h = tt
  probe_all-probed (e ∷ es) (new, h) = (
    ap (probe_all (map (check_of path) es)) (probe_self e)
        ∙ probe_all-other es (probed get path e) (rw (address-probed e) new),
    All-after e (map (check_of path) es) es new (probe_all-probed es h),
  )

  map-All :
      (f g : BackendEntry → BackendEntry) (es : List BackendEntry)
      → All (λ e. f e ≡ g e) es
      → map f es ≡ map g es
  map-All f g [] h = refl
  map-All f g (e ∷ es) (same, h) = λ i. same i ∷ map-All f g es h i

  -- A tick that is due gives each backend the health that its own probe finds, at its health path or
  -- else at the configured one, and a backend that is down no probe of its breaker in flight; all
  -- else of the pool stays as it is, and the next round is due after the interval. No two backends
  -- share an address. A tick that is not due, or with the checks turned off, changes nothing.
  pub health_tick-probes :
      (enabled : Bool) (interval now later next_run : ℕ) (p : BackendPool)
      → HasDistinct p.backends
      → health_tick enabled interval path now later get next_run p ≡ (
          if enabled
          then (if ltb now next_run then (p, next_run) else (
            record p { backends = map (probed get path) p.backends },
            later + interval * second,
          ))
          else (p, next_run))
  unfolding health_tick
  health_tick-probes enabled interval now later next_run p h =
      rw
        (
          run_checks-map (map (check_of path) p.backends) p,
          map-All (probe_all (map (check_of path) p.backends)) (probed get path) p.backends
              (probe_all-probed p.backends h),
        )
        refl

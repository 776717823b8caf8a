-- ===== src/Pool/Startup/Weights.antt =====
-- health.go: the weights that `newBackendPoolFromConfig` gives.
use edge_proxy_go.Base.{
  ℕ, suc, map, ◌≤◌, ◌≡◌, refl, sym, ℤ, pos, pos_part, leb_ℤ, true, false, List, [], ◌∷◌, String,
  Float, arith, max, All, All-imp, ◌==ₛ◌, ==ₛ_refl, eq_of_==ₛ, Bool-cases, inl, inr,
}
use edge_proxy_go.Config.Types.{BackendConfig, RouteConfig, Config}
use edge_proxy_go.Pool.Entry.{BackendEntry}
use edge_proxy_go.Pool.Startup.{
  configure, new_entries, new_entry, new_backend_pool, new_backend_pool_from_config, Start,
  value_at, add_backend, add_backends, add_routes_from, start_of,
}

-- The positive part of the weight under an address.
abbrev pub weight_in : Start → String → ℕ
weight_in s a = pos_part (value_at (pos 0) a s.weights)

leb_ℤ-pos_part : (x y : ℤ) → leb_ℤ x y ≡ true → pos_part x ≤ pos_part y
leb_ℤ-pos_part x y h = ground arith

leb_ℤ-pos_part-false : (x y : ℤ) → leb_ℤ x y ≡ false → pos_part y ≤ pos_part x
leb_ℤ-pos_part-false x y h = ground arith

module _ (health_path : String) (b : BackendConfig) (s : Start) where
  weight_in-add_backend_own : pos_part b.weight ≤ weight_in (add_backend health_path b s) b.address
  unfolding add_backend value_at
  weight_in-add_backend_own =
      elim (Bool-cases (leb_ℤ b.weight (value_at (pos 0) b.address s.weights))) [
        | inl e ↦ rw e (leb_ℤ-pos_part b.weight (value_at (pos 0) b.address s.weights) e)
        | inr e ↦ rw (e, ==ₛ_refl b.address) (omega arith)
      ]

  weight_in-add_backend : (a : String) → weight_in s a ≤ weight_in (add_backend health_path b s) a
  unfolding add_backend value_at
  weight_in-add_backend a =
      elim (Bool-cases (leb_ℤ b.weight (value_at (pos 0) b.address s.weights))) [
        | inl e ↦ rw e (omega arith)
        | inr e ↦ elim (Bool-cases (b.address ==ₛ a)) [
          | inl same ↦
              rw (e, same, sym (eq_of_==ₛ b.address a same))
                (leb_ℤ-pos_part-false b.weight (value_at (pos 0) b.address s.weights) e)
          | inr other ↦ rw (e, other) (omega arith)
        ]
      ]

-- The weight of a backend is at most the one under its address.
abbrev pub IsHeld : Start → BackendConfig → Type 0
IsHeld s b = pos_part b.weight ≤ weight_in s b.address

weight_in-add_backends :
    (health_path : String) (bs : List BackendConfig) (s : Start) (a : String)
    → weight_in s a ≤ weight_in (add_backends health_path bs s) a
unfolding add_backends
weight_in-add_backends health_path [] s a = omega arith
weight_in-add_backends health_path (b ∷ bs) s a = omega (
  arith,
  weight_in-add_backend health_path b s a,
  weight_in-add_backends health_path bs (add_backend health_path b s) a,
)

add_backends-IsHeld :
    (health_path : String) (bs : List BackendConfig) (s : Start)
    → All (IsHeld (add_backends health_path bs s)) bs
unfolding add_backends
add_backends-IsHeld health_path [] s = tt
add_backends-IsHeld health_path (b ∷ bs) s = (
  omega (
    arith,
    weight_in-add_backend_own health_path b s,
    weight_in-add_backends health_path bs (add_backend health_path b s) b.address,
  ),
  add_backends-IsHeld health_path bs (add_backend health_path b s),
)

weight_in-add_routes_from :
    (rs : List RouteConfig) (s : Start) (a : String)
    → weight_in s a ≤ weight_in (add_routes_from rs s) a
unfolding add_routes_from
weight_in-add_routes_from [] s a = omega arith
weight_in-add_routes_from (r ∷ rs) s a = omega (
  arith,
  weight_in-add_backends r.health_path r.backends s a,
  weight_in-add_routes_from rs (add_backends r.health_path r.backends s) a,
)

add_routes_from-IsHeld :
    (rs : List RouteConfig) (s : Start)
    → All (λ r. All (IsHeld (add_routes_from rs s)) r.backends) rs
unfolding add_routes_from
add_routes_from-IsHeld [] s = tt
add_routes_from-IsHeld (r ∷ rs) s =
    let t = add_backends r.health_path r.backends s in
    (
      All-imp (IsHeld t) _ r.backends
          (λ b h. omega (arith, h, weight_in-add_routes_from rs t b.address))
          (add_backends-IsHeld r.health_path r.backends s),
      add_routes_from-IsHeld rs t,
    )

configured_weight :
    (connect header : ℕ) (s : Start) (r : ℕ) (as' : List String)
    → All
        (λ (e : BackendEntry). e.weight ≡ max 1 (weight_in s e.address))
        (map (configure connect header s) (new_entries r as'))
unfolding new_entries new_entry configure
configured_weight connect header s r [] = tt
configured_weight connect header s r (a ∷ as') =
    (refl, configured_weight connect header s (suc r) as')

routes-IsHeld :
    ⦃F : Float⦄ (cfg : Config) → All (λ r. All (IsHeld (start_of cfg)) r.backends) cfg.routes
unfolding start_of
routes-IsHeld cfg = add_routes_from-IsHeld cfg.routes _

-- Each backend of the pool that the proxy starts with has the weight under its address, or 1, and
-- the weight under an address is at least the weight of any route's backend with that address.
pub start-weights :
    ⦃F : Float⦄ (cfg : Config)
    → All
        (λ (e : BackendEntry). e.weight ≡ max 1 (weight_in (start_of cfg) e.address))
        (new_backend_pool_from_config cfg).backends
      × All (λ r. All (IsHeld (start_of cfg)) r.backends) cfg.routes
unfolding new_backend_pool_from_config new_backend_pool
start-weights cfg =
    (configured_weight _ _ (start_of cfg) 0 (start_of cfg).addresses, routes-IsHeld cfg)

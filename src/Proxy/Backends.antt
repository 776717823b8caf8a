-- ===== src/Proxy/Backends.antt =====
-- main.go: `backendAddresses`, the pool's addresses after a reload. The map `seen` holds the texts of
-- `out`.
use edge_proxy_go.Base.{
  ◌≡◌, refl, inl, inr, Bool, true, false, ◌||◌, List, [], ◌∷◌, ◌++◌, map, arith, String, Float,
  ◌==ₛ◌, eq_of_==ₛ, ==ₛ_sym, sym, if◌then◌else◌, Bool-cases,
}
use edge_proxy_go.Config.Types.{BackendConfig, RouteConfig, Config}
use edge_proxy_go.Pool.Entry.{contains, IsDistinct}

unfoldable pub add_address : List String → String → List String
add_address out a = if contains a out then out else out ++ a ∷ []

-- The first loop, and the inner one.
unfoldable pub add_addresses : List String → List String → List String
add_addresses out [] = out
add_addresses out (a ∷ as') = add_addresses (add_address out a) as'

abbrev pub route_addresses : RouteConfig → List String
route_addresses route = map (λ (b : BackendConfig). b.address) route.backends

unfoldable pub add_routes : List String → List RouteConfig → List String
add_routes out [] = out
add_routes out (r ∷ rs) = add_routes (add_addresses out (route_addresses r)) rs

unfoldable pub backend_addresses : ⦃F : Float⦄ → Config → List String
backend_addresses c = add_routes (add_addresses [] c.backends) c.routes

abbrev pub any_route : String → List RouteConfig → Bool
any_route a [] = false
any_route a (r ∷ rs) = contains a (route_addresses r) || any_route a rs

contains-append :
    (a : String) (xs ys : List String) → contains a (xs ++ ys) ≡ (contains a xs || contains a ys)
contains-append a [] ys = refl
contains-append a (x ∷ xs) ys = ground (arith, contains-append a xs ys)

IsDistinct-snoc :
    (xs : List String) (a : String)
    → IsDistinct xs
    → contains a xs ≡ false
    → IsDistinct (xs ++ a ∷ [])
IsDistinct-snoc [] a d n = (refl, tt)
IsDistinct-snoc (x ∷ xs) a d n = (
  ground (arith, contains-append x xs (a ∷ []), ==ₛ_sym x a),
  IsDistinct-snoc xs a d.1 (ground arith),
)

add_address-IsDistinct :
    (out : List String) (a : String) → IsDistinct out → IsDistinct (add_address out a)
unfolding add_address
add_address-IsDistinct out a d = elim (Bool-cases (contains a out)) [
  | inl e ↦ rw e d
  | inr e ↦ rw e (IsDistinct-snoc out a d e)
]

already :
    (b : String) (out : List String) (a : String)
    → contains a out ≡ true
    → contains b out ≡ (contains b out || (a ==ₛ b))
already b out a e = elim (Bool-cases (a ==ₛ b)) [
  | inl h ↦ rw (sym (eq_of_==ₛ a b h), e) refl
  | inr h ↦ rw h (ground arith)
]

contains-add_address :
    (b : String) (out : List String) (a : String)
    → contains b (add_address out a) ≡ (contains b out || (a ==ₛ b))
unfolding add_address
contains-add_address b out a = elim (Bool-cases (contains a out)) [
  | inl e ↦ rw e (already b out a e)
  | inr e ↦ rw (e, contains-append b out (a ∷ [])) (ground arith)
]

add_addresses-IsDistinct :
    (out as' : List String) → IsDistinct out → IsDistinct (add_addresses out as')
unfolding add_addresses
add_addresses-IsDistinct out [] d = d
add_addresses-IsDistinct out (a ∷ as') d =
    add_addresses-IsDistinct (add_address out a) as' (add_address-IsDistinct out a d)

contains-add_addresses :
    (b : String) (out as' : List String)
    → contains b (add_addresses out as') ≡ (contains b out || contains b as')
unfolding add_addresses
contains-add_addresses b out [] = ground arith
contains-add_addresses b out (a ∷ as') =
    ground (arith, contains-add_addresses b (add_address out a) as', contains-add_address b out a)

add_routes-IsDistinct :
    (out : List String) (rs : List RouteConfig) → IsDistinct out → IsDistinct (add_routes out rs)
unfolding add_routes
add_routes-IsDistinct out [] d = d
add_routes-IsDistinct out (r ∷ rs) d =
    add_routes-IsDistinct (add_addresses out (route_addresses r)) rs
      (add_addresses-IsDistinct out (route_addresses r) d)

contains-add_routes :
    (b : String) (out : List String) (rs : List RouteConfig)
    → contains b (add_routes out rs) ≡ (contains b out || any_route b rs)
unfolding add_routes
contains-add_routes b out [] = ground arith
contains-add_routes b out (r ∷ rs) = ground (
  arith,
  contains-add_routes b (add_addresses out (route_addresses r)) rs,
  contains-add_addresses b out (route_addresses r),
)

module _ ⦃F : Float⦄ (c : Config) where
  -- The addresses of a configuration are distinct, and they are those of its backends and of its
  -- routes.
  pub backend_addresses-IsDistinct :
      IsDistinct (backend_addresses c)
      × ((a : String)
          → contains a (backend_addresses c) ≡ (contains a c.backends || any_route a c.routes))
  unfolding backend_addresses
  backend_addresses-IsDistinct = (
    add_routes-IsDistinct (add_addresses [] c.backends) c.routes
        (add_addresses-IsDistinct [] c.backends tt),
    λ a. ground (
      arith,
      contains-add_routes a (add_addresses [] c.backends) c.routes,
      contains-add_addresses a [] c.backends,
    ),
  )

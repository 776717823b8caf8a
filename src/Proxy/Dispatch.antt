-- ===== src/Proxy/Dispatch.antt =====
-- main.go: `proxyHandler` asks the pool for a backend of the matched route.
use edge_proxy_go.Base.{ℕ, ◌≡◌, ◌≢◌, ap, ◌∙◌, sym, true, some, List, String, Float}
use edge_proxy_go.Config.Types.{RouteConfig}
use edge_proxy_go.Pool.Entry.{BackendPool, contains, is_allowed}
use edge_proxy_go.Pool.Select.{next_for}
use edge_proxy_go.Pool.Select.Sound.{next_for-Chosen}
use edge_proxy_go.Proxy.Routing.{match_route, route_backend_set}
use edge_proxy_go.Proxy.Backends.{route_addresses}

-- `pool.nextFor(routeBackendSet(matchRoute(path, routes)))` at `now`.
unfoldable pub choose_backend :
    ⦃F : Float⦄ → ℕ → String → List RouteConfig → BackendPool → BackendPool × String
choose_backend ⦃F⦄ now path routes p = next_for now (route_backend_set (match_route path routes)) p

module _ ⦃F : Float⦄ (now : ℕ) (path : String) (routes : List RouteConfig) (p : BackendPool) where
  -- If a route matches the path and the pool gives a backend, then it is a backend of that route.
  pub choose_backend-route :
      (m : RouteConfig)
      → match_route path routes ≡ some m
      → (choose_backend now path routes p).1 ≢ ""
      → contains (choose_backend now path routes p).1 (route_addresses m) ≡ true
  unfolding choose_backend route_backend_set
  choose_backend-route m e h =
      let set = route_backend_set (match_route path routes) in
      let c = next_for-Chosen now set p h in
      rw (sym c.named) (
        sym (ap (λ s. is_allowed s c.entry.address) (ap route_backend_set e))
        ∙ c.eligible.permitted)

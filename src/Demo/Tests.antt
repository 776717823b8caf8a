-- ===== src/Demo/Tests.antt =====
-- The backend of the demo is healthy for the proxy, on its health path and on any other.
use edge_proxy_go.Base.{◌≡◌, refl, true, some, [], ◌∷◌, String, ◌==ₛ◌}
use edge_proxy_go.Pool.Health.{probe_http_backend}
use edge_proxy_go.Demo.{reply, main}

health_page : reply ":9000" "/health" ≡ (200, "ok")
unfolding reply ◌==ₛ◌
health_page = refl

demo_is_healthy : (port path : String) → probe_http_backend (some (reply port path).0) ≡ true
unfolding probe_http_backend reply
demo_is_healthy port path = refl

no_port : main (λ port. true) ("backend" ∷ []) ≡ 1
unfolding main
no_port = refl

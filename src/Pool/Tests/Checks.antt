-- ===== src/Pool/Tests/Checks.antt =====
-- A round of health checks, of which the second backend does not pass.
use edge_proxy_go.Base.{
  ℕ, ◌+◌, ◌*◌, ◌≡◌, refl, true, map, Option, none, some, String, ◌==ₛ◌, if◌then◌else◌,
}
use edge_proxy_go.Pool.Entry.{second}
use edge_proxy_go.Pool.Health.{health_tick}
use edge_proxy_go.Pool.Health.Round.{HasDistinct, probed, health_tick-probes}
use edge_proxy_go.Pool.Tests.{two_to_one}

abbrev get : String → String → Option ℕ
get address path = if address ==ₛ "api-1:8000" then some 200 else none

two_to_one-HasDistinct : HasDistinct two_to_one.backends
unfolding ◌==ₛ◌
two_to_one-HasDistinct = ((refl, tt), (tt, tt))

health_tick-probes_example : health_tick true 10 "/health" 7 8 get 5 two_to_one ≡ (
  record two_to_one { backends = map (probed get "/health") two_to_one.backends },
  8 + 10 * second,
)
health_tick-probes_example =
    health_tick-probes get "/health" true 10 7 8 5 two_to_one two_to_one-HasDistinct

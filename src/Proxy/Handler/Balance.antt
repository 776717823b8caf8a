-- ===== src/Proxy/Handler/Balance.antt =====
-- main.go: `proxyHandler` leaves no request of its own in flight on the pool.
use edge_proxy_go.Base.{
  ℕ, length, [], ◌∷◌, ◌<◌, ◌≡◌, Bool, true, false, Option, none, some, List, String, pos, Float,
  inl, inr,
}
use edge_proxy_go.Config.Types.{Config}
use edge_proxy_go.Pool.Entry.{BackendPool}
use edge_proxy_go.Pool.Requests.{Token}
use edge_proxy_go.Pool.Requests.Accounting.{Traffic, Traffic-active, sharing, active}
use edge_proxy_go.Pool.Invariant.{IsValid}
use edge_proxy_go.Pool.Steps.{Reach, Reach-IsValid}
use edge_proxy_go.Proxy.Routing.{match_route, route_backend_set}
use edge_proxy_go.Proxy.Forward.{Reply, answer, answer_of}
use edge_proxy_go.Proxy.Forward.Invariant.{IsLeft, forward-IsLeft}
use edge_proxy_go.Proxy.Upstream.{World, upstream}
use edge_proxy_go.Proxy.Upstream.Balance.{
  Open, Settled, upstream-Keeps, Settled-Open, closed_body-Settled,
}
use edge_proxy_go.Proxy.Handler.{
  Incoming, Services, Runtime, Served, relay, forward_request, forwarded, admitted, serve, handle,
}

module _ ⦃F : Float⦄ {N L : Type 0} (S : Services N L) (start : BackendPool) (ts : List Token) where
  abbrev Quiet : World N → Type 0
  Quiet = Settled S.network start ts

  abbrev Loud : World N → Type 0
  Loud = Open S.network start ts

  relay-Quiet :
      (c : Config) (policy : String) (code : ℕ) (b : String) (failed : Bool) (o : Option Reply)
      (w : World N)
      → IsLeft Quiet Loud o failed w
      → Quiet (relay S c policy w (answer_of code b failed o)).0
  unfolding relay
  relay-Quiet c policy code b failed none w h = h
  relay-Quiet c policy code b true (some r) w (inl h) = h.1
  relay-Quiet c policy code b true (some r) w (inr h) = cc (h.1)
  relay-Quiet c policy code b false (some r) w (inl h) =
      closed_body-Settled S.network start ts w (Settled-Open S.network start ts w h.1)
  relay-Quiet c policy code b false (some r) w (inr h) =
      closed_body-Settled S.network start ts w h.2

  forward_request-Quiet :
      (c : Config) (r : Incoming) (policy : String) (n : N) (p : BackendPool)
      → Reach start p
      → Traffic p ts
      → Quiet (forward_request S c r policy n p).0
  unfolding forward_request answer
  forward_request-Quiet c r policy n p re t =
      let allowed = route_backend_set (match_route r.path c.routes) in
      relay-Quiet c policy _ _ _ _ _ (
        forward-IsLeft (upstream S.network allowed) (upstream-Keeps S.network start ts allowed) _ _
          record { reached = re; traffic = t; finished = tt })

  abbrev IsQuiet : BackendPool → Type 0
  IsQuiet p = Reach start p × Traffic p ts

  forwarded-IsQuiet :
      (rt : Runtime N L) (r : Incoming) (v : (N × L) × String × Option Served)
      → IsQuiet rt.pool
      → IsQuiet (forwarded S rt r v).0.pool
  forwarded-IsQuiet rt r ((n, l), policy, some served) h = h
  forwarded-IsQuiet rt r ((n, l), policy, none) h =
      let q = forward_request-Quiet rt.config r policy n rt.pool h.0 h.1 in (q.reached, q.traffic)

  admitted-IsQuiet :
      (rt : Runtime N L) (r : Incoming) (user identifier : String) (o : Option ℕ)
      → IsQuiet rt.pool
      → IsQuiet (admitted S rt r user identifier o).0.pool
  admitted-IsQuiet rt r user identifier (some status) h = h
  admitted-IsQuiet rt r user identifier none h = forwarded-IsQuiet rt r _ h

  handle-IsQuiet :
      (rt : Runtime N L) (r : Incoming) → IsQuiet rt.pool → IsQuiet (handle S rt r).0.pool
  unfolding handle serve
  handle-IsQuiet rt r h = admitted-IsQuiet _ r _ _ _ h

module _ ⦃F : Float⦄ {N L : Type 0} (S : Services N L) where
  -- Requests that the handler serves one after the other.
  unfoldable pub handle_all : Runtime N L → List Incoming → Runtime N L
  handle_all rt [] = rt
  handle_all rt (r ∷ rs) = handle_all (handle S rt r).0 rs

  handle_all-IsQuiet :
      (start : BackendPool) (ts : List Token) (rt : Runtime N L) (rs : List Incoming)
      → Reach start rt.pool × Traffic rt.pool ts
      → Reach start (handle_all rt rs).pool × Traffic (handle_all rt rs).pool ts
  unfolding handle_all
  handle_all-IsQuiet start ts rt [] h = h
  handle_all-IsQuiet start ts rt (r ∷ rs) h =
      handle_all-IsQuiet start ts (handle S rt r).0 rs (handle-IsQuiet S start ts rt r h)

  -- However the backends answer, after the handler has served any requests the pool is valid if it
  -- was, and each backend has as many active requests as before: those of other handlers.
  pub handle_all-active :
      (rt : Runtime N L) (rs : List Incoming) (ts : List Token)
      → IsValid rt.pool
      → Traffic rt.pool ts
      → (i : ℕ) → i < length (handle_all rt rs).pool.heap
      → IsValid (handle_all rt rs).pool × (active (handle_all rt rs).pool i ≡ pos (sharing i ts))
  handle_all-active rt rs ts v t i l =
      let (reach, traffic) = handle_all-IsQuiet rt.pool ts rt rs (Reach.here, t) in
      (Reach-IsValid reach v, Traffic-active traffic i l)

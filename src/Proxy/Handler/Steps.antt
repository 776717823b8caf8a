-- ===== src/Proxy/Handler/Steps.antt =====
-- main.go: `proxyHandler` changes the pool by the pool's operations alone.
use edge_proxy_go.Base.{
  ℕ, inl, inr, Bool, true, false, Option, none, some, List, String, Float, Bool-cases, subst,
}
use mathlib.Core.Option.{some-injective}
use edge_proxy_go.Config.Types.{Config}
use edge_proxy_go.Pool.Entry.{BackendPool}
use edge_proxy_go.Pool.Requests.{Token, start_request}
use edge_proxy_go.Pool.Steps.{Reach}
use edge_proxy_go.Pool.Use.{Use, unused, selecting, starting, finishing, Use→Reach}
use edge_proxy_go.Proxy.Routing.{match_route, route_backend_set}
use edge_proxy_go.Proxy.Forward.{Reply, Answer, refused, relayed}
use edge_proxy_go.Proxy.Forward.Invariant.{Keeps, IsLeft, forward-IsLeft}
use edge_proxy_go.Proxy.Upstream.{
  Response, Network, TrackedBody, World, finish_since, received, round_trip_to_backend, finish_body,
  close_body, choose_for, upstream,
}
use edge_proxy_go.Proxy.Handler.{
  Incoming, Services, Runtime, Served, relay, forward_request, forwarded, admitted, serve, handle,
}

module _ ⦃F : Float⦄ {N : Type 0} (net : Network N) (start : BackendPool) where
  abbrev Used : World N → Type 0
  Used w = Use start w.pool

  finish_since-Used :
      (token : Option Token) (time status_code : ℕ) (err : Bool) (w : World N)
      → Used w
      → Used (finish_since net token time status_code err w)
  unfolding finish_since
  finish_since-Used token time status_code err w h = finishing _ token status_code _ err h

  received-Used :
      (token : Option Token) (time : ℕ) (w : World N) (o : Option Response)
      → Used w
      → Used (received net token time w o).0
  received-Used token time w none h = finish_since-Used token time 0 true w h
  received-Used token time w (some r) h = h

  finish_body-Used : (b : Option TrackedBody) (w : World N) → Used w → Used (finish_body net b w)
  finish_body-Used none w h = h
  finish_body-Used (some b) w h = elim (Bool-cases b.finished) [
    | inl f ↦ rw f h
    | inr f ↦ rw f (finish_since-Used b.token b.start b.response.status false w h)
  ]

  close_body-Used : (w : World N) → Used w → Used (close_body net w)
  unfolding close_body
  close_body-Used w h = finish_body-Used w.body w h

  round_trip-Used : (w : World N) (b : String) → Used w → Used (round_trip_to_backend net w b).0
  unfolding round_trip_to_backend
  round_trip-Used w b h =
      received-Used _ _ (record w { net = _; pool = (start_request b w.pool).0 }) _ (starting b h)

  upstream-Used : (allowed : Option (List String)) → Keeps (upstream net allowed) Used Used
  unfolding choose_for
  upstream-Used allowed = record {
    settled_open = λ w h. h;
    rewinds = λ w v h e. subst Used (some-injective w v e) h;
    chooses = λ w h. selecting _ allowed h;
    fails = λ w b h e. round_trip-Used w b h;
    answers = λ w b h. round_trip-Used w b h;
    closes = λ w h. close_body-Used w h;
  }

  left-Used :
      (o : Option Reply) (failed : Bool) (w : World N) → IsLeft Used Used o failed w → Used w
  left-Used none failed w h = h
  left-Used (some r) failed w (inl h) = h.1
  left-Used (some r) failed w (inr h) = h.2

module _ ⦃F : Float⦄ {N L : Type 0} (S : Services N L) where
  relay-Use :
      {p : BackendPool} (c : Config) (policy : String) (w : World N) (a : Answer)
      → Use p w.pool
      → Use p (relay S c policy w a).0.pool
  unfolding relay
  relay-Use c policy w (refused status) h = h
  relay-Use {p} c policy w (relayed backend reply) h = close_body-Used S.network p w h

  forwarded-Use :
      (rt : Runtime N L) (r : Incoming) (v : (N × L) × String × Option Served)
      → Use rt.pool (forwarded S rt r v).0.pool
  unfolding forward_request
  forwarded-Use rt r (nl, policy, some served) = unused
  forwarded-Use rt r ((n, l), policy, none) =
      let allowed = route_backend_set (match_route r.path rt.config.routes) in
      relay-Use rt.config policy _ _ (
        left-Used S.network rt.pool _ _ _ (
          forward-IsLeft (upstream S.network allowed) (upstream-Used S.network rt.pool allowed) _ _
            unused))

  admitted-Use :
      (rt : Runtime N L) (r : Incoming) (user identifier : String) (o : Option ℕ)
      → Use rt.pool (admitted S rt r user identifier o).0.pool
  admitted-Use rt r user identifier (some status) = unused
  admitted-Use rt r user identifier none = forwarded-Use rt r _

  pub handle-Use : (rt : Runtime N L) (r : Incoming) → Use rt.pool (handle S rt r).0.pool
  unfolding handle serve
  handle-Use rt r = admitted-Use _ r _ _ _

  pub handle-Reach : (rt : Runtime N L) (r : Incoming) → Reach rt.pool (handle S rt r).0.pool
  handle-Reach rt r = Use→Reach (handle-Use rt r)

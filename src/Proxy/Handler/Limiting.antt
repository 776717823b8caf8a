-- ===== src/Proxy/Handler/Limiting.antt =====
-- main.go: what `proxyHandler` leaves of the limiter: the one that has evaluated the request.
use edge_proxy_go.Base.{
  ℕ, ◌≡◌, refl, ◌∙◌, true, Option, none, some, String, Float, if◌then◌else◌, ◌==ₛ◌,
}
use edge_proxy_go.Config.Types.{Config, RateLimitConfig}
use edge_proxy_go.Limiter.Types.{RateLimitDecision}
use edge_proxy_go.Proxy.Policy.{Request, resolve_rate_limit_config, identify_requester}
use edge_proxy_go.Proxy.Handler.{
  Incoming, Services, Runtime, Served, heed, heeded, limit, forwarded, admitted, serve, handle,
  request_id_of, refuse_body, client_ip_from_request,
}
use edge_proxy_go.Proxy.Handler.Outcomes.{handle-Ends}

module _ ⦃F : Float⦄ {N L : Type 0} (S : Services N L) where
  heeded-limiter : (nl : N × L) (o : Option RateLimitDecision) → (heeded S nl o).0.1 ≡ nl.1
  unfolding heed
  heeded-limiter (n, l) none = refl
  heeded-limiter (n, l) (some d) = refl

  forwarded-limiter :
      (rt : Runtime N L) (r : Incoming) (v : (N × L) × String × Option Served)
      → (forwarded S rt r v).0.limiter ≡ v.0.1
  forwarded-limiter rt r ((n, l), policy, some served) = refl
  forwarded-limiter rt r ((n, l), policy, none) = refl

  -- The user and the identifier of a request.
  abbrev pub requester : Config → Incoming → String × String
  requester c r =
      let key =
        if c.rate_limit.key ==ₛ "" then c.rate_limit.identifier_header else c.rate_limit.key in
      identify_requester (client_ip_from_request S.split_host r) r.header key

  -- The settings that the request is limited by.
  abbrev pub settings : Config → String → Incoming → RateLimitConfig
  settings c identifier r =
      let request : Request = record {
        path = r.path;
        method = r.method;
        identifier = identifier;
      } in
      resolve_rate_limit_config request c

  -- What the limiter makes of a request that is handled.
  abbrev pub evaluated : Runtime N L → Incoming → (N × L) × Option RateLimitDecision
  evaluated rt r =
      let (user, identifier) = requester rt.config r in
      S.evaluate user identifier (settings rt.config identifier r)
        ((S.network.now rt.net).0, rt.limiter)

  limit-limiter :
      (c : Config) (r : Incoming) (user identifier : String) (nl : N × L) (request : Request)
      → c.rate_limit.enabled ≡ true
      → request ≡ record { path = r.path; method = r.method; identifier = identifier }
      → (limit S c r user identifier nl).0.1
        ≡ (S.evaluate user identifier (resolve_rate_limit_config request c) nl).0.1
  unfolding limit
  limit-limiter c r user identifier nl request on e = rw (on, e) (heeded-limiter _ _)

  -- The limiter after a request with an accepted body is the one that has evaluated it.
  pub handle-limiter :
      (rt : Runtime N L) (r : Incoming)
      → rt.config.rate_limit.enabled ≡ true
      → refuse_body rt.config.proxy.max_body_bytes r ≡ none
      → (handle S rt r).0.limiter ≡ (evaluated rt r).0.1
  unfolding handle serve
  handle-limiter rt r on body =
      let (user, identifier) = requester rt.config r in
      let stamped : Runtime N L = record rt {
        net = (S.network.now rt.net).0;
        request_seq = (request_id_of S rt.request_seq r).0;
      } in
      rw body (
        forwarded-limiter stamped r _
        ∙ limit-limiter rt.config r user identifier ((S.network.now rt.net).0, rt.limiter) _ on
            refl)

  admitted-refused :
      (rt : Runtime N L) (r : Incoming) (user identifier : String) (o : Option ℕ) {status : ℕ}
      → o ≡ some status
      → (admitted S rt r user identifier o).0.limiter ≡ rt.limiter
  admitted-refused rt r user identifier none e = cc
  admitted-refused rt r user identifier (some status) e = refl

  pub handle-refused :
      (rt : Runtime N L) (r : Incoming) {status : ℕ}
      → refuse_body rt.config.proxy.max_body_bytes r ≡ some status
      → (handle S rt r).0.limiter ≡ rt.limiter
  unfolding handle serve
  handle-refused rt r e = admitted-refused _ r _ _ _ e

  pub handle-config : (rt : Runtime N L) (r : Incoming) → (handle S rt r).0.config ≡ rt.config
  handle-config rt r = let (v, ends, status, retry, same, counted) = handle-Ends S rt r in same

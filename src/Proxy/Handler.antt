-- ===== src/Proxy/Handler.antt =====
-- main.go: `proxyHandler` as a whole, and `copyResponse`.
pub mod Balance
pub mod Refusals
pub mod Outcomes
pub mod FailClosed
pub mod Steps
pub mod Limiting
pub mod Quota
pub mod Available
mod Tests
use Prim.Native.String
use edge_proxy_go.Base.{
  ℕ, suc, ◌+◌, ◌-◌, ◌*◌, Bool, true, false, not, ◌&&◌, ◌||◌, Option, none, some, List, String, ℤ,
  pos, is_gt_0, leb_ℤ, pos_part, Float, ltb, ◌/◌, ◌==ₛ◌, if◌then◌else◌, trim_space,
}
use edge_proxy_go.Config.Types.{RouteConfig, RateLimitConfig, Config}
use edge_proxy_go.Pool.Entry.{BackendPool, millisecond}
use edge_proxy_go.Limiter.Types.{DecisionAction, allow, throttle, block, RateLimitDecision}
use edge_proxy_go.Proxy.Routing.{match_route, route_backend_set}
use edge_proxy_go.Proxy.Policy.{Request, resolve_rate_limit_config, identify_requester}
use edge_proxy_go.Proxy.Forward.{
  Sent, Reply, Answer, refused, relayed, forward, answer, retries_for,
}
use edge_proxy_go.Proxy.Upstream.{Response, Network, TrackedBody, World, upstream, close_body}
use edge_proxy_go.Proxy.Recorder.{LogEntry, Stats, record_request}

-- A request: `X-Request-Id`, the path, `RequestURI`, the method, `RemoteAddr`, `Header.Get`,
-- `ContentLength`, and the length of the body, or `none` if it cannot be read.
pub record Incoming : Type 0 where
  pub request_id : String
  pub path : String
  pub uri : String
  pub method : String
  pub remote_addr : String
  pub header : String → String
  pub content_length : ℤ
  pub body : Option ℕ

-- What the handler uses of the rest, on a state `N` of the outside and `L` of the limiter: the
-- network, `Evaluate` (`none` for an error), the timer of a throttled request (false if the request
-- is given up before), setting the request's deadline and whether it has passed, and functions of Go's library:
-- the host of `SplitHostPort`, the decimal digits of a number, and `Format` of a time.
pub record Services ⦃F : Float⦄ (N L : Type 0) : Type 0 where
  pub network : Network N
  pub evaluate : String → String → RateLimitConfig → N × L → (N × L) × Option RateLimitDecision
  pub wait : N → ℤ → N × Bool
  pub with_timeout : ℕ → N → N
  pub expired : N → Bool
  pub split_host : String → Option String
  pub decimal : ℕ → String
  pub format : ℕ → String

-- The variables of the process that the handler reads and writes.
pub record Runtime ⦃F : Float⦄ (N L : Type 0) : Type 0 where
  pub config : Config
  pub net : N
  pub limiter : L
  pub pool : BackendPool
  pub stats : Stats
  pub request_seq : ℕ

-- What the client gets: the status, the two headers of a refusal by the limiter.
pub record Outgoing : Type 0 where
  pub status : ℕ
  pub request_id : String
  pub retry : Option (ℤ × String)

-- The host, or the whole address if it has no port.
unfoldable pub client_ip_from_request : (String → Option String) → Incoming → String
client_ip_from_request split_host r = elim (split_host r.remote_addr) [
  | none ↦ r.remote_addr
  | some host ↦ host
]

-- `ContentLength` first, then the body, of which at most one byte more than the limit is read.
unfoldable pub refuse_body : ℤ → Incoming → Option ℕ
refuse_body max_body r =
    if is_gt_0 max_body
    then if not (leb_ℤ r.content_length max_body) then some 413 else elim r.body [
      | none ↦ some 400
      | some n ↦ if leb_ℤ (pos n) max_body then none else some 413
    ]
    else none

-- The route's timeout in nanoseconds, or the configured one; 0 stands for none.
unfoldable pub timeout_for : ⦃F : Float⦄ → Config → Option RouteConfig → ℕ
timeout_for c none = pos_part c.proxy.response_header_ms * millisecond
timeout_for c (some route) =
    pos_part (if is_gt_0 route.timeout_ms then route.timeout_ms else c.proxy.response_header_ms)
    * millisecond

-- The status that `copyResponse` writes: a body that is declared to be too long is not copied.
unfoldable pub copied_status : ℤ → ℕ → ℤ → ℕ
copied_status max_body status content_length =
    if is_gt_0 max_body && not (leb_ℤ content_length max_body) then 502 else status

abbrev pub status_to_client : ℤ → ℕ → Option TrackedBody → ℕ
status_to_client max_body status none = status
status_to_client max_body status (some b) = copied_status max_body status b.response.content_length

-- What the handler has set in `entry` and written to the client when it returns.
pub record Served : Type 0 where
  pub status : ℕ
  pub client_status : ℕ
  pub policy_name : String
  pub backend : String
  pub limited : Bool
  pub retry : Option (ℤ × String)

abbrev pub refusal : ℕ → String → Served
refusal status policy_name = record {
  status = status;
  client_status = status;
  policy_name = policy_name;
  backend = "-";
  limited = false;
  retry = none;
}

abbrev pub is_throttle : DecisionAction → Bool
is_throttle throttle = true
is_throttle _ = false

abbrev pub is_block : DecisionAction → Bool
is_block block = true
is_block _ = false

module _ ⦃F : Float⦄ {N L : Type 0} (S : Services N L) where
  abbrev pub waited : N → RateLimitDecision → N × Bool
  waited n d =
      let (n', done) = S.wait n d.throttle_delay in
      if is_throttle d.action && is_gt_0 d.throttle_delay then (n', done) else (n, true)

  -- After a decision: the state of the outside, and the refusal if there is one.
  unfoldable pub heed : N → RateLimitDecision → N × Option Served
  heed n d =
      let (n', done) = waited n d in
      (
        n',
        (if not done
            then some (refusal 408 d.policy_name)
            else if is_block d.action
            then some (record (refusal 429 d.policy_name) {
              limited = true;
              retry = some (d.retry_after, d.reason);
            })
            else none),
      )

  abbrev pub heeded : N × L → Option RateLimitDecision → (N × L) × String × Option Served
  heeded (n, l) none = ((n, l), "", some (refusal 503 ""))
  heeded (n, l) (some d) = let (n', refusing) = heed n d in ((n', l), d.policy_name, refusing)

  -- The rate limit: the name of the policy, and the refusal if there is one.
  unfoldable pub limit :
      Config → Incoming → String → String → N × L → (N × L) × String × Option Served
  limit c r user identifier nl =
      let request : Request = record {
        path = r.path;
        method = r.method;
        identifier = identifier;
      } in
      let (nl', decision) = S.evaluate user identifier (resolve_rate_limit_config request c) nl in
      if c.rate_limit.enabled then heeded nl' decision else (nl, "", none)

  unfoldable pub relay : Config → String → World N → Answer → World N × Served
  relay c policy w (refused status) = (w, refusal status policy)
  relay c policy w (relayed backend reply) = (
    close_body S.network w,
    record (refusal reply.status policy) {
      client_status = status_to_client c.proxy.max_response_body_bytes reply.status w.body;
      backend = backend;
    },
  )

  -- From `matchRoute` on.
  unfoldable pub forward_request : Config → Incoming → String → N → BackendPool → World N × Served
  forward_request c r policy n p =
      let route = match_route r.path c.routes in
      let timeout = timeout_for c route in
      let w : World N = record {
        net = if ltb 0 timeout then S.with_timeout timeout n else n;
        pool = p;
        body = none;
      } in
      let (w', sent) =
        forward (upstream S.network (route_backend_set route)) (retries_for route r.method) w in
      relay c policy w' (answer (S.expired w'.net) sent)

  abbrev pub forwarded :
      Runtime N L → Incoming → (N × L) × String × Option Served → Runtime N L × Served
  forwarded rt r ((n, l), policy, some served) = (record rt { net = n; limiter = l }, served)
  forwarded rt r ((n, l), policy, none) =
      let (w, served) = forward_request rt.config r policy n rt.pool in
      (record rt { net = w.net; limiter = l; pool = w.pool }, served)

  abbrev pub admitted : Runtime N L → Incoming → String → String → Option ℕ → Runtime N L × Served
  admitted rt r user identifier (some status) = (rt, refusal status "")
  admitted rt r user identifier none =
      forwarded rt r (limit rt.config r user identifier (rt.net, rt.limiter))

  -- The handler between the first lines and the deferred call.
  unfoldable pub serve : Runtime N L → Incoming → Runtime N L × Served
  serve rt r =
      let c = rt.config in
      let key =
        if c.rate_limit.key ==ₛ "" then c.rate_limit.identifier_header else c.rate_limit.key in
      let ip = client_ip_from_request S.split_host r in
      let (user, identifier) = identify_requester ip r.header key in
      admitted rt r user identifier (refuse_body c.proxy.max_body_bytes r)

  -- The id of the request, and the counter after it.
  unfoldable pub request_id_of : ℕ → Incoming → ℕ × String
  request_id_of seq r =
      let given = trim_space r.request_id in
      if given ==ₛ "" then (suc seq, String.◌++◌ "req-" (S.decimal (suc seq))) else (seq, given)

  unfoldable pub handle : Runtime N L → Incoming → Runtime N L × Outgoing
  handle rt r =
      let (n, started) = S.network.now rt.net in
      let (seq, id) = request_id_of rt.request_seq r in
      let (rt', served) = serve (record rt { net = n; request_seq = seq }) r in
      let (n', ended) = S.network.now rt'.net in
      let entry : LogEntry = record {
        request_id = id;
        policy_name = served.policy_name;
        time = S.format started;
        ip = client_ip_from_request S.split_host r;
        method = r.method;
        path = r.uri;
        status = served.status;
        latency_ms = pos ((ended - started) / millisecond);
        backend = served.backend;
        limited = served.limited;
      } in
      (
        record rt' { net = n'; stats = record_request entry entry.limited rt'.stats },
        record { status = served.client_status; request_id = id; retry = served.retry },
      )

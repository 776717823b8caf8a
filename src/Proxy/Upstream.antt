-- ===== src/Proxy/Upstream.antt =====
-- main.go: `roundTripToBackend` and `trackedResponseBody`, on the pool. The headers that are sent are
-- in Headers.antt.
pub mod Balance
use edge_proxy_go.Base.{
  ℕ, ◌-◌, Bool, true, false, Option, none, some, String, ℤ, Float, List, if◌then◌else◌,
}
use edge_proxy_go.Pool.Entry.{BackendPool}
use edge_proxy_go.Pool.Select.{next_for}
use edge_proxy_go.Pool.Requests.{Token, start_request, finish}
use edge_proxy_go.Proxy.Forward.{Upstream}

-- A response: its status and its `ContentLength`, which is -1 if it is not known.
pub record Response : Type 0 where
  pub status : ℕ
  pub content_length : ℤ

-- What is outside the proxy, on a state `N`: `time.Now` in nanoseconds, and `RoundTrip` of a
-- backend's transport, which gives a response or an error.
pub record Network (N : Type 0) : Type 0 where
  pub now : N → N × ℕ
  pub send : N → String → N × Option Response

-- The body of a response: the closure of its request, the status and the start that the closure
-- captures, and whether `finishOnce` is done.
pub record TrackedBody : Type 0 where
  pub token : Option Token
  pub response : Response
  pub start : ℕ
  pub finished : Bool

-- The network, the pool, and the body of the latest response of a request.
pub record World (N : Type 0) : Type 0 where
  pub net : N
  pub pool : BackendPool
  pub body : Option TrackedBody

module _ {N : Type 0} (net : Network N) where
  -- `finish(statusCode, time.Since(start), err)`, whose breaker reads the clock once more.
  unfoldable pub finish_since : Option Token → ℕ → ℕ → Bool → World N → World N
  finish_since token start status_code err w =
      let (n, later) = net.now w.net in
      let (n', now) = net.now n in
      record w { net = n'; pool = finish now token status_code (later - start) err w.pool }

  abbrev pub received : Option Token → ℕ → World N → Option Response → World N × Option ℕ
  received token start w none = (finish_since token start 0 true w, none)
  received token start w (some r) = (
    record w {
      body = some record { token = token; response = r; start = start; finished = false };
    },
    some r.status,
  )

  unfoldable pub round_trip_to_backend : World N → String → World N × Option ℕ
  round_trip_to_backend w backend =
      let (n, start) = net.now w.net in
      let (p, token) = start_request backend w.pool in
      let (n', outcome) = net.send n backend in
      received token start (record w { net = n'; pool = p }) outcome

  abbrev pub finish_body : Option TrackedBody → World N → World N
  finish_body none w = w
  finish_body (some b) w =
      if b.finished then w else record (finish_since b.token b.start b.response.status false w) {
        body = some (record b { finished = true });
      }

  -- `Close` of the tracked body, and `Read` of it when it meets an error or the end.
  unfoldable pub close_body : World N → World N
  close_body w = finish_body w.body w

  -- `pool.nextFor(allowed)`
  unfoldable pub choose_for : ⦃F : Float⦄ → Option (List String) → World N → World N × String
  choose_for ⦃F⦄ allowed w =
      let (n, now) = net.now w.net in
      let (p, backend) = next_for now allowed w.pool in (record w { net = n; pool = p }, backend)

  -- What the retry loop calls. `r.GetBody` is nil, or gives the body again without an error.
  abbrev pub upstream : ⦃F : Float⦄ → Option (List String) → Upstream (World N)
  upstream ⦃F⦄ allowed = record {
    rewind = some;
    choose = choose_for allowed;
    round_trip = round_trip_to_backend;
    close = close_body;
  }

-- ===== src/Proxy/Direct.antt =====
-- main.go: `handleConnection` with its `singleConnListener`, and `proxyHTTPRequest`, which sends one
-- request to a backend and writes the response on the client's raw connection.
use edge_proxy_go.Base.{
  ℕ, zero, suc, ◌+◌, ◌-◌, ◌<◌, ◌≡◌, refl, inl, inr, Bool, true, false, not, List, [], ◌∷◌, Option,
  none, some, String, length, Bool-cases, if◌then◌else◌,
}
use edge_proxy_go.Pool.Entry.{BackendStats, BackendEntry, BackendPool, load}
use edge_proxy_go.Pool.Requests.{Token, find, start_request, is_failure}
use edge_proxy_go.Pool.Requests.Accounting.{finish-start}
use edge_proxy_go.Proxy.Upstream.{Response, Network, World, finish_since}

-- `singleConnListener`, with the connection that it still has.
pub record SingleConnListener {ℓ} (C : Type ℓ) : Type ℓ where
  pub conn : Option C

module _ {ℓ} {C : Type ℓ} where
  -- `Accept`: `none` is `net.ErrClosed`.
  unfoldable pub accept : SingleConnListener C → SingleConnListener C × Option C
  accept l = (record { conn = none }, l.conn)

  -- `Close`: the connection that is closed.
  unfoldable pub close_conn : SingleConnListener C → Option C
  close_conn l = l.conn

  -- The connections that `http.Server.Serve` gets, which accepts until there is an error, with fuel.
  unfoldable pub served_conns : ℕ → SingleConnListener C → Option (List C)
  served_conns zero l = none
  served_conns (suc fuel) l =
      let (l', conn) = accept l in let rest = served_conns fuel l' in serve conn rest
    where
      serve : Option C → Option (List C) → Option (List C)
      serve none rest = some []
      serve (some c) none = none
      serve (some c) (some cs) = some (c ∷ cs)

  -- `handleConnection`, by the connections that its server gets.
  unfoldable pub handle_connection : ℕ → C → Option (List C)
  handle_connection fuel conn = served_conns fuel (record { conn = some conn })

  -- The server gets the connection of `handleConnection`, and no other.
  pub handle_connection-once :
      (fuel : ℕ) (c : C) → handle_connection (suc (suc fuel)) c ≡ some (c ∷ [])
  unfolding handle_connection served_conns accept
  handle_connection-once fuel c = refl

-- `write` is `Write` of a response to the client, true if it has no error.
module _ {N : Type 0} (net : Network N) (write : Response → N → N × Bool) where
  abbrev pub written : Option Token → ℕ → World N → Option Response → World N × Option ℕ
  written token start w none = (finish_since net token start 0 true w, none)
  written token start w (some r) =
      let (n, done) = write r w.net in
      (
        finish_since net token start r.status (not done) (record w { net = n }),
        (if done then some r.status else none),
      )

  -- The status code, or `none` for an error.
  unfoldable pub proxy_http_request : World N → String → World N × Option ℕ
  proxy_http_request w backend =
      let (p, token) = start_request backend w.pool in
      let (n, start) = net.now w.net in
      let (n', outcome) = net.send n backend in
      written token start (record w { net = n'; pool = p }) outcome

  -- The status that the closure records: that of the backend, or 0 if it gave none.
  abbrev pub code_of : Option Response → ℕ
  code_of none = 0
  code_of (some r) = r.status

  abbrev pub is_none : Option ℕ → Bool
  is_none none = true
  is_none (some status) = false

  abbrev pub after_request : Bool → ℕ → ℕ → BackendStats → BackendStats
  after_request err status_code latency s = record s {
    requests = suc s.requests;
    total_latency_ns = s.total_latency_ns + latency;
    last_status = status_code;
    errors = if is_failure status_code err then suc s.errors else s.errors;
  }

  finish_since-stats :
      (backend : String) (start status_code : ℕ) (err : Bool) (w : World N) (p : BackendPool)
      (e : BackendEntry)
      → find backend p.backends ≡ some e
      → e.stats < length p.heap
      → w.pool ≡ (start_request backend p).0
      → (latency : ℕ) × (load
            (finish_since net (start_request backend p).1 start status_code err w).pool.heap
            e.stats
          ≡ after_request err status_code latency (load p.heap e.stats))
  unfolding finish_since
  finish_since-stats backend start status_code err w p e h l s = (
    (net.now w.net).1 - start,
    rw s (
        finish-start (net.now (net.now w.net).0).1 backend status_code ((net.now w.net).1 - start)
          err p e h l),
  )

  written-stats :
      (backend : String) (start : ℕ) (w : World N) (o : Option Response) (p : BackendPool)
      (e : BackendEntry)
      → find backend p.backends ≡ some e
      → e.stats < length p.heap
      → w.pool ≡ (start_request backend p).0
      → let (w', result) = written (start_request backend p).1 start w o in
        (latency : ℕ) × (load w'.pool.heap e.stats
          ≡ after_request (is_none result) (code_of o) latency (load p.heap e.stats))
  written-stats backend start w none p e h l s = finish_since-stats backend start 0 true w p e h l s
  written-stats backend start w (some r) p e h l s = elim (Bool-cases (write r w.net).1) [
    | inl done ↦
        rw done (finish_since-stats backend start r.status false (record w { net = _ }) p e h l s)
    | inr lost ↦
        rw lost (finish_since-stats backend start r.status true (record w { net = _ }) p e h l s)
  ]

  -- What the backend answers to a request.
  abbrev pub reply_of : World N → String → Option Response
  reply_of w backend = (net.send (net.now w.net).0 backend).1

  -- Whether the backend fails, the client is lost or all is well, the statistics of the backend get
  -- one request with the status that it gave, and none stays active; it is an error where the caller
  -- gets one, so also where only the client is lost, or where the status is a failure.
  pub proxy_http_request-stats :
      (backend : String) (w : World N) (e : BackendEntry)
      → find backend w.pool.backends ≡ some e
      → e.stats < length w.pool.heap
      → let (w', result) = proxy_http_request w backend in
        (latency : ℕ) × (load w'.pool.heap e.stats
          ≡ after_request
              (is_none result)
              (code_of (reply_of w backend))
              latency
              (load w.pool.heap e.stats))
  unfolding proxy_http_request
  proxy_http_request-stats backend w e h l =
      written-stats backend (net.now w.net).1
        (record w {
          net = (net.send (net.now w.net).0 backend).0;
          pool = (start_request backend w.pool).0;
        })
        (reply_of w backend) w.pool e h l refl

-- ===== src/Proxy/Handler/Available.antt =====
-- main.go: which backend `proxyHandler` serves a request from, with the pool and the retry loop
-- together.
use edge_proxy_go.Base.{
  ℕ, zero, suc, ◌≡◌, ◌≢◌, refl, subst, ap, ◌∙◌, sym, ◌⊎◌, inl, inr, true, false, List, Option, none,
  some, String, pos, Float, All, get_elem?, ltb, ◌==ₛ◌, ==ₛ_refl, ==ₛ_false, Bool-cases, ne_of_==ₛ,
  eq_of_==ₛ, if◌then◌else◌,
}
use edge_proxy_go.Config.Types.{Config}
use edge_proxy_go.Pool.Entry.{BackendEntry, BackendPool}
use edge_proxy_go.Pool.Select.{next_for}
use edge_proxy_go.Pool.Select.Eligible.{IsEligible}
use edge_proxy_go.Pool.Select.Sound.{All-get_elem?, next_for-Chosen, next_for-none_iff}
use edge_proxy_go.Proxy.Routing.{match_route, route_backend_set}
use edge_proxy_go.Proxy.Forward.{
  Upstream, Sent, nothing_sent, is_final, after_trip, try_backend, round, attempts, forward, answer,
  retries_for,
}
use edge_proxy_go.Proxy.Upstream.{Response, World, choose_for, round_trip_to_backend, upstream}
use edge_proxy_go.Proxy.Policy.{identify_requester}
use edge_proxy_go.Proxy.Handler.{
  Incoming, Services, Runtime, Served, refusal, timeout_for, copied_status, status_to_client, relay,
  forward_request, client_ip_from_request, refuse_body, limit, serve, handle,
}

-- The variables after a first round that ends the loop with a response.
abbrev sent_first : String → ℕ → Sent
sent_first backend status = record {
  backend = backend;
  response = some record { status = status; closed = false };
  failed = false;
}

module _ {ℓ} {W : Type ℓ} (U : Upstream W) where
  forward-none :
      (n : ℕ) (w : W) → (U.choose w).1 ≡ "" → forward U (pos n) w ≡ ((U.choose w).0, nothing_sent)
  unfolding forward attempts round try_backend
  forward-none zero w h = rw (h, ==ₛ_refl "") refl
  forward-none (suc n) w h = rw (h, ==ₛ_refl "") refl

  forward-first :
      (n : ℕ) (w : W) (status : ℕ)
      → let (w', backend) = U.choose w in
        backend ≢ ""
        → (U.round_trip w' backend).1 ≡ some status
        → is_final status ≡ true
        → forward U (pos n) w ≡ ((U.round_trip w' backend).0, sent_first backend status)
  unfolding forward attempts round try_backend after_trip
  forward-first zero w status b t f = rw (==ₛ_false _ "" b, t, f) refl
  forward-first (suc n) w status b t f = rw (==ₛ_false _ "" b, t, f) refl

module _ ⦃F : Float⦄ {N L : Type 0} (S : Services N L) (c : Config) (r : Incoming) (n : N) where
  -- The addresses that the matched route allows.
  abbrev pub allowed : Option (List String)
  allowed = route_backend_set (match_route r.path c.routes)

  -- Once the deadline of the request is set.
  abbrev pub begun : N
  begun =
      let timeout = timeout_for c (match_route r.path c.routes) in
      if ltb 0 timeout then S.with_timeout timeout n else n

  -- Eligible for the request, by the clock as `nextFor` reads it.
  abbrev pub Eligible : BackendEntry → Type 0
  Eligible = IsEligible (S.network.now begun).1 allowed

  -- What the client gets without a backend.
  abbrev pub unavailable : ℕ
  unavailable = if S.expired (S.network.now begun).0 then 504 else 503

module _ ⦃F : Float⦄ {N L : Type 0} (S : Services N L) (response_of : String → Response) where
  -- A request to the backend gets its response, and that is not one to try again for.
  abbrev pub IsAnswering : String → Type 0
  IsAnswering backend =
      ((n : N) → (S.network.send n backend).1 ≡ some (response_of backend))
      × (is_final (response_of backend).status ≡ true)

  -- The status for a response that is passed on.
  abbrev pub passed_on : Config → String → ℕ
  passed_on c backend =
      let response = response_of backend in
      copied_status c.proxy.max_response_body_bytes response.status response.content_length

  round_trip-answered :
      (w : World N) (backend : String) (c : Config)
      → IsAnswering backend
      → let (w', outcome) = round_trip_to_backend S.network w backend in
        let status = (response_of backend).status in
        (outcome ≡ some status)
        × (status_to_client c.proxy.max_response_body_bytes status w'.body ≡ passed_on c backend)
  unfolding round_trip_to_backend
  round_trip-answered w backend c (sends, final) = rw (sends _) (refl, refl)

module _ ⦃F : Float⦄ {N L : Type 0} (S : Services N L) (response_of : String → Response)
    (c : Config) (r : Incoming) (policy : String) (n : N) (p : BackendPool) (k : ℕ)
    (retries : retries_for (match_route r.path c.routes) r.method ≡ pos k) where
  abbrev upstream_of : Upstream (World N)
  upstream_of = upstream S.network (allowed S c r n)

  abbrev start : World N
  start = record { net = begun S c r n; pool = p; body = none }

  abbrev chosen : String
  chosen = (next_for (S.network.now (begun S c r n)).1 (allowed S c r n) p).1

  unserved :
      chosen ≡ "" → (forward_request S c r policy n p).1 ≡ refusal (unavailable S c r n) policy
  unfolding forward_request relay answer choose_for
  unserved h = rw (retries, forward-none upstream_of k start h, ==ₛ_refl "") refl

  served :
      chosen ≢ ""
      → IsAnswering S response_of chosen
      → let v = (forward_request S c r policy n p).1 in
        (v.backend ≡ chosen) × (v.client_status ≡ passed_on S response_of c chosen)
  unfolding forward_request relay answer choose_for
  served ne answering =
      let status = (response_of chosen).status in
      let (trip, body) =
        round_trip-answered S response_of (upstream_of.choose start).0 chosen c answering in
      rw (retries, forward-first upstream_of k start status ne trip answering.1) (refl, body)

  -- The request is served by an eligible backend of its route, or there is none.
  forward_request-available :
      All (λ e. e.address ≢ "") p.backends
      → All (λ e. Eligible S c r n e → IsAnswering S response_of e.address) p.backends
      → let v = (forward_request S c r policy n p).1 in
        (All (λ e. ¬ Eligible S c r n e) p.backends × (v.client_status ≡ unavailable S c r n))
        ⊎ ((i : ℕ) × (e : BackendEntry) × (get_elem? p.backends i ≡ some e)
            × Eligible S c r n e
            × (v.client_status ≡ passed_on S response_of c e.address))
  forward_request-available named answers = elim (Bool-cases (chosen ==ₛ "")) [
    | inl e ↦
        let none_left = eq_of_==ₛ chosen "" e in
        inl (
          (next_for-none_iff _ _ p named).0 none_left,
          ap (λ v. v.client_status) (unserved none_left),
        )
    | inr e ↦
        let ne = ne_of_==ₛ chosen "" e in
        let choice = next_for-Chosen _ _ p ne in
        let answering =
          All-get_elem? _ p.backends choice.index answers choice.stands choice.eligible in
        let by = served ne (subst (IsAnswering S response_of) choice.named answering) in
        inr (
          choice.index,
          choice.entry,
          choice.stands,
          choice.eligible,
          by.1 ∙ ap (passed_on S response_of c) (sym choice.named),
        )
  ]

module _ ⦃F : Float⦄ {N L : Type 0} (S : Services N L) (rt : Runtime N L) (r : Incoming) where
  -- The user and the identifier that the request is limited by.
  abbrev pub requester : String × String
  requester =
      let key =
        if rt.config.rate_limit.key ==ₛ ""
        then rt.config.rate_limit.identifier_header
        else rt.config.rate_limit.key in
      identify_requester (client_ip_from_request S.split_host r) r.header key

  -- What the limiter makes of the request, once its start is read off the clock.
  abbrev pub limited : (N × L) × String × Option Served
  limited = limit S rt.config r requester.0 requester.1 ((S.network.now rt.net).0, rt.limiter)

  handle-forwarded :
      (policy : String) (n : N) (l : L)
      → refuse_body rt.config.proxy.max_body_bytes r ≡ none
      → limited ≡ ((n, l), policy, none)
      → (handle S rt r).1.status ≡ (forward_request S rt.config r policy n rt.pool).1.client_status
  unfolding handle serve
  handle-forwarded policy n l body h = rw (body, h) refl

  -- A request whose body is accepted and that the limiter lets through, with each backend having an
  -- address, retries that are not negative, and the eligible backends of its route answering with a
  -- status other than 502 to 504: the client gets the status of the response of one of these
  -- eligible backends (502 if the body is declared to be too long), and if there is none, 503, or
  -- 504 past the deadline.
  pub handle-available :
      (response_of : String → Response) (policy : String) (n : N) (l : L) (k : ℕ)
      → refuse_body rt.config.proxy.max_body_bytes r ≡ none
      → limited ≡ ((n, l), policy, none)
      → retries_for (match_route r.path rt.config.routes) r.method ≡ pos k
      → All (λ e. e.address ≢ "") rt.pool.backends
      → All (λ e. Eligible S rt.config r n e → IsAnswering S response_of e.address) rt.pool.backends
      → let out = (handle S rt r).1 in
        (All (λ e. ¬ Eligible S rt.config r n e) rt.pool.backends
          × (out.status ≡ unavailable S rt.config r n))
        ⊎ ((i : ℕ) × (e : BackendEntry) × (get_elem? rt.pool.backends i ≡ some e)
            × Eligible S rt.config r n e
            × (out.status ≡ passed_on S response_of rt.config e.address))
  handle-available response_of policy n l k body through retries named answers =
      let same = handle-forwarded policy n l body through in
      elim (forward_request-available S response_of rt.config r policy n rt.pool k retries named
        answers) [
          | inl (none_left, refused) ↦ inl (none_left, same ∙ refused)
          | inr (i, e, stands, eligible, by) ↦ inr (i, e, stands, eligible, same ∙ by)
        ]

-- ===== src/Proxy/Handler/Outcomes.antt =====
-- main.go: how `proxyHandler` ends, and what it records.
use edge_proxy_go.Base.{
  ℕ, suc, ◌≡◌, refl, ◌⊎◌, inl, true, false, Option, none, some, String, ℤ, Float, ◌==ₛ◌, arith,
  if◌then◌else◌,
}
use edge_proxy_go.Config.Types.{Config}
use edge_proxy_go.Pool.Entry.{BackendPool}
use edge_proxy_go.Limiter.Types.{RateLimitDecision}
use edge_proxy_go.Proxy.Forward.{Answer, refused, relayed}
use edge_proxy_go.Proxy.Upstream.{World, TrackedBody}
use edge_proxy_go.Proxy.Policy.{identify_requester}
use edge_proxy_go.Proxy.Recorder.{Stats, LogEntry, record_request, count_status}
use edge_proxy_go.Proxy.Handler.Refusals.{IsLimit, Lets, asked, limit-IsLimit, limit-Lets}
use edge_proxy_go.Proxy.Handler.{
  Incoming, Services, Runtime, Served, relay, forward_request, forwarded, admitted, serve, handle,
  refuse_body, copied_status, status_to_client, client_ip_from_request,
}

-- A request that is passed on is not limited. The client gets the status that is recorded, or 502
-- in place of a response that is too long.
unfoldable pub IsPassed : Served → Type 0
IsPassed v =
    (v.limited ≡ false)
    × (v.retry ≡ none)
    × ((v.client_status ≡ v.status) ⊎ (v.client_status ≡ 502))

-- A request that ended so is counted once: with its status, and as limited if it was.
pub IsCounted : Served → Stats → Stats → Type 0
IsCounted v s s' =
    (s'.total_requests ≡ suc s.total_requests)
    × (s'.total_limited ≡ (if v.limited then suc s.total_limited else s.total_limited))
    × (s'.status_counts ≡ count_status v.status s.status_counts)

record_request-IsCounted :
    (v : Served) (entry : LogEntry) (s s' : Stats)
    → entry.status ≡ v.status
    → entry.limited ≡ v.limited
    → s' ≡ s
    → IsCounted v s (record_request entry entry.limited s')
unfolding IsCounted record_request
record_request-IsCounted v entry s s' same is_limited e = (cc, cc, cc)

module _ ⦃F : Float⦄ {L : Type 0} where
  -- How a request ends, where the limiter decides `o` for it: its body is refused, and neither the
  -- limiter nor the pool is asked; or the limiter refuses it, and the pool is not asked; or the
  -- limiter lets it pass.
  pub data Ends (c : Config) (r : Incoming) (o : Option RateLimitDecision) (l l' : L)
      (p p' : BackendPool) (v : Served) : Type 0 where
    turned_away :
        refuse_body c.proxy.max_body_bytes r ≡ some v.status
        → IsPassed v
        → l' ≡ l
        → p' ≡ p
        → Ends c r o l l' p p' v
    limited :
        refuse_body c.proxy.max_body_bytes r ≡ none
        → c.rate_limit.enabled ≡ true
        → IsLimit o v
        → p' ≡ p
        → Ends c r o l l' p p' v
    passed :
        refuse_body c.proxy.max_body_bytes r ≡ none → Lets c o → IsPassed v → Ends c r o l l' p p' v

module _ ⦃F : Float⦄ {N L : Type 0} (S : Services N L) where
  status_to_client-cases :
      (m : ℤ) (status : ℕ) (o : Option TrackedBody)
      → (status_to_client m status o ≡ status) ⊎ (status_to_client m status o ≡ 502)
  unfolding copied_status
  status_to_client-cases m status none = inl refl
  status_to_client-cases m status (some b) = ground arith

  relay-IsPassed :
      (c : Config) (policy : String) (w : World N) (a : Answer) → IsPassed (relay S c policy w a).1
  unfolding relay IsPassed
  relay-IsPassed c policy w (refused code) = (refl, refl, inl refl)
  relay-IsPassed c policy w (relayed b reply) =
      (refl, refl, status_to_client-cases c.proxy.max_response_body_bytes reply.status w.body)

  forwarded-Ends :
      (rt : Runtime N L) (r : Incoming) (o : Option RateLimitDecision)
      (v : (N × L) × String × Option Served)
      → refuse_body rt.config.proxy.max_body_bytes r ≡ none
      → ((x : Served) → v.2 ≡ some x → rt.config.rate_limit.enabled ≡ true × IsLimit o x)
      → (v.2 ≡ none → Lets rt.config o)
      → let (rt', x) = forwarded S rt r v in
        Ends rt.config r o rt.limiter rt'.limiter rt.pool rt'.pool x
  unfolding forward_request
  forwarded-Ends rt r o ((n, l), policy, some served) body h k =
      let (on, is) = h served refl in limited body on is refl
  forwarded-Ends rt r o ((n, l), policy, none) body h k =
      passed body (k refl) (relay-IsPassed rt.config policy _ _)

  admitted-Ends :
      (rt : Runtime N L) (r : Incoming) (user identifier : String) (o : Option ℕ)
      → refuse_body rt.config.proxy.max_body_bytes r ≡ o
      → let (rt', v) = admitted S rt r user identifier o in
        Ends rt.config r
          (asked S rt.config r user identifier (rt.net, rt.limiter))
          rt.limiter
          rt'.limiter
          rt.pool
          rt'.pool
          v
  unfolding IsPassed
  admitted-Ends rt r user identifier (some status) e =
      turned_away e (refl, refl, inl refl) refl refl
  admitted-Ends rt r user identifier none e =
      forwarded-Ends rt r _ _ e (limit-IsLimit S rt.config r user identifier (rt.net, rt.limiter))
        (limit-Lets S rt.config r user identifier (rt.net, rt.limiter))

  abbrev Kept : Runtime N L → Runtime N L → Type 0
  Kept rt rt' = (rt'.config ≡ rt.config) × (rt'.stats ≡ rt.stats)

  forwarded-Kept :
      (rt : Runtime N L) (r : Incoming) (v : (N × L) × String × Option Served)
      → Kept rt (forwarded S rt r v).0
  forwarded-Kept rt r (nl, policy, some served) = (refl, refl)
  forwarded-Kept rt r (nl, policy, none) = (refl, refl)

  admitted-Kept :
      (rt : Runtime N L) (r : Incoming) (user identifier : String) (o : Option ℕ)
      → Kept rt (admitted S rt r user identifier o).0
  admitted-Kept rt r user identifier (some status) = (refl, refl)
  admitted-Kept rt r user identifier none = forwarded-Kept rt r _

  -- The decision for a request that is handled, once the clock is read: for the user and the
  -- identifier that its key names.
  abbrev pub decision_for : Runtime N L → Incoming → Option RateLimitDecision
  decision_for rt r =
      let c = rt.config in
      let key =
        if c.rate_limit.key ==ₛ "" then c.rate_limit.identifier_header else c.rate_limit.key in
      let (user, identifier) =
        identify_requester (client_ip_from_request S.split_host r) r.header key in
      asked S c r user identifier ((S.network.now rt.net).0, rt.limiter)

  -- A handled request ends in one of the ways of `Ends`, by the decision of the limiter for it, and it
  -- is counted once: with the status that the access log has, and as limited exactly if the limiter
  -- blocked it. The client gets the status and the headers of that end, and the configuration does
  -- not change.
  pub handle-Ends :
      (rt : Runtime N L) (r : Incoming)
      → let (rt', out) = handle S rt r in
        (v : Served) × Ends rt.config r
          (decision_for rt r)
          rt.limiter
          rt'.limiter
          rt.pool
          rt'.pool
          v
        × (out.status ≡ v.client_status)
        × (out.retry ≡ v.retry)
        × (rt'.config ≡ rt.config)
        × IsCounted v rt.stats rt'.stats
  unfolding handle serve
  handle-Ends rt r =
      let (same_config, same_stats) = admitted-Kept _ r _ _ _ in
      (
        _,
        admitted-Ends _ r _ _ _ refl,
        refl,
        refl,
        same_config,
        record_request-IsCounted _ _ rt.stats _ refl refl same_stats,
      )

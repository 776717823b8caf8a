-- ===== src/Proxy/Handler/Quota.antt =====
-- main.go and rate_limiter.go: how many requests of a user `proxyHandler` lets through in a window of
-- the process-local limiter.
use edge_proxy_go.Base.{
  ℕ, suc, ◌≤◌, ◌<◌, ◌≡◌, refl, ap, sym, subst, ◌∙◌, inl, inr, Bool, true, false, not, ◌&&◌, List,
  [], ◌∷◌, Option, none, some, String, Float, arith, All, if◌then◌else◌, Option-cases,
}
use edge_proxy_go.Config.Types.{Config, RateLimitConfig}
use edge_proxy_go.Pool.Entry.{BackendPool}
use edge_proxy_go.Limiter.Types.{RateLimitDecision, RateLimiter, lookup}
use edge_proxy_go.Limiter.Local.{
  evaluate_local, verdict_for, judge, is_allow, bucket_key, window_of, limit_of,
}
use edge_proxy_go.Limiter.Window.{decisions, allowed, Within, IsOver, allowed_per_window}
use edge_proxy_go.Limiter.Redis.{Library, Limiter}
use edge_proxy_go.Limiter.Redis.Evaluate.{evaluate}
use edge_proxy_go.Proxy.Handler.{
  Incoming, Services, Runtime, Served, Outgoing, handle, refuse_body, is_block, is_throttle,
}
use edge_proxy_go.Proxy.Handler.Refusals.{IsLimit}
use edge_proxy_go.Proxy.Handler.Outcomes.{IsPassed, Ends, turned_away, limited, passed, handle-Ends}
use edge_proxy_go.Proxy.Handler.Limiting.{
  requester, settings, evaluated, handle-limiter, handle-refused, handle-config,
}
use edge_proxy_go.Proxy.Handler.FailClosed.{with_limiter}

abbrev is_none {ℓ} : {A : Type ℓ} → Option A → Bool
is_none none = true
is_none (some a) = false

not-not : (b : Bool) → not (not b) ≡ b
not-not true = refl
not-not false = refl

-- A decision of the process-local limiter is to allow or to block.
local-action :
    ⦃F : Float⦄ (r : RateLimiter) (user identifier : String) (c : RateLimitConfig) (now later : ℕ)
    → let action = (evaluate_local r user identifier c now later).1.action in
      (is_throttle action ≡ false) × (is_block action ≡ not (is_allow action))
unfolding evaluate_local verdict_for judge
local-action r user identifier c now later = ground arith

module _ ⦃F : Float⦄ {N : Type 0} (lib : Library N) (S : Services N (Limiter N)) where
  -- The two readings of the clock by which the limiter judges a request that is handled.
  abbrev pub reading : Runtime N (Limiter N) → ℕ × ℕ
  reading rt = let (n, now) = lib.now (S.network.now rt.net).0 in (now, (lib.now n).1)

  -- The body is accepted, and the limiter has not refused.
  abbrev pub is_let_through : Config → Incoming → Outgoing → Bool
  is_let_through c r out = is_none (refuse_body c.proxy.max_body_bytes r) && is_none out.retry

  -- How many of the requests are let through, one after the other.
  unfoldable pub let_through : Runtime N (Limiter N) → List Incoming → ℕ
  let_through rt [] = 0
  let_through rt (r ∷ rs) =
      let (rt', out) = handle (with_limiter lib S) rt r in
      let rest = let_through rt' rs in if is_let_through rt.config r out then suc rest else rest

  -- The readings for those that the limiter judges.
  unfoldable pub readings : Runtime N (Limiter N) → List Incoming → List (ℕ × ℕ)
  readings rt [] = []
  readings rt (r ∷ rs) =
      let rest = readings (handle (with_limiter lib S) rt r).0 rs in
      if is_none (refuse_body rt.config.proxy.max_body_bytes r) then reading rt ∷ rest else rest

  -- A limiter without Redis.
  evaluate-local :
      (user identifier : String) (c : RateLimitConfig) (n : N) (l : Limiter N)
      → l.client ≡ none
      → let (m, now) = lib.now n in
        let later = (lib.now m).1 in
        let (local, d) = evaluate_local l.local user identifier c now later in
        ((evaluate lib user identifier c (n, l)).0.1.local ≡ local)
        × ((evaluate lib user identifier c (n, l)).0.1.client ≡ none)
        × ((evaluate lib user identifier c (n, l)).1 ≡ some d)
  unfolding evaluate
  evaluate-local user identifier c n l e = rw (e, evaluate) (refl, e, refl)

  -- A request that the process-local limiter allows or blocks is refused with the headers of a block
  -- exactly if it is blocked.
  Ends-retry :
      (c : Config) (r : Incoming) (d : RateLimitDecision) (l l' : Limiter N) (p p' : BackendPool)
      (v : Served)
      → Ends c r (some d) l l' p p' v
      → refuse_body c.proxy.max_body_bytes r ≡ none
      → c.rate_limit.enabled ≡ true
      → is_throttle d.action ≡ false
      → is_none v.retry ≡ not (is_block d.action)
  unfolding IsLimit IsPassed
  Ends-retry c r d l l' p p' v (turned_away some_status passes kept same) body on t = cc
  Ends-retry c r d l l' p p' v
        (limited accepted enabled (shown, inl (throttles, code, counted, e)) same) body on t =
      cc
  Ends-retry c r d l l' p p' v (limited accepted enabled (shown, inr (blocks, s, m, e)) same) body
        on t =
      rw (blocks, e) refl
  Ends-retry c r d l l' p p' v (passed accepted (inl off) is) body on t = cc
  Ends-retry c r d l l' p p' v (passed accepted (inr lets) (m, e, s)) body on t = rw (lets, e) refl

  -- The requester and the settings of a request.
  abbrev pub Asks : Config → String → String → RateLimitConfig → Incoming → Type 0
  Asks c user identifier policy r =
      (requester S c r ≡ (user, identifier)) × (settings S c identifier r ≡ policy)

  evaluated-local :
      (rt : Runtime N (Limiter N)) (r : Incoming) (user identifier : String)
      (policy : RateLimitConfig)
      → rt.limiter.client ≡ none
      → Asks rt.config user identifier policy r
      → let (now, later) = reading rt in
        let (local, d) = evaluate_local rt.limiter.local user identifier policy now later in
        let (nl, decision) = evaluated (with_limiter lib S) rt r in
        (nl.1.local ≡ local) × (nl.1.client ≡ none) × (decision ≡ some d)
  evaluated-local rt r user identifier policy offline (who, by) =
      rw (who, by)
        (evaluate-local user identifier policy (S.network.now rt.net).0 rt.limiter offline)

  -- A request whose body is accepted is judged by the process-local limiter at the two readings, and
  -- it is refused with the headers of a block exactly if it is not allowed.
  handle-judged :
      (rt : Runtime N (Limiter N)) (r : Incoming) (user identifier : String)
      (policy : RateLimitConfig)
      → rt.config.rate_limit.enabled ≡ true
      → rt.limiter.client ≡ none
      → Asks rt.config user identifier policy r
      → refuse_body rt.config.proxy.max_body_bytes r ≡ none
      → let (now, later) = reading rt in
        let (local, d) = evaluate_local rt.limiter.local user identifier policy now later in
        let (rt', out) = handle (with_limiter lib S) rt r in
        (rt'.limiter.local ≡ local)
        × (rt'.limiter.client ≡ none)
        × (is_none out.retry ≡ is_allow d.action)
  handle-judged rt r user identifier policy on offline asks body =
      let (now, later) = reading rt in
      let judged = evaluated-local rt r user identifier policy offline asks in
      let taken = handle-limiter (with_limiter lib S) rt r on body in
      let (v, ends, status, retry, same, counted) = handle-Ends (with_limiter lib S) rt r in
      let rt' = (handle (with_limiter lib S) rt r).0 in
      let (unthrottled, blocks) = local-action rt.limiter.local user identifier policy now later in
      (
        ap (λ (l : Limiter N). l.local) taken ∙ judged.0,
        ap (λ (l : Limiter N). l.client) taken ∙ judged.1,
        ap is_none retry
            ∙ Ends-retry rt.config r _ rt.limiter _ rt.pool _ v
                (subst (λ o. Ends rt.config r o rt.limiter rt'.limiter rt.pool rt'.pool v) judged.2
                  ends)
                body on unthrottled
            ∙ ap not blocks
            ∙ not-not _,
      )

  -- What holds of a process, from one request to the next.
  record IsLocal (user identifier : String) (policy : RateLimitConfig) (rs : List Incoming)
      (rt : Runtime N (Limiter N)) : Type 0 where
    on : rt.config.rate_limit.enabled ≡ true
    offline : rt.limiter.client ≡ none
    asks : All (Asks rt.config user identifier policy) rs

  next-IsLocal :
      (user identifier : String) (policy : RateLimitConfig) (rt : Runtime N (Limiter N))
      (r : Incoming) (rs : List Incoming)
      → IsLocal user identifier policy (r ∷ rs) rt
      → (handle (with_limiter lib S) rt r).0.limiter.client ≡ none
      → IsLocal user identifier policy rs (handle (with_limiter lib S) rt r).0
  next-IsLocal user identifier policy rt r rs h offline =
      let same = sym (handle-config (with_limiter lib S) rt r) in
      record {
        on = subst (λ (c : Config). c.rate_limit.enabled ≡ true) same h.on;
        offline = offline;
        asks = subst (λ c. All (Asks c user identifier policy) rs) same h.asks.1;
      }

  -- As many requests are let through as the limiter allows at the readings.
  let_through-allowed :
      (user identifier : String) (policy : RateLimitConfig) (rt : Runtime N (Limiter N))
      (rs : List Incoming)
      → IsLocal user identifier policy rs rt
      → let_through rt rs
        ≡ allowed (decisions rt.limiter.local user identifier policy (readings rt rs))
  unfolding let_through readings decisions
  let_through-allowed user identifier policy rt [] h = refl
  let_through-allowed user identifier policy rt (r ∷ rs) h =
      let rt' = (handle (with_limiter lib S) rt r).0 in
      elim (Option-cases (refuse_body rt.config.proxy.max_body_bytes r)) [
        | inr (status, refused) ↦
            let kept = handle-refused (with_limiter lib S) rt r refused in
            rw refused (
              let_through-allowed user identifier policy rt' rs (
                next-IsLocal user identifier policy rt r rs h
                  (ap (λ (l : Limiter N). l.client) kept ∙ h.offline))
              ∙ ap
                  (λ (l : Limiter N).
                    allowed (decisions l.local user identifier policy (readings rt' rs)))
                  kept)
        | inl body ↦
            let (local, offline, retry) =
              handle-judged rt r user identifier policy h.on h.offline h.asks.0 body in
            let (now, later) = reading rt in
            let d = (evaluate_local rt.limiter.local user identifier policy now later).1 in
            rw (body, retry)
              (ap (λ n. if is_allow d.action then suc n else n)
                (let_through-allowed user identifier policy rt' rs
                    (next-IsLocal user identifier policy rt r rs h offline)
                  ∙ ap (λ l. allowed (decisions l user identifier policy (readings rt' rs))) local))
      ]

  -- The rate limit as a whole. The limiter is on and has no Redis server; the requests come from one
  -- user and are limited by one policy; the first has an accepted body, and its user no bucket or one
  -- whose window is over; and the limiter reads the clock for the others before the window that it
  -- opens is over. Then the handler lets no more of them through than the limit of the policy,
  -- however many there are and whatever becomes of them.
  pub let_through-le-limit :
      (user identifier : String) (policy : RateLimitConfig) (rt : Runtime N (Limiter N))
      (r : Incoming) (rs : List Incoming)
      → rt.config.rate_limit.enabled ≡ true
      → rt.limiter.client ≡ none
      → All (Asks rt.config user identifier policy) (r ∷ rs)
      → refuse_body rt.config.proxy.max_body_bytes r ≡ none
      → 0 < (reading rt).0
      → IsOver
          (window_of policy)
          (reading rt).0
          (lookup (bucket_key policy.name user) rt.limiter.local.buckets)
      → Within (reading rt).0 (window_of policy) (readings (handle (with_limiter lib S) rt r).0 rs)
      → let_through rt (r ∷ rs) ≤ limit_of policy
  unfolding readings
  let_through-le-limit user identifier policy rt r rs on offline asks body started over within =
      let h : IsLocal user identifier policy (r ∷ rs) rt = record {
        on = on;
        offline = offline;
        asks = asks;
      } in
      rw (let_through-allowed user identifier policy rt (r ∷ rs) h, body)
        (allowed_per_window rt.limiter.local user identifier policy (reading rt).0 (reading rt).1
          (readings (handle (with_limiter lib S) rt r).0 rs) started over within)

-- ===== src/Proxy/Handler/Refusals.antt =====
-- main.go: when and how the limiter refuses a request in `proxyHandler`.
use mathlib.Core.Option.{some-injective}
use edge_proxy_go.Base.{
  ◌≡◌, refl, ◌⊎◌, inl, inr, Bool, true, false, Option, none, some, String, Float, subst, arith,
  if◌then◌else◌, not,
}
use edge_proxy_go.Config.Types.{Config}
use edge_proxy_go.Limiter.Types.{RateLimitDecision}
use edge_proxy_go.Proxy.Policy.{Request, resolve_rate_limit_config}
use edge_proxy_go.Proxy.Handler.{
  Incoming, Services, Served, refusal, waited, heed, heeded, limit, is_block, is_throttle,
}

module _ ⦃F : Float⦄ where
  -- The limiter refuses with 503 if it gives no decision; by a decision to throttle with 408, if the
  -- client leaves meanwhile; and by a decision to block with 429, which alone counts as limited and
  -- has the two headers, with the time and the reason of the decision.
  unfoldable pub IsLimit : Option RateLimitDecision → Served → Type 0
  IsLimit none v =
      (v.client_status ≡ v.status) × (v.status ≡ 503) × (v.limited ≡ false) × (v.retry ≡ none)
  IsLimit (some d) v =
      (v.client_status ≡ v.status)
      × ((is_throttle d.action ≡ true × v.status ≡ 408 × v.limited ≡ false × v.retry ≡ none)
          ⊎ (is_block d.action ≡ true
              × v.status ≡ 429
              × v.limited ≡ true
              × v.retry ≡ some (d.retry_after, d.reason)))

  -- The limiter lets a request pass if it is off, or by a decision that does not block.
  abbrev pub Lets : Config → Option RateLimitDecision → Type 0
  Lets c none = c.rate_limit.enabled ≡ false
  Lets c (some d) = (c.rate_limit.enabled ≡ false) ⊎ (is_block d.action ≡ false)

module _ ⦃F : Float⦄ {N L : Type 0} (S : Services N L) where
  abbrev refusing : Bool → Bool → RateLimitDecision → Option Served
  refusing done blocked d =
      if not done
      then some (refusal 408 d.policy_name)
      else if blocked
      then some (record (refusal 429 d.policy_name) {
        limited = true;
        retry = some (d.retry_after, d.reason);
      })
      else none

  waited-throttle :
      (n : N) (d : RateLimitDecision) → (waited S n d).1 ≡ false → is_throttle d.action ≡ true
  waited-throttle n d h = ground arith

  refusing-IsLimit :
      (n : N) (d : RateLimitDecision) (v : Served) (done blocked : Bool)
      → (waited S n d).1 ≡ done
      → is_block d.action ≡ blocked
      → refusing done blocked d ≡ some v
      → IsLimit (some d) v
  unfolding IsLimit
  refusing-IsLimit n d v true true w b e =
      subst (IsLimit (some d)) (some-injective _ v e) (refl, inr (b, refl, refl, refl))
  refusing-IsLimit n d v true false w b e = cc
  refusing-IsLimit n d v false blocked w b e =
      subst (IsLimit (some d)) (some-injective _ v e)
        (refl, inl (waited-throttle n d w, refl, refl, refl))

  heeded-IsLimit :
      (nl : N × L) (o : Option RateLimitDecision) (v : Served)
      → (heeded S nl o).2 ≡ some v
      → IsLimit o v
  unfolding heed IsLimit
  heeded-IsLimit nl none v e = subst (IsLimit none) (some-injective _ v e) (refl, refl, refl, refl)
  heeded-IsLimit (n, l) (some d) v e = refusing-IsLimit n d v _ _ refl refl e

  heeded-Lets :
      (c : Config) (nl : N × L) (o : Option RateLimitDecision) → (heeded S nl o).2 ≡ none → Lets c o
  unfolding heed
  heeded-Lets c nl none e = cc
  heeded-Lets c (n, l) (some d) e = inr (ground (arith, e))

  abbrev gate : Bool → N × L → N × L → Option RateLimitDecision → (N × L) × String × Option Served
  gate b nl nl' o = if b then heeded S nl' o else (nl, "", none)

  gate-IsLimit :
      (b : Bool) (nl nl' : N × L) (o : Option RateLimitDecision) (x : Served)
      → (gate b nl nl' o).2 ≡ some x
      → b ≡ true × IsLimit o x
  gate-IsLimit true nl nl' o x e = (refl, heeded-IsLimit nl' o x e)
  gate-IsLimit false nl nl' o x e = cc

  gate-none :
      (c : Config) (b : Bool) (nl nl' : N × L) (o : Option RateLimitDecision)
      → (gate b nl nl' o).2 ≡ none
      → (b ≡ false) ⊎ Lets c o
  gate-none c true nl nl' o e = inr (heeded-Lets c nl' o e)
  gate-none c false nl nl' o e = inl refl

  -- What the limiter decides for a request, if it is asked.
  abbrev pub asked : Config → Incoming → String → String → N × L → Option RateLimitDecision
  asked c r user identifier nl =
      let request : Request = record {
        path = r.path;
        method = r.method;
        identifier = identifier;
      } in
      (S.evaluate user identifier (resolve_rate_limit_config request c) nl).1

  pub limit-IsLimit :
      (c : Config) (r : Incoming) (user identifier : String) (nl : N × L) (x : Served)
      → (limit S c r user identifier nl).2 ≡ some x
      → c.rate_limit.enabled ≡ true × IsLimit (asked c r user identifier nl) x
  unfolding limit
  limit-IsLimit c r user identifier nl x e = gate-IsLimit c.rate_limit.enabled nl _ _ x e

  Lets-off : (c : Config) (o : Option RateLimitDecision) → c.rate_limit.enabled ≡ false → Lets c o
  Lets-off c none h = h
  Lets-off c (some d) h = inl h

  pub limit-Lets :
      (c : Config) (r : Incoming) (user identifier : String) (nl : N × L)
      → (limit S c r user identifier nl).2 ≡ none
      → Lets c (asked c r user identifier nl)
  unfolding limit
  limit-Lets c r user identifier nl e = elim (gate-none c c.rate_limit.enabled nl _ _ e) [
    | inl off ↦ Lets-off c _ off
    | inr lets ↦ lets
  ]

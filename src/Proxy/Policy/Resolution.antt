-- ===== src/Proxy/Policy/Resolution.antt =====
-- main.go: which policy limits a request, and to what, said of the settings themselves.
use edge_proxy_go.Base.{
  ◌≡◌, refl, ap, ◌↔◌, ◌⊎◌, inl, inr, true, false, List, [], ◌∷◌, ◌++◌, String, starts_with, Float,
  ==ₛ_iff, All, Bool-cases, trim_space, equal_fold, arith,
}
use edge_proxy_go.Config.Types.{RateLimitConfig, PolicyConfig, Config}
use edge_proxy_go.Proxy.Policy.{
  contains_fold, contains_exact, Request, policy_applies, resolve_from, resolve_rate_limit_config,
}
use edge_proxy_go.Proxy.Policy.Under.{IsUnder, under_policy-IsUnder}

-- One of the texts passes.
abbrev pub Any : (String → Type 0) → List String → Type 0
Any P [] = ⊥
Any P (v ∷ vs) = P v ⊎ Any P vs

-- The policy is for the request: its path starts with the prefix, its method is one of the methods,
-- in whatever case, and its identifier is one of the keys; what the policy leaves empty fits all.
abbrev pub Applies : ⦃F : Float⦄ → Request → PolicyConfig → Type 0
Applies r p =
    ((p.route_prefix ≡ "") ⊎ (starts_with r.path p.route_prefix ≡ true))
    × ((p.methods ≡ []) ⊎ Any (λ v. equal_fold (trim_space v) r.method ≡ true) p.methods)
    × ((p.api_keys ≡ []) ⊎ Any (λ v. trim_space v ≡ r.identifier) p.api_keys)

contains_fold_iff :
    (vs : List String) (target : String)
    → (contains_fold vs target ≡ true) ↔ Any (λ v. equal_fold (trim_space v) target ≡ true) vs
unfolding contains_fold
contains_fold_iff [] target = (λ h. cc h, λ h. elim h [ ])
contains_fold_iff (v ∷ vs) target =
    let (there, back) = contains_fold_iff vs target in
    (λ h. ground (arith, there, h), λ h. ground (arith, back, h))

contains_exact_iff :
    (vs : List String) (target : String)
    → (contains_exact vs target ≡ true) ↔ Any (λ v. trim_space v ≡ target) vs
unfolding contains_exact
contains_exact_iff [] target = (λ h. cc h, λ h. elim h [ ])
contains_exact_iff (v ∷ vs) target =
    let (there, back) = contains_exact_iff vs target in
    let (equal, same) = ==ₛ_iff (trim_space v) target in
    (λ h. ground (arith, there, equal, h), λ h. ground (arith, back, same, h))

module _ ⦃F : Float⦄ (r : Request) (p : PolicyConfig) where
  Applies-of_policy_applies : policy_applies r p ≡ true → Applies r p
  unfolding policy_applies
  Applies-of_policy_applies h =
      let (method, _) = contains_fold_iff p.methods r.method in
      let (key, _) = contains_exact_iff p.api_keys r.identifier in
      let (prefix, _) = ==ₛ_iff p.route_prefix "" in ground (arith, method, key, prefix, h)

  policy_applies-of_Applies : Applies r p → policy_applies r p ≡ true
  unfolding policy_applies
  policy_applies-of_Applies h =
      let (_, method) = contains_fold_iff p.methods r.method in
      let (_, key) = contains_exact_iff p.api_keys r.identifier in
      let (_, prefix) = ==ₛ_iff p.route_prefix "" in ground (arith, method, key, prefix, h)

  not-Applies : policy_applies r p ≡ false → ¬ Applies r p
  not-Applies h a = cc (policy_applies-of_Applies a)

-- The first of the policies that applies to a request.
pub record FirstPolicy ⦃F : Float⦄ (r : Request) (policies : List PolicyConfig) (p : PolicyConfig)
    : Type 0 where
  pub before : List PolicyConfig
  pub after : List PolicyConfig
  pub stands : policies ≡ before ++ p ∷ after
  pub applies : Applies r p
  pub passed : All (λ q. ¬ Applies r q) before

module _ ⦃F : Float⦄ (r : Request) where
  -- The base where no policy applies, and otherwise what the first that does makes of it.
  abbrev pub IsResolution : RateLimitConfig → List PolicyConfig → RateLimitConfig → Type 0
  IsResolution base policies c =
      (All (λ q. ¬ Applies r q) policies × (c ≡ base))
      ⊎ ((p : PolicyConfig) × FirstPolicy r policies p × IsUnder base p c)

  IsResolution-later :
      (base : RateLimitConfig) (p : PolicyConfig) (ps : List PolicyConfig) (c : RateLimitConfig)
      → ¬ Applies r p
      → IsResolution base ps c
      → IsResolution base (p ∷ ps) c
  IsResolution-later base p ps c n (inl (all, e)) = inl ((n, all), e)
  IsResolution-later base p ps c n (inr (q, first, under)) = inr (
    q,
    record {
      before = p ∷ first.before;
      after = first.after;
      stands = ap (λ x. p ∷ x) first.stands;
      applies = first.applies;
      passed = (n, first.passed);
    },
    under,
  )

  resolve_from-IsResolution :
      (base : RateLimitConfig) (policies : List PolicyConfig)
      → IsResolution base policies (resolve_from r base policies)
  unfolding resolve_from
  resolve_from-IsResolution base [] = inl (tt, refl)
  resolve_from-IsResolution base (p ∷ ps) = elim (Bool-cases (policy_applies r p)) [
    | inl b ↦ rw b (
        inr (
          p,
          record {
            before = [];
            after = ps;
            stands = refl;
            applies = Applies-of_policy_applies r p b;
            passed = tt;
          },
          under_policy-IsUnder base p,
        ))
    | inr b ↦ rw b (
        IsResolution-later base p ps (resolve_from r base ps) (not-Applies r p b)
          (resolve_from-IsResolution base ps))
  ]

  -- If no policy applies to a request, the base settings limit it, under the name "default". If one
  -- does, the first of them counts: a policy applies whose prefix starts the path, whose methods
  -- have the request's, in whatever case, and whose keys have its identifier, where it gives any of
  -- these. Each setting is that of the policy if positive, else that of the base, and for all but
  -- the requests and the window a default if neither is: for the rate the requests over the window,
  -- or 1, and for the burst twice the rate, and at least 1.
  pub resolve_rate_limit_config-IsResolution :
      (cfg : Config)
      → IsResolution
          (record cfg.rate_limit { name = "default" })
          cfg.policies
          (resolve_rate_limit_config r cfg)
  unfolding resolve_rate_limit_config
  resolve_rate_limit_config-IsResolution cfg =
      resolve_from-IsResolution (record cfg.rate_limit { name = "default" }) cfg.policies

-- ===== src/Config/Validate/Sound.antt =====
-- config.go: what a configuration that `Validate` accepts satisfies.
use edge_proxy_go.Base.{
  ℕ, suc, ◌≡◌, refl, sym, subst, ◌⊎◌, Bool, true, false, not, ◌&&◌, List, [], ◌∷◌, String, Float,
  arith, is_le_0, is_lt_0, starts_with, ◌==ₛ◌, All, is_blank, eq_of_==ₛ, ==ₛ_iff,
}
use edge_proxy_go.Config.Types.{
  BackendConfig, RouteConfig, ProxyConfig, RateLimitConfig, PolicyConfig, Config,
}
use edge_proxy_go.Config.Defaults.{float_le_0}
use edge_proxy_go.Config.Validate.{
  Result, ConfigError, ok, err, ◌>>◌, refuse, bad_address, validate_backends,
  validate_route_backends, validate_route, validate_routes, validate_tls, validate_rate_limit,
  validate_sizes, validate_policies, holds, normalize_mode, validate, is_empty,
}

module _ {A : Type 0} where
  after_refuse :
      (b : Bool) (e : ConfigError) (k : Result A) {a : A}
      → (refuse b e >> k) ≡ ok a
      → (b ≡ false) × (k ≡ ok a)
  unfolding refuse ◌>>◌
  after_refuse true e k h = cc
  after_refuse false e k h = (refl, h)

  after_check :
      (m : Result (Unit {0})) (k : Result A) {a : A} → (m >> k) ≡ ok a → (m ≡ ok tt) × (k ≡ ok a)
  unfolding ◌>>◌
  after_check (ok t) k h = (refl, h)
  after_check (err e) k h = cc

pub record IsSoundBackend (b : BackendConfig) : Type 0 where
  pub address : bad_address b.address ≡ false
  pub weight : is_le_0 b.weight ≡ false

pub record IsSoundRoute (r : RouteConfig) : Type 0 where
  pub rooted : starts_with r.path "/" ≡ true
  pub timeout : is_lt_0 r.timeout_ms ≡ false
  pub retries : is_lt_0 r.retries ≡ false
  pub served : is_empty r.backends ≡ false
  pub backends : All IsSoundBackend r.backends

-- The names of policies that are left, against those seen: no two are the same.
abbrev pub HasNewNames : ⦃F : Float⦄ → List String → List PolicyConfig → Type 0
HasNewNames seen [] = Unit
HasNewNames seen (p ∷ ps) = (holds p.name seen ≡ false) × HasNewNames (p.name ∷ seen) ps

pub record IsSound ⦃F : Float⦄ (c : Config) : Type 0 where
  pub mode : (c.mode ≡ "http") ⊎ (c.mode ≡ "tcp")
  pub tcp : c.mode ≡ "tcp" → is_blank c.tcp_backend ≡ false
  pub backends : All (λ a. bad_address a ≡ false) c.backends
  pub routes : All IsSoundRoute c.routes
  pub cert : c.proxy.tls.enabled ≡ true → is_blank c.proxy.tls.cert_file ≡ false
  pub key : c.proxy.tls.enabled ≡ true → is_blank c.proxy.tls.key_file ≡ false
  pub rps : float_le_0 c.rate_limit.base_requests_per_second ≡ false
  pub burst : float_le_0 c.rate_limit.burst_capacity ≡ false
  pub sliding : is_le_0 c.rate_limit.sliding_window_seconds ≡ false
  pub block : is_le_0 c.rate_limit.block_seconds ≡ false
  pub body : is_le_0 c.proxy.max_body_bytes ≡ false
  pub response : is_le_0 c.proxy.max_response_body_bytes ≡ false
  pub policies : HasNewNames [] c.policies

backends_sound :
    (as' : List String) → validate_backends as' ≡ ok tt → All (λ a. bad_address a ≡ false) as'
unfolding validate_backends
backends_sound [] h = tt
backends_sound (a ∷ as') h =
    let (good, rest) = after_refuse _ _ (validate_backends as') h in (good, backends_sound as' rest)

route_backends_sound :
    (i j : ℕ) (bs : List BackendConfig)
    → validate_route_backends i j bs ≡ ok tt
    → All IsSoundBackend bs
unfolding validate_route_backends
route_backends_sound i j [] h = tt
route_backends_sound i j (b ∷ bs) h =
    let (address, h') = after_refuse _ _ _ h in
    let (weight, rest) = after_refuse _ _ _ h' in
    (record { address = address; weight = weight }, route_backends_sound i (suc j) bs rest)

route_sound : (i : ℕ) (r : RouteConfig) → validate_route i r ≡ ok tt → IsSoundRoute r
unfolding validate_route
route_sound i r h =
    let (path, h₁) = after_refuse _ _ _ h in
    let (numbers, h₂) = after_refuse _ _ _ h₁ in
    let (_, h₃) = after_refuse _ _ _ h₂ in
    let (served, h₄) = after_refuse _ _ _ h₃ in
    record {
      rooted = ground arith;
      timeout = ground arith;
      retries = ground arith;
      served = served;
      backends = route_backends_sound i 0 r.backends h₄;
    }

routes_sound : (i : ℕ) (rs : List RouteConfig) → validate_routes i rs ≡ ok tt → All IsSoundRoute rs
unfolding validate_routes
routes_sound i [] h = tt
routes_sound i (r ∷ rs) h =
    let (first, rest) = after_check _ _ h in (route_sound i r first, routes_sound (suc i) rs rest)

policies_sound :
    ⦃F : Float⦄ (seen : List String) (ps : List PolicyConfig)
    → validate_policies seen ps ≡ ok tt
    → HasNewNames seen ps
unfolding validate_policies
policies_sound seen [] h = tt
policies_sound seen (p ∷ ps) h =
    let (_, h₁) = after_refuse _ _ _ h in
    let (new, rest) = after_refuse _ _ _ h₁ in (new, policies_sound (p.name ∷ seen) ps rest)

mode_sound :
    (m : String) → (not (m ==ₛ "http") && not (m ==ₛ "tcp")) ≡ false → (m ≡ "http") ⊎ (m ≡ "tcp")
mode_sound m h = ground (arith, eq_of_==ₛ m "http", eq_of_==ₛ m "tcp")

tcp_sound :
    (m backend : String)
    → ((m ==ₛ "tcp") && is_blank backend) ≡ false
    → m ≡ "tcp"
    → is_blank backend ≡ false
tcp_sound m backend h e = ground (arith, (==ₛ_iff m "tcp").1 e)

tls_sound :
    (p : ProxyConfig)
    → validate_tls p ≡ ok tt
    → p.tls.enabled ≡ true
    → (is_blank p.tls.cert_file ≡ false) × (is_blank p.tls.key_file ≡ false)
unfolding validate_tls
tls_sound p h e = let (files, _) = after_refuse _ _ _ h in (ground arith, ground arith)

rate_limit_sound :
    ⦃F : Float⦄ (r : RateLimitConfig)
    → validate_rate_limit r ≡ ok tt
    → (float_le_0 r.base_requests_per_second ≡ false)
      × (float_le_0 r.burst_capacity ≡ false)
      × (is_le_0 r.sliding_window_seconds ≡ false)
      × (is_le_0 r.block_seconds ≡ false)
unfolding validate_rate_limit refuse
rate_limit_sound r h =
    let (_, h₁) = after_refuse _ _ _ h in
    let (rps, h₂) = after_refuse _ _ _ h₁ in
    let (burst, h₃) = after_refuse _ _ _ h₂ in
    let (sliding, h₄) = after_refuse _ _ _ h₃ in (rps, burst, sliding, ground arith)

sizes_sound :
    (p : ProxyConfig)
    → validate_sizes p ≡ ok tt
    → (is_le_0 p.max_body_bytes ≡ false) × (is_le_0 p.max_response_body_bytes ≡ false)
unfolding validate_sizes refuse
sizes_sound p h = (ground arith, ground arith)

ok-injective : {A : Type 0} {a b : A} → ok a ≡ ok b → a ≡ b
ok-injective h = cc

-- A configuration that `Validate` accepts is sound, and is the one it was given but for its mode.
pub validate-IsSound :
    ⦃F : Float⦄ (inproc : String) (c : Config) {c' : Config}
    → validate inproc c ≡ ok c'
    → IsSound c' × (c' ≡ record c { mode = normalize_mode c.mode })
unfolding validate
validate-IsSound inproc c {c'} h =
    let (_, h₁) = after_refuse _ _ _ h in
    let (_, h₂) = after_refuse _ _ _ h₁ in
    let (mode, h₃) = after_refuse _ _ _ h₂ in
    let (tcp, h₄) = after_refuse _ _ _ h₃ in
    let (backends, h₅) = after_check _ _ h₄ in
    let (routes, h₆) = after_check _ _ h₅ in
    let (_, h₇) = after_refuse _ _ _ h₆ in
    let (tls, h₈) = after_check _ _ h₇ in
    let (_, h₉) = after_check _ _ h₈ in
    let (limits, k₁) = after_check _ _ h₉ in
    let (_, k₂) = after_check _ _ k₁ in
    let (sizes, k₃) = after_check _ _ k₂ in
    let (_, k₄) = after_check _ _ k₃ in
    let (policies, k₅) = after_check _ _ k₄ in
    let sound : IsSound (record c { mode = normalize_mode c.mode }) = record {
      mode = mode_sound _ mode;
      tcp = tcp_sound _ c.tcp_backend tcp;
      backends = backends_sound c.backends backends;
      routes = routes_sound 0 c.routes routes;
      cert = λ e. (tls_sound c.proxy tls e).0;
      key = λ e. (tls_sound c.proxy tls e).1;
      rps = (rate_limit_sound c.rate_limit limits).0;
      burst = (rate_limit_sound c.rate_limit limits).1;
      sliding = (rate_limit_sound c.rate_limit limits).2;
      block = (rate_limit_sound c.rate_limit limits).3;
      body = (sizes_sound c.proxy sizes).0;
      response = (sizes_sound c.proxy sizes).1;
      policies = policies_sound [] c.policies policies;
    } in
    (subst IsSound (ok-injective k₅) sound, sym (ok-injective k₅))

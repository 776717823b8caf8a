-- ===== src/Control/Addresses.antt =====
-- health.go and main.go: the addresses of the pool that the proxy starts with, which
-- `newBackendPoolFromConfig` collects, and those that a reload gives it, which `backendAddresses` does.
use edge_proxy_go.Base.{
  ℕ, suc, ◌≡◌, refl, ap, sym, ◌∙◌, inl, inr, ℤ, pos, is_le_0, leb_ℤ, Bool, true, false, ◌||◌, List,
  [], ◌∷◌, ◌++◌, map, String, Float, arith, All, ◌==ₛ◌, ==ₛ_refl, eq_of_==ₛ, Bool-cases,
  if◌then◌else◌, append-nil, append_assoc,
}
use edge_proxy_go.Config.Types.{BackendConfig, RouteConfig, Config}
use edge_proxy_go.Config.Validate.Sound.{IsSoundBackend, IsSoundRoute, IsSound}
use edge_proxy_go.Pool.Entry.{BackendEntry, contains, IsDistinct}
use edge_proxy_go.Pool.Startup.{
  Start, value_at, has_key, add_backend, add_backends, add_routes_from, start_of, new_entry,
  new_entries, configure, new_backend_pool, new_backend_pool_from_config,
}
use edge_proxy_go.Proxy.Backends.{add_address, add_addresses, add_routes, backend_addresses}

value_at-missing :
    (key : String) (m : List (String × ℤ)) → has_key key m ≡ false → value_at (pos 0) key m ≡ pos 0
unfolding value_at has_key
value_at-missing key [] h = refl
value_at-missing key ((k, v) ∷ m) h = ground (arith, value_at-missing key m)

-- The addresses so far are the same, and the map of weights has them as its keys.
record Agrees (s : Start) (out : List String) : Type 0 where
  same : s.addresses ≡ out
  keys : (a : String) → has_key a s.weights ≡ contains a out

contains-append :
    (a : String) (xs ys : List String) → contains a (xs ++ ys) ≡ (contains a xs || contains a ys)
contains-append a [] ys = refl
contains-append a (x ∷ xs) ys = ground (arith, contains-append a xs ys)

-- A weight that is not positive is not above one that is missing.
above_missing : (w : ℤ) → is_le_0 w ≡ false → leb_ℤ w (pos 0) ≡ false
above_missing w h = ground arith

-- A new key is put first, an old one again.
keys-put :
    (a key : String) (w : ℤ) (m : List (String × ℤ)) (b : Bool)
    → has_key key m ≡ true
    → has_key a (if b then m else (key, w) ∷ m) ≡ has_key a m
unfolding has_key
keys-put a key w m true h = refl
keys-put a key w m false h = elim (Bool-cases (key ==ₛ a)) [
  | inl e ↦ rw e (sym (rw (← eq_of_==ₛ key a e) h))
  | inr e ↦ rw e refl
]

keys-new :
    (a key : String) (w : ℤ) (m : List (String × ℤ)) (out : List String)
    → has_key a m ≡ contains a out
    → has_key a ((key, w) ∷ m) ≡ contains a (out ++ key ∷ [])
unfolding has_key
keys-new a key w m out h = ground (arith, contains-append a out (key ∷ []))

add_backend-Agrees :
    (health_path : String) (b : BackendConfig) (s : Start) (out : List String)
    → is_le_0 b.weight ≡ false
    → Agrees s out
    → Agrees (add_backend health_path b s) (add_address out b.address)
unfolding add_backend add_address
add_backend-Agrees health_path b s out w h = elim (Bool-cases (has_key b.address s.weights)) [
  | inl old ↦
      let seen : contains b.address out ≡ true = sym (h.keys b.address) ∙ old in
      rw (old, seen)
        record {
          same = h.same;
          keys = λ a. keys-put a b.address b.weight s.weights _ old ∙ h.keys a;
        }
  | inr new ↦
      let unseen : contains b.address out ≡ false = sym (h.keys b.address) ∙ new in
      rw (new, unseen, value_at-missing b.address s.weights new, above_missing b.weight w)
        record {
          same = ap (λ l. l ++ b.address ∷ []) h.same;
          keys = λ a. keys-new a b.address b.weight s.weights out (h.keys a);
        }
]

add_backends-Agrees :
    (health_path : String) (bs : List BackendConfig) (s : Start) (out : List String)
    → All IsSoundBackend bs
    → Agrees s out
    → Agrees
        (add_backends health_path bs s)
        (add_addresses out (map (λ (b : BackendConfig). b.address) bs))
unfolding add_backends add_addresses
add_backends-Agrees health_path [] s out sound h = h
add_backends-Agrees health_path (b ∷ bs) s out (first, sound) h =
    add_backends-Agrees health_path bs _ _ sound
      (add_backend-Agrees health_path b s out first.weight h)

add_routes-Agrees :
    (rs : List RouteConfig) (s : Start) (out : List String)
    → All IsSoundRoute rs
    → Agrees s out
    → Agrees (add_routes_from rs s) (add_routes out rs)
unfolding add_routes_from add_routes
add_routes-Agrees [] s out sound h = h
add_routes-Agrees (r ∷ rs) s out (first, sound) h =
    add_routes-Agrees rs _ _ sound
      (add_backends-Agrees r.health_path r.backends s out first.backends h)

-- An address among the later ones is not among those before them.
apart :
    (x : String) (xs out : List String)
    → contains x xs ≡ false
    → ((a : String) → contains a (x ∷ xs) ≡ true → contains a out ≡ false)
    → (a : String) → contains a xs ≡ true
    → contains a (out ++ x ∷ []) ≡ false
apart x xs out new h a inside = elim (Bool-cases (x ==ₛ a)) [
  | inl e ↦ let twice : contains x xs ≡ true = rw (eq_of_==ₛ x a e) inside in cc twice
  | inr e ↦ ground (arith, contains-append a out (x ∷ []), h a)
]

-- Addresses that are listed once are taken over as they are.
add_addresses-distinct :
    (out xs : List String)
    → IsDistinct xs
    → ((a : String) → contains a xs ≡ true → contains a out ≡ false)
    → add_addresses out xs ≡ out ++ xs
unfolding add_addresses add_address
add_addresses-distinct out [] d h = sym (append-nil out)
add_addresses-distinct out (x ∷ xs) (new, d) h = rw (h x (rw (==ₛ_refl x) refl)) (
    add_addresses-distinct (out ++ x ∷ []) xs d (apart x xs out new h)
    ∙ append_assoc out (x ∷ []) xs)

keys-listed :
    (a : String) (as' : List String)
    → has_key a (map (λ (b : String). (b, pos 1)) as') ≡ contains a as'
unfolding has_key
keys-listed a [] = refl
keys-listed a (b ∷ as') = ground (arith, keys-listed a as')

addresses-configured :
    (connect header : ℕ) (s : Start) (r : ℕ) (as' : List String)
    → map (λ (e : BackendEntry). e.address) (map (configure connect header s) (new_entries r as'))
      ≡ as'
unfolding new_entries new_entry configure
addresses-configured connect header s r [] = refl
addresses-configured connect header s r (a ∷ as') =
    ap (λ l. a ∷ l) (addresses-configured connect header s (suc r) as')

-- For a sound configuration whose backends are listed once each, the pool that the proxy starts with
-- has the addresses that a reload of the configuration gives it, in the same order.
pub start-addresses :
    ⦃F : Float⦄ (c : Config)
    → IsSound c
    → IsDistinct c.backends
    → map (λ (e : BackendEntry). e.address) (new_backend_pool_from_config c).backends
      ≡ backend_addresses c
unfolding new_backend_pool_from_config new_backend_pool start_of backend_addresses
start-addresses c sound distinct =
    let listed = add_addresses-distinct [] c.backends distinct (λ a h. refl) in
    let agrees =
      add_routes-Agrees c.routes _ c.backends sound.routes
        record { same = refl; keys = λ a. keys-listed a c.backends } in
    addresses-configured _ _ (start_of c) 0 (start_of c).addresses
    ∙ agrees.same
    ∙ ap (λ out. add_routes out c.routes) (sym listed)

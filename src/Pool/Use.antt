-- ===== src/Pool/Use.antt =====
-- health.go: what the requests do to the pool, which is less than all of its operations, and what
-- these and the health checks and the administration leave alone: the addresses.
use edge_proxy_go.Base.{
  ℕ, zero, suc, ◌≡◌, refl, ap, ◌∙◌, Bool, List, [], ◌∷◌, map, Option, none, some, String, Float,
  arith, modify, Option-cases, inl, inr,
}
use edge_proxy_go.Pool.Entry.{BackendEntry, BackendPool}
use edge_proxy_go.Pool.Select.{
  Candidate, visit, mark_probe, choose, choose_from, next_for, sort_stable, collect,
}
use edge_proxy_go.Pool.Select.Sound.{visited, collect-entries}
use edge_proxy_go.Pool.Requests.{
  Token, find, start_request, settle, settle_at, finish_request, finish,
}
use edge_proxy_go.Pool.Admin.{apply_action, set_state_at, set_backend_state}
use edge_proxy_go.Pool.Health.{apply_probe, apply_check}
use edge_proxy_go.Pool.Steps.{Step, selects, Reach, here, after}

-- The calls of requests, in any order.
pub data Use ⦃F : Float⦄ (p : BackendPool) : BackendPool → Type 0 where
  unused : Use p p
  selecting :
      {q : BackendPool} (now : ℕ) (allowed : Option (List String))
      → Use p q
      → Use p (next_for now allowed q).0
  starting : {q : BackendPool} (address : String) → Use p q → Use p (start_request address q).0
  finishing :
      {q : BackendPool} (now : ℕ) (t : Option Token) (status_code latency : ℕ) (err : Bool)
      → Use p q
      → Use p (finish now t status_code latency err q)

pub Use→Reach : ⦃F : Float⦄ {p q : BackendPool} → Use p q → Reach p q
Use→Reach unused = here
Use→Reach (selecting now allowed u) = after (Use→Reach u) (selects now allowed)
Use→Reach (starting address u) = after (Use→Reach u) (Step.starts address)
Use→Reach (finishing now t status_code latency err u) =
    after (Use→Reach u) (Step.finishes now t status_code latency err)

abbrev pub addresses_of : List BackendEntry → List String
addresses_of = map λ e. e.address

module _ (f : BackendEntry → BackendEntry)
    (same : (e : BackendEntry) → (f e).address ≡ e.address) where
  addresses-map : (es : List BackendEntry) → addresses_of (map f es) ≡ addresses_of es
  addresses-map [] = refl
  addresses-map (e ∷ es) = cc (same e, addresses-map es)

  addresses-modify :
      (i : ℕ) (es : List BackendEntry) → addresses_of (modify i f es) ≡ addresses_of es
  addresses-modify i [] = refl
  addresses-modify zero (e ∷ es) = cc (same e)
  addresses-modify (suc i) (e ∷ es) = ap (◌∷◌ e.address) (addresses-modify i es)

visited_address :
    (now : ℕ) (allowed : Option (List String)) (e : BackendEntry)
    → (visited now allowed e).address ≡ e.address
unfolding visited visit
visited_address now allowed e = ground arith

mark_probe_address : (e : BackendEntry) → (mark_probe e).address ≡ e.address
unfolding mark_probe
mark_probe_address e = ground arith

settle_address :
    (now : ℕ) (failed : Bool) (e : BackendEntry) → (settle now failed e).address ≡ e.address
unfolding settle
settle_address now failed e = ground arith

apply_probe_address :
    (a : String) (ok : Bool) (e : BackendEntry) → (apply_probe a ok e).address ≡ e.address
unfolding apply_probe
apply_probe_address a ok e = ground arith

addresses-settle_at :
    (now : ℕ) (a : String) (failed : Bool) (es : List BackendEntry)
    → addresses_of (settle_at now a failed es) ≡ addresses_of es
unfolding settle_at
addresses-settle_at now a failed [] = refl
addresses-settle_at now a failed (e ∷ es) =
    ground (arith, settle_address now failed e, addresses-settle_at now a failed es)

addresses-choose_from :
    ⦃F : Float⦄ (p : BackendPool) (es : List BackendEntry) (cs : List (Candidate F.Num))
    → addresses_of (choose_from p es cs).0.backends ≡ addresses_of es
unfolding choose
addresses-choose_from p es [] = refl
addresses-choose_from p es (c ∷ cs) = addresses-modify mark_probe mark_probe_address _ es

addresses-next_for :
    ⦃F : Float⦄ (now : ℕ) (allowed : Option (List String)) (p : BackendPool)
    → addresses_of (next_for now allowed p).0.backends ≡ addresses_of p.backends
unfolding next_for
addresses-next_for now allowed p =
    addresses-choose_from p _ (sort_stable (collect p.heap now allowed 0 p.backends).1)
    ∙ ap addresses_of (collect-entries p.heap now allowed 0 p.backends)
    ∙ addresses-map (visited now allowed) (visited_address now allowed) p.backends

addresses-start_request :
    (address : String) (p : BackendPool)
    → addresses_of (start_request address p).0.backends ≡ addresses_of p.backends
unfolding start_request
addresses-start_request address p = elim (Option-cases (find address p.backends)) [
  | inl e ↦ rw (e, start_request) refl
  | inr (b, e) ↦ rw (e, start_request) refl
]

addresses-finish :
    (now : ℕ) (t : Option Token) (status_code latency : ℕ) (err : Bool) (p : BackendPool)
    → addresses_of (finish now t status_code latency err p).backends ≡ addresses_of p.backends
unfolding finish finish_request
addresses-finish now none status_code latency err p = refl
addresses-finish now (some t) status_code latency err p =
    addresses-settle_at now t.address _ p.backends

-- Requests leave the addresses as they are.
pub addresses-Use :
    ⦃F : Float⦄ {p q : BackendPool} → Use p q → addresses_of q.backends ≡ addresses_of p.backends
addresses-Use unused = refl
addresses-Use (selecting {q} now allowed u) = addresses-next_for now allowed q ∙ addresses-Use u
addresses-Use (starting {q} address u) = addresses-start_request address q ∙ addresses-Use u
addresses-Use (finishing {q} now t status_code latency err u) =
    addresses-finish now t status_code latency err q ∙ addresses-Use u

-- And so do health checks.
pub addresses-apply_check :
    (address : String) (ok : Bool) (p : BackendPool)
    → addresses_of (apply_check address ok p).backends ≡ addresses_of p.backends
unfolding apply_check
addresses-apply_check address ok p =
    addresses-map (apply_probe address ok) (apply_probe_address address ok) p.backends

addresses-set_state_at :
    (a action : String) (es : List BackendEntry)
    → addresses_of (set_state_at a action es).0 ≡ addresses_of es
unfolding set_state_at apply_action
addresses-set_state_at a action [] = refl
addresses-set_state_at a action (e ∷ es) = ground (arith, addresses-set_state_at a action es)

-- And so does the administration.
pub addresses-set_backend_state :
    (a action : String) (p : BackendPool)
    → addresses_of (set_backend_state a action p).0.backends ≡ addresses_of p.backends
unfolding set_backend_state
addresses-set_backend_state a action p = addresses-set_state_at a action p.backends

-- ===== src/Pool/Requests/Probing.antt =====
-- health.go: what the operations of the pool keep of an entry whose breaker is half-open, with its
-- probe in flight.
use edge_proxy_go.Base.{
  ℕ, zero, suc, ◌≡◌, ◌≢◌, ◌⊎◌, sym, subst, inl, inr, refl, Bool, true, List, [], ◌∷◌, map, Option,
  none, some, String, Float, arith, modify, get_elem?, Option-cases, eq_of_==ₛ, ◌==ₛ◌, Bool-cases,
}
use mathlib.Core.Option.{some-injective}
use edge_proxy_go.Pool.Entry.{BackendEntry, BackendPool, half_open}
use edge_proxy_go.Pool.Select.{
  Candidate, visit, expire, mark_probe, choose, choose_from, next_for, sort_stable, collect,
  available_count,
}
use edge_proxy_go.Pool.Select.Sound.{visited, collect-entries}
use edge_proxy_go.Pool.Requests.{find, start_request, settle_at}
use edge_proxy_go.Pool.Admin.{apply_action, set_state_at}
use edge_proxy_go.Pool.Health.{apply_probe}
use edge_proxy_go.Pool.Steps.{count_available-entries}

-- The entry has the address, and a half-open breaker whose probe is in flight.
abbrev pub IsProbing : String → BackendEntry → Type 0
IsProbing a e = (e.address ≡ a) × (e.breaker_state ≡ half_open) × (e.half_open_in_flight ≡ true)

-- The entry at the index is so.
abbrev pub Probes : String → List BackendEntry → ℕ → Type 0
Probes a [] i = ⊥
Probes a (e ∷ es) zero = IsProbing a e
Probes a (e ∷ es) (suc i) = Probes a es i

pub Probes-of_get :
    (a : String) (es : List BackendEntry) (i : ℕ) (e : BackendEntry)
    → get_elem? es i ≡ some e
    → IsProbing a e
    → Probes a es i
Probes-of_get a [] i e h p = cc h
Probes-of_get a (x ∷ es) zero e h p = subst (IsProbing a) (sym (some-injective x e h)) p
Probes-of_get a (x ∷ es) (suc i) e h p = Probes-of_get a es i e h p

pub Probes-get :
    (a : String) (es : List BackendEntry) (i : ℕ)
    → Probes a es i
    → (e : BackendEntry) × (get_elem? es i ≡ some e) × IsProbing a e
Probes-get a [] i p = elim p [ ]
Probes-get a (e ∷ es) zero p = (e, refl, p)
Probes-get a (e ∷ es) (suc i) p = Probes-get a es i p

module _ (a : String) (f : BackendEntry → BackendEntry)
    (keeps : (e : BackendEntry) → IsProbing a e → IsProbing a (f e)) where
  pub Probes-map : (es : List BackendEntry) (i : ℕ) → Probes a es i → Probes a (map f es) i
  Probes-map [] i p = p
  Probes-map (e ∷ es) zero p = keeps e p
  Probes-map (e ∷ es) (suc i) p = Probes-map es i p

  Probes-modify :
      (j : ℕ) (es : List BackendEntry) (i : ℕ) → Probes a es i → Probes a (modify j f es) i
  Probes-modify j [] i p = p
  Probes-modify zero (e ∷ es) zero p = keeps e p
  Probes-modify zero (e ∷ es) (suc i) p = p
  Probes-modify (suc j) (e ∷ es) zero p = p
  Probes-modify (suc j) (e ∷ es) (suc i) p = Probes-modify j es i p

visited-IsProbing :
    (now : ℕ) (allowed : Option (List String)) (a : String) (e : BackendEntry)
    → IsProbing a e
    → IsProbing a (visited now allowed e)
unfolding visited visit expire
visited-IsProbing now allowed a e p = ground arith

mark_probe-IsProbing : (a : String) (e : BackendEntry) → IsProbing a e → IsProbing a (mark_probe e)
unfolding mark_probe
mark_probe-IsProbing a e p = ground arith

pub apply_probe-IsProbing :
    (a address : String) (ok : Bool) (e : BackendEntry)
    → (address ≢ a) ⊎ (ok ≡ true)
    → IsProbing a e
    → IsProbing a (apply_probe address ok e)
unfolding apply_probe
apply_probe-IsProbing a address ok e h p = ground (arith, eq_of_==ₛ e.address address)

pub Probes-settle_at :
    (now : ℕ) (a address : String) (failed : Bool) (es : List BackendEntry) (i : ℕ)
    → address ≢ a
    → Probes a es i
    → Probes a (settle_at now address failed es) i
unfolding settle_at
Probes-settle_at now a address failed [] i n p = p
Probes-settle_at now a address failed (e ∷ es) zero n p =
    elim (Bool-cases (e.address ==ₛ address)) [
      | inl same ↦ absurd (n (cc (eq_of_==ₛ e.address address same, p.0)))
      | inr other ↦ rw other p
    ]
Probes-settle_at now a address failed (e ∷ es) (suc i) n p =
    elim (Bool-cases (e.address ==ₛ address)) [
      | inl same ↦ rw same p
      | inr other ↦ rw other (Probes-settle_at now a address failed es i n p)
    ]

apply_action-IsProbing :
    (a action : String) (e e' : BackendEntry)
    → apply_action action e ≡ some e'
    → IsProbing a e
    → IsProbing a e'
unfolding apply_action
apply_action-IsProbing a action e e' h p = ground arith

pub Probes-set_state_at :
    (a address action : String) (es : List BackendEntry) (i : ℕ)
    → Probes a es i
    → Probes a (set_state_at address action es).0 i
unfolding set_state_at
Probes-set_state_at a address action [] i p = p
Probes-set_state_at a address action (e ∷ es) zero p = elim (Bool-cases (e.address ==ₛ address)) [
  | inr other ↦ rw other p
  | inl same ↦ elim (Option-cases (apply_action action e)) [
    | inl unknown ↦ rw (same, unknown, set_state_at) p
    | inr (e', known) ↦
        rw (same, known, set_state_at) (apply_action-IsProbing a action e e' known p)
  ]
]
Probes-set_state_at a address action (e ∷ es) (suc i) p =
    elim (Bool-cases (e.address ==ₛ address)) [
      | inr other ↦ rw other (Probes-set_state_at a address action es i p)
      | inl same ↦ elim (Option-cases (apply_action action e)) [
        | inl unknown ↦ rw (same, unknown, set_state_at) p
        | inr (e', known) ↦ rw (same, known, set_state_at) p
      ]
    ]

module _ ⦃F : Float⦄ (a : String) (i : ℕ) where
  abbrev pub At : BackendPool → Type 0
  At p = Probes a p.backends i

  Probes-choose_from :
      (p : BackendPool) (es : List BackendEntry) (cs : List (Candidate F.Num))
      → Probes a es i
      → At (choose_from p es cs).0
  unfolding choose
  Probes-choose_from p es [] h = h
  Probes-choose_from p es (c ∷ cs) h = Probes-modify a mark_probe (mark_probe-IsProbing a) _ es i h

  pub Probes-next_for :
      (now : ℕ) (allowed : Option (List String)) (p : BackendPool)
      → At p
      → At (next_for now allowed p).0
  unfolding next_for
  Probes-next_for now allowed p h =
      Probes-choose_from p _ (sort_stable (collect p.heap now allowed 0 p.backends).1) (
        rw (collect-entries p.heap now allowed 0 p.backends)
          (Probes-map a (visited now allowed) (visited-IsProbing now allowed a) p.backends i h))

  pub Probes-available_count : (now : ℕ) (p : BackendPool) → At p → At (available_count now p).0
  unfolding available_count
  Probes-available_count now p h =
      rw (count_available-entries now p.backends)
        (Probes-map a (visited now none) (visited-IsProbing now none a) p.backends i h)

  pub Probes-start_request :
      (address : String) (p : BackendPool) → At p → At (start_request address p).0
  unfolding start_request
  Probes-start_request address p h = elim (Option-cases (find address p.backends)) [
    | inl e ↦ rw (e, start_request) h
    | inr (b, e) ↦ rw (e, start_request) h
  ]

-- ===== src/Pool/Admin/Kept.antt =====
-- health.go: `reconfigure` with `cloneBackendEntry`, field by field: what a reload makes of each
-- backend and of its statistics.
use edge_proxy_go.Base.{
  ℕ, ◌+◌, ◌<◌, ◌≡◌, ◌≢◌, ◌⊎◌, refl, sym, subst, ap, ◌∙◌, inl, inr, true, false, List, [], ◌∷◌, ◌++◌,
  none, some, String, arith, length, get_elem?, All, Option-cases, Bool-cases, ◌==ₛ◌, eq_of_==ₛ,
  ne_of_==ₛ,
}
use edge_proxy_go.Pool.Entry.{
  BackendStats, BackendEntry, BackendPool, closed, load, zero_stats, new_backend_transport,
}
use edge_proxy_go.Pool.Invariant.{IsValid}
use edge_proxy_go.Pool.Admin.{find_existing, fresh_entry, clone_backend_entry, reconfigure}
use edge_proxy_go.Pool.Admin.Reconfigure.{renewed, carried, reconfigure_lem}

-- The last of the entries with the address.
pub record IsLastNamed (a : String) (es : List BackendEntry) (e : BackendEntry) : Type 0 where
  pub before : List BackendEntry
  pub after : List BackendEntry
  pub stands : es ≡ before ++ e ∷ after
  pub named : e.address ≡ a
  pub last : All (λ x. x.address ≢ a) after

find_existing-none :
    (a : String) (es : List BackendEntry) → find_existing a es ≡ none → All (λ e. e.address ≢ a) es
unfolding find_existing
find_existing-none a [] h = tt
find_existing-none a (e ∷ es) h = elim (Option-cases (find_existing a es)) [
  | inl missing ↦ elim (Bool-cases (e.address ==ₛ a)) [
    | inl same ↦ let h' = rw (missing, same, find_existing) at h in cc h'
    | inr other ↦ (ne_of_==ₛ e.address a other, find_existing-none a es missing)
  ]
  | inr (later, found) ↦ let h' = rw (found, find_existing) at h in cc h'
]

find_existing-IsLastNamed :
    (a : String) (es : List BackendEntry) (e : BackendEntry)
    → find_existing a es ≡ some e
    → IsLastNamed a es e
unfolding find_existing
find_existing-IsLastNamed a [] e h = cc h
find_existing-IsLastNamed a (x ∷ es) e h = elim (Option-cases (find_existing a es)) [
  | inl missing ↦
      let same : x ≡ e = ground (arith, h, missing) in
      record {
        before = [];
        after = es;
        stands = ap (λ y. y ∷ es) same;
        named = ground (arith, same, h, missing, eq_of_==ₛ x.address a);
        last = find_existing-none a es missing;
      }
  | inr (later, found) ↦
      let l = find_existing-IsLastNamed a es later found in
      let same : later ≡ e = ground (arith, h, found) in
      record {
        before = x ∷ l.before;
        after = l.after;
        stands = ap (λ ys. x ∷ ys) (l.stands ∙ ap (λ y. l.before ++ y ∷ l.after) same);
        named = sym (ap (λ (y : BackendEntry). y.address) same) ∙ l.named;
        last = l.last;
      }
]

-- The same backend, with its statistics elsewhere.
pub record IsKept (e e' : BackendEntry) : Type 0 where
  pub address : e'.address ≡ e.address
  pub weight : e'.weight ≡ e.weight
  pub health_path : e'.health_path ≡ e.health_path
  pub healthy : e'.healthy ≡ e.healthy
  pub transport : e'.transport ≡ e.transport
  pub breaker_state : e'.breaker_state ≡ e.breaker_state
  pub breaker_opened_until : e'.breaker_opened_until ≡ e.breaker_opened_until
  pub consecutive_err : e'.consecutive_err ≡ e.consecutive_err
  pub half_open_in_flight : e'.half_open_in_flight ≡ e.half_open_in_flight
  pub disabled : e'.disabled ≡ e.disabled
  pub draining : e'.draining ≡ e.draining

-- A backend that starts afresh: up, enabled, and with a closed breaker.
pub record IsFresh (a : String) (e : BackendEntry) : Type 0 where
  pub address : e.address ≡ a
  pub weight : e.weight ≡ 0
  pub health_path : e.health_path ≡ ""
  pub healthy : e.healthy ≡ true
  pub transport : e.transport ≡ new_backend_transport
  pub breaker_state : e.breaker_state ≡ closed
  pub breaker_opened_until : e.breaker_opened_until ≡ 0
  pub consecutive_err : e.consecutive_err ≡ 0
  pub half_open_in_flight : e.half_open_in_flight ≡ false
  pub disabled : e.disabled ≡ false
  pub draining : e.draining ≡ false

-- The entry for the address, and what its statistics are, by the pool before the reload.
abbrev pub IsRenewed : BackendPool → String → BackendEntry → BackendStats → Type 0
IsRenewed p a e' s =
    (All (λ e. e.address ≢ a) p.backends × IsFresh a e' × (s ≡ zero_stats))
    ⊎ ((e : BackendEntry) × IsLastNamed a p.backends e × IsKept e e' × (s ≡ load p.heap e.stats))

renewed-stats :
    (existing : List BackendEntry) (a : String) (r : ℕ) → (renewed existing a r).stats ≡ r
unfolding renewed fresh_entry clone_backend_entry
renewed-stats existing a r = ground arith

renewed-IsRenewed :
    (p : BackendPool) (a : String) (r : ℕ)
    → IsRenewed p a (renewed p.backends a r) (carried p.backends p.heap a)
unfolding renewed carried fresh_entry clone_backend_entry
renewed-IsRenewed p a r = elim (Option-cases (find_existing a p.backends)) [
  | inl missing ↦
      rw (missing, renewed, carried)
        (inl (
          find_existing-none a p.backends missing,
          record {
            address = refl;
            weight = refl;
            health_path = refl;
            healthy = refl;
            transport = refl;
            breaker_state = refl;
            breaker_opened_until = refl;
            consecutive_err = refl;
            half_open_in_flight = refl;
            disabled = refl;
            draining = refl;
          },
          refl,
        ))
  | inr (e, found) ↦
      rw (found, renewed, carried)
        (inr (
          e,
          find_existing-IsLastNamed a p.backends e found,
          record {
            address = refl;
            weight = refl;
            health_path = refl;
            healthy = refl;
            transport = refl;
            breaker_state = refl;
            breaker_opened_until = refl;
            consecutive_err = refl;
            half_open_in_flight = refl;
            disabled = refl;
            draining = refl;
          },
          refl,
        ))
]

-- After a reload there is one backend for each listed address, in the order of the list. A backend
-- that the pool had (of several with the address, the last) keeps its weight, its health path, its
-- transport, its health, its breaker and its administrative state, and its statistics are copied;
-- one that it had not starts afresh, with a weight of 0 and no health path. Either way the
-- statistics are a new object, and no object that was there is written.
pub reconfigure-entries :
    (addresses : List String) (p : BackendPool)
    → IsValid p
    → let q = reconfigure addresses p in
      (length q.backends ≡ length addresses)
      × ((i : ℕ) (a : String)
          → get_elem? addresses i ≡ some a
          → (e' : BackendEntry) × (get_elem? q.backends i ≡ some e')
            × (e'.stats ≡ length p.heap + i)
            × IsRenewed p a e' (load q.heap e'.stats))
      × ((r : ℕ) → r < length p.heap → load q.heap r ≡ load p.heap r)
reconfigure-entries addresses p v =
    let (count, entries, kept) = reconfigure_lem addresses p v in
    (
      count,
      λ i a h.
          let (stands, stats) = entries i a h in
          let at = renewed-stats p.backends a (length p.heap + i) in
          (
            renewed p.backends a (length p.heap + i),
            stands,
            at,
            subst (IsRenewed p a (renewed p.backends a (length p.heap + i)))
                (sym (ap (load (reconfigure addresses p).heap) at ∙ stats))
                (renewed-IsRenewed p a (length p.heap + i)),
          ),
      kept,
    )

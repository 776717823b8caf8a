-- ===== src/Pool/Invariant.antt =====
-- health.go: what holds of the pool between any two of its operations.
use edge_proxy_go.Base.{
  ℕ, zero, suc, ◌≤◌, ◌<◌, ◌≡◌, refl, ap, Bool, true, List, [], ◌∷◌, map, Option, String, arith, All,
  modify, length,
}
use edge_proxy_go.Pool.Entry.{BackendEntry, BackendPool, BreakerState, closed, half_open}
use edge_proxy_go.Pool.Select.{visit, mark_probe}
use edge_proxy_go.Pool.Select.Sound.{visited}
use edge_proxy_go.Pool.Requests.{settle, settle_at}
use edge_proxy_go.Pool.Admin.{set_state_at}
use edge_proxy_go.Pool.Health.{apply_probe}

-- A closed breaker has counted fewer failures than the threshold, the others at least as many.
abbrev pub Counts : BreakerState → ℕ → Type 0
Counts closed n = n < 3
Counts _ n = 3 ≤ n

pub record IsBreakerOk (e : BackendEntry) : Type 0 where
  pub counted : Counts e.breaker_state e.consecutive_err
  pub probing : e.half_open_in_flight ≡ true → e.breaker_state ≡ half_open

-- References rise along the list, from `lo` and below `hi`: no two entries share statistics.
abbrev pub Ascending : ℕ → List ℕ → ℕ → Type 0
Ascending lo [] hi = lo ≤ hi
Ascending lo (r ∷ rs) hi = (lo ≤ r) × Ascending (suc r) rs hi

abbrev pub refs : List BackendEntry → List ℕ
refs = map λ e. e.stats

pub record IsValid (p : BackendPool) : Type 0 where
  pub breakers : All IsBreakerOk p.backends
  pub owned : Ascending 0 (refs p.backends) (length p.heap)

module _ (f : BackendEntry → BackendEntry) where
  pub All-map :
      (es : List BackendEntry)
      → ((e : BackendEntry) → IsBreakerOk e → IsBreakerOk (f e))
      → All IsBreakerOk es
      → All IsBreakerOk (map f es)
  All-map [] h a = tt
  All-map (e ∷ es) h a = (h e a.0, All-map es h a.1)

  pub All-modify :
      (i : ℕ) (es : List BackendEntry)
      → ((e : BackendEntry) → IsBreakerOk e → IsBreakerOk (f e))
      → All IsBreakerOk es
      → All IsBreakerOk (modify i f es)
  All-modify i [] h a = tt
  All-modify zero (e ∷ es) h a = (h e a.0, a.1)
  All-modify (suc i) (e ∷ es) h a = (a.0, All-modify i es h a.1)

  pub refs-map :
      (es : List BackendEntry)
      → ((e : BackendEntry) → (f e).stats ≡ e.stats)
      → refs (map f es) ≡ refs es
  refs-map [] h = refl
  refs-map (e ∷ es) h = cc (h e, refs-map es h)

  pub refs-modify :
      (i : ℕ) (es : List BackendEntry)
      → ((e : BackendEntry) → (f e).stats ≡ e.stats)
      → refs (modify i f es) ≡ refs es
  refs-modify i [] h = refl
  refs-modify zero (e ∷ es) h = cc (h e)
  refs-modify (suc i) (e ∷ es) h = ap (◌∷◌ e.stats) (refs-modify i es h)

pub visited-IsBreakerOk :
    (now : ℕ) (allowed : Option (List String)) (e : BackendEntry)
    → IsBreakerOk e
    → IsBreakerOk (visited now allowed e)
unfolding visited visit
visited-IsBreakerOk now allowed e v = ground arith

pub visited_stats :
    (now : ℕ) (allowed : Option (List String)) (e : BackendEntry)
    → (visited now allowed e).stats ≡ e.stats
unfolding visited visit
visited_stats now allowed e = ground arith

pub mark_probe-IsBreakerOk : (e : BackendEntry) → IsBreakerOk e → IsBreakerOk (mark_probe e)
unfolding mark_probe
mark_probe-IsBreakerOk e v = ground arith

pub mark_probe_stats : (e : BackendEntry) → (mark_probe e).stats ≡ e.stats
unfolding mark_probe
mark_probe_stats e = ground arith

pub settle-IsBreakerOk :
    (now : ℕ) (failed : Bool) (e : BackendEntry) → IsBreakerOk e → IsBreakerOk (settle now failed e)
unfolding settle
settle-IsBreakerOk now failed e v = ground arith

pub settle_stats :
    (now : ℕ) (failed : Bool) (e : BackendEntry) → (settle now failed e).stats ≡ e.stats
unfolding settle
settle_stats now failed e = ground arith

pub apply_probe-IsBreakerOk :
    (a : String) (ok : Bool) (e : BackendEntry) → IsBreakerOk e → IsBreakerOk (apply_probe a ok e)
unfolding apply_probe
apply_probe-IsBreakerOk a ok e v = ground arith

pub apply_probe_stats :
    (a : String) (ok : Bool) (e : BackendEntry) → (apply_probe a ok e).stats ≡ e.stats
unfolding apply_probe
apply_probe_stats a ok e = ground arith

pub settle_at-IsBreakerOk :
    (now : ℕ) (a : String) (failed : Bool) (es : List BackendEntry)
    → All IsBreakerOk es
    → All IsBreakerOk (settle_at now a failed es)
unfolding settle_at
settle_at-IsBreakerOk now a failed [] v = tt
settle_at-IsBreakerOk now a failed (e ∷ es) v =
    ground (arith, settle-IsBreakerOk now failed e v.0, settle_at-IsBreakerOk now a failed es v.1)

pub refs-settle_at :
    (now : ℕ) (a : String) (failed : Bool) (es : List BackendEntry)
    → refs (settle_at now a failed es) ≡ refs es
unfolding settle_at
refs-settle_at now a failed [] = refl
refs-settle_at now a failed (e ∷ es) =
    ground (arith, settle_stats now failed e, refs-settle_at now a failed es)

pub set_state_at-IsBreakerOk :
    (a action : String) (es : List BackendEntry)
    → All IsBreakerOk es
    → All IsBreakerOk (set_state_at a action es).0
unfolding set_state_at
set_state_at-IsBreakerOk a action [] v = tt
set_state_at-IsBreakerOk a action (e ∷ es) v =
    ground (arith, set_state_at-IsBreakerOk a action es v.1)

pub refs-set_state_at :
    (a action : String) (es : List BackendEntry) → refs (set_state_at a action es).0 ≡ refs es
unfolding set_state_at
refs-set_state_at a action [] = refl
refs-set_state_at a action (e ∷ es) = ground (arith, refs-set_state_at a action es)

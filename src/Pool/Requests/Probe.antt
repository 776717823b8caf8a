-- ===== src/Pool/Requests/Probe.antt =====
-- health.go: the probe of a half-open breaker, from the choice of the backend until it is over.
use edge_proxy_go.Base.{
  ℕ, ◌≡◌, ◌≢◌, ◌⊎◌, subst, Bool, true, List, Option, some, String, Float, arith, get_elem?,
}
use edge_proxy_go.Pool.Entry.{BackendEntry, BackendPool, closed}
use edge_proxy_go.Pool.Select.{expire, mark_probe, next_for, available_count}
use edge_proxy_go.Pool.Select.Eligible.{IsEligible}
use edge_proxy_go.Pool.Select.Sound.{Chosen}
use edge_proxy_go.Pool.Requests.{Token, start_request, finish_request, finish}
use edge_proxy_go.Pool.Admin.{set_backend_state, close}
use edge_proxy_go.Pool.Health.{apply_probe, apply_check}
use edge_proxy_go.Pool.Requests.Probing.{
  IsProbing, Probes, Probes-of_get, Probes-get, Probes-map, Probes-next_for, Probes-available_count,
  Probes-start_request, Probes-settle_at, Probes-set_state_at, apply_probe-IsProbing,
}

-- What may happen to the pool while the probe of a backend is pending: every operation but the end
-- of a request to the backend, a health check that finds it down, and a reload.
pub data Pending ⦃F : Float⦄ (a : String) (p : BackendPool) : BackendPool → Type 0 where
  pending : Pending a p p
  selects :
      {q : BackendPool} (now : ℕ) (allowed : Option (List String))
      → Pending a p q
      → Pending a p (next_for now allowed q).0
  counts : {q : BackendPool} (now : ℕ) → Pending a p q → Pending a p (available_count now q).0
  starts :
      {q : BackendPool} (address : String) → Pending a p q → Pending a p (start_request address q).0
  finishes :
      {q : BackendPool} (now : ℕ) (t : Token) (status_code latency : ℕ) (err : Bool)
      → t.address ≢ a
      → Pending a p q
      → Pending a p (finish now (some t) status_code latency err q)
  administers :
      {q : BackendPool} (address action : String)
      → Pending a p q
      → Pending a p (set_backend_state address action q).0
  checks :
      {q : BackendPool} (address : String) (ok : Bool)
      → (address ≢ a) ⊎ (ok ≡ true)
      → Pending a p q
      → Pending a p (apply_check address ok q)
  closes : {q : BackendPool} → Pending a p q → Pending a p (close q)

Pending-Probes :
    ⦃F : Float⦄ {a : String} (i : ℕ) {p q : BackendPool}
    → Pending a p q
    → Probes a p.backends i
    → Probes a q.backends i
unfolding finish finish_request set_backend_state apply_check close
Pending-Probes i pending h = h
Pending-Probes {a} i (selects {q} now allowed w) h =
    Probes-next_for a i now allowed q (Pending-Probes i w h)
Pending-Probes {a} i (counts {q} now w) h = Probes-available_count a i now q (Pending-Probes i w h)
Pending-Probes {a} i (starts {q} address w) h =
    Probes-start_request a i address q (Pending-Probes i w h)
Pending-Probes {a} i (finishes {q} now t status_code latency err n w) h =
    Probes-settle_at now a t.address _ q.backends i n (Pending-Probes i w h)
Pending-Probes {a} i (administers {q} address action w) h =
    Probes-set_state_at a address action q.backends i (Pending-Probes i w h)
Pending-Probes {a} i (checks {q} address ok fine w) h =
    Probes-map a (apply_probe address ok) (λ e. apply_probe-IsProbing a address ok e fine)
      q.backends i (Pending-Probes i w h)
Pending-Probes i (closes w) h = Pending-Probes i w h

marked-IsProbing :
    (now : ℕ) (allowed : Option (List String)) (e : BackendEntry)
    → IsEligible now allowed e
    → e.breaker_state ≢ closed
    → IsProbing e.address (mark_probe (expire now e))
unfolding mark_probe expire
marked-IsProbing now allowed e g h = ground arith

not-IsEligible_probing :
    (later : ℕ) (others : Option (List String)) (a : String) (e : BackendEntry)
    → IsProbing a e
    → ¬ IsEligible later others e
not-IsEligible_probing later others a e p g = ground arith

-- A choice of a backend whose breaker is not closed is a probe. From it on the backend is eligible
-- at no time and for no route, whatever is selected, started, finished, checked and administered,
-- until a request to the backend ends, a health check finds it down, or the pool is reloaded.
pub Chosen-probe_exclusive :
    ⦃F : Float⦄ {now : ℕ} {allowed : Option (List String)} {p q r : BackendPool} {address : String}
    (c : Chosen now allowed p q address)
    → c.entry.breaker_state ≢ closed
    → Pending address q r
    → (later : ℕ) (others : Option (List String))
    → (e : BackendEntry) × (get_elem? r.backends c.index ≡ some e)
      × (e.address ≡ address)
      × (¬ IsEligible later others e)
Chosen-probe_exclusive {now} {allowed} {q = q} {r = r} {address} c h w later others =
    let marked =
      Probes-of_get address q.backends c.index (mark_probe (expire now c.entry)) c.marked (
        subst (λ a. IsProbing a (mark_probe (expire now c.entry))) c.named
          (marked-IsProbing now allowed c.entry c.eligible h)) in
    let (e, stands, probing) =
      Probes-get address r.backends c.index (Pending-Probes c.index w marked) in
    (e, stands, probing.0, not-IsEligible_probing later others address e probing)

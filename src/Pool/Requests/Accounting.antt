-- ===== src/Pool/Requests/Accounting.antt =====
-- health.go: the statistics of requests in flight, through references that closures share with the
-- pool's entries, and what `reconfigure` does to them.
use edge_proxy_go.Base.{
  ℕ, zero, suc, ◌+◌, ◌<◌, ◌≡◌, refl, ap, subst, ◌∙◌, ◌≢◌, inl, inr, Bool, List, [], ◌∷◌, ◌++◌,
  Option, none, some, String, Float, arith, ℤ, pos, +ℤ_cancel, pos-+ℤ_one, pos-ℤ_one, length,
  modify, ◌==◌, if◌then◌else◌, Option-cases,
}
use edge_proxy_go.Pool.Entry.{BackendStats, BackendEntry, BackendPool, load}
use edge_proxy_go.Pool.Requests.{
  Token, find, start_request, finish_request, is_failure, record_finish, record_start, finish,
}
use edge_proxy_go.Pool.Steps.{length-modify}

pub load-modify_self :
    (i : ℕ) (f : BackendStats → BackendStats) (h : List BackendStats)
    → i < length h
    → load (modify i f h) i ≡ f (load h i)
load-modify_self i f [] l = elim l [ ]
load-modify_self zero f (s ∷ h) l = refl
load-modify_self (suc i) f (s ∷ h) l = load-modify_self i f h (omega arith)

pub load-modify_other :
    (i j : ℕ) (f : BackendStats → BackendStats) (h : List BackendStats)
    → i ≢ j
    → load (modify i f h) j ≡ load h j
load-modify_other i j f [] n = refl
load-modify_other zero zero f (s ∷ h) n = absurd (n refl)
load-modify_other zero (suc j) f (s ∷ h) n = refl
load-modify_other (suc i) zero f (s ∷ h) n = refl
load-modify_other (suc i) (suc j) f (s ∷ h) n = load-modify_other i j f h (λ e. n (ap suc e))

-- How many of the closures in flight share the statistics at `r`.
abbrev pub sharing : ℕ → List Token → ℕ
sharing r [] = 0
sharing r (t ∷ ts) = if t.stats == r then suc (sharing r ts) else sharing r ts

abbrev pub put : Option Token → List Token → List Token
put none ts = ts
put (some t) ts = t ∷ ts

-- Traffic between two reloads: a pool, and the closures of the requests in flight on it. The
-- operations that keep the statistics (choices, health checks, administration) may come between.
pub data Traffic ⦃F : Float⦄ : BackendPool → List Token → Type 0 where
  idle : (p : BackendPool) → ((r : ℕ) → (load p.heap r).active_requests ≡ pos 0) → Traffic p []
  starts :
      {p : BackendPool} {ts : List Token} (address : String)
      → Traffic p ts
      → Traffic (start_request address p).0 (put (start_request address p).1 ts)
  finishes :
      {p : BackendPool} {ts us : List Token} (before later : List Token) (t : Token)
      (now status_code latency : ℕ) (err : Bool)
      → Traffic p ts
      → ts ≡ before ++ t ∷ later
      → us ≡ before ++ later
      → Traffic (finish now (some t) status_code latency err p) us
  keeps : {p q : BackendPool} {ts : List Token} → Traffic p ts → q.heap ≡ p.heap → Traffic q ts

abbrev pub active : BackendPool → ℕ → ℤ
active p r = (load p.heap r).active_requests

pub heap-finish :
    (now : ℕ) (t : Token) (status_code latency : ℕ) (err : Bool) (p : BackendPool)
    → (finish now (some t) status_code latency err p).heap
      ≡ modify t.stats (record_finish status_code latency (is_failure status_code err)) p.heap
unfolding finish finish_request
heap-finish now t status_code latency err p = refl

finished_of_started :
    (status_code latency : ℕ) (failed : Bool) (started s : BackendStats)
    → started ≡ record_start s
    → record_finish status_code latency failed started ≡ record s {
      requests = suc s.requests;
      total_latency_ns = s.total_latency_ns + latency;
      last_status = status_code;
      errors = if failed then suc s.errors else s.errors;
    }
unfolding record_finish record_start
finished_of_started status_code latency failed started s e = rw e (
    ap
      (λ n. record s {
        active_requests = n;
        requests = suc s.requests;
        total_latency_ns = s.total_latency_ns + latency;
        last_status = status_code;
        errors = if failed then suc s.errors else s.errors;
      })
      (+ℤ_cancel s.active_requests (pos 1)))

-- Finishing a started request, with nothing between, leaves the count of active requests as it was
-- and adds the request, its latency, its status and, if it failed, an error.
pub finish-start :
    (now : ℕ) (address : String) (status_code latency : ℕ) (err : Bool) (p : BackendPool)
    (e : BackendEntry)
    → find address p.backends ≡ some e
    → e.stats < length p.heap
    → let (q, t) = start_request address p in
      let s = load p.heap e.stats in
      load (finish now t status_code latency err q).heap e.stats ≡ record s {
        requests = suc s.requests;
        total_latency_ns = s.total_latency_ns + latency;
        last_status = status_code;
        errors = if is_failure status_code err then suc s.errors else s.errors;
      }
unfolding start_request finish finish_request
finish-start now address status_code latency err p e h l =
    rw (h, start_request)
      (load-modify_self e.stats _ _ (omega (arith, length-modify e.stats record_start p.heap))
        ∙ finished_of_started status_code latency _ _ _
            (load-modify_self e.stats record_start p.heap l))

sharing-append : (r : ℕ) (xs ys : List Token) → sharing r (xs ++ ys) ≡ sharing r xs + sharing r ys
sharing-append r [] ys = omega arith
sharing-append r (t ∷ xs) ys = ground (arith, sharing-append r xs ys)

sharing-remove :
    (r : ℕ) (before later : List Token) (t : Token)
    → sharing r (before ++ t ∷ later)
      ≡ (if t.stats == r then suc (sharing r (before ++ later)) else sharing r (before ++ later))
sharing-remove r before later t =
    ground (arith, sharing-append r before (t ∷ later), sharing-append r before later)

length-start :
    (address : String) (p : BackendPool) → length (start_request address p).0.heap ≡ length p.heap
unfolding start_request
length-start address p = elim (Option-cases (find address p.backends)) [
  | inl e ↦ rw (e, start_request) refl
  | inr (b, e) ↦ rw (e, start_request) (length-modify b.stats record_start p.heap)
]

pub length-finish :
    (now : ℕ) (t : Token) (status_code latency : ℕ) (err : Bool) (p : BackendPool)
    → length (finish now (some t) status_code latency err p).heap ≡ length p.heap
length-finish now t status_code latency err p =
    rw (heap-finish now t status_code latency err p) (length-modify t.stats _ p.heap)

start-active :
    (address : String) (p : BackendPool) (ts : List Token) (r : ℕ)
    → r < length p.heap
    → active p r ≡ pos (sharing r ts)
    → active (start_request address p).0 r ≡ pos (sharing r (put (start_request address p).1 ts))
unfolding start_request record_start
start-active address p ts r l h = elim (Option-cases (find address p.backends)) [
  | inl e ↦ rw (e, start_request) h
  | inr (b, e) ↦
      rw (e, start_request)
        (ground (
          arith,
          load-modify_self b.stats record_start p.heap,
          load-modify_other b.stats r record_start p.heap,
          pos-+ℤ_one (sharing r ts),
        ))
]

finish-active :
    (now : ℕ) (t : Token) (status_code latency : ℕ) (err : Bool) (p : BackendPool) (n r : ℕ)
    → r < length p.heap
    → active p r ≡ pos (if t.stats == r then suc n else n)
    → active (finish now (some t) status_code latency err p) r ≡ pos n
unfolding record_finish
finish-active now t status_code latency err p n r l h =
    let f = record_finish status_code latency (is_failure status_code err) in
    rw (heap-finish now t status_code latency err p) (
      ground (
        arith,
        load-modify_self t.stats f p.heap,
        load-modify_other t.stats r f p.heap,
        pos-ℤ_one n,
      ))

-- Between reloads, the active requests that a backend's statistics show are the requests in flight
-- that were started on it.
pub Traffic-active :
    ⦃F : Float⦄ {p : BackendPool} {ts : List Token}
    → Traffic p ts
    → (r : ℕ) → r < length p.heap
    → active p r ≡ pos (sharing r ts)
Traffic-active (idle p h) r l = h r
Traffic-active (starts {p = p} {ts = ts} address t) r l =
    let l' : r < length p.heap = rw (← length-start address p) l in
    start-active address p ts r l' (Traffic-active t r l')
Traffic-active
      (finishes {p = p} {ts = ts} {us = us} before later t now status_code latency err tr e e') r
      l =
    let l' : r < length p.heap = rw (← length-finish now t status_code latency err p) l in
    finish-active now t status_code latency err p (sharing r us) r l'
      (Traffic-active tr r l' ∙ ap pos (rw (e, e') (sharing-remove r before later t)))
Traffic-active (keeps {p = p} {q = q} {ts = ts} tr e) r l =
    ap (λ h. (load h r).active_requests) e ∙ Traffic-active tr r (subst (λ h. r < length h) e l)

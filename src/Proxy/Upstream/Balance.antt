-- ===== src/Proxy/Upstream/Balance.antt =====
-- main.go: every request that `roundTripToBackend` starts on the pool is finished, by an error or by
-- its response's body.
use mathlib.Core.Option.{some-injective}
use edge_proxy_go.Base.{
  ℕ, ◌≡◌, refl, ap, subst, Bool, true, false, Option, none, some, List, [], ◌∷◌, String, Float,
  if◌then◌else◌, inl, inr, Bool-cases,
}
use edge_proxy_go.Pool.Entry.{BackendPool, BackendEntry}
use edge_proxy_go.Pool.Select.{Candidate, next_for, collect, sort_stable, choose, choose_from}
use edge_proxy_go.Pool.Requests.{Token, start_request, finish}
use edge_proxy_go.Pool.Requests.Accounting.{Traffic, put, keeps, finishes}
use edge_proxy_go.Pool.Steps.{Step, selects, Reach, after}
use edge_proxy_go.Proxy.Forward.Invariant.{Keeps}
use edge_proxy_go.Proxy.Upstream.{
  Response, Network, TrackedBody, World, finish_since, received, round_trip_to_backend, finish_body,
  close_body, choose_for, upstream,
}

module _ ⦃F : Float⦄ where
  choose_from-heap :
      (p : BackendPool) (es : List BackendEntry) (cs : List (Candidate F.Num))
      → (choose_from p es cs).0.heap ≡ p.heap
  unfolding choose
  choose_from-heap p es [] = refl
  choose_from-heap p es (c ∷ cs) = refl

  pub heap-next_for :
      (now : ℕ) (allowed : Option (List String)) (p : BackendPool)
      → (next_for now allowed p).0.heap ≡ p.heap
  unfolding next_for
  heap-next_for now allowed p =
      choose_from-heap p (collect p.heap now allowed 0 p.backends).0
        (sort_stable (collect p.heap now allowed 0 p.backends).1)

-- The closures in flight, with that of a body that is not finished.
abbrev pub live : Option TrackedBody → List Token → List Token
live none ts = ts
live (some b) ts = if b.finished then ts else put b.token ts

abbrev IsFinished : Option TrackedBody → Type 0
IsFinished none = Unit
IsFinished (some b) = b.finished ≡ true

module _ ⦃F : Float⦄ {N : Type 0} (net : Network N) (start : BackendPool) (ts : List Token) where
  -- The pool is reachable, and its traffic is that of `ts` and of the body.
  pub record Open (w : World N) : Type 0 where
    pub reached : Reach start w.pool
    pub traffic : Traffic w.pool (live w.body ts)

  -- The traffic is that of `ts` alone.
  pub record Settled (w : World N) : Type 0 where
    pub reached : Reach start w.pool
    pub traffic : Traffic w.pool ts
    pub finished : IsFinished w.body

  live-finished : (b : Option TrackedBody) → IsFinished b → live b ts ≡ ts
  live-finished none h = refl
  live-finished (some b) h = rw h refl

  pub Settled-Open : (w : World N) → Settled w → Open w
  Settled-Open w h = record {
    reached = h.reached;
    traffic = rw (live-finished w.body h.finished) h.traffic;
  }

  finish-Traffic :
      (now status_code latency : ℕ) (err : Bool) (token : Option Token) (p : BackendPool)
      → Reach start p
      → Traffic p (put token ts)
      → Reach start (finish now token status_code latency err p)
        × Traffic (finish now token status_code latency err p) ts
  unfolding finish
  finish-Traffic now status_code latency err none p r t = (r, t)
  finish-Traffic now status_code latency err (some token) p r t = (
    after r (Step.finishes now (some token) status_code latency err),
    finishes [] ts token now status_code latency err t refl refl,
  )

  finish_since-Settled :
      (token : Option Token) (time status_code : ℕ) (err : Bool) (w : World N)
      → Reach start w.pool
      → Traffic w.pool (put token ts)
      → IsFinished w.body
      → Settled (finish_since net token time status_code err w)
  unfolding finish_since
  finish_since-Settled token time status_code err w re t f =
      let (r, u) = finish-Traffic _ status_code _ err token w.pool re t in
      record { reached = r; traffic = u; finished = f }

  received-Open :
      (token : Option Token) (time : ℕ) (w : World N) (o : Option Response)
      → Reach start w.pool
      → Traffic w.pool (put token ts)
      → IsFinished w.body
      → Open (received net token time w o).0
        × ((received net token time w o).1 ≡ none → Settled (received net token time w o).0)
  received-Open token time w (some r) re t f = (record { reached = re; traffic = t }, λ e. cc e)
  received-Open token time w none re t f =
      let s = finish_since-Settled token time 0 true w re t f in (Settled-Open _ s, λ e. s)

  finish_body-Settled :
      (b : Option TrackedBody) (w : World N)
      → Reach start w.pool
      → Traffic w.pool (live b ts)
      → w.body ≡ b
      → Settled (finish_body net b w)
  unfolding finish_since
  finish_body-Settled none w re t e = record { reached = re; traffic = t; finished = rw e tt }
  finish_body-Settled (some b) w re t e = elim (Bool-cases b.finished) [
    | inl f ↦ rw f record {
      reached = re;
      traffic = subst (Traffic w.pool) (live-finished (some b) f) t;
      finished = rw e f;
    }
    | inr f ↦
        let (r, u) =
          finish-Traffic _ b.response.status _ false b.token w.pool re
            (subst (Traffic w.pool) (ap (λ x. if x then ts else put b.token ts) f) t) in
        rw f record { reached = r; traffic = u; finished = refl }
  ]

  pub closed_body-Settled : (w : World N) → Open w → Settled (close_body net w)
  unfolding close_body
  closed_body-Settled w h = finish_body-Settled w.body w h.reached h.traffic refl

  pub upstream-Keeps : (allowed : Option (List String)) → Keeps (upstream net allowed) Settled Open
  unfolding choose_for round_trip_to_backend
  upstream-Keeps allowed =
      let arrives : (w : World N) (b : String)
          → Settled w
          → Open (round_trip_to_backend net w b).0
            × ((round_trip_to_backend net w b).1 ≡ none
                → Settled (round_trip_to_backend net w b).0) =
        λ w b h.
          received-Open (start_request b w.pool).1 (net.now w.net).1
            (record w { net = (net.send (net.now w.net).0 b).0; pool = (start_request b w.pool).0 })
            (net.send (net.now w.net).0 b).1 (after h.reached (Step.starts b))
            (Traffic.starts b h.traffic) h.finished in
      record {
        settled_open = Settled-Open;
        rewinds = λ w v h e. subst Settled (some-injective w v e) h;
        chooses = λ w h. record {
          reached = after h.reached (selects (net.now w.net).1 allowed);
          traffic = keeps h.traffic (heap-next_for (net.now w.net).1 allowed w.pool);
          finished = h.finished;
        };
        fails = λ w b h e. (arrives w b h).1 e;
        answers = λ w b h. (arrives w b h).0;
        closes = closed_body-Settled;
      }

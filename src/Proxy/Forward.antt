-- ===== src/Proxy/Forward.antt =====
-- main.go: the retry loop of `proxyHandler` and the answer after it.
pub mod Outcomes
pub mod Count
pub mod Invariant
use edge_proxy_go.Base.{
  ℕ, zero, suc, ◌+◌, ◌≤◌, ◌<◌, ◌≡◌, ◌≢◌, refl, ◌⊎◌, inl, inr, Bool, true, false, not, ◌&&◌, ◌||◌,
  Option, none, some, String, ℤ, pos, negsuc, is_gt_0, arith, ltb, leb, ◌==ₛ◌, if◌then◌else◌,
}
use edge_proxy_go.Config.Types.{RouteConfig}

-- What the loop calls, on a state `W` of the pool, the backends and the request's body: `rewind` is
-- `r.GetBody` where the request has one, and does nothing where it has none; `none` is its error.
-- `choose` is `pool.nextFor(allowed)`, and `round_trip` is `roundTripToBackend`, which gives a
-- status code or, for an error, `none`; `close` is `response.Body.Close()` for its latest response.
pub record Upstream {ℓ} (W : Type ℓ) : Type ℓ where
  pub rewind : W → Option W
  pub choose : W → W × String
  pub round_trip : W → String → W × Option ℕ
  pub close : W → W

pub record Reply : Type 0 where
  pub status : ℕ
  pub closed : Bool

-- The variables `backend`, `response` and `err`, of which the last is nil or not.
pub record Sent : Type 0 where
  pub backend : String
  pub response : Option Reply
  pub failed : Bool

abbrev pub nothing_sent : Sent
nothing_sent = record { backend = ""; response = none; failed = false }

-- `status < 502 || status > 504`
abbrev pub is_final : ℕ → Bool
is_final status = ltb status 502 || ltb 504 status

-- The end of a round: whether the loop breaks, and the variables.
unfoldable pub after_trip : Bool → String → Option ℕ → Bool × Sent
after_trip last backend none = (false, record { backend = backend; response = none; failed = true })
after_trip last backend (some status) =
    let stop = is_final status || last in
    (
      stop,
      record {
        backend = backend;
        response = some record { status = status; closed = not stop };
        failed = false;
      },
    )

module _ {ℓ} {W : Type ℓ} (U : Upstream W) where
  -- What a round does with its response at its end: unless the loop breaks, a response is closed.
  abbrev pub close_unless : Bool → Option ℕ → W → W
  close_unless true outcome w = w
  close_unless false none w = w
  close_unless false (some status) w = U.close w

  -- A round from its choice of a backend on.
  unfoldable pub try_backend : Bool → W → Sent → W × Bool × Sent
  try_backend last w s =
      let (w', backend) = U.choose w in
      let (w'', outcome) = U.round_trip w' backend in
      let (stop, s') = after_trip last backend outcome in
      if backend ==ₛ ""
      then (w', true, record s { backend = "" })
      else (close_unless stop outcome w'', stop, s')

  abbrev pub try_rewound : Bool → W → Sent → Option W → W × Bool × Sent
  try_rewound last w s none = (w, true, record s { failed = true })
  try_rewound last w s (some w') = try_backend last w' s

  -- A round: `first` if `attempt` is 0, `last` if it is `retries`.
  unfoldable pub round : Bool → Bool → W → Sent → W × Bool × Sent
  round first last w s = try_rewound last w s (if first then some w else U.rewind w)

  -- The loop, with the number of retries that are left.
  unfoldable pub attempts : Bool → ℕ → W → Sent → W × Sent
  attempts first zero w s = let (w', _, s') = round first true w s in (w', s')
  attempts first (suc n) w s =
      let (w', stop, s') = round first false w s in
      let rest = attempts false n w' s' in if stop then (w', s') else rest

  -- A negative number of retries makes no attempt.
  unfoldable pub forward : ℤ → W → W × Sent
  forward (pos n) w = attempts true n w nothing_sent
  forward (negsuc n) w = (w, nothing_sent)

pub data Answer : Type 0 where
  refused : ℕ → Answer
  relayed : String → Reply → Answer

abbrev pub answer_of : ℕ → String → Bool → Option Reply → Answer
answer_of code backend failed none = refused code
answer_of code backend true (some reply) = refused code
answer_of code backend false (some reply) = relayed backend reply

-- The code after the loop; `expired` tells if the deadline has passed.
unfoldable pub answer : Bool → Sent → Answer
answer expired s =
    let code = if expired then 504 else if s.backend ==ₛ "" then 503 else 502 in
    answer_of code s.backend s.failed s.response

-- The retries of the matched route; a method but GET and HEAD has none.
unfoldable pub retries_for : Option RouteConfig → String → ℤ
retries_for none method = pos 0
retries_for (some route) method =
    if is_gt_0 route.retries && not (method ==ₛ "GET") && not (method ==ₛ "HEAD")
    then pos 0
    else route.retries

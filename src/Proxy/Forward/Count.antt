-- ===== src/Proxy/Forward/Count.antt =====
-- main.go: how often the retry loop of `proxyHandler` asks a backend.
use edge_proxy_go.Base.{
  ℕ, zero, suc, ◌+◌, ◌≤◌, ◌≡◌, refl, inl, inr, Bool, true, false, ◌||◌, Option, none, some, String,
  ℤ, pos, pos_part, negsuc, arith, ◌==ₛ◌, if◌then◌else◌, Bool-cases,
}
use edge_proxy_go.Config.Types.{RouteConfig}
use edge_proxy_go.Proxy.Forward.{
  Upstream, Sent, close_unless, nothing_sent, try_backend, try_rewound, round, attempts, forward,
  retries_for,
}

abbrev with_count {ℓ} : {W : Type ℓ} → ℕ → Option W → Option (W × ℕ)
with_count k none = none
with_count k (some w) = some (w, k)

-- The same upstream, with a count of its round trips.
abbrev pub counted {ℓ} : {W : Type ℓ} → Upstream W → Upstream (W × ℕ)
counted U = record {
  rewind = λ v. with_count v.1 (U.rewind v.0);
  choose = λ v. let (w, b) = U.choose v.0 in ((w, v.1), b);
  round_trip = λ v b. let (w, o) = U.round_trip v.0 b in ((w, suc v.1), o);
  close = λ v. (U.close v.0, v.1);
}

module _ {ℓ} {W : Type ℓ} (U : Upstream W) where
  close_unless-count :
      (stop : Bool) (o : Option ℕ) (v : W × ℕ) → (close_unless (counted U) stop o v).1 ≡ v.1
  close_unless-count true o v = refl
  close_unless-count false none v = refl
  close_unless-count false (some status) v = refl

  try_backend-count :
      (last : Bool) (v : W × ℕ) (s : Sent) → (try_backend (counted U) last v s).0.1 ≤ suc v.1
  unfolding try_backend
  try_backend-count last v s = elim (Bool-cases ((U.choose v.0).1 ==ₛ "")) [
    | inl e ↦ rw e (omega arith)
    | inr e ↦ rw e (omega (arith, close_unless-count _ _ _))
  ]

  round-count :
      (first last : Bool) (v : W × ℕ) (s : Sent) → (round (counted U) first last v s).0.1 ≤ suc v.1
  unfolding round
  round-count true last v s = try_backend-count last v s
  round-count false last v s = rewound (U.rewind v.0)
    where
      rewound : (o : Option W) → (try_rewound (counted U) last v s (with_count v.1 o)).0.1 ≤ suc v.1
      rewound none = omega arith
      rewound (some w) = try_backend-count last (w, v.1) s

  attempts-count :
      (n : ℕ) (first : Bool) (v : W × ℕ) (s : Sent)
      → (attempts (counted U) first n v s).0.1 ≤ suc (v.1 + n)
  unfolding attempts
  attempts-count zero first v s = omega (arith, round-count first true v s)
  attempts-count (suc n) first v s =
      let (v', stop, s') = round (counted U) first false v s in
      let one = round-count first false v s in
      let rest = attempts-count n false v' s' in
      elim (Bool-cases stop) [
        | inl e ↦ rw e (omega (arith, one))
        | inr e ↦ rw e (omega (arith, one, rest))
      ]

  forward-bound :
      (retries : ℤ) (w : W) → (forward (counted U) retries (w, 0)).0.1 ≤ suc (pos_part retries)
  unfolding forward
  forward-bound (pos n) w = omega (arith, attempts-count n true (w, 0) nothing_sent)
  forward-bound (negsuc n) w = omega arith

-- The retries that the route has, if the method is one that may be sent again.
abbrev pub retries_of : Option RouteConfig → String → ℕ
retries_of none method = 0
retries_of (some route) method =
    if method ==ₛ "GET" || method ==ₛ "HEAD" then pos_part route.retries else 0

retries_for-bound :
    (route : Option RouteConfig) (method : String)
    → pos_part (retries_for route method) ≤ retries_of route method
unfolding retries_for
retries_for-bound none method = omega arith
retries_for-bound (some route) method = ground arith

module _ {ℓ} {W : Type ℓ} (U : Upstream W) where
  -- The loop asks backends at most once more than the route has retries, and at most once if the
  -- method is neither GET nor HEAD.
  pub forward-count :
      (route : Option RouteConfig) (method : String) (w : W)
      → (forward (counted U) (retries_for route method) (w, 0)).0.1 ≤ suc (retries_of route method)
  forward-count route method w =
      omega (arith, forward-bound U (retries_for route method) w, retries_for-bound route method)

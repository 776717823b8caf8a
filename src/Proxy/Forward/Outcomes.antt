-- ===== src/Proxy/Forward/Outcomes.antt =====
-- main.go: what the retry loop of `proxyHandler` leaves in its variables, and how often it asks a
-- backend.
use edge_proxy_go.Base.{
  ℕ, zero, suc, ◌≡◌, ◌≢◌, refl, ◌⊎◌, inl, inr, Bool, true, false, ◌||◌, Option, none, some, String,
  ℤ, pos, negsuc, ◌==ₛ◌, if◌then◌else◌, Bool-cases, ne_of_==ₛ, ==ₛ_false, ==ₛ_refl,
}
use edge_proxy_go.Proxy.Forward.{
  Upstream, Reply, Sent, nothing_sent, is_final, after_trip, try_backend, try_rewound, round,
  attempts, forward, relayed, answer, answer_of,
}

-- A reply that the loop went on from: a status from 502 to 504, and its body closed.
abbrev pub IsPassedOver : Reply → Type 0
IsPassedOver reply = (is_final reply.status ≡ false) × (reply.closed ≡ true)

-- The variables before a round.
abbrev IsRetrying : Option Reply → Type 0
IsRetrying none = Unit
IsRetrying (some reply) = IsPassedOver reply

abbrev IsFresh : Bool → String → Option Reply → Type 0
IsFresh failed backend none = Unit
IsFresh failed backend (some reply) =
    (failed ≡ true) ⊎ (reply.closed ≡ false × backend ≢ "") ⊎ (IsPassedOver reply × backend ≡ "")

abbrev IsAfter : Bool → Sent → Type 0
IsAfter true s = IsFresh s.failed s.backend s.response
IsAfter false s = IsRetrying s.response

IsAfter-none :
    (stop failed : Bool) (b : String)
    → IsAfter stop record { backend = b; response = none; failed = failed }
IsAfter-none true failed b = tt
IsAfter-none false failed b = tt

after_trip-IsAfter :
    (last : Bool) (backend : String) (o : Option ℕ)
    → backend ≢ ""
    → let (stop, s) = after_trip last backend o in IsAfter (stop || last) s
unfolding after_trip
after_trip-IsAfter last backend none n = IsAfter-none last true backend
after_trip-IsAfter true backend (some status) n = elim (Bool-cases (is_final status)) [
  | inl e ↦ rw e (inr (inl (refl, n)))
  | inr e ↦ rw e (inr (inl (refl, n)))
]
after_trip-IsAfter false backend (some status) n = elim (Bool-cases (is_final status)) [
  | inl e ↦ rw e (inr (inl (refl, n)))
  | inr e ↦ rw e (e, refl)
]

-- Without a backend, the last reply stays.
IsFresh-dry : (failed : Bool) (r : Option Reply) → IsRetrying r → IsFresh failed "" r
IsFresh-dry failed none h = tt
IsFresh-dry failed (some reply) h = inr (inr (h, refl))

IsFresh-failed : (backend : String) (r : Option Reply) → IsFresh true backend r
IsFresh-failed backend none = tt
IsFresh-failed backend (some reply) = inl refl

IsFresh-of_last :
    (stop : Bool) (s : Sent) → IsAfter (stop || true) s → IsFresh s.failed s.backend s.response
IsFresh-of_last true s h = h
IsFresh-of_last false s h = h

IsFresh-of_rest {ℓ} :
    {W : Type ℓ} (stop : Bool) (a b : W × Sent)
    → IsAfter (stop || false) a.1
    → (IsRetrying a.1.response → IsFresh b.1.failed b.1.backend b.1.response)
    → let s = (if stop then a else b).1 in IsFresh s.failed s.backend s.response
IsFresh-of_rest true a b h f = h
IsFresh-of_rest false a b h f = f h

-- An answer relays the reply of the variables, unless there is an error.
answer_of-relayed :
    (code : ℕ) (b backend : String) (failed : Bool) (r : Option Reply) (reply : Reply)
    → IsFresh failed b r
    → answer_of code b failed r ≡ relayed backend reply
    → (reply.closed ≡ false × backend ≢ "") ⊎ (IsPassedOver reply × backend ≡ "")
answer_of-relayed code b backend failed none reply h e = cc e
answer_of-relayed code b backend true (some r) reply h e = cc e
answer_of-relayed code b backend false (some r) reply (inl t) e = cc t
answer_of-relayed code b backend false (some r) reply (inr (inl (o, n))) e =
    inl (cc (o, e), λ n'. n (cc (n', e)))
answer_of-relayed code b backend false (some r) reply (inr (inr ((f, c), n))) e =
    inr ((cc (f, e), cc (c, e)), cc (n, e))

module _ {ℓ} {W : Type ℓ} (U : Upstream W) where
  try_backend-IsAfter :
      (last : Bool) (w : W) (s : Sent)
      → IsRetrying s.response
      → let (_, stop, s') = try_backend U last w s in IsAfter (stop || last) s'
  unfolding try_backend
  try_backend-IsAfter last w s h = elim (Bool-cases ((U.choose w).1 ==ₛ "")) [
    | inl e ↦ rw e (IsFresh-dry s.failed s.response h)
    | inr e ↦ rw e (after_trip-IsAfter last _ _ (ne_of_==ₛ _ "" e))
  ]

  try_rewound-IsAfter :
      (last : Bool) (w : W) (s : Sent) (o : Option W)
      → IsRetrying s.response
      → let (_, stop, s') = try_rewound U last w s o in IsAfter (stop || last) s'
  try_rewound-IsAfter last w s none h = IsFresh-failed s.backend s.response
  try_rewound-IsAfter last w s (some w') h = try_backend-IsAfter last w' s h

  attempts-IsFresh :
      (n : ℕ) (first : Bool) (w : W) (s : Sent)
      → IsRetrying s.response
      → let s' = (attempts U first n w s).1 in IsFresh s'.failed s'.backend s'.response
  unfolding attempts round
  attempts-IsFresh zero first w s h =
      IsFresh-of_last _ _ (try_rewound-IsAfter true w s (if first then some w else U.rewind w) h)
  attempts-IsFresh (suc n) first w s h =
      let (w', stop, s') = round U first false w s in
      IsFresh-of_rest stop (w', s') (attempts U false n w' s')
        (try_rewound-IsAfter false w s (if first then some w else U.rewind w) h)
        (attempts-IsFresh n false w' s')

  forward-IsFresh :
      (retries : ℤ) (w : W)
      → let s = (forward U retries w).1 in IsFresh s.failed s.backend s.response
  unfolding forward
  forward-IsFresh (pos n) w = attempts-IsFresh n true w nothing_sent tt
  forward-IsFresh (negsuc n) w = tt

  -- A reply that a client gets is an open one of a backend, or else it is closed, it has a status
  -- from 502 to 504, and there is no backend.
  pub answer-relayed :
      (expired : Bool) (retries : ℤ) (w : W) (backend : String) (reply : Reply)
      → answer expired (forward U retries w).1 ≡ relayed backend reply
      → (reply.closed ≡ false × backend ≢ "") ⊎ (IsPassedOver reply × backend ≡ "")
  unfolding answer
  answer-relayed expired retries w backend reply e =
      let s = (forward U retries w).1 in
      answer_of-relayed _ s.backend backend s.failed s.response reply (forward-IsFresh retries w) e

  -- A round that passes an answer over.
  round-passed :
      (w w1 w2 : W) (backend : String) (status : ℕ)
      → U.choose w ≡ (w1, backend)
      → backend ≢ ""
      → U.round_trip w1 backend ≡ (w2, some status)
      → is_final status ≡ false
      → round U true false w nothing_sent ≡ (
        U.close w2,
        false,
        record {
          backend = backend;
          response = some record { status = status; closed = true };
          failed = false;
        },
      )
  unfolding round try_backend after_trip
  round-passed w w1 w2 backend status c b t f = rw (c, ==ₛ_false backend "" b, t, f) refl

  -- A round that finds no backend.
  round-dry :
      (last : Bool) (w w' w'' : W) (s : Sent)
      → U.rewind w ≡ some w'
      → U.choose w' ≡ (w'', "")
      → round U false last w s ≡ (w'', true, record s { backend = "" })
  unfolding round try_backend
  round-dry last w w' w'' s r c = rw (r, c, ==ₛ_refl "") refl

  -- If the first backend answers with a status from 502 to 504, and no backend is left for the retry
  -- that the route allows, then the client gets that answer, whose body is closed, without a
  -- backend, and no 503.
  pub answer-dry :
      (expired : Bool) (n : ℕ) (w w1 w2 w3 w4 : W) (backend : String) (status : ℕ)
      → U.choose w ≡ (w1, backend)
      → backend ≢ ""
      → U.round_trip w1 backend ≡ (w2, some status)
      → is_final status ≡ false
      → U.rewind (U.close w2) ≡ some w3
      → U.choose w3 ≡ (w4, "")
      → answer expired (forward U (pos (suc n)) w).1
        ≡ relayed "" record { status = status; closed = true }
  unfolding answer forward attempts
  answer-dry expired zero w w1 w2 w3 w4 backend status c b t f r c' =
      rw (round-passed w w1 w2 backend status c b t f, round-dry true (U.close w2) w3 w4 _ r c')
        refl
  answer-dry expired (suc n) w w1 w2 w3 w4 backend status c b t f r c' =
      rw (round-passed w w1 w2 backend status c b t f, round-dry false (U.close w2) w3 w4 _ r c')
        refl

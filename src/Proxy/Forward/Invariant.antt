-- ===== src/Proxy/Forward/Invariant.antt =====
-- main.go: what the retry loop of `proxyHandler` keeps of the state of the pool and the backends.
use edge_proxy_go.Base.{
  ℕ, zero, suc, ◌≡◌, refl, ◌⊎◌, inl, inr, Bool, true, false, ◌||◌, Option, none, some, String, ℤ,
  pos, negsuc, ◌==ₛ◌, if◌then◌else◌, Bool-cases,
}
use edge_proxy_go.Proxy.Forward.{
  Upstream, Reply, Sent, nothing_sent, is_final, after_trip, close_unless, try_backend, try_rewound,
  round, attempts, forward,
}

-- `Settled` holds between the rounds; `Open` holds while a response may be open.
pub record Keeps {ℓ} {W : Type ℓ} (U : Upstream W) (Settled Open : W → Type 0) : Type ℓ where
  pub settled_open : (w : W) → Settled w → Open w
  pub rewinds : (w v : W) → Settled w → U.rewind w ≡ some v → Settled v
  pub chooses : (w : W) → Settled w → Settled (U.choose w).0
  pub fails :
      (w : W) (b : String) → Settled w → (U.round_trip w b).1 ≡ none → Settled (U.round_trip w b).0
  pub answers : (w : W) (b : String) → Settled w → Open (U.round_trip w b).0
  pub closes : (w : W) → Open w → Settled (U.close w)

-- The state after a round: it is settled, unless the variables hold an open response and no error.
abbrev pub IsLeft {ℓ} :
    {W : Type ℓ} → (W → Type 0) → (W → Type 0) → Option Reply → Bool → W → Type 0
IsLeft Settled Open none failed w = Settled w
IsLeft Settled Open (some r) failed w =
    (r.closed ≡ true × Settled w) ⊎ (r.closed ≡ false × failed ≡ false × Open w)

module _ {ℓ} {W : Type ℓ} (U : Upstream W) {Settled Open : W → Type 0}
    (k : Keeps U Settled Open) where
  -- Before a round the state is settled, and a response that the variables hold is closed.
  abbrev IsBetween : Option Reply → W → Type 0
  IsBetween none w = Settled w
  IsBetween (some r) w = r.closed ≡ true × Settled w

  abbrev IsDone : Bool → W → Sent → Type 0
  IsDone true w s = IsLeft Settled Open s.response s.failed w
  IsDone false w s = IsBetween s.response w

  IsBetween-Settled : (r : Option Reply) (w : W) → IsBetween r w → Settled w
  IsBetween-Settled none w h = h
  IsBetween-Settled (some r) w h = h.1

  IsBetween-move : (r : Option Reply) (w v : W) → IsBetween r w → Settled v → IsBetween r v
  IsBetween-move none w v h i = i
  IsBetween-move (some r) w v h i = (h.0, i)

  IsLeft-between :
      (r : Option Reply) (failed : Bool) (w : W) → IsBetween r w → IsLeft Settled Open r failed w
  IsLeft-between none failed w h = h
  IsLeft-between (some r) failed w h = inl h

  trip-IsDone :
      (last : Bool) (backend : String) (w : W) (o : Option ℕ)
      → (o ≡ none → Settled w)
      → Open w
      → let (stop, s) = after_trip last backend o in
        IsDone (stop || last) (close_unless U stop o w) s
  unfolding after_trip
  trip-IsDone true backend w none h i = h refl
  trip-IsDone false backend w none h i = h refl
  trip-IsDone true backend w (some status) h i = elim (Bool-cases (is_final status)) [
    | inl e ↦ rw e (inr (refl, refl, i))
    | inr e ↦ rw e (inr (refl, refl, i))
  ]
  trip-IsDone false backend w (some status) h i = elim (Bool-cases (is_final status)) [
    | inl e ↦ rw e (inr (refl, refl, i))
    | inr e ↦ rw e (refl, k.closes w i)
  ]

  try_backend-IsDone :
      (last : Bool) (w : W) (s : Sent)
      → IsBetween s.response w
      → let (w', stop, s') = try_backend U last w s in IsDone (stop || last) w' s'
  unfolding try_backend
  try_backend-IsDone last w s h =
      let i = k.chooses w (IsBetween-Settled s.response w h) in
      elim (Bool-cases ((U.choose w).1 ==ₛ "")) [
        | inl e ↦ rw e (IsLeft-between s.response s.failed _ (IsBetween-move s.response w _ h i))
        | inr e ↦ rw e (trip-IsDone last _ _ _ (k.fails _ _ i) (k.answers _ _ i))
      ]

  try_rewound-IsDone :
      (last : Bool) (w : W) (s : Sent) (o : Option W)
      → IsBetween s.response w
      → ((v : W) → o ≡ some v → Settled v)
      → let (w', stop, s') = try_rewound U last w s o in IsDone (stop || last) w' s'
  try_rewound-IsDone last w s none h i = IsLeft-between s.response true w h
  try_rewound-IsDone last w s (some v) h i =
      try_backend-IsDone last v s (IsBetween-move s.response w v h (i v refl))

  round-IsDone :
      (first last : Bool) (w : W) (s : Sent)
      → IsBetween s.response w
      → let (w', stop, s') = round U first last w s in IsDone (stop || last) w' s'
  unfolding round
  round-IsDone true last w s h = try_backend-IsDone last w s h
  round-IsDone false last w s h =
      try_rewound-IsDone last w s (U.rewind w) h
        (λ v e. k.rewinds w v (IsBetween-Settled s.response w h) e)

  IsDone-last :
      (stop : Bool) (w : W) (s : Sent)
      → IsDone (stop || true) w s
      → IsLeft Settled Open s.response s.failed w
  IsDone-last true w s h = h
  IsDone-last false w s h = h

  IsDone-rest :
      (stop : Bool) (a b : W × Sent)
      → IsDone (stop || false) a.0 a.1
      → (IsBetween a.1.response a.0 → IsLeft Settled Open b.1.response b.1.failed b.0)
      → let (w, s) = if stop then a else b in IsLeft Settled Open s.response s.failed w
  IsDone-rest true a b h f = h
  IsDone-rest false a b h f = f h

  attempts-IsLeft :
      (n : ℕ) (first : Bool) (w : W) (s : Sent)
      → IsBetween s.response w
      → let (w', s') = attempts U first n w s in IsLeft Settled Open s'.response s'.failed w'
  unfolding attempts
  attempts-IsLeft zero first w s h = IsDone-last _ _ _ (round-IsDone first true w s h)
  attempts-IsLeft (suc n) first w s h =
      let (w', stop, s') = round U first false w s in
      IsDone-rest stop (w', s') (attempts U false n w' s') (round-IsDone first false w s h)
        (attempts-IsLeft n false w' s')

  pub forward-IsLeft :
      (retries : ℤ) (w : W)
      → Settled w
      → let (w', s) = forward U retries w in IsLeft Settled Open s.response s.failed w'
  unfolding forward
  forward-IsLeft (pos n) w h = attempts-IsLeft n true w nothing_sent h
  forward-IsLeft (negsuc n) w h = h

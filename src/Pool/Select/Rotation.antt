-- ===== src/Pool/Select/Rotation.antt =====
-- `nextFor` takes tied backends in turns, each as often as its weight.
use native.Mathlib.Nat.{mod-lt, mod-add-mod, add-zero, max-eq_left}
use edge_proxy_go.Base.{
  ℕ, zero, suc, ◌+◌, ◌-◌, ◌%◌, ◌<◌, max, ◌≡◌, refl, ap, ◌∙◌, List, [], ◌∷◌, ◌++◌, map, Option, some,
  String, Float, IsOrdered, arith, get_elem?, All, if◌then◌else◌, replicate, length, length-append,
  ltb, modify,
}
use edge_proxy_go.Pool.Entry.{BackendEntry, BackendPool, closed}
use edge_proxy_go.Pool.Select.{
  Candidate, visit, tied, weight_at, weighted, total_weight, pick, mark_probe, address_at, choose,
  next_for,
}
use edge_proxy_go.Pool.Select.Sound.{visited, candidates, next_for_eq}

regroup : (c k : ℕ) → c + 1 + k ≡ c + suc k
regroup c k = omega arith

-- One round of the rota: each index, as often in a row as its weight.
pub rota : List (ℕ × ℕ) → List ℕ
rota [] = []
rota ((i, w) ∷ ws) = replicate w i ++ rota ws

length-replicate : {A : Type 0} (n : ℕ) (a : A) → length (replicate n a) ≡ n
length-replicate zero a = refl
length-replicate (suc n) a = ap suc (length-replicate n a)

pub length-rota : (ws : List (ℕ × ℕ)) → length (rota ws) ≡ total_weight ws
unfolding rota total_weight
length-rota [] = refl
length-rota ((i, w) ∷ ws) =
    omega (arith, length-append (replicate w i) (rota ws), length-replicate w i, length-rota ws)

get_elem?-replicate :
    (w i : ℕ) (r : List ℕ) (k : ℕ)
    → get_elem? (replicate w i ++ r) k ≡ (if ltb k w then some i else get_elem? r (k - w))
get_elem?-replicate zero i r k = ground arith
get_elem?-replicate (suc w) i r zero = ground arith
get_elem?-replicate (suc w) i r (suc k) = ground (arith, get_elem?-replicate w i r k)

-- The walk over the weights finds the index at its position of the rota.
pub pick-rota :
    (default position : ℕ) (ws : List (ℕ × ℕ))
    → position < total_weight ws
    → get_elem? (rota ws) position ≡ some (pick default position ws)
unfolding rota total_weight pick
pick-rota default position [] h = elim h [ ]
pick-rota default position ((i, w) ∷ ws) h =
    get_elem?-replicate w i (rota ws) position ∙ ground (arith, pick-rota default (position - w) ws)

-- Every breaker is closed.
abbrev pub IsSteady : BackendPool → Type 0
IsSteady p = All (λ e. e.breaker_state ≡ closed) p.backends

visited_closed :
    (now : ℕ) (allowed : Option (List String)) (e : BackendEntry)
    → e.breaker_state ≡ closed
    → visited now allowed e ≡ e
unfolding visited visit
visited_closed now allowed e h = ground arith

mark_probe_closed : (e : BackendEntry) → e.breaker_state ≡ closed → mark_probe e ≡ e
unfolding mark_probe
mark_probe_closed e h = ground arith

map-visited_closed :
    (now : ℕ) (allowed : Option (List String)) (es : List BackendEntry)
    → All (λ e. e.breaker_state ≡ closed) es
    → map (visited now allowed) es ≡ es
map-visited_closed now allowed [] h = refl
map-visited_closed now allowed (e ∷ es) h =
    cc (visited_closed now allowed e h.0, map-visited_closed now allowed es h.1)

modify-mark_closed :
    (i : ℕ) (es : List BackendEntry)
    → All (λ e. e.breaker_state ≡ closed) es
    → modify i mark_probe es ≡ es
modify-mark_closed i [] h = refl
modify-mark_closed zero (e ∷ es) h = cc (mark_probe_closed e h.0)
modify-mark_closed (suc i) (e ∷ es) h = ap (◌∷◌ e) (modify-mark_closed i es h.1)

module _ ⦃F : Float⦄ (now : ℕ) (allowed : Option (List String)) where
  -- The indices of the tied candidates, with their weights.
  pub turns : BackendPool → List (Candidate F.Num) → List (ℕ × ℕ)
  turns p [] = []
  turns p (first ∷ cs) = weighted p.backends (tied first.score (first ∷ cs))

  -- The pool after `k` choices.
  pub after_choices : ℕ → BackendPool → BackendPool
  after_choices zero p = p
  after_choices (suc k) p = after_choices k (next_for now allowed p).0

  abbrev moved : BackendPool → ℕ → BackendPool
  moved p current = record p { current = current }

  next_for_steady :
      (p : BackendPool) (first : Candidate F.Num) (cs : List (Candidate F.Num))
      → IsSteady p
      → candidates now allowed p ≡ first ∷ cs
      → let ws = turns p (first ∷ cs) in
        let total = max (total_weight ws) 1 in
        next_for now allowed p ≡ (
          moved p ((p.current + 1) % total),
          address_at p.backends (pick first.idx (p.current % total) ws),
        )
  unfolding choose turns
  next_for_steady p first cs h e =
      next_for_eq now allowed p
      ∙ (rw (e, map-visited_closed now allowed p.backends h)
          (rw (modify-mark_closed _ p.backends h) refl))

  -- Moving the rota's position leaves the candidates as they are.
  candidates-moved :
      (p : BackendPool) (c : ℕ) → candidates now allowed (moved p c) ≡ candidates now allowed p
  unfolding candidates
  candidates-moved p c = refl

  turns-moved :
      (p : BackendPool) (c : ℕ) (cs : List (Candidate F.Num)) → turns (moved p c) cs ≡ turns p cs
  unfolding turns
  turns-moved p c [] = refl
  turns-moved p c (first ∷ cs) = refl

  turns_pos :
      (law : IsOrdered F) (p : BackendPool) (first : Candidate F.Num) (cs : List (Candidate F.Num))
      → 0 < total_weight (turns p (first ∷ cs))
  unfolding turns tied weighted total_weight weight_at
  turns_pos law p first cs = ground (arith, law.milli_up first.score)

  module _ (p : BackendPool) (first : Candidate F.Num) (cs : List (Candidate F.Num))
      (steady : IsSteady p) (found : candidates now allowed p ≡ first ∷ cs)
      (some_turn : 0 < total_weight (turns p (first ∷ cs))) where
    abbrev total : ℕ
    total = total_weight (turns p (first ∷ cs))

    step_moved :
        (c : ℕ)
        → next_for now allowed (moved p c) ≡ (
          moved p ((c + 1) % total),
          address_at p.backends (pick first.idx (c % total) (turns p (first ∷ cs))),
        )
    step_moved c =
        next_for_steady (moved p c) first cs steady (candidates-moved p c ∙ found)
        ∙ (rw (turns-moved p c (first ∷ cs), max-eq_left some_turn) refl)

    nth_moved :
        (k c : ℕ)
        → (next_for now allowed (after_choices k (moved p c))).1
          ≡ address_at p.backends (pick first.idx ((c + k) % total) (turns p (first ∷ cs)))
    unfolding after_choices
    nth_moved zero c = ap (λ r. r.1) (step_moved c) ∙ (rw (add-zero c) refl)
    nth_moved (suc k) c =
        ap (λ r. (next_for now allowed (after_choices k r.0)).1) (step_moved c)
        ∙ nth_moved k ((c + 1) % total)
        ∙ ap (λ n. address_at p.backends (pick first.idx n (turns p (first ∷ cs))))
            (mod-add-mod (c + 1) total k ∙ ap (λ n. n % total) (regroup c k))

  -- On a pool whose breakers are all closed, and with no request or check in between, the choices
  -- go through the rota of the tied candidates: the `k`-th choice after the present one is the
  -- backend at the position `current + k` of the rota, which repeats each tied backend as often as
  -- its weight, and begins again at its end.
  pub next_for-rota :
      IsOrdered F
      → (p : BackendPool) (first : Candidate F.Num) (cs : List (Candidate F.Num)) (k : ℕ)
      → IsSteady p
      → candidates now allowed p ≡ first ∷ cs
      → let round = rota (turns p (first ∷ cs)) in
        (i : ℕ) × (get_elem? round ((p.current + k) % length round) ≡ some i)
        × ((next_for now allowed (after_choices k p)).1 ≡ address_at p.backends i)
  next_for-rota law p first cs k steady found =
      let pos = turns_pos law p first cs in
      (
        pick first.idx ((p.current + k) % total_weight (turns p (first ∷ cs)))
            (turns p (first ∷ cs)),
        rw (length-rota (turns p (first ∷ cs)))
            (pick-rota first.idx _ (turns p (first ∷ cs)) (mod-lt _ pos)),
        nth_moved p first cs steady found pos k p.current,
      )

-- ===== src/Pool/Select.antt =====
-- health.go: `nextFor` and `next`, the choice of a backend, and `availableCount`.
pub mod Eligible
pub mod Sound
pub mod Candidates
pub mod Least
pub mod Rotation
use edge_proxy_go.Base.{
  ℕ, suc, ◌+◌, ◌-◌, ◌%◌, max, pos, Bool, true, false, not, ◌&&◌, ◌||◌, List, [], ◌∷◌, Option, none,
  some, String, Float, ltb, if◌then◌else◌, get_elem?, modify,
}
use edge_proxy_go.Pool.Entry.{
  BackendStats, BackendEntry, BackendPool, half_open, is_opened, is_half_open, backend_score,
  is_allowed,
}

-- An open breaker whose cooldown has passed becomes half-open, with no probe in flight.
unfoldable pub expire : ℕ → BackendEntry → BackendEntry
expire now e =
    if is_opened e.breaker_state && not (ltb now e.breaker_opened_until)
    then record e { breaker_state = half_open; half_open_in_flight = false }
    else e

-- One round of the first loop: the entry as the round leaves it, and whether it is a candidate.
unfoldable pub visit : ℕ → Option (List String) → BackendEntry → BackendEntry × Bool
unfolding expire
visit now allowed e =
    if not (is_allowed allowed e.address)
    then (e, false)
    else if not e.healthy
    then (e, false)
    else if e.disabled || e.draining
    then (e, false)
    else if is_opened e.breaker_state && ltb now e.breaker_opened_until
    then (e, false)
    else let e' = expire now e in
      (e', not (is_half_open e'.breaker_state && e'.half_open_in_flight))

pub record Candidate (N : Type 0) : Type 0 where
  pub idx : ℕ
  pub score : N

unfoldable pub candidate_score : ⦃F : Float⦄ → List BackendStats → BackendEntry → F.Num
candidate_score ⦃F⦄ heap e =
    let score = backend_score heap e in
    if is_half_open e.breaker_state then F.sub score (F.of_int (pos 250)) else score

-- The first loop, from the entry at index `i` on.
unfoldable pub collect :
    ⦃F : Float⦄
    → List BackendStats
    → ℕ
    → Option (List String)
    → ℕ
    → List BackendEntry
    → List BackendEntry × List (Candidate F.Num)
collect ⦃F⦄ heap now allowed i [] = ([], [])
collect ⦃F⦄ heap now allowed i (e ∷ es) =
    let (e', candidate) = visit now allowed e in
    let (es', cs) = collect heap now allowed (suc i) es in
    (e' ∷ es', if candidate then record { idx = i; score = candidate_score heap e' } ∷ cs else cs)

-- The order that `sort.SliceStable` is given.
unfoldable pub less : ⦃F : Float⦄ → Candidate F.Num → Candidate F.Num → Bool
less ⦃F⦄ a b = if F.eq a.score b.score then ltb a.idx b.idx else F.lt a.score b.score

unfoldable pub insert :
    ⦃F : Float⦄ → Candidate F.Num → List (Candidate F.Num) → List (Candidate F.Num)
insert ⦃F⦄ c [] = c ∷ []
insert ⦃F⦄ c (d ∷ ds) = if less d c then d ∷ insert c ds else c ∷ d ∷ ds

-- `sort.SliceStable`: on an order that the scores make a weak order there is one stable result.
unfoldable pub sort_stable : ⦃F : Float⦄ → List (Candidate F.Num) → List (Candidate F.Num)
sort_stable ⦃F⦄ [] = []
sort_stable ⦃F⦄ (c ∷ cs) = insert c (sort_stable cs)

-- The loop that fills `weighted`: it breaks at the first score above `minScore + 0.001`.
unfoldable pub tied : ⦃F : Float⦄ → F.Num → List (Candidate F.Num) → List (Candidate F.Num)
tied ⦃F⦄ min_score [] = []
tied ⦃F⦄ min_score (c ∷ cs) =
    if F.lt (F.add min_score F.milli) c.score then [] else c ∷ tied min_score cs

-- `maxInt(1, p.backends[idx].weight)`
unfoldable pub weight_at : List BackendEntry → ℕ → ℕ
weight_at es i = elim (get_elem? es i) [ none ↦ 1 | some e ↦ max 1 e.weight ]

-- Each tied candidate's index, with its weight.
unfoldable pub weighted : {N : Type 0} → List BackendEntry → List (Candidate N) → List (ℕ × ℕ)
weighted es [] = []
weighted es (c ∷ cs) = (c.idx, weight_at es c.idx) ∷ weighted es cs

unfoldable pub total_weight : List (ℕ × ℕ) → ℕ
total_weight [] = 0
total_weight ((i, w) ∷ ws) = w + total_weight ws

-- The loop that walks the weights; `default` is `weighted[0].idx`.
unfoldable pub pick : ℕ → ℕ → List (ℕ × ℕ) → ℕ
pick default position [] = default
pick default position ((i, w) ∷ ws) = if ltb position w then i else pick default (position - w) ws

-- `chosen.halfOpenInFlight = true`, if the breaker is half-open.
unfoldable pub mark_probe : BackendEntry → BackendEntry
mark_probe e = if is_half_open e.breaker_state then record e { half_open_in_flight = true } else e

abbrev pub address_at : List BackendEntry → ℕ → String
address_at es i = elim (get_elem? es i) [ none ↦ "" | some e ↦ e.address ]

-- What follows the sort, where `first` is `candidates[0]`. The first candidate ties with itself, so
-- `weighted[0]` is `first`.
unfoldable pub choose :
    ⦃F : Float⦄
    → BackendPool
    → List BackendEntry
    → Candidate F.Num
    → List (Candidate F.Num)
    → BackendPool × String
unfolding mark_probe
choose ⦃F⦄ p es first cs =
    let ws = weighted es (tied first.score cs) in
    let total = max (total_weight ws) 1 in
    let chosen = pick first.idx (p.current % total) ws in
    (
      record p { backends = modify chosen mark_probe es; current = (p.current + 1) % total },
      address_at es chosen,
    )

abbrev pub choose_from :
    ⦃F : Float⦄ → BackendPool → List BackendEntry → List (Candidate F.Num) → BackendPool × String
choose_from ⦃F⦄ p es [] = (record p { backends = es }, "")
choose_from ⦃F⦄ p es (first ∷ cs) = choose p es first (first ∷ cs)

unfoldable pub next_for :
    ⦃F : Float⦄ → ℕ → Option (List String) → BackendPool → BackendPool × String
next_for ⦃F⦄ now allowed p =
    let (es, cs) = collect p.heap now allowed 0 p.backends in choose_from p es (sort_stable cs)

unfoldable pub next : ⦃F : Float⦄ → ℕ → BackendPool → BackendPool × String
unfolding next_for
next ⦃F⦄ now p = next_for now none p

-- The loop of `availableCount`: its rounds are those of `nextFor` that allow every backend.
unfoldable pub count_available : ℕ → List BackendEntry → List BackendEntry × ℕ
unfolding visit
count_available now [] = ([], 0)
count_available now (e ∷ es) =
    let (e', counted) = visit now none e in
    let (es', n) = count_available now es in (e' ∷ es', if counted then suc n else n)

unfoldable pub available_count : ℕ → BackendPool → BackendPool × ℕ
unfolding count_available
available_count now p =
    let (es, n) = count_available now p.backends in (record p { backends = es }, n)

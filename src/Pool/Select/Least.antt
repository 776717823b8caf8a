-- ===== src/Pool/Select/Least.antt =====
-- `nextFor` chooses among the lowest scores.
use edge_proxy_go.Base.{
  ℕ, ◌≡◌, refl, ap, ◌∙◌, ◌≢◌, ◌⊎◌, inl, inr, true, false, List, [], ◌∷◌, map, Option, some, String,
  Float, IsOrdered, get_elem?, All, All-imp,
}
use native.Mathlib.Nat.{zero-add}
use edge_proxy_go.Pool.Entry.{BackendEntry, BackendPool}
use edge_proxy_go.Pool.Select.{Candidate, collect, tied, choose, choose_from, next_for}
use edge_proxy_go.Pool.Select.Sound.{
  Chosen, Chosen_of_index, candidates, next_for_eq, none_of_no_candidate, pick-All, tied-All,
  sort_stable-All, visited,
}
use edge_proxy_go.Pool.Select.Eligible.{IsEligible}
use edge_proxy_go.Pool.Select.Candidates.{
  score, collect-All, collect-All_inv, sort_stable-All_inv, Number, NoneBelow, IsLeastFirst,
  sort_stable-IsLeastFirst, tied-close,
}

All-both {ℓ κ μ} :
    {A : Type ℓ} (P : A → Type κ) (Q : A → Type μ) (xs : List A)
    → All P xs
    → All Q xs
    → All (λ x. P x × Q x) xs
All-both P Q [] p q = tt
All-both P Q (x ∷ xs) p q = ((p.0, q.0), All-both P Q xs p.1 q.1)

module _ ⦃F : Float⦄ (law : IsOrdered F) (now : ℕ) (allowed : Option (List String))
    (p : BackendPool) where
  -- No eligible backend's score lies more than 0.001 below that of `e`.
  abbrev pub IsBest : BackendEntry → Type 0
  IsBest e =
      (k : ℕ) (x : BackendEntry)
      → get_elem? p.backends k ≡ some x
      → IsEligible now allowed x
      → F.lt (F.add (score p.heap now allowed x) F.milli) (score p.heap now allowed e) ≡ false

  -- The score of no eligible backend is a NaN.
  abbrev pub HasNumbers : Type 0
  HasNumbers =
      (k : ℕ) (x : BackendEntry)
      → get_elem? p.backends k ≡ some x
      → IsEligible now allowed x
      → F.eq (score p.heap now allowed x) (score p.heap now allowed x) ≡ true

  abbrev Fits : ℕ → F.Num → Type 0
  Fits i s =
      (e : BackendEntry) × (get_elem? p.backends i ≡ some e)
      × IsEligible now allowed e
      × (s ≡ score p.heap now allowed e)

  abbrev FitsBest : ℕ → Type 0
  FitsBest i =
      (e : BackendEntry) × (get_elem? p.backends i ≡ some e) × IsEligible now allowed e × IsBest e

  Best-of :
      (i : ℕ) (m : F.Num) (s : F.Num)
      → Fits i s
      → F.eq m m ≡ true
      → F.lt (F.add m F.milli) s ≡ false
      → ((k : ℕ) (x : BackendEntry)
          → get_elem? p.backends k ≡ some x
          → IsEligible now allowed x
          → F.lt (score p.heap now allowed x) m ≡ false)
      → FitsBest i
  Best-of i m s (e, at, g, is_score) n close below = (
    e,
    at,
    g,
    λ k x at' g'.
        law.not_lt_trans _ (F.add m F.milli) _ (law.milli_number m n) (rw is_score at close)
          (law.milli_mono m (score p.heap now allowed x) (below k x at' g')),
  )

  Best-of_tied :
      (first : Candidate F.Num) (cs : List (Candidate F.Num))
      → All (λ c. Fits c.idx c.score) cs
      → F.eq first.score first.score ≡ true
      → ((k : ℕ) (x : BackendEntry)
          → get_elem? p.backends k ≡ some x
          → IsEligible now allowed x
          → F.lt (score p.heap now allowed x) first.score ≡ false)
      → All (λ c. FitsBest c.idx) (tied first.score cs)
  Best-of_tied first cs fits n below =
      All-imp _ _ (tied first.score cs) (λ c h. Best-of c.idx first.score c.score h.0 n h.1 below)
        (All-both _ _ (tied first.score cs) (tied-All (λ c. Fits c.idx c.score) first.score cs fits)
          (tied-close law first.score cs))

  choose_from-Least :
      (cs : List (Candidate F.Num))
      → All (λ c. Fits c.idx c.score) cs
      → All (Number law) cs
      → IsLeastFirst law cs
      → ((m : F.Num)
          → NoneBelow law m cs
          → (k : ℕ) (x : BackendEntry) → get_elem? p.backends k ≡ some x
          → IsEligible now allowed x
          → F.lt (score p.heap now allowed x) m ≡ false)
      → let r = choose_from p (map (visited now allowed) p.backends) cs in
        (cs ≡ []) ⊎ ((c : Chosen now allowed p r.0 r.1) × IsBest c.entry)
  unfolding choose Chosen_of_index
  choose_from-Least [] fits ns least cover = inl refl
  choose_from-Least (first ∷ cs) fits ns least cover =
      let below = cover first.score least in
      let (e, at, g, own) = fits.0 in
      let (e', at', g', best) =
        pick-All FitsBest (map (visited now allowed) p.backends) first.idx _
          (tied first.score (first ∷ cs))
          (Best-of first.idx first.score first.score fits.0 ns.0 (law.milli_up first.score) below)
          (Best-of_tied first (first ∷ cs) fits ns.0 below) in
      inr (Chosen_of_index now allowed p _ _ (e', at', g'), best)

  -- If no score is a NaN, an address that `nextFor` returns is that of an eligible backend whose
  -- score is, to within 0.001, the lowest among the eligible backends.
  pub next_for-IsBest :
      HasNumbers
      → (next_for now allowed p).1 ≢ ""
      → (c : Chosen now allowed p (next_for now allowed p).0 (next_for now allowed p).1) × IsBest
          c.entry
  unfolding candidates
  next_for-IsBest numbers h = elim cases [
    | inl e ↦ absurd (h (none_of_no_candidate now allowed p e))
    | inr c ↦ c
  ]
    where
      found : List (Candidate F.Num)
      found = (collect p.heap now allowed 0 p.backends).1

      fits : All (λ (c : Candidate F.Num). Fits c.idx c.score) found
      fits =
          collect-All p.heap now allowed Fits 0 p.backends
            λ k e at g. (e, ap (get_elem? p.backends) (zero-add k) ∙ at, g, refl)

      are_numbers : All (Number law) found
      are_numbers =
          collect-All p.heap now allowed (λ i s. F.eq s s ≡ true) 0 p.backends
            λ k e at g. numbers k e at g

      cases :
          (candidates now allowed p ≡ [])
          ⊎ ((c : Chosen now allowed p (next_for now allowed p).0 (next_for now allowed p).1)
              × IsBest c.entry)
      cases = rw (next_for_eq now allowed p) (
          choose_from-Least (candidates now allowed p)
            (sort_stable-All (λ c. Fits c.idx c.score) found fits)
            (sort_stable-All (Number law) found are_numbers)
            (sort_stable-IsLeastFirst law found are_numbers)
            (λ m none_below k x at g.
              collect-All_inv p.heap now allowed (λ i s. F.lt s m ≡ false) 0 p.backends
                (sort_stable-All_inv (λ c. F.lt c.score m ≡ false) found none_below) k x at g))

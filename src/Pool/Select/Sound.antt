-- ===== src/Pool/Select/Sound.antt =====
-- `nextFor` returns an eligible backend, and returns none only if there is none.
use edge_proxy_go.Base.{
  ℕ, zero, suc, ◌+◌, ◌-◌, ◌≡◌, refl, sym, ap, subst, ◌∙◌, ◌≢◌, ◌⊎◌, inl, inr, ◌↔◌, List, [], ◌∷◌,
  map, Option, some, String, Float, arith, get_elem?, modify, All, Bool-cases,
}
use edge_proxy_go.Pool.Entry.{BackendStats, BackendEntry, BackendPool}
use edge_proxy_go.Pool.Select.{
  Candidate, visit, expire, collect, insert, sort_stable, tied, weighted, weight_at, pick,
  mark_probe, address_at, choose, choose_from, next_for,
}
use edge_proxy_go.Pool.Select.Eligible.{IsEligible, IsEligible-of_visit, visit_of_IsEligible}

unfoldable pub visited : ℕ → Option (List String) → BackendEntry → BackendEntry
visited now allowed e = (visit now allowed e).0

-- Index `i` of the pool's entries holds an eligible backend.
abbrev pub Good : ℕ → Option (List String) → (ℕ → Option BackendEntry) → ℕ → Type 0
Good now allowed at i = (e : BackendEntry) × (at i ≡ some e) × IsEligible now allowed e

module _ ⦃F : Float⦄ (heap : List BackendStats) (now : ℕ) (allowed : Option (List String)) where
  pub collect-entries :
      (i : ℕ) (es : List BackendEntry)
      → (collect heap now allowed i es).0 ≡ map (visited now allowed) es
  unfolding collect visited
  collect-entries i [] = refl
  collect-entries i (e ∷ es) = ap (◌∷◌ (visit now allowed e).0) (collect-entries (suc i) es)

  pub collect-Good :
      (at : ℕ → Option BackendEntry) (i : ℕ) (es : List BackendEntry)
      → ((k : ℕ) → at (i + k) ≡ get_elem? es k)
      → All (λ (c : Candidate F.Num). Good now allowed at c.idx) (collect heap now allowed i es).1
  unfolding collect
  collect-Good at i [] h = tt
  collect-Good at i (e ∷ es) h = elim (Bool-cases (visit now allowed e).1) [
    | inl hit ↦
        rw (hit, collect)
          (
            (e, ap at (omega arith) ∙ h 0, IsEligible-of_visit now allowed e hit),
            collect-Good at (suc i) es (λ k. ap at (omega arith) ∙ h (suc k)),
          )
    | inr miss ↦
        rw (miss, collect) (collect-Good at (suc i) es (λ k. ap at (omega arith) ∙ h (suc k)))
  ]

  -- With no candidate left, no entry was eligible.
  pub collect-none :
      (i : ℕ) (es : List BackendEntry)
      → (collect heap now allowed i es).1 ≡ []
      → All (λ e. ¬ IsEligible now allowed e) es
  unfolding collect
  collect-none i [] h = tt
  collect-none i (e ∷ es) h = elim (Bool-cases (visit now allowed e).1) [
    | inl hit ↦ ground arith
    | inr miss ↦
        (λ g. cc (visit_of_IsEligible now allowed e g), collect-none (suc i) es (ground arith))
  ]

module _ {κ} ⦃F : Float⦄ (P : Candidate F.Num → Type κ) where
  insert-All :
      (c : Candidate F.Num) (cs : List (Candidate F.Num)) → P c → All P cs → All P (insert c cs)
  unfolding insert
  insert-All c [] p h = (p, tt)
  insert-All c (d ∷ ds) p h = ground (arith, insert-All c ds p h.1)

  pub sort_stable-All : (cs : List (Candidate F.Num)) → All P cs → All P (sort_stable cs)
  unfolding sort_stable
  sort_stable-All [] h = tt
  sort_stable-All (c ∷ cs) h = insert-All c (sort_stable cs) h.0 (sort_stable-All cs h.1)

  pub tied-All : (m : F.Num) (cs : List (Candidate F.Num)) → All P cs → All P (tied m cs)
  unfolding tied
  tied-All m [] h = tt
  tied-All m (c ∷ cs) h = ground (arith, tied-All m cs h.1)

pub pick-All {κ} :
    {N : Type 0} (Q : ℕ → Type κ) (es : List BackendEntry) (default position : ℕ)
    (cs : List (Candidate N))
    → Q default
    → All (λ c. Q c.idx) cs
    → Q (pick default position (weighted es cs))
unfolding pick weighted
pick-All Q es default position [] q h = q
pick-All Q es default position (c ∷ cs) q h =
    ground (arith, pick-All Q es default (position - weight_at es c.idx) cs q h.1)

pub get_elem?-map :
    (f : BackendEntry → BackendEntry) (es : List BackendEntry) (i : ℕ) {e : BackendEntry}
    → get_elem? es i ≡ some e
    → get_elem? (map f es) i ≡ some (f e)
get_elem?-map f [] i h = cc
get_elem?-map f (x ∷ xs) zero h = ground arith
get_elem?-map f (x ∷ xs) (suc i) h = get_elem?-map f xs i h

pub get_elem?-modify :
    (f : BackendEntry → BackendEntry) (es : List BackendEntry) (i : ℕ) {e : BackendEntry}
    → get_elem? es i ≡ some e
    → get_elem? (modify i f es) i ≡ some (f e)
get_elem?-modify f [] i h = cc
get_elem?-modify f (x ∷ xs) zero h = ground arith
get_elem?-modify f (x ∷ xs) (suc i) h = get_elem?-modify f xs i h

-- What a choice of `address` has done: at some index it found an eligible backend with that
-- address, and marked it as probing if its breaker is half-open; the other entries are only
-- visited, and the statistics are as they were.
pub record Chosen (now : ℕ) (allowed : Option (List String)) (p q : BackendPool) (address : String)
    : Type 0 where
  pub index : ℕ
  pub entry : BackendEntry
  pub stands : get_elem? p.backends index ≡ some entry
  pub eligible : IsEligible now allowed entry
  pub named : entry.address ≡ address
  pub after : q.backends ≡ modify index mark_probe (map (visited now allowed) p.backends)
  pub marked : get_elem? q.backends index ≡ some (mark_probe (expire now entry))
  pub same_heap : q.heap ≡ p.heap

pub visited_of_IsEligible :
    (now : ℕ) (allowed : Option (List String)) (e : BackendEntry)
    → IsEligible now allowed e
    → visited now allowed e ≡ expire now e
unfolding visited
visited_of_IsEligible now allowed e g = ap (λ r. r.0) (visit_of_IsEligible now allowed e g)

pub expire_address : (now : ℕ) (e : BackendEntry) → (expire now e).address ≡ e.address
unfolding expire
expire_address now e = ground arith

module _ ⦃F : Float⦄ (now : ℕ) (allowed : Option (List String)) (p : BackendPool) where
  abbrev Fits : Candidate F.Num → Type 0
  Fits c = Good now allowed (get_elem? p.backends) c.idx

  unfoldable pub Chosen_of_index :
      (i current : ℕ)
      → Good now allowed (get_elem? p.backends) i
      → let es = map (visited now allowed) p.backends in
        Chosen now allowed p
          (record p { backends = modify i mark_probe es; current = current })
          (address_at es i)
  Chosen_of_index i current (e, at_i, g) = record {
    index = i;
    entry = e;
    stands = at_i;
    eligible = g;
    named = rw (here, address_at) (sym (expire_address now e));
    after = refl;
    marked = get_elem?-modify mark_probe (map (visited now allowed) p.backends) i here;
    same_heap = refl;
  }
    where
      here : get_elem? (map (visited now allowed) p.backends) i ≡ some (expire now e)
      here =
          get_elem?-map (visited now allowed) p.backends i at_i
          ∙ ap some (visited_of_IsEligible now allowed e g)

  choose_from-Chosen :
      (cs : List (Candidate F.Num))
      → All Fits cs
      → let r = choose_from p (map (visited now allowed) p.backends) cs in
        (cs ≡ []) ⊎ Chosen now allowed p r.0 r.1
  unfolding choose
  choose_from-Chosen [] fits = inl refl
  choose_from-Chosen (first ∷ cs) fits = inr (
      Chosen_of_index _ _ (
        pick-All (Good now allowed (get_elem? p.backends)) (map (visited now allowed) p.backends)
          first.idx _ (tied first.score (first ∷ cs)) fits.0
          (tied-All Fits first.score (first ∷ cs) fits)))

  unfoldable pub candidates : List (Candidate F.Num)
  candidates = sort_stable (collect p.heap now allowed 0 p.backends).1

  candidates-Fits : All Fits candidates
  unfolding candidates
  candidates-Fits = sort_stable-All Fits (collect p.heap now allowed 0 p.backends).1 (
      collect-Good p.heap now allowed (get_elem? p.backends) 0 p.backends
        (λ k. ap (get_elem? p.backends) (omega arith)))

  pub next_for_eq :
      next_for now allowed p ≡ choose_from p (map (visited now allowed) p.backends) candidates
  unfolding next_for candidates
  next_for_eq = rw (collect-entries p.heap now allowed 0 p.backends)

  -- Either there was no candidate, or the choice is sound.
  next_for-cases :
      (candidates ≡ []) ⊎ Chosen now allowed p (next_for now allowed p).0 (next_for now allowed p).1
  next_for-cases = rw next_for_eq (choose_from-Chosen candidates candidates-Fits)

insert-ne-nil : ⦃F : Float⦄ (c : Candidate F.Num) (cs : List (Candidate F.Num)) → insert c cs ≢ []
unfolding insert
insert-ne-nil c [] = cc
insert-ne-nil c (d ∷ ds) = ground arith

sort_stable-eq-nil : ⦃F : Float⦄ (cs : List (Candidate F.Num)) → sort_stable cs ≡ [] → cs ≡ []
unfolding sort_stable
sort_stable-eq-nil [] h = refl
sort_stable-eq-nil (c ∷ cs) h = absurd (insert-ne-nil c (sort_stable cs) h)

pub All-get_elem? {ℓ κ} :
    {A : Type ℓ} (P : A → Type κ) (xs : List A) (i : ℕ) {x : A}
    → All P xs
    → get_elem? xs i ≡ some x
    → P x
All-get_elem? P [] i h e = cc
All-get_elem? P (y ∷ ys) zero h e = subst P (ground arith) h.0
All-get_elem? P (y ∷ ys) (suc i) h e = All-get_elem? P ys i h.1 e

module _ ⦃F : Float⦄ (now : ℕ) (allowed : Option (List String)) (p : BackendPool) where
  pub none_of_no_candidate : candidates now allowed p ≡ [] → (next_for now allowed p).1 ≡ ""
  none_of_no_candidate e = rw (next_for_eq now allowed p, e) refl

  -- An address that `nextFor` returns is that of an eligible backend, whose breaker it marks as
  -- probing if it is half-open.
  pub next_for-Chosen :
      (next_for now allowed p).1 ≢ ""
      → Chosen now allowed p (next_for now allowed p).0 (next_for now allowed p).1
  next_for-Chosen h = elim (next_for-cases now allowed p) [
    | inl e ↦ absurd (h (none_of_no_candidate e))
    | inr c ↦ c
  ]

  -- Where each backend has an address, `nextFor` returns none exactly if no backend is eligible.
  pub next_for-none_iff :
      All (λ e. e.address ≢ "") p.backends
      → ((next_for now allowed p).1 ≡ "") ↔ All (λ e. ¬ IsEligible now allowed e) p.backends
  unfolding candidates
  next_for-none_iff named = (
    λ h. elim (next_for-cases now allowed p) [
      | inl e ↦ collect-none p.heap now allowed 0 p.backends (sort_stable-eq-nil _ e)
      | inr c ↦ absurd (All-get_elem? _ p.backends c.index named c.stands (c.named ∙ h))
    ],
    λ h. elim (next_for-cases now allowed p) [
      | inl e ↦ none_of_no_candidate e
      | inr c ↦ absurd (All-get_elem? _ p.backends c.index h c.stands c.eligible)
    ],
  )

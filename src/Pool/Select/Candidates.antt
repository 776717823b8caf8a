-- ===== src/Pool/Select/Candidates.antt =====
-- The candidates of `nextFor`: which entries they come from, and their order once sorted.
use edge_proxy_go.Base.{
  ℕ, zero, suc, ◌+◌, ◌≡◌, refl, sym, subst, inl, inr, true, false, List, [], ◌∷◌, Option, some,
  String, Float, IsOrdered, arith, get_elem?, All, Bool-cases,
}
use native.Mathlib.Nat.{add-zero}
use edge_proxy_go.Pool.Entry.{BackendStats, BackendEntry}
use edge_proxy_go.Pool.Select.{
  Candidate, visit, expire, candidate_score, collect, less, insert, sort_stable, tied,
}
use edge_proxy_go.Pool.Select.Sound.{sort_stable-All}
use edge_proxy_go.Pool.Select.Eligible.{IsEligible, visit_of_IsEligible, IsEligible-of_visit}

shift : (i k : ℕ) → i + suc k ≡ suc i + k
shift i k = omega arith

module _ ⦃F : Float⦄ (heap : List BackendStats) (now : ℕ) (allowed : Option (List String)) where
  -- The score that `nextFor` gives to an eligible backend.
  pub score : BackendEntry → F.Num
  score e = candidate_score heap (expire now e)

  collect-hit :
      (i : ℕ) (e : BackendEntry) (es : List BackendEntry)
      → IsEligible now allowed e
      → (collect heap now allowed i (e ∷ es)).1
        ≡ record { idx = i; score = score e } ∷ (collect heap now allowed (suc i) es).1
  unfolding collect score
  collect-hit i e es g = rw (visit_of_IsEligible now allowed e g)

  collect-miss :
      (i : ℕ) (e : BackendEntry) (es : List BackendEntry)
      → (visit now allowed e).1 ≡ false
      → (collect heap now allowed i (e ∷ es)).1 ≡ (collect heap now allowed (suc i) es).1
  unfolding collect
  collect-miss i e es h = rw h

  -- The candidates of a list of entries are its eligible entries, with their scores: what holds of
  -- those holds of the candidates, and the other way round.
  pub collect-All {κ} :
      (Q : ℕ → F.Num → Type κ) (i : ℕ) (es : List BackendEntry)
      → ((k : ℕ) (e : BackendEntry)
          → get_elem? es k ≡ some e
          → IsEligible now allowed e
          → Q (i + k) (score e))
      → All (λ c. Q c.idx c.score) (collect heap now allowed i es).1
  collect-All Q i [] h = unfold collect in tt
  collect-All Q i (e ∷ es) h =
      let rest : All (λ (c : Candidate F.Num). Q c.idx c.score)
          (collect heap now allowed (suc i) es).1 =
        collect-All Q (suc i) es
          λ k x at g. subst (λ n. Q n (score x)) (shift i k) (h (suc k) x at g) in
      elim (Bool-cases (visit now allowed e).1) [
        | inl hit ↦
            let g = IsEligible-of_visit now allowed e hit in
            rw (collect-hit i e es g) (subst (λ n. Q n (score e)) (add-zero i) (h 0 e refl g), rest)
        | inr miss ↦ rw (collect-miss i e es miss) rest
      ]

  pub collect-All_inv {κ} :
      (Q : ℕ → F.Num → Type κ) (i : ℕ) (es : List BackendEntry)
      → All (λ c. Q c.idx c.score) (collect heap now allowed i es).1
      → (k : ℕ) (e : BackendEntry) → get_elem? es k ≡ some e
      → IsEligible now allowed e
      → Q (i + k) (score e)
  collect-All_inv Q i [] h k e at g = cc
  collect-All_inv Q i (x ∷ es) h zero e at g =
      let same : x ≡ e = ground arith in
      rw (add-zero i, ← same)
        ((rw (collect-hit i x es (subst (IsEligible now allowed) (sym same) g)) at h).0)
  collect-All_inv Q i (x ∷ es) h (suc k) e at g =
      let rest : All (λ (c : Candidate F.Num). Q c.idx c.score)
          (collect heap now allowed (suc i) es).1 =
        elim (Bool-cases (visit now allowed x).1) [
          | inl hit ↦ (rw (collect-hit i x es (IsEligible-of_visit now allowed x hit)) at h).1
          | inr miss ↦ rw (collect-miss i x es miss) at h
        ] in
      rw (shift i k) (collect-All_inv Q (suc i) es rest k e at g)

module _ {κ} ⦃F : Float⦄ (P : Candidate F.Num → Type κ) where
  insert-All_inv :
      (c : Candidate F.Num) (cs : List (Candidate F.Num)) → All P (insert c cs) → P c × All P cs
  unfolding insert
  insert-All_inv c [] h = h
  insert-All_inv c (d ∷ ds) h = ground (arith, insert-All_inv c ds)

  pub sort_stable-All_inv : (cs : List (Candidate F.Num)) → All P (sort_stable cs) → All P cs
  unfolding sort_stable
  sort_stable-All_inv [] h = tt
  sort_stable-All_inv (c ∷ cs) h =
      let (p, rest) = insert-All_inv c (sort_stable cs) h in (p, sort_stable-All_inv cs rest)

module _ ⦃F : Float⦄ (law : IsOrdered F) where
  abbrev pub Number : Candidate F.Num → Type 0
  Number c = F.eq c.score c.score ≡ true

  -- No candidate of the list scores below `m`.
  abbrev pub NoneBelow : F.Num → List (Candidate F.Num) → Type 0
  NoneBelow m = All λ c. F.lt c.score m ≡ false

  abbrev pub IsLeastFirst : List (Candidate F.Num) → Type 0
  IsLeastFirst [] = Unit
  IsLeastFirst (c ∷ cs) = NoneBelow c.score (c ∷ cs)

  NoneBelow-trans :
      (a b : F.Num) (cs : List (Candidate F.Num))
      → F.eq b b ≡ true
      → F.lt b a ≡ false
      → NoneBelow b cs
      → NoneBelow a cs
  NoneBelow-trans a b [] n l h = tt
  NoneBelow-trans a b (c ∷ cs) n l h =
      (law.not_lt_trans a b c.score n l h.0, NoneBelow-trans a b cs n l h.1)

  insert-NoneBelow :
      (m : F.Num) (c : Candidate F.Num) (cs : List (Candidate F.Num))
      → F.lt c.score m ≡ false
      → NoneBelow m cs
      → NoneBelow m (insert c cs)
  unfolding insert
  insert-NoneBelow m c [] l h = (l, tt)
  insert-NoneBelow m c (d ∷ ds) l h = ground (arith, insert-NoneBelow m c ds l h.1)

  less-true : (a b : Candidate F.Num) → less a b ≡ true → F.lt b.score a.score ≡ false
  unfolding less
  less-true a b h = elim (Bool-cases (F.eq a.score b.score)) [
    | inl e ↦ law.eq_lt b.score a.score (law.eq_sym a.score b.score e)
    | inr n ↦ law.lt_asym a.score b.score (rw (n, less) at h)
  ]

  less-false : (a b : Candidate F.Num) → less a b ≡ false → F.lt a.score b.score ≡ false
  unfolding less
  less-false a b h = elim (Bool-cases (F.eq a.score b.score)) [
    | inl e ↦ law.eq_lt a.score b.score e
    | inr n ↦ rw (n, less) at h
  ]

  not_below_self : (a : F.Num) → F.eq a a ≡ true → F.lt a a ≡ false
  not_below_self a n = law.eq_lt a a n

  insert-IsLeastFirst :
      (c : Candidate F.Num) (cs : List (Candidate F.Num))
      → Number c
      → All Number cs
      → IsLeastFirst cs
      → IsLeastFirst (insert c cs)
  unfolding insert
  insert-IsLeastFirst c [] n ns h = (not_below_self c.score n, tt)
  insert-IsLeastFirst c (d ∷ ds) n ns h = elim (Bool-cases (less d c)) [
    | inl lower ↦ rw (lower, insert) (h.0, insert-NoneBelow d.score c ds (less-true d c lower) h.1)
    | inr not_lower ↦
        let l = less-false d c not_lower in
        rw (not_lower, insert)
          (not_below_self c.score n, (l, NoneBelow-trans c.score d.score ds ns.0 l h.1))
  ]

  pub sort_stable-IsLeastFirst :
      (cs : List (Candidate F.Num)) → All Number cs → IsLeastFirst (sort_stable cs)
  unfolding sort_stable
  sort_stable-IsLeastFirst [] ns = tt
  sort_stable-IsLeastFirst (c ∷ cs) ns =
      insert-IsLeastFirst c (sort_stable cs) ns.0 (sort_stable-All Number cs ns.1)
        (sort_stable-IsLeastFirst cs ns.1)

  pub tied-close :
      (m : F.Num) (cs : List (Candidate F.Num))
      → All (λ c. F.lt (F.add m F.milli) c.score ≡ false) (tied m cs)
  unfolding tied
  tied-close m [] = tt
  tied-close m (c ∷ cs) = ground (arith, tied-close m cs)

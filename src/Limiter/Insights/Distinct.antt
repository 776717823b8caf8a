-- ===== src/Limiter/Insights/Distinct.antt =====
-- rate_limiter.go: `dedupeAbusers`.
use edge_proxy_go.Base.{
  ◌≡◌, refl, ap, ◌&&◌, not, List, [], ◌∷◌, map, String, arith, ◌==ₛ◌, ==ₛ_refl, eq_of_==ₛ,
  Bool-cases, inl, inr,
}
use edge_proxy_go.Pool.Entry.{contains, IsDistinct}
use edge_proxy_go.Limiter.Types.{UserTrafficInsight}
use edge_proxy_go.Limiter.Insights.{abuser_key, dedupe_from, dedupe_abusers}

abbrev pub keys_of : List UserTrafficInsight → List String
keys_of us = map abuser_key us

contains-dedupe_from :
    (key : String) (seen : List String) (us : List UserTrafficInsight)
    → contains key (keys_of (dedupe_from seen us))
      ≡ (contains key (keys_of us) && not (contains key seen))
unfolding dedupe_from
contains-dedupe_from key seen [] = refl
contains-dedupe_from key seen (u ∷ us) = elim (Bool-cases (abuser_key u ==ₛ key)) [
  | inl e ↦ ground (
    arith,
    e,
    ap (λ k. contains k seen) (eq_of_==ₛ (abuser_key u) key e),
    contains-dedupe_from key seen us,
    contains-dedupe_from key (abuser_key u ∷ seen) us,
  )
  | inr e ↦ ground (
    arith,
    e,
    contains-dedupe_from key seen us,
    contains-dedupe_from key (abuser_key u ∷ seen) us,
  )
]

dedupe_from-IsDistinct :
    (seen : List String) (us : List UserTrafficInsight) → IsDistinct (keys_of (dedupe_from seen us))
unfolding dedupe_from
dedupe_from-IsDistinct seen [] = tt
dedupe_from-IsDistinct seen (u ∷ us) = elim (Bool-cases (contains (abuser_key u) seen)) [
  | inl e ↦ rw e (dedupe_from-IsDistinct seen us)
  | inr e ↦ rw e (
    ground (
      arith,
      contains-dedupe_from (abuser_key u) (abuser_key u ∷ seen) us,
      ==ₛ_refl (abuser_key u),
    ),
    dedupe_from-IsDistinct (abuser_key u ∷ seen) us,
  )
]

-- `dedupeAbusers` gives items with distinct keys, and their keys are those of all the items.
pub dedupe_abusers-IsDistinct :
    (us : List UserTrafficInsight)
    → IsDistinct (keys_of (dedupe_abusers us))
      × ((key : String) → contains key (keys_of (dedupe_abusers us)) ≡ contains key (keys_of us))
unfolding dedupe_abusers
dedupe_abusers-IsDistinct us =
    (dedupe_from-IsDistinct [] us, λ key. ground (arith, contains-dedupe_from key [] us))

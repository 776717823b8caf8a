-- ===== src/Limiter/Redis/Reports.antt =====
-- rate_limiter.go: `TopAbusers`, `TrafficSpikes` and `RateLimitEvents` with a Redis server or without,
-- and `decodeEvents`.
use edge_proxy_go.Base.{
  ◌≡◌, inl, inr, subst, true, ◌-ℤ◌, leb_ℤ, List, [], ◌∷◌, map, Option, some, none, String, ℤ, pos,
  pos_part, Float, Bool-cases, All,
}
use mathlib.Core.Option.{some-injective}
use edge_proxy_go.Pool.Entry.{contains, IsDistinct}
use edge_proxy_go.Limiter.Insights.Distinct.{keys_of, dedupe_abusers-IsDistinct}
use edge_proxy_go.Limiter.Types.{InsightEvent, UserTrafficInsight}
use edge_proxy_go.Limiter.Insights.{
  top_abusers, traffic_spikes, rate_limit_events, sort_abusers, sort_abusers-IsDescending,
  IsDescending, dedupe_abusers, dedupe_from, abuser_key, split_user_identifier,
}
use edge_proxy_go.Limiter.Redis.{
  z_rev_range, z_rev_range_with_scores, Answer, rows, scored, Library, Limiter,
}

module _ ⦃F : Float⦄ {N : Type 0} (lib : Library N) where
  unfoldable pub insight_of : String × F.Num → UserTrafficInsight
  insight_of (member, score) =
      let (user, identifier) = split_user_identifier member in
      record { user = user; identifier = identifier; abuse_count = F.trunc score }

  abbrev pub ranked : Answer → Option (List UserTrafficInsight)
  ranked (scored rs) = some (dedupe_abusers (sort_abusers (map insight_of rs)))
  ranked _ = none

  -- `TopAbusers`; a limit is positive where the source calls it.
  unfoldable pub report_abusers : Limiter N → ℤ → N → N × Option (List UserTrafficInsight)
  report_abusers l limit n = elim l.client [
    | none ↦ (n, some (top_abusers (pos_part limit) l.local))
    | some client ↦
        let (n', answer) =
          client.run (z_rev_range_with_scores "events:abusers" (pos 0) (limit -ℤ pos 1)) n in
        (n', ranked answer)
  ]

  -- A row that is no event is left out.
  unfoldable pub decode_events : List String → List InsightEvent
  decode_events [] = []
  decode_events (row ∷ rs) = elim (lib.unmarshal row) [
    | none ↦ decode_events rs
    | some event ↦ event ∷ decode_events rs
  ]

  abbrev pub decoded : Answer → Option (List InsightEvent)
  decoded (rows rs) = some (decode_events rs)
  decoded _ = none

  unfoldable pub report_spikes : Limiter N → ℤ → N → N × Option (List InsightEvent)
  report_spikes l limit n = elim l.client [
    | none ↦ (n, some (traffic_spikes (pos_part limit) l.local))
    | some client ↦
        let (n', answer) = client.run (z_rev_range "events:spikes" (pos 0) (limit -ℤ pos 1)) n in
        (n', decoded answer)
  ]

  unfoldable pub report_events : Limiter N → ℤ → N → N × Option (List InsightEvent)
  report_events l limit n = elim l.client [
    | none ↦ (n, some (rate_limit_events (pos_part limit) l.local))
    | some client ↦
        let (n', answer) =
          client.run (z_rev_range "events:rate_limit" (pos 0) (limit -ℤ pos 1)) n in
        (n', decoded answer)
  ]

dedupe_from-All :
    (seen : List String) (n : ℤ) (us : List UserTrafficInsight)
    → All (λ v. leb_ℤ v.abuse_count n ≡ true) us
    → All (λ v. leb_ℤ v.abuse_count n ≡ true) (dedupe_from seen us)
unfolding dedupe_from
dedupe_from-All seen n [] h = tt
dedupe_from-All seen n (u ∷ us) h = elim (Bool-cases (contains (abuser_key u) seen)) [
  | inl e ↦ rw e (dedupe_from-All seen n us h.1)
  | inr e ↦ rw e (h.0, dedupe_from-All (abuser_key u ∷ seen) n us h.1)
]

dedupe_from-IsDescending :
    (seen : List String) (us : List UserTrafficInsight)
    → IsDescending us
    → IsDescending (dedupe_from seen us)
unfolding dedupe_from
dedupe_from-IsDescending seen [] h = tt
dedupe_from-IsDescending seen (u ∷ us) h = elim (Bool-cases (contains (abuser_key u) seen)) [
  | inl e ↦ rw e (dedupe_from-IsDescending seen us h.1)
  | inr e ↦ rw e (
    dedupe_from-All (abuser_key u ∷ seen) u.abuse_count us h.0,
    dedupe_from-IsDescending (abuser_key u ∷ seen) us h.1,
  )
]

module _ ⦃F : Float⦄ {N : Type 0} (lib : Library N) where
  -- The users that the report of a server's abusers gives have falling counts, and no two of them
  -- have the same user and identifier.
  pub ranked-IsDescending :
      (a : Answer) (us : List UserTrafficInsight)
      → ranked lib a ≡ some us
      → IsDescending us × IsDistinct (keys_of us)
  unfolding dedupe_abusers
  ranked-IsDescending (scored rs) us h =
      let sorted = sort_abusers (map (insight_of lib) rs) in
      subst (λ x. IsDescending x × IsDistinct (keys_of x)) (some-injective _ us h)
        (
          dedupe_from-IsDescending [] sorted (sort_abusers-IsDescending (map (insight_of lib) rs)),
          (dedupe_abusers-IsDistinct sorted).0,
        )
  ranked-IsDescending _ us h = cc

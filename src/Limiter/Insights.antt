-- ===== src/Limiter/Insights.antt =====
-- rate_limiter.go: the reports, `TopAbusers`, `TrafficSpikes` and `RateLimitEvents`, of the
-- process-local limiter, and `dedupeAbusers` and `splitUserIdentifier`. A map is read in some order,
-- here that of its list. `sort.Slice` does not say how it orders equal counts; here they keep their
-- order.
pub mod Distinct
use edge_proxy_go.Base.{
  ℤ, pos, leb_ℤ, ℕ, ◌-◌, ◌≤◌, ◌≡◌, min, Bool, true, false, ◌||◌, ◌&&◌, not, Option, none, some,
  List, [], ◌∷◌, ◌++◌, String, Float, ltb, arith, if◌then◌else◌, length, drop, take, All, All-imp,
  split_once, ◌==ₛ◌, ==ₛ_refl, ==ₛ_sym, eq_of_==ₛ, Bool-cases, inl, inr, length-drop,
}
use Prim.Native.String
use edge_proxy_go.Limiter.Types.{InsightEvent, UserTrafficInsight, LocalBucket, RateLimiter}
use edge_proxy_go.Pool.Entry.{contains}
use mathlib.Core.List.Permᴰ
use mathlib.Core.List.{Permᴰ}

abbrev user_of : String → String × Option String → String
user_of key (name, none) = key
user_of key (name, some user) = user

unfoldable pub abuser : String → LocalBucket → UserTrafficInsight
abuser key b =
    let user = user_of key (split_once b':' key) in
    record { user = user; identifier = user; abuse_count = pos b.count }

unfoldable pub abusers : List (String × LocalBucket) → List UserTrafficInsight
abusers [] = []
abusers ((key, b) ∷ m) = abuser key b ∷ abusers m

-- Before the entries with a smaller count.
unfoldable pub insert_abuser :
    UserTrafficInsight → List UserTrafficInsight → List UserTrafficInsight
insert_abuser u [] = u ∷ []
insert_abuser u (v ∷ vs) =
    let rest = insert_abuser u vs in
    if not (leb_ℤ v.abuse_count u.abuse_count) then v ∷ rest else u ∷ v ∷ vs

unfoldable pub sort_abusers : List UserTrafficInsight → List UserTrafficInsight
sort_abusers [] = []
sort_abusers (u ∷ us) = insert_abuser u (sort_abusers us)

unfoldable pub top_abusers : ⦃F : Float⦄ → ℕ → RateLimiter → List UserTrafficInsight
top_abusers limit r = take limit (sort_abusers (abusers r.buckets))

-- The last `limit` events; a limit is positive where the source calls it.
unfoldable pub traffic_spikes : ⦃F : Float⦄ → ℕ → RateLimiter → List InsightEvent
traffic_spikes limit r =
    if ltb limit (length r.events) then drop (length r.events - limit) r.events else r.events

unfoldable pub rate_limit_events : ⦃F : Float⦄ → ℕ → RateLimiter → List InsightEvent
rate_limit_events limit r = traffic_spikes limit r

abbrev pub abuser_key : UserTrafficInsight → String
abuser_key u = String.◌++◌ u.user (String.◌++◌ "|" u.identifier)

-- `seen` holds the keys that are `true` in the map.
unfoldable pub dedupe_from : List String → List UserTrafficInsight → List UserTrafficInsight
dedupe_from seen [] = []
dedupe_from seen (u ∷ us) =
    let old = dedupe_from seen us in
    let new = dedupe_from (abuser_key u ∷ seen) us in
    if contains (abuser_key u) seen then old else u ∷ new

unfoldable pub dedupe_abusers : List UserTrafficInsight → List UserTrafficInsight
dedupe_abusers us = dedupe_from [] us

abbrev pair_or : String → String × Option String → String × String
pair_or value (user, none) = (value, "")
pair_or value (user, some identifier) = (user, identifier)

unfoldable pub split_user_identifier : String → String × String
split_user_identifier value = pair_or value (split_once b'|' value)

-- From the highest count down.
abbrev pub IsDescending : List UserTrafficInsight → Type 0
IsDescending [] = Unit
IsDescending (u ∷ us) = All (λ v. leb_ℤ v.abuse_count u.abuse_count ≡ true) us × IsDescending us

insert_abuser-All :
    (n : ℤ) (u : UserTrafficInsight) (us : List UserTrafficInsight)
    → leb_ℤ u.abuse_count n ≡ true
    → All (λ v. leb_ℤ v.abuse_count n ≡ true) us
    → All (λ v. leb_ℤ v.abuse_count n ≡ true) (insert_abuser u us)
unfolding insert_abuser
insert_abuser-All n u [] h a = (h, tt)
insert_abuser-All n u (v ∷ vs) h a = elim (Bool-cases (not (leb_ℤ v.abuse_count u.abuse_count))) [
  | inl e ↦ rw e (a.0, insert_abuser-All n u vs h a.1)
  | inr e ↦ rw e (h, a)
]

insert_abuser-IsDescending :
    (u : UserTrafficInsight) (us : List UserTrafficInsight)
    → IsDescending us
    → IsDescending (insert_abuser u us)
unfolding insert_abuser
insert_abuser-IsDescending u [] d = (tt, tt)
insert_abuser-IsDescending u (v ∷ vs) d =
    elim (Bool-cases (not (leb_ℤ v.abuse_count u.abuse_count))) [
      | inl e ↦ rw e (
        insert_abuser-All v.abuse_count u vs (ground (arith, e)) d.0,
        insert_abuser-IsDescending u vs d.1,
      )
      | inr e ↦
          let below : leb_ℤ v.abuse_count u.abuse_count ≡ true = ground (arith, e) in
          rw e ((below, All-imp _ _ vs (λ w h. ground (arith, h, below)) d.0), d)
    ]

pub sort_abusers-IsDescending : (us : List UserTrafficInsight) → IsDescending (sort_abusers us)
unfolding sort_abusers
sort_abusers-IsDescending [] = tt
sort_abusers-IsDescending (u ∷ us) =
    insert_abuser-IsDescending u (sort_abusers us) (sort_abusers-IsDescending us)

-- `top` is the start of `us` in the order of falling counts: `limit` of them, or all if there are
-- fewer.
pub record IsTop (limit : ℕ) (us top : List UserTrafficInsight) : Type 0 where
  pub rest : List UserTrafficInsight
  pub perm : Permᴰ us (top ++ rest)
  pub descending : IsDescending (top ++ rest)
  pub bounded : length top ≡ min limit (length us)

-- What is reported of a bucket: its user stands after the name of the policy and a colon in its key.
abbrev pub report_of : String × LocalBucket → UserTrafficInsight
report_of (key, b) = record {
  user = user_of key (split_once b':' key);
  identifier = user_of key (split_once b':' key);
  abuse_count = pos b.count;
}

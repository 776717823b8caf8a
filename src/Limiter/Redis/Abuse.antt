-- ===== src/Limiter/Redis/Abuse.antt =====
-- rate_limiter.go: who is a spike, and how repeated abuse ends in a block.
use edge_proxy_go.Base.{
  ℕ, zero, suc, ◌+◌, ◌≡◌, ◌≢◌, refl, ◌∙◌, ℤ, pos, Bool, false, List, some, String, Float,
  Bool-cases, arith, ◌*ℤ◌, ◌+ℤ◌, inl, inr, if◌then◌else◌, leb_ℤ,
}
use edge_proxy_go.Config.Types.{RateLimitConfig}
use edge_proxy_go.Limiter.Types.{RateLimitDecision, block, throttle}
use edge_proxy_go.Limiter.Redis.{
  Answer, number, string, values, rows, scored, missing, failed, incr, expire, set, Redis, Library,
  answer_at, seconds,
}
use edge_proxy_go.Limiter.Redis.Rates.{
  rates_of, average_rps, is_spiking, key_of, throttled, is_failed,
}
use edge_proxy_go.Limiter.Redis.Evaluate.{penalise, increment_abuse}

-- What IEEE 754 says of a value that is not negative: three times it is not less, nor is the larger
-- of that and anything.
abbrev pub HasTriples : Float → Type 0
HasTriples F =
    (a x : F.Num)
    → F.lt x (F.of_int (pos 0)) ≡ false
    → F.lt (F.max a (F.mul x (F.of_int (pos 3)))) x ≡ false

module _ ⦃F : Float⦄ where
  unstored : (x : F.Num) (a : Answer) → ((s : String) → a ≢ string s) → average_rps x a ≡ x
  unfolding average_rps
  unstored x (string s) ne = elim (ne s refl) [ ]
  unstored x (number n) ne = refl
  unstored x (values vs) ne = refl
  unstored x (rows rs) ne = refl
  unstored x (scored rs) ne = refl
  unstored x missing ne = refl
  unstored x failed ne = refl

  -- A user whose average is not stored yet is never taken for a spike, however many requests come
  -- in the window: the observed rate is then compared with three times itself.
  pub first_window_no_spike :
      (atoi_value : String → ℤ) (c : RateLimitConfig) (now_unix : ℤ) (answers : List Answer)
      → HasTriples F
      → F.lt (rates_of atoi_value c now_unix answers).observed (F.of_int (pos 0)) ≡ false
      → ((s : String) → answer_at failed 5 answers ≢ string s)
      → is_spiking c (rates_of atoi_value c now_unix answers) ≡ false
  unfolding is_spiking rates_of
  first_window_no_spike atoi_value c now_unix answers law sign fresh =
      let r = rates_of atoi_value c now_unix answers in
      let same : r.average ≡ r.observed = unstored r.observed (answer_at failed 5 answers) fresh in
      rw (same, law (F.mul c.base_requests_per_second (F.of_int (pos 2))) r.observed sign) refl

-- A server that is up, and counts the abuse of a user: `Incr` adds one and gives the new value, and
-- neither setting the time that the count lives nor storing a block changes it.
pub record IsCounting ⦃F : Float⦄ {N : Type 0} (client : Redis N) (c : RateLimitConfig)
    (user : String) (count : N → ℕ) : Type 0 where
  pub gives :
      (n : N) → (client.run (incr (key_of "abuse" c user)) n).1 ≡ number (pos (suc (count n)))
  pub adds : (n : N) → count (client.run (incr (key_of "abuse" c user)) n).0 ≡ suc (count n)
  pub expires :
      (d : ℤ) (n : N) → count (client.run (expire (key_of "abuse" c user) d) n).0 ≡ count n
  pub sets :
      (v : String) (d : ℤ) (n : N)
      → count (client.run (set (key_of "block" c user) v d) n).0 ≡ count n
  pub stores :
      (v : String) (d : ℤ) (n : N)
      → is_failed (client.run (set (key_of "block" c user) v d) n).1 ≡ false

module _ ⦃F : Float⦄ {N : Type 0} (lib : Library N) (client : Redis N) (c : RateLimitConfig)
    (spiking : Bool) (d : RateLimitDecision) where
  -- The state after `k` penalties in a row.
  unfoldable pub penalise_all : ℕ → N → N
  penalise_all zero n = n
  penalise_all (suc k) n = penalise_all k (penalise lib client c spiking d n).0

  module _ (count : N → ℕ) (up : IsCounting client c d.user count) where
    increment-value :
        (n : N)
        → (increment_abuse lib client (key_of "abuse" c d.user) c.block_seconds n).1
          ≡ pos (suc (count n))
    unfolding increment_abuse
    increment-value n = rw (up.gives n) refl

    increment-count :
        (n : N)
        → count (increment_abuse lib client (key_of "abuse" c d.user) c.block_seconds n).0
          ≡ suc (count n)
    unfolding increment_abuse
    increment-count n = rw (up.gives n) (up.expires _ _ ∙ up.adds n)

    penalise-count : (n : N) → count (penalise lib client c spiking d n).0 ≡ suc (count n)
    unfolding penalise
    penalise-count n =
        let v = (increment_abuse lib client (key_of "abuse" c d.user) c.block_seconds n).1 in
        elim (Bool-cases (leb_ℤ c.repeated_abuse_threshold v)) [
          | inl e ↦ rw e (up.sets _ _ _ ∙ increment-count n)
          | inr e ↦ rw e (increment-count n)
        ]

    penalise_all-count : (k : ℕ) (n : N) → count (penalise_all k n) ≡ count n + k
    unfolding penalise_all
    penalise_all-count zero n = omega arith
    penalise_all-count (suc k) n =
        omega (arith, penalise_all-count k (penalise lib client c spiking d n).0, penalise-count n)

    penalise-value :
        (n : N)
        → (e : RateLimitDecision) × ((penalise lib client c spiking d n).1 ≡ some e)
          × (e.abuse_count ≡ pos (suc (count n)))
          × (e.action ≡ (
              if leb_ℤ c.repeated_abuse_threshold (pos (suc (count n))) then block else throttle))
    unfolding penalise throttled
    penalise-value n =
        let v = (increment_abuse lib client (key_of "abuse" c d.user) c.block_seconds n).1 in
        elim (Bool-cases (leb_ℤ c.repeated_abuse_threshold v)) [
          | inl e ↦ (
            record d {
              action = block;
              reason = "repeated_abuse";
              retry_after = c.block_seconds;
              abuse_count = v;
            },
            rw (e, up.stores "1" (seconds c.block_seconds) _) refl,
            increment-value n,
            rw (← increment-value n, e) refl,
          )
          | inr e ↦ (
            throttled (if spiking then "traffic_spike" else "burst_exceeded")
                (c.soft_throttle_milliseconds *ℤ (v +ℤ pos 1)) (record d { abuse_count = v }),
            rw e refl,
            increment-value n,
            rw (← increment-value n, e) refl,
          )
        ]

    -- On a server that is up, a user who has abused the limit some times and then again and again is
    -- throttled each time until the count reaches the threshold, and blocked from then on.
    pub abuse_escalates :
        (k : ℕ) (n : N)
        → (e : RateLimitDecision) × ((penalise lib client c spiking d (penalise_all k n)).1
            ≡ some e)
          × (e.abuse_count ≡ pos (suc (count n + k)))
          × (e.action ≡ (
              if leb_ℤ c.repeated_abuse_threshold (pos (suc (count n + k)))
              then block
              else throttle))
    abuse_escalates k n = rw (← penalise_all-count k n) (penalise-value (penalise_all k n))

-- ===== src/Control/Run/Drain.antt =====
-- main.go: how long `runProxy` waits for its connections at the end.
use edge_proxy_go.Base.{
  ℕ, zero, suc, ◌+◌, ◌*◌, ◌≤◌, ◌<◌, ◌≡◌, refl, ◌⊎◌, inl, inr, Bool, true, List, [], ◌∷◌, ◌++◌,
  Option, none, some, String, Float, arith, ltb, ◌==◌, Bool-cases, ltb→lt,
}
use edge_proxy_go.Config.Types.{Config, TracingConfig}
use edge_proxy_go.Config.Load.{ConfigFile}
use edge_proxy_go.Pool.Entry.{millisecond}
use edge_proxy_go.Limiter.Redis.{Library, Limiter}
use edge_proxy_go.Proxy.Handler.{Runtime}
use edge_proxy_go.Control.Reload.{
  RuntimeError, bad_config, bad_tracing, redis_unreachable, start_up,
}
use edge_proxy_go.Control.Run.{
  Os, perform, start_listener, drain, Action, starts_health_checker, starts_stats_server, Outcome,
  returned, drain_time, serve_until_signal, run_from, run_proxy,
}

-- The clock of the process does not go back, and a sleep lasts at least its 100 milliseconds.
pub record IsClock {N : Type 0} (os : Os N) (time : N → ℕ) : Type 0 where
  pub reads : (n : N) → (os.now n).1 ≡ time n
  pub goes_on : (n : N) → time n ≤ time (os.now n).0
  pub polls : (n : N) → time n ≤ time (os.active n).0
  pub sleeps : (n : N) → time n + 100 * millisecond ≤ time (os.sleep n)

module _ {N : Type 0} (os : Os N) (time : N → ℕ) (clock : IsClock os time) where
  -- A round of the loop lasts at least 100 milliseconds.
  round_time : (n : N) → time n + 100 * millisecond ≤ time (os.sleep (os.active (os.now n).0).0)
  round_time n =
      omega
        (arith, clock.goes_on n, clock.polls (os.now n).0, clock.sleeps (os.active (os.now n).0).0)

  -- Time is left only if the deadline is ahead.
  early-lt : (deadline : ℕ) (n : N) → ltb (os.now n).1 deadline ≡ true → time n < deadline
  early-lt deadline n early = omega (arith, clock.reads n, ltb→lt (os.now n).1 deadline early)

  -- With fuel for the time that is left, the loop ends.
  drain-ends :
      (fuel deadline : ℕ) (n : N)
      → deadline ≤ time n + fuel * (100 * millisecond)
      → (r : N × Bool) × (drain os (suc fuel) deadline n ≡ some r)
  unfolding drain
  drain-ends zero deadline n h = elim (Bool-cases (ltb (os.now n).1 deadline)) [
    | inr late ↦ rw late (_, refl)
    | inl early ↦ absurd (omega (arith, early-lt deadline n early))
  ]
  drain-ends (suc fuel) deadline n h = elim (Bool-cases (ltb (os.now n).1 deadline)) [
    | inr late ↦ rw late (_, refl)
    | inl early ↦ elim (Bool-cases ((os.active (os.now n).0).1 == 0)) [
      | inl quiet ↦ rw (early, quiet) (_, refl)
      | inr busy ↦
          rw (early, busy)
            (drain-ends fuel deadline (os.sleep (os.active (os.now n).0).0)
              (omega (arith, round_time n)))
    ]
  ]

module _ ⦃F : Float⦄ {N : Type 0} (lib : Library N) (decode : String → Config → Option Config)
    (env : String → String) (os : Os N) (time : N → ℕ) (clock : IsClock os time) where
  returned-ends :
      (actions : List Action) (o : Option (N × Bool))
      → (r : N × Bool) × (o ≡ some r)
      → (r : N × Outcome) × (returned lib decode env os actions o ≡ some r)
  returned-ends actions none (r, e) = cc e
  returned-ends actions (some (n, drained)) h = (_, refl)

  -- The loop ends from any moment on, if its deadline is 30 seconds after it.
  drained :
      (n : N) → (r : N × Bool) × (drain os 301 ((os.now n).1 + drain_time) (os.now n).0 ≡ some r)
  drained n =
      drain-ends os time clock 300 ((os.now n).1 + drain_time) (os.now n).0
        (omega (arith, clock.reads n, clock.goes_on n))

  serve_until_signal-ends :
      (before : List Action) (rt : Runtime N (Limiter N)) (n : N)
      → (r : N × Outcome) × (serve_until_signal lib decode env os before rt n ≡ some r)
  unfolding serve_until_signal
  serve_until_signal-ends before rt n =
      let started = before ++ starts_health_checker ∷ starts_stats_server ∷ [] in
      elim (Bool-cases (start_listener os rt.config.proxy (perform os started n)).1) [
        | inr deaf ↦ rw deaf (_, refl)
        | inl listening ↦ rw listening (returned-ends _ _ (drained _))
      ]

  -- Once a signal has come, the proxy ends, also if its connections stay open: with a clock that
  -- does not go back, 301 rounds of the waiting loop are enough, whatever the start gives.
  pub run_proxy-ends :
      (tracing : TracingConfig → N → N × Bool) (file : ConfigFile) (n : N)
      → (r : N × Outcome) × (run_proxy lib decode env os tracing file n ≡ some r)
  unfolding run_proxy
  run_proxy-ends tracing file n = ends (start_up lib decode env tracing file n)
    where
      ends :
          (x : N × (Runtime N (Limiter N) ⊎ RuntimeError))
          → (r : N × Outcome) × (run_from lib decode env os x ≡ some r)
      ends (m, inl rt) = serve_until_signal-ends _ rt m
      ends (m, inr (bad_config e)) = (_, refl)
      ends (m, inr bad_tracing) = (_, refl)
      ends (m, inr redis_unreachable) = (_, refl)

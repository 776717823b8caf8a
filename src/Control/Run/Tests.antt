-- ===== src/Control/Run/Tests.antt =====
-- A run of the proxy that starts, serves and stops at once.
use edge_proxy_go.Base.{
  ℕ, ◌+◌, ◌*◌, ◌≡◌, refl, true, none, some, [], ◌∷◌, arith, ◌==ₛ◌, trim_space, trim_left,
  trim_right, to_lower,
}
use edge_proxy_go.Samples.{thousandths}
use edge_proxy_go.Config.Types.{default_config, default_proxy, default_rate_limit}
use edge_proxy_go.Config.Environment.{apply_env_overrides}
use edge_proxy_go.Config.Validate.{normalize_mode}
use edge_proxy_go.Config.Load.{missing}
use edge_proxy_go.Pool.Entry.{millisecond}
use edge_proxy_go.Control.Run.{
  Os, perform, start_listener, drain, starts_health_checker, starts_stats_server, serves_http,
  shuts_down_http, shuts_down_stats, closes_pool, shuts_down_tracing, Outcome, new_proxy_server,
  serve_until_signal, run_proxy,
}
use edge_proxy_go.Control.Run.Drain.{IsClock, run_proxy-ends}
use edge_proxy_go.Control.Run.Release.{IsReleased, run_proxy-IsReleased}
use edge_proxy_go.Control.Tests.{library, decode, env, tracing, first_config, starts}

-- The clock stands but for sleeps, and no connection is open.
abbrev os : Os ℕ
os = record {
  key_pair = λ cert key. true;
  listen = λ port n. (n, true);
  signal = λ n. n;
  now = λ n. (n, n);
  active = λ n. (n, 0);
  sleep = λ n. n + 100 * millisecond;
  act = λ a n. n;
}

abbrev time : ℕ → ℕ
time n = n

os-IsClock : IsClock os time
os-IsClock = record {
  reads = λ n. refl;
  goes_on = λ n. omega arith;
  polls = λ n. omega arith;
  sleeps = λ n. omega arith;
}

run_proxy-ends_example :
    (r : ℕ × Outcome) × (run_proxy library decode env os tracing missing 0 ≡ some r)
run_proxy-ends_example = run_proxy-ends library decode env os time os-IsClock tracing missing 0

abbrev outcome : Outcome
outcome = record {
  actions =
      starts_health_checker
      ∷ starts_stats_server
      ∷ serves_http (new_proxy_server first_config.proxy)
      ∷ shuts_down_http
      ∷ shuts_down_stats
      ∷ closes_pool
      ∷ shuts_down_tracing
      ∷ [];
  error = none;
  drained = true;
}

ran : run_proxy library decode env os tracing missing 0 ≡ some (0, outcome)
unfolding run_proxy serve_until_signal perform start_listener drain trim_space trim_left trim_right
    ◌==ₛ◌ normalize_mode apply_env_overrides default_config default_proxy default_rate_limit
    to_lower
ran = rw (starts, run_proxy) refl

run_proxy-IsReleased_example : IsReleased outcome
run_proxy-IsReleased_example = run_proxy-IsReleased library decode env os tracing missing 0 ran

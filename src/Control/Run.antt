-- ===== src/Control/Run.antt =====
-- main.go: `runProxy` as a whole, `startListener` and `newProxyServer`. What it starts and stops is a
-- list of actions, in their order; the lines it prints are not modelled.
pub mod Drain
pub mod Release
mod Tests
use edge_proxy_go.Base.{
  ℕ, zero, suc, ◌+◌, ◌*◌, ◌⊎◌, inl, inr, ℤ, pos, Bool, true, false, List, [], ◌∷◌, ◌++◌, Option,
  none, some, String, Float, ltb, ◌==◌, ◌==ₛ◌, if◌then◌else◌, trim_space,
}
use edge_proxy_go.Config.Types.{Config, ProxyConfig, TracingConfig, HealthCheckConfig}
use edge_proxy_go.Config.Load.{ConfigFile}
use edge_proxy_go.Pool.Entry.{second, millisecond}
use edge_proxy_go.Pool.Startup.{duration_ms}
use edge_proxy_go.Limiter.Redis.{Library, Limiter}
use edge_proxy_go.Proxy.Handler.{Runtime}
use edge_proxy_go.Control.Reload.{
  RuntimeError, bad_config, bad_tracing, redis_unreachable, start_up,
}

-- The settings of `http.Server`, with durations in nanoseconds; 0 stands for none.
pub record HttpServer : Type 0 where
  pub addr : String
  pub read_timeout : ℕ
  pub read_header_timeout : ℕ
  pub write_timeout : ℕ
  pub idle_timeout : ℕ
  pub max_header_bytes : ℤ

unfoldable pub new_proxy_server : ProxyConfig → HttpServer
new_proxy_server c = record {
  addr = c.port;
  read_timeout = duration_ms c.read_timeout_ms;
  read_header_timeout = duration_ms c.read_header_timeout_ms;
  write_timeout = duration_ms c.write_timeout_ms;
  idle_timeout = duration_ms c.idle_timeout_ms;
  max_header_bytes = c.max_header_bytes;
}

-- `currentHealthCheckConfig`, which the health checks read at each tick; `none` is nil.
unfoldable pub current_health_check_config : ⦃F : Float⦄ → Option Config → HealthCheckConfig
current_health_check_config none = record {
  enabled = false;
  interval_seconds = pos 0;
  timeout_seconds = pos 0;
  path = "";
}
current_health_check_config (some c) = c.health_check

-- What a run starts and stops; `awaits_tcp` waits until `serveTCPProxy` has returned, or for 30
-- seconds.
pub data Action : Type 0 where
  starts_local_backend : String → Action
  starts_health_checker starts_stats_server : Action
  serves_http : HttpServer → Action
  serves_tcp : String → Action
  shuts_down_http closes_listener awaits_tcp shuts_down_stats closes_pool shuts_down_tracing :
      Action

-- What the operating system does, on a state `N` of the outside: whether a key pair can be loaded,
-- whether a port can be listened on, waiting for SIGTERM or SIGINT, the clock in nanoseconds,
-- `activeConns` at the moment, `time.Sleep` of 100 milliseconds, and what an action comes to by the
-- time that it is done.
pub record Os (N : Type 0) : Type 0 where
  pub key_pair : String → String → Bool
  pub listen : String → N → N × Bool
  pub signal : N → N
  pub now : N → N × ℕ
  pub active : N → N × ℕ
  pub sleep : N → N
  pub act : Action → N → N

module _ {N : Type 0} (os : Os N) where
  unfoldable pub perform : List Action → N → N
  perform [] n = n
  perform (a ∷ as') n = perform as' (os.act a n)

  -- True if there is a listener.
  unfoldable pub start_listener : ProxyConfig → N → N × Bool
  start_listener c n =
      if c.tls.enabled
      then if os.key_pair c.tls.cert_file c.tls.key_file then os.listen c.port n else (n, false)
      else os.listen c.port n

  -- The loop that waits for the connections, with fuel; true if none is left, false at the deadline.
  unfoldable pub drain : ℕ → ℕ → N → Option (N × Bool)
  drain zero deadline n = none
  drain (suc fuel) deadline n =
      let (n', now) = os.now n in
      let (n'', active) = os.active n' in
      let rest = drain fuel deadline (os.sleep n'') in
      if ltb now deadline then if active == 0 then some (n'', true) else rest else some (n', false)

pub data RunError : Type 0 where
  failed_start : RuntimeError → RunError
  listen_failed : RunError

-- The actions of a run, the error that it returns, and whether it waited for all connections.
pub record Outcome : Type 0 where
  pub actions : List Action
  pub error : Option RunError
  pub drained : Bool

-- 30 seconds of rounds that sleep 100 milliseconds each, and one round more.
abbrev pub drain_rounds : ℕ
drain_rounds = 301

abbrev pub drain_time : ℕ
drain_time = 30 * second

abbrev pub local_backends : Bool → List Action
local_backends true =
    starts_local_backend ":9000" ∷ starts_local_backend ":9001" ∷ starts_local_backend ":9002" ∷ []
local_backends false = []

module _ ⦃F : Float⦄ {N : Type 0} (lib : Library N) (decode : String → Config → Option Config)
    (env : String → String) (os : Os N) where
  abbrev pub failed_run : List Action → RunError → N → Option (N × Outcome)
  failed_run actions e n = some (n, record { actions = actions; error = some e; drained = false })

  abbrev pub returned : List Action → Option (N × Bool) → Option (N × Outcome)
  returned actions none = none
  returned actions (some (n, drained)) =
      some
        (os.act shuts_down_tracing n, record { actions = actions; error = none; drained = drained })

  -- From `startHealthChecker` on; `before` is what was started before.
  unfoldable pub serve_until_signal : List Action → Runtime N (Limiter N) → N → Option (N × Outcome)
  serve_until_signal before rt n =
      let started = before ++ starts_health_checker ∷ starts_stats_server ∷ [] in
      let (n1, listening) = start_listener os rt.config.proxy (perform os started n) in
      let by_http = rt.config.mode ==ₛ "http" in
      let serving =
        if by_http
        then serves_http (new_proxy_server rt.config.proxy)
        else serves_tcp rt.config.tcp_backend in
      let stopping =
        (if by_http then shuts_down_http ∷ [] else closes_listener ∷ awaits_tcp ∷ [])
        ++ shuts_down_stats ∷ closes_pool ∷ [] in
      let undoing = shuts_down_stats ∷ closes_pool ∷ shuts_down_tracing ∷ [] in
      let (n2, now) = os.now (perform os stopping (os.signal (os.act serving n1))) in
      if listening
      then returned (started ++ serving ∷ (stopping ++ shuts_down_tracing ∷ []))
          (drain os drain_rounds (now + drain_time) n2)
      else failed_run (started ++ undoing) listen_failed (perform os undoing n1)

  -- An error before tracing is set up returns with nothing to undo, one after it with its shutdown.
  abbrev pub run_from : N × (Runtime N (Limiter N) ⊎ RuntimeError) → Option (N × Outcome)
  run_from (n, inr redis_unreachable) =
      failed_run (shuts_down_tracing ∷ []) (failed_start redis_unreachable)
        (os.act shuts_down_tracing n)
  run_from (n, inr e) = failed_run [] (failed_start e) n
  run_from (n, inl rt) =
      serve_until_signal (local_backends (trim_space (env "INPROC_BACKENDS") ==ₛ "1")) rt n

  unfoldable pub run_proxy : (TracingConfig → N → N × Bool) → ConfigFile → N → Option (N × Outcome)
  run_proxy tracing file n = run_from (start_up lib decode env tracing file n)

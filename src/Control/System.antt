-- ===== src/Control/System.antt =====
-- main.go: the whole proxy, from its start: requests, the statistics server with its reloads and its
-- administration, health checks and connections, in any order. Each of them is one step.
pub mod Listed
use edge_proxy_go.Base.{
  not, ℕ, ◌-◌, to_lower, trim_space, ◌≡◌, ◌≤◌, refl, inl, inr, ◌⊎◌, Bool, List, [], ◌∷◌, ◌++◌,
  Option, none, some, String, Float, arith, Bool-cases, subst, sym, length, length-drop, ◌&&◌,
  ◌==ₛ◌, starts_with,
}
use edge_proxy_go.Config.Types.{Config, AuthConfig, TracingConfig}
use edge_proxy_go.Config.Validate.{Result, ok, err}
use edge_proxy_go.Config.Validate.Sound.{IsSound}
use edge_proxy_go.Config.Load.{ConfigFile, load_config}
use edge_proxy_go.Config.Load.Sound.{load_config-IsSound}
use edge_proxy_go.Pool.Entry.{BackendPool}
use edge_proxy_go.Pool.Admin.{AdminError}
use edge_proxy_go.Pool.Health.{apply_check}
use edge_proxy_go.Pool.Invariant.{IsValid}
use edge_proxy_go.Pool.Steps.{Step, Reach, here, after, Reach-IsValid}
use edge_proxy_go.Pool.Startup.{started-IsValid}
use edge_proxy_go.Limiter.Redis.{Library, Limiter}
use edge_proxy_go.Limiter.Redis.Evaluate.{new_rate_limiter}
use edge_proxy_go.Proxy.Recorder.{
  Stats, LogEntry, ConnState, state_new, state_active, state_idle, state_hijacked, state_closed,
  append_log, record_request, track_connection_state,
}
use edge_proxy_go.Proxy.Handler.{Incoming, Services, Runtime, handle}
use edge_proxy_go.Proxy.Handler.Outcomes.{handle-Ends}
use edge_proxy_go.Proxy.Handler.Steps.{handle-Reach}
use edge_proxy_go.Proxy.Handler.FailClosed.{with_limiter}
use edge_proxy_go.Control.Reload.{
  RuntimeError, checked, reload_with, reload_runtime_config, reload_handler, start_with, start_up,
}
use edge_proxy_go.Control.Server.{
  Endpoint, stats, metrics_page, top_abusers, traffic_spikes, rate_limit_events, backends, reload,
  dashboard, AdminRequest, Outside, basic_auth, dispatch, stats_server,
}
use edge_proxy_go.Control.Admin.{applied, post_action, named, backend_admin_handler, trim_prefix}

-- What holds while the proxy runs.
pub record IsRunning ⦃F : Float⦄ {N L : Type 0} (rt : Runtime N L) : Type 0 where
  pub config : IsSound rt.config
  pub pool : IsValid rt.pool
  pub log : length rt.stats.access_log ≤ 100

append_log-bound : (e : LogEntry) (log : List LogEntry) → length (append_log e log) ≤ 100
unfolding append_log
append_log-bound e log = ground (arith, length-drop (length (log ++ e ∷ []) - 100) (log ++ e ∷ []))

module _ ⦃F : Float⦄ where
  pub applied-pool :
      (address action : String) (x : BackendPool × Option AdminError)
      → (applied address action x).0 ≡ x.0
  applied-pool address action (p, none) = refl
  applied-pool address action (p, some e) = refl

  post_action-Reach :
      (p : BackendPool) (address action : Option String) → Reach p (post_action p address action).0
  post_action-Reach p none input = here
  post_action-Reach p (some address) none = here
  post_action-Reach p (some address) (some action) =
      subst (Reach p) (sym (applied-pool address action _))
        (after here (Step.administers address (to_lower (trim_space action))))

  admin-Reach :
      (unescape : String → Option String) (now : ℕ) (method path : String) (action : Option String)
      (p : BackendPool)
      → Reach p (backend_admin_handler unescape now method path action p).0
  unfolding backend_admin_handler
  admin-Reach unescape now method path action p =
      elim (Bool-cases (method ==ₛ "GET" && path ==ₛ "/-/backends")) [
        | inl e ↦ rw e here
        | inr e ↦ elim (Bool-cases (method ==ₛ "POST" && starts_with path "/-/backends/")) [
          | inl f ↦
              rw (e, f)
                (post_action-Reach p (named (unescape (trim_prefix "/-/backends/" path))) action)
          | inr f ↦ rw (e, f) here
        ]
      ]

track-log :
    (state : ConnState) (s : Stats) → (track_connection_state state s).access_log ≡ s.access_log
unfolding track_connection_state
track-log state_new s = refl
track-log state_active s = refl
track-log state_idle s = refl
track-log state_hijacked s = refl
track-log state_closed s = refl

module _ ⦃F : Float⦄ {N : Type 0} (lib : Library N) (decode : String → Config → Option Config)
    (env : String → String) (S : Services N (Limiter N)) where
  abbrev Proxy : Type 0
  Proxy = Runtime N (Limiter N)

  pub data Event (rt : Runtime N (Limiter N)) : Runtime N (Limiter N) → Type 0 where
    serves : (r : Incoming) → Event rt (handle (with_limiter lib S) rt r).0
    commands :
        (out : Outside N) (auth : AuthConfig) (r : AdminRequest)
        → Event rt (stats_server lib decode env out auth r rt).0
    checks :
        (address : String) (passed : Bool)
        → Event rt (record rt { pool = apply_check address passed rt.pool })
    connects :
        (state : ConnState) → Event rt (record rt { stats = track_connection_state state rt.stats })

  pub data Runs (rt : Runtime N (Limiter N)) : Runtime N (Limiter N) → Type 0 where
    begins : Runs rt rt
    continues : {p q : Runtime N (Limiter N)} → Runs rt p → Event p q → Runs rt q

  reload-IsRunning :
      (rt : Proxy) (x : Result Config)
      → ((c : Config) → x ≡ ok c → IsSound c)
      → IsRunning rt
      → IsRunning (reload_with lib decode env rt x).0
  reload-IsRunning rt (err e) sound h = h
  reload-IsRunning rt (ok c) sound h =
      elim (Bool-cases (checked lib decode env c (new_rate_limiter lib c.rate_limit) rt.net).1) [
        | inl up ↦ rw up record {
          config = sound c refl;
          pool = Reach-IsValid (after here (Step.reconfigures _)) h.pool;
          log = h.log;
        }
        | inr down ↦ rw down record { config = h.config; pool = h.pool; log = h.log }
      ]

  handle-log :
      (rt : Proxy) (r : Incoming)
      → length (handle (with_limiter lib S) rt r).0.stats.access_log ≤ 100
  unfolding handle record_request
  handle-log rt r = append_log-bound _ _

  dispatch-IsRunning :
      (out : Outside N) (e : Endpoint) (r : AdminRequest) (rt : Proxy)
      → IsRunning rt
      → IsRunning (dispatch lib decode env out e r rt).0
  unfolding dispatch reload_handler reload_runtime_config
  dispatch-IsRunning out stats r rt h = record { config = h.config; pool = h.pool; log = h.log }
  dispatch-IsRunning out metrics_page r rt h = h
  dispatch-IsRunning out top_abusers r rt h = record {
    config = h.config;
    pool = h.pool;
    log = h.log;
  }
  dispatch-IsRunning out traffic_spikes r rt h = record {
    config = h.config;
    pool = h.pool;
    log = h.log;
  }
  dispatch-IsRunning out rate_limit_events r rt h = record {
    config = h.config;
    pool = h.pool;
    log = h.log;
  }
  dispatch-IsRunning out backends r rt h = record {
    config = h.config;
    pool = Reach-IsValid (admin-Reach out.unescape out.now r.method r.path r.action rt.pool) h.pool;
    log = h.log;
  }
  dispatch-IsRunning out reload r rt h = elim (Bool-cases (r.method ==ₛ "POST")) [
    | inl e ↦ rw e (
        reload-IsRunning rt (load_config decode env out.file)
          (λ c loaded. load_config-IsSound decode env out.file loaded) h)
    | inr e ↦ rw e h
  ]
  dispatch-IsRunning out dashboard r rt h = h

  stats_server-IsRunning :
      (out : Outside N) (auth : AuthConfig) (r : AdminRequest) (rt : Proxy)
      → IsRunning rt
      → IsRunning (stats_server lib decode env out auth r rt).0
  unfolding stats_server
  stats_server-IsRunning out auth r rt h =
      elim (Bool-cases
        (auth.enabled && not (basic_auth auth.username auth.password r.credentials))) [
          | inl e ↦ rw e h
          | inr e ↦ rw e (dispatch-IsRunning out (out.mux r.path) r rt h)
        ]

  Event-IsRunning : {rt rt' : Proxy} → Event rt rt' → IsRunning rt → IsRunning rt'
  Event-IsRunning {rt} (serves r) h =
      let (v, ends, status, retry, same, counted) = handle-Ends (with_limiter lib S) rt r in
      record {
        config = subst IsSound (sym same) h.config;
        pool = Reach-IsValid (handle-Reach (with_limiter lib S) rt r) h.pool;
        log = handle-log rt r;
      }
  Event-IsRunning {rt} (commands out auth r) h = stats_server-IsRunning out auth r rt h
  Event-IsRunning (checks address passed) h = record {
    config = h.config;
    pool = Reach-IsValid (after here (Step.checks address passed)) h.pool;
    log = h.log;
  }
  Event-IsRunning {rt} (connects state) h = record {
    config = h.config;
    pool = h.pool;
    log = subst (λ l. length l ≤ 100) (sym (track-log state rt.stats)) h.log;
  }

  abbrev Started : Runtime N (Limiter N) ⊎ RuntimeError → Type 0
  Started (inl rt) = IsRunning rt
  Started (inr e) = Unit

  start-Started :
      (tracing : TracingConfig → N → N × Bool) (n : N) (x : Result Config)
      → ((c : Config) → x ≡ ok c → IsSound c)
      → Started (start_with lib decode env tracing n x).1
  start-Started tracing n (err e) sound = tt
  start-Started tracing n (ok c) sound = elim (Bool-cases (tracing c.tracing n).1) [
    | inr untraced ↦ rw untraced tt
    | inl traced ↦
        elim (Bool-cases
          (checked lib decode env c (new_rate_limiter lib c.rate_limit)
            (tracing c.tracing n).0).1) [
              | inl up ↦
                  rw (traced, up)
                    record {
                      config = sound c refl;
                      pool = started-IsValid c here;
                      log = omega arith;
                    }
              | inr down ↦ rw (traced, down) tt
            ]
  ]

  -- Whatever configuration the proxy starts with, and whatever it then serves, loads, checks and is
  -- told, its configuration is sound, its pool is valid, and its log has at most 100 entries.
  pub started-IsRunning :
      (tracing : TracingConfig → N → N × Bool) (file : ConfigFile) (n : N)
      {rt rt' : Runtime N (Limiter N)}
      → (start_up lib decode env tracing file n).1 ≡ inl rt
      → Runs rt rt'
      → IsRunning rt'
  unfolding start_up
  started-IsRunning tracing file n h begins = subst Started h (
      start-Started tracing n (load_config decode env file)
        (λ c e. load_config-IsSound decode env file e))
  started-IsRunning tracing file n h (continues runs event) =
      Event-IsRunning event (started-IsRunning tracing file n h runs)

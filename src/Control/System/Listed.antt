-- ===== src/Control/System/Listed.antt =====
-- main.go: the addresses of the pool while the proxy runs, against its configuration.
use edge_proxy_go.Base.{
  not, ◌&&◌, to_lower, trim_space, ◌≡◌, refl, sym, ap, ◌∙◌, subst, ◌⊎◌, inl, inr, Bool, Option,
  none, some, String, ℕ, Float, map, Bool-cases, ◌==ₛ◌, starts_with,
}
use edge_proxy_go.Config.Types.{Config, TracingConfig}
use edge_proxy_go.Config.Validate.{Result, ok, err}
use edge_proxy_go.Config.Validate.Sound.{IsSound}
use edge_proxy_go.Config.Load.{ConfigFile, load_config}
use edge_proxy_go.Config.Load.Sound.{load_config-IsSound}
use edge_proxy_go.Pool.Entry.{BackendEntry, BackendPool, IsDistinct}
use edge_proxy_go.Pool.Admin.{reconfigure}
use edge_proxy_go.Pool.Use.{
  addresses_of, addresses-Use, addresses-apply_check, addresses-set_backend_state,
}
use edge_proxy_go.Pool.Health.Round.{HasDistinct, HasDistinct-of_IsDistinct}
use edge_proxy_go.Limiter.Redis.{Library, Limiter}
use edge_proxy_go.Limiter.Redis.Evaluate.{new_rate_limiter}
use edge_proxy_go.Proxy.Backends.{backend_addresses, backend_addresses-IsDistinct}
use edge_proxy_go.Proxy.Handler.{Services, Runtime}
use edge_proxy_go.Proxy.Handler.Outcomes.{handle-Ends}
use edge_proxy_go.Proxy.Handler.Steps.{handle-Use}
use edge_proxy_go.Proxy.Handler.FailClosed.{with_limiter}
use edge_proxy_go.Control.Addresses.{start-addresses}
use edge_proxy_go.Control.Reload.{
  RuntimeError, checked, reload_with, rebuild-addresses, reload_runtime_config, reload_handler,
  start_with, start_up,
}
use edge_proxy_go.Control.Server.{
  Endpoint, stats, metrics_page, top_abusers, traffic_spikes, rate_limit_events, backends, reload,
  dashboard, AdminRequest, Outside, basic_auth, dispatch, stats_server,
}
use edge_proxy_go.Control.Admin.{post_action, named, backend_admin_handler, trim_prefix}
use edge_proxy_go.Control.System.{
  applied-pool, Event, serves, commands, checks, connects, Runs, begins, continues,
}

-- The pool has one backend for each address of the configuration, in its order.
abbrev IsListed : ⦃F : Float⦄ {N L : Type 0} → Runtime N L → Type 0
IsListed rt = addresses_of rt.pool.backends ≡ backend_addresses rt.config

module _ ⦃F : Float⦄ where
  post_action-addresses :
      (p : BackendPool) (address action : Option String)
      → addresses_of (post_action p address action).0.backends ≡ addresses_of p.backends
  post_action-addresses p none input = refl
  post_action-addresses p (some address) none = refl
  post_action-addresses p (some address) (some action) =
      ap (λ (q : BackendPool). addresses_of q.backends) (applied-pool address action _)
      ∙ addresses-set_backend_state address (to_lower (trim_space action)) p

  admin-addresses :
      (unescape : String → Option String) (now : ℕ) (method path : String) (action : Option String)
      (p : BackendPool)
      → addresses_of (backend_admin_handler unescape now method path action p).0.backends
        ≡ addresses_of p.backends
  unfolding backend_admin_handler
  admin-addresses unescape now method path action p =
      elim (Bool-cases (method ==ₛ "GET" && path ==ₛ "/-/backends")) [
        | inl e ↦ rw e refl
        | inr e ↦ elim (Bool-cases (method ==ₛ "POST" && starts_with path "/-/backends/")) [
          | inl f ↦
              rw (e, f)
                (post_action-addresses p (named (unescape (trim_prefix "/-/backends/" path)))
                  action)
          | inr f ↦ rw (e, f) refl
        ]
      ]

module _ ⦃F : Float⦄ {N : Type 0} (lib : Library N) (decode : String → Config → Option Config)
    (env : String → String) (S : Services N (Limiter N)) where
  abbrev Proxy : Type 0
  Proxy = Runtime N (Limiter N)

  reload_with-IsListed :
      (rt : Proxy) (x : Result Config) → IsListed rt → IsListed (reload_with lib decode env rt x).0
  unfolding reconfigure
  reload_with-IsListed rt (err e) h = h
  reload_with-IsListed rt (ok c) h =
      elim (Bool-cases (checked lib decode env c (new_rate_limiter lib c.rate_limit) rt.net).1) [
        | inl up ↦ rw up (rebuild-addresses rt.pool.backends rt.pool.heap (backend_addresses c))
        | inr down ↦ rw down h
      ]

  dispatch-IsListed :
      (out : Outside N) (e : Endpoint) (r : AdminRequest) (rt : Proxy)
      → IsListed rt
      → IsListed (dispatch lib decode env out e r rt).0
  unfolding dispatch reload_handler reload_runtime_config
  dispatch-IsListed out stats r rt h = h
  dispatch-IsListed out metrics_page r rt h = h
  dispatch-IsListed out top_abusers r rt h = h
  dispatch-IsListed out traffic_spikes r rt h = h
  dispatch-IsListed out rate_limit_events r rt h = h
  dispatch-IsListed out backends r rt h =
      admin-addresses out.unescape out.now r.method r.path r.action rt.pool ∙ h
  dispatch-IsListed out reload r rt h = elim (Bool-cases (r.method ==ₛ "POST")) [
    | inl e ↦ rw e (reload_with-IsListed rt (load_config decode env out.file) h)
    | inr e ↦ rw e h
  ]
  dispatch-IsListed out dashboard r rt h = h

  Event-IsListed : {rt rt' : Proxy} → Event lib decode env S rt rt' → IsListed rt → IsListed rt'
  unfolding stats_server
  Event-IsListed {rt} (serves r) h =
      let (v, ends, status, retry, same, counted) = handle-Ends (with_limiter lib S) rt r in
      addresses-Use (handle-Use (with_limiter lib S) rt r) ∙ h ∙ ap backend_addresses (sym same)
  Event-IsListed {rt} (commands out auth r) h =
      elim (Bool-cases
        (auth.enabled && not (basic_auth auth.username auth.password r.credentials))) [
          | inl e ↦ rw e h
          | inr e ↦ rw e (dispatch-IsListed out (out.mux r.path) r rt h)
        ]
  Event-IsListed {rt} (checks address passed) h = addresses-apply_check address passed rt.pool ∙ h
  Event-IsListed (connects state) h = h

  abbrev Listed : Runtime N (Limiter N) ⊎ RuntimeError → Type 0
  Listed (inl rt) = IsDistinct rt.config.backends → IsListed rt
  Listed (inr e) = Unit

  start-Listed :
      (tracing : TracingConfig → N → N × Bool) (n : N) (x : Result Config)
      → ((c : Config) → x ≡ ok c → IsSound c)
      → Listed (start_with lib decode env tracing n x).1
  start-Listed tracing n (err e) sound = tt
  start-Listed tracing n (ok c) sound = elim (Bool-cases (tracing c.tracing n).1) [
    | inr untraced ↦ rw untraced tt
    | inl traced ↦
        elim (Bool-cases
          (checked lib decode env c (new_rate_limiter lib c.rate_limit)
            (tracing c.tracing n).0).1) [
              | inl up ↦ rw (traced, up) (start-addresses c (sound c refl))
              | inr down ↦ rw (traced, down) tt
            ]
  ]

  -- If the configuration that the proxy starts with lists each backend once, then whatever the proxy
  -- serves, loads, checks and is told, its pool has one backend for each address of the backends
  -- and routes of the configuration that it runs on by then, in their order, and no other.
  pub started-IsListed :
      (tracing : TracingConfig → N → N × Bool) (file : ConfigFile) (n : N)
      {rt rt' : Runtime N (Limiter N)}
      → (start_up lib decode env tracing file n).1 ≡ inl rt
      → IsDistinct rt.config.backends
      → Runs lib decode env S rt rt'
      → map (λ (e : BackendEntry). e.address) rt'.pool.backends ≡ backend_addresses rt'.config
  unfolding start_up
  started-IsListed tracing file n h d begins =
      subst Listed h
        (start-Listed tracing n (load_config decode env file)
          (λ c e. load_config-IsSound decode env file e))
        d
  started-IsListed tracing file n h d (continues runs event) =
      Event-IsListed event (started-IsListed tracing file n h d runs)

  -- So no two backends of the pool share an address, as a round of the health checks asks for.
  pub started-HasDistinct :
      (tracing : TracingConfig → N → N × Bool) (file : ConfigFile) (n : N)
      {rt rt' : Runtime N (Limiter N)}
      → (start_up lib decode env tracing file n).1 ≡ inl rt
      → IsDistinct rt.config.backends
      → Runs lib decode env S rt rt'
      → HasDistinct rt'.pool.backends
  started-HasDistinct tracing file n {rt' = rt'} h d runs =
      HasDistinct-of_IsDistinct rt'.pool.backends (
        subst IsDistinct (sym (started-IsListed tracing file n h d runs))
          (backend_addresses-IsDistinct rt'.config).0)

-- ===== src/Control/Run/Release.antt =====
-- main.go: which of the things that `runProxy` starts it stops, on every path.
use mathlib.Core.Option.{some-injective}
use edge_proxy_go.Base.{
  ◌≡◌, refl, ap, subst, ◌⊎◌, inl, inr, Bool, true, false, not, ◌&&◌, List, [], ◌∷◌, ◌++◌, Option,
  none, some, String, Float, Bool-cases, if◌then◌else◌, ◌==ₛ◌, trim_space,
}
use edge_proxy_go.Config.Types.{Config, TracingConfig}
use edge_proxy_go.Config.Load.{ConfigFile}
use edge_proxy_go.Limiter.Redis.{Library, Limiter}
use edge_proxy_go.Proxy.Handler.{Runtime}
use edge_proxy_go.Control.Reload.{
  RuntimeError, bad_config, bad_tracing, redis_unreachable, start_up,
}
use edge_proxy_go.Control.Run.{
  HttpServer, Os, start_listener, Action, starts_local_backend, starts_health_checker,
  starts_stats_server, serves_http, serves_tcp, shuts_down_http, closes_listener, awaits_tcp,
  shuts_down_stats, perform, closes_pool, shuts_down_tracing, RunError, failed_start, listen_failed,
  Outcome, local_backends, returned, serve_until_signal, run_from, run_proxy,
}

-- Which front end is serving.
pub data Front : Type 0 where
  closed_front http_front tcp_front : Front

-- What is running.
pub record Running : Type 0 where
  pub tracing : Bool
  pub checker : Bool
  pub stats : Bool
  pub front : Front

abbrev pub at_rest : Running
at_rest = record { tracing = false; checker = false; stats = false; front = closed_front }

abbrev pub with_tracing : Running
with_tracing = record at_rest { tracing = true }

-- A flag that is turned on must have been off, and one that is turned off must have been on.
abbrev turned : Bool → Bool → Running → Option Running
turned true true r = none
turned true false r = some r
turned false true r = some r
turned false false r = none

abbrev opened_by : Front → Front → Running → Option Running
opened_by closed_front f r = some record r { front = f }
opened_by _ f r = none

abbrev closed_by : Front → Front → Running → Option Running
closed_by http_front http_front r = some record r { front = closed_front }
closed_by tcp_front tcp_front r = some record r { front = closed_front }
closed_by _ _ r = none

abbrev is_closed : Front → Bool
is_closed closed_front = true
is_closed _ = false

-- What an action does to what is running, `none` if it is out of place. Tracing is shut down when
-- nothing else runs any more. The local backends of the demo run on.
abbrev effect : Action → Running → Option Running
effect (starts_local_backend port) r = some r
effect starts_health_checker r = turned true r.checker (record r { checker = true })
effect starts_stats_server r = turned true r.stats (record r { stats = true })
effect (serves_http server) r = opened_by r.front http_front r
effect (serves_tcp backend) r = opened_by r.front tcp_front r
effect shuts_down_http r = closed_by r.front http_front r
effect closes_listener r = closed_by r.front tcp_front r
effect awaits_tcp r = if is_closed r.front then some r else none
effect shuts_down_stats r = turned false r.stats (record r { stats = false })
effect closes_pool r = turned false r.checker (record r { checker = false })
effect shuts_down_tracing r =
    if r.tracing && not r.checker && not r.stats && is_closed r.front then some at_rest else none

abbrev then_all : (Running → Option Running) → Option Running → Option Running
then_all rest none = none
then_all rest (some r) = rest r

unfoldable pub replay : List Action → Running → Option Running
replay [] r = some r
replay (a ∷ as') r = then_all (replay as') (effect a r)

abbrev pub serves : List Action → Bool
serves [] = false
serves (serves_http server ∷ as') = true
serves (serves_tcp backend ∷ as') = true
serves (a ∷ as') = serves as'

-- What runs before the actions: tracing, unless the configuration or tracing itself is at fault.
abbrev pub begun : Option RunError → Running
begun (some (failed_start (bad_config e))) = at_rest
begun (some (failed_start bad_tracing)) = at_rest
begun _ = with_tracing

abbrev pub no_error : Option RunError → Bool
no_error none = true
no_error (some e) = false

-- All that was started is stopped, but for local backends, and the proxy has served exactly if there is no error.
abbrev pub IsReleased : Outcome → Type 0
IsReleased o =
    (replay o.actions (begun o.error) ≡ some at_rest) × (serves o.actions ≡ no_error o.error)

abbrev started : Bool → List Action → List Action
started local rest =
    (local_backends local ++ starts_health_checker ∷ starts_stats_server ∷ []) ++ rest

served_and_stopped :
    (local by_http : Bool) (server : HttpServer) (backend : String)
    → let actions = started local (
        (if by_http then serves_http server else serves_tcp backend)
        ∷ (((if by_http then shuts_down_http ∷ [] else closes_listener ∷ awaits_tcp ∷ [])
              ++ shuts_down_stats ∷ closes_pool ∷ [])
            ++ shuts_down_tracing ∷ [])) in
      (replay actions with_tracing ≡ some at_rest) × (serves actions ≡ true)
unfolding replay
served_and_stopped true true server backend = (refl, refl)
served_and_stopped true false server backend = (refl, refl)
served_and_stopped false true server backend = (refl, refl)
served_and_stopped false false server backend = (refl, refl)

stopped_unserved :
    (local : Bool)
    → IsReleased record {
      actions = started local (shuts_down_stats ∷ closes_pool ∷ shuts_down_tracing ∷ []);
      error = some listen_failed;
      drained = false;
    }
unfolding replay
stopped_unserved true = (refl, refl)
stopped_unserved false = (refl, refl)

module _ ⦃F : Float⦄ {N : Type 0} (lib : Library N) (decode : String → Config → Option Config)
    (env : String → String) (os : Os N) where
  outcome-IsReleased :
      {n m : N} {o r : Outcome}
      → IsReleased o
      → ◌≡◌ {A = Option (N × Outcome)} (some (n, o)) (some (m, r))
      → IsReleased r
  outcome-IsReleased h e = subst IsReleased (ap (λ (x : N × Outcome). x.1) (some-injective _ _ e)) h

  returned-IsReleased :
      (actions : List Action) (o : Option (N × Bool)) {n : N} {r : Outcome}
      → (replay actions with_tracing ≡ some at_rest) × (serves actions ≡ true)
      → returned lib decode env os actions o ≡ some (n, r)
      → IsReleased r
  returned-IsReleased actions none h e = cc e
  returned-IsReleased actions (some (m, drained)) h e =
      outcome-IsReleased {o = record { actions = actions; error = none; drained = drained }} h e

  serve_until_signal-IsReleased :
      (local : Bool) (rt : Runtime N (Limiter N)) (n : N) {m : N} {r : Outcome}
      → serve_until_signal lib decode env os (local_backends local) rt n ≡ some (m, r)
      → IsReleased r
  unfolding serve_until_signal
  serve_until_signal-IsReleased local rt n h =
      let started = local_backends local ++ starts_health_checker ∷ starts_stats_server ∷ [] in
      elim (Bool-cases (start_listener os rt.config.proxy (perform os started n)).1) [
        | inl listening ↦
            returned-IsReleased _ _ (served_and_stopped local (rt.config.mode ==ₛ "http") _ _)
              (rw listening at h)
        | inr deaf ↦ outcome-IsReleased (stopped_unserved local) (rw deaf at h)
      ]

  run_from-IsReleased :
      (x : N × (Runtime N (Limiter N) ⊎ RuntimeError)) {m : N} {r : Outcome}
      → run_from lib decode env os x ≡ some (m, r)
      → IsReleased r
  unfolding replay
  run_from-IsReleased (n, inl rt) h =
      serve_until_signal-IsReleased (trim_space (env "INPROC_BACKENDS") ==ₛ "1") rt n h
  run_from-IsReleased (n, inr (bad_config e)) h = outcome-IsReleased (refl, refl) h
  run_from-IsReleased (n, inr bad_tracing) h = outcome-IsReleased (refl, refl) h
  run_from-IsReleased (n, inr redis_unreachable) h = outcome-IsReleased (refl, refl) h

  -- The local backends of the demo aside, which no path stops: on every path through `runProxy`, what
  -- it has started is stopped at the end, once and in order, the front end that serves, the
  -- statistics server, the health checks, and tracing last of all. And the front end
  -- has been started exactly if no error is returned. (A configuration that does not load, or
  -- tracing that cannot be set up, leaves nothing to stop.)
  pub run_proxy-IsReleased :
      (tracing : TracingConfig → N → N × Bool) (file : ConfigFile) (n : N) {m : N} {r : Outcome}
      → run_proxy lib decode env os tracing file n ≡ some (m, r)
      → IsReleased r
  unfolding run_proxy
  run_proxy-IsReleased tracing file n h =
      run_from-IsReleased (start_up lib decode env tracing file n) h

-- ===== src/Control/Server.antt =====
-- main.go: `startStatsServer`, `basicAuth` and the handlers behind them.
use edge_proxy_go.Base.{
  ℕ, eq_of_==ₛ, ◌≢◌, ap, ◌≡◌, refl, inl, inr, Bool, true, false, not, ◌&&◌, ◌||◌, List, Option,
  none, some, String, Float, Bool-cases, if◌then◌else◌, ◌==ₛ◌,
}
use edge_proxy_go.Config.Types.{Config, AuthConfig}
use edge_proxy_go.Config.Load.{ConfigFile}
use edge_proxy_go.Limiter.Types.{UserTrafficInsight, InsightEvent}
use edge_proxy_go.Limiter.Redis.{Library, Limiter}
use edge_proxy_go.Pool.Entry.{BackendPool}
use edge_proxy_go.Limiter.Redis.Reports.{report_abusers, report_spikes, report_events}
use edge_proxy_go.Proxy.Handler.{Runtime}
use edge_proxy_go.Control.Reload.{reload_handler}
use edge_proxy_go.Control.Admin.{AdminReply, backend_admin_handler}
use edge_proxy_go.Control.Metrics.{Metrics, StatsResponse, metrics, build_stats}

-- The handlers that are registered.
pub data Endpoint : Type 0 where
  stats metrics_page top_abusers traffic_spikes rate_limit_events backends reload dashboard :
      Endpoint

-- A request to this server: what the handlers read of it, and the user and the password of
-- `BasicAuth`, if it has them. `action` is that of the body, `none` if it is not JSON.
pub record AdminRequest : Type 0 where
  pub method : String
  pub path : String
  pub action : Option String
  pub credentials : Option (String × String)

pub data ServerReply ⦃F : Float⦄ : Type 0 where
  statistics : StatsResponse → ServerReply
  numbers : Metrics → ServerReply
  abusers : List UserTrafficInsight → ServerReply
  events : List InsightEvent → ServerReply
  administered : AdminReply → ServerReply
  answered : ℕ → ServerReply
  page : Option String → ServerReply

-- The rest of the process: which handler `http.ServeMux` finds for a path, `url.PathUnescape`, the
-- file that a reload reads, the dashboard's file, and the clock.
pub record Outside ⦃F : Float⦄ (N : Type 0) : Type 0 where
  pub mux : String → Endpoint
  pub unescape : String → Option String
  pub file : ConfigFile
  pub dashboard : Option String
  pub now : ℕ

unfoldable pub basic_auth : String → String → Option (String × String) → Bool
basic_auth username password none = false
basic_auth username password (some (u, p)) = not (not (u ==ₛ username) || not (p ==ₛ password))

basic_auth-false :
    (username password : String) (c : Option (String × String))
    → c ≢ some (username, password)
    → basic_auth username password c ≡ false
unfolding basic_auth
basic_auth-false username password none wrong = refl
basic_auth-false username password (some (u, p)) wrong = elim (Bool-cases (u ==ₛ username)) [
  | inr other ↦ rw other refl
  | inl same ↦ elim (Bool-cases (p ==ₛ password)) [
    | inr other ↦ rw (same, other) refl
    | inl match ↦ elim (wrong (rw (eq_of_==ₛ u username same, eq_of_==ₛ p password match) refl)) [ ]
  ]
]

module _ ⦃F : Float⦄ where
  admin-reads :
      (unescape : String → Option String) (now : ℕ) (method path : String) (action : Option String)
      (p : BackendPool)
      → (method ==ₛ "POST") ≡ false
      → (backend_admin_handler unescape now method path action p).0 ≡ p
  unfolding backend_admin_handler
  admin-reads unescape now method path action p h =
      elim (Bool-cases (method ==ₛ "GET" && path ==ₛ "/-/backends")) [
        | inl e ↦ rw e refl
        | inr e ↦ rw (e, h) refl
      ]

module _ ⦃F : Float⦄ {N : Type 0} (lib : Library N) (decode : String → Config → Option Config)
    (env : String → String) (out : Outside N) where
  abbrev or_500 : {A : Type 0} → (A → ServerReply) → Option A → ServerReply
  or_500 f none = answered 500
  or_500 f (some x) = f x

  unfoldable pub dispatch :
      Endpoint → AdminRequest → Runtime N (Limiter N) → Runtime N (Limiter N) × ServerReply
  dispatch stats r rt =
      let (n, top) = report_abusers lib rt.limiter rt.config.rate_limit.top_n rt.net in
      (record rt { net = n }, statistics (build_stats top out.now rt.config rt.stats rt.pool))
  dispatch metrics_page r rt = (rt, numbers (metrics out.now rt.stats rt.pool))
  dispatch top_abusers r rt =
      let (n, top) = report_abusers lib rt.limiter rt.config.rate_limit.top_n rt.net in
      (record rt { net = n }, or_500 abusers top)
  dispatch traffic_spikes r rt =
      let (n, spikes) = report_spikes lib rt.limiter rt.config.rate_limit.top_n rt.net in
      (record rt { net = n }, or_500 events spikes)
  dispatch rate_limit_events r rt =
      let (n, found) = report_events lib rt.limiter rt.config.rate_limit.top_n rt.net in
      (record rt { net = n }, or_500 events found)
  dispatch backends r rt =
      let (p, reply) =
        backend_admin_handler out.unescape out.now r.method r.path r.action rt.pool in
      (record rt { pool = p }, administered reply)
  dispatch reload r rt =
      let (rt', status) = reload_handler lib decode env r.method out.file rt in
      (rt', answered status)
  dispatch dashboard r rt = (rt, or_500 (λ path. page (some path)) out.dashboard)

  -- The server that is started with the settings `auth`.
  unfoldable pub stats_server :
      AuthConfig → AdminRequest → Runtime N (Limiter N) → Runtime N (Limiter N) × ServerReply
  stats_server auth r rt =
      let reply = dispatch (out.mux r.path) r rt in
      if auth.enabled && not (basic_auth auth.username auth.password r.credentials)
      then (rt, answered 401)
      else reply

  -- With authentication on, a request changes nothing and is answered with 401, unless it has the
  -- user and the password of the settings that the server was started with.
  pub stats_server-guards :
      (auth : AuthConfig) (r : AdminRequest) (rt : Runtime N (Limiter N))
      → auth.enabled ≡ true
      → r.credentials ≢ some (auth.username, auth.password)
      → stats_server auth r rt ≡ (rt, answered 401)
  unfolding stats_server
  stats_server-guards auth r rt on wrong =
      rw (on, basic_auth-false auth.username auth.password r.credentials wrong) refl

  dispatch-reads :
      (e : Endpoint) (r : AdminRequest) (rt : Runtime N (Limiter N))
      → (r.method ==ₛ "POST") ≡ false
      → let rt' = (dispatch e r rt).0 in rt' ≡ record rt { net = rt'.net }
  unfolding dispatch reload_handler
  dispatch-reads stats r rt h = refl
  dispatch-reads metrics_page r rt h = refl
  dispatch-reads top_abusers r rt h = refl
  dispatch-reads traffic_spikes r rt h = refl
  dispatch-reads rate_limit_events r rt h = refl
  dispatch-reads backends r rt h =
      ap (λ p. record rt { pool = p })
        (admin-reads out.unescape out.now r.method r.path r.action rt.pool h)
  dispatch-reads reload r rt h = rw h refl
  dispatch-reads dashboard r rt h = refl

  -- A request by a method other than POST changes nothing of the proxy, whichever handler it meets;
  -- the limiter's Redis server may have been read.
  pub stats_server-reads :
      (auth : AuthConfig) (r : AdminRequest) (rt : Runtime N (Limiter N))
      → (r.method ==ₛ "POST") ≡ false
      → let rt' = (stats_server auth r rt).0 in rt' ≡ record rt { net = rt'.net }
  unfolding stats_server
  stats_server-reads auth r rt h =
      elim (Bool-cases
        (auth.enabled && not (basic_auth auth.username auth.password r.credentials))) [
          | inl e ↦ rw e refl
          | inr e ↦ rw e (dispatch-reads (out.mux r.path) r rt h)
        ]

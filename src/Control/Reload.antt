-- ===== src/Control/Reload.antt =====
-- main.go: the start-up in `runProxy`, `reloadRuntimeConfig` and `reloadHandler`. Setting up tracing
-- is a parameter, and so is the configuration file; closing the old Redis client is not modelled.
use edge_proxy_go.Base.{
  arith, ℕ, ◌≡◌, ◌⊎◌, refl, inl, inr, not, Bool, true, false, List, [], ◌∷◌, map, Option, none,
  some, String, Float, ap, if◌then◌else◌, ◌==ₛ◌, Option-cases,
}
use edge_proxy_go.Config.Types.{Config, TracingConfig}
use edge_proxy_go.Config.Validate.{Result, ok, err, ConfigError}
use edge_proxy_go.Config.Load.{ConfigFile, load_config}
use edge_proxy_go.Pool.Entry.{BackendEntry, BackendStats}
use edge_proxy_go.Pool.Admin.{find_existing, entry_for, rebuild, reconfigure}
use edge_proxy_go.Pool.Admin.Reconfigure.{find_existing_address}
use edge_proxy_go.Pool.Startup.{new_backend_pool_from_config}
use edge_proxy_go.Limiter.Redis.{Library, Limiter}
use edge_proxy_go.Limiter.Redis.Evaluate.{new_rate_limiter, ping}
use edge_proxy_go.Proxy.Backends.{backend_addresses}
use edge_proxy_go.Proxy.Recorder.{no_stats}
use edge_proxy_go.Proxy.Handler.{Runtime}

pub data RuntimeError : Type 0 where
  bad_config : ConfigError → RuntimeError
  bad_tracing redis_unreachable : RuntimeError

entry_for-address :
    (existing : List BackendEntry) (heap : List BackendStats) (a : String)
    → (entry_for existing heap a).0.address ≡ a
unfolding entry_for
entry_for-address existing heap a = elim (Option-cases (find_existing a existing)) [
  | inl missing ↦ rw (missing, entry_for) refl
  | inr (e, found) ↦ rw (found, entry_for) (find_existing_address a existing {e = e} found)
]

pub rebuild-addresses :
    (existing : List BackendEntry) (heap : List BackendStats) (as' : List String)
    → map (λ (e : BackendEntry). e.address) (rebuild existing heap as').0 ≡ as'
unfolding rebuild
rebuild-addresses existing heap [] = refl
rebuild-addresses existing heap (a ∷ as') =
    rw (entry_for-address existing heap a)
      (ap (λ x. a ∷ x) (rebuild-addresses existing (entry_for existing heap a).1 as'))

module _ ⦃F : Float⦄ {N : Type 0} (lib : Library N) (decode : String → Config → Option Config)
    (env : String → String) where
  -- The check of a new limiter: the outside after it, and whether the limiter may be used.
  abbrev pub checked : Config → Limiter N → N → N × Bool
  checked c l n =
      let (n', up) = ping lib l n in if c.rate_limit.enabled then (n', up) else (n, true)

  abbrev pub reload_with :
      Runtime N (Limiter N) → Result Config → Runtime N (Limiter N) × Option RuntimeError
  reload_with rt (err e) = (rt, some (bad_config e))
  reload_with rt (ok c) =
      let l = new_rate_limiter lib c.rate_limit in
      let (n, usable) = checked c l rt.net in
      if usable
      then (
        record rt {
          net = n;
          config = c;
          limiter = l;
          pool = reconfigure (backend_addresses c) rt.pool;
        },
        none,
      )
      else (record rt { net = n }, some redis_unreachable)

  unfoldable pub reload_runtime_config :
      ConfigFile → Runtime N (Limiter N) → Runtime N (Limiter N) × Option RuntimeError
  reload_runtime_config file rt = reload_with rt (load_config decode env file)

  -- `reloadHandler`: the status that it answers.
  unfoldable pub reload_handler :
      String → ConfigFile → Runtime N (Limiter N) → Runtime N (Limiter N) × ℕ
  reload_handler method file rt =
      let (rt', error) = reload_runtime_config file rt in
      if method ==ₛ "POST" then (rt', elim error [ none ↦ 200 | some e ↦ 500 ]) else (rt, 405)

  abbrev pub start_with :
      (TracingConfig → N → N × Bool)
      → N
      → Result Config
      → N × (Runtime N (Limiter N) ⊎ RuntimeError)
  start_with tracing n (err e) = (n, inr (bad_config e))
  start_with tracing n (ok c) =
      let (n', traced) = tracing c.tracing n in
      let l = new_rate_limiter lib c.rate_limit in
      let (n'', usable) = checked c l n' in
      if not traced
      then (n', inr bad_tracing)
      else if usable
      then (
        n'',
        inl record {
          config = c;
          net = n'';
          limiter = l;
          pool = new_backend_pool_from_config c;
          stats = no_stats;
          request_seq = 0;
        },
      )
      else (n'', inr redis_unreachable)

  -- `runProxy`, up to the pool and the limiter; `tracing` is `setupTracing`, true if it has no error.
  unfoldable pub start_up :
      (TracingConfig → N → N × Bool) → ConfigFile → N → N × (Runtime N (Limiter N) ⊎ RuntimeError)
  start_up tracing file n = start_with tracing n (load_config decode env file)

  -- What a reload from `file` leaves, with its error: everything as it was if the file does not load,
  -- or if its limiter is on and cannot be reached; and else the configuration of the file, a fresh
  -- limiter for it, and one backend for each of its addresses.
  pub data Reloads (file : ConfigFile) (rt rt' : Runtime N (Limiter N))
      : Option RuntimeError → Type 0 where
    rejected :
        (e : ConfigError)
        → load_config decode env file ≡ err e
        → rt'.config ≡ rt.config
        → rt'.limiter ≡ rt.limiter
        → rt'.pool ≡ rt.pool
        → Reloads file rt rt' (some (bad_config e))
    unreached :
        (c : Config)
        → load_config decode env file ≡ ok c
        → c.rate_limit.enabled ≡ true
        → (ping lib (new_rate_limiter lib c.rate_limit) rt.net).1 ≡ false
        → rt'.config ≡ rt.config
        → rt'.limiter ≡ rt.limiter
        → rt'.pool ≡ rt.pool
        → Reloads file rt rt' (some redis_unreachable)
    taken :
        load_config decode env file ≡ ok rt'.config
        → (rt'.config.rate_limit.enabled ≡ false)
          ⊎ ((ping lib (new_rate_limiter lib rt'.config.rate_limit) rt.net).1 ≡ true)
        → rt'.limiter ≡ new_rate_limiter lib rt'.config.rate_limit
        → map (λ (e : BackendEntry). e.address) rt'.pool.backends ≡ backend_addresses rt'.config
        → Reloads file rt rt' none

  checked-cases :
      (c : Config) (l : Limiter N) (n : N)
      → ((checked c l n).1 ≡ true × ((c.rate_limit.enabled ≡ false) ⊎ ((ping lib l n).1 ≡ true)))
        ⊎ ((checked c l n).1 ≡ false × (c.rate_limit.enabled ≡ true) × ((ping lib l n).1 ≡ false))
  checked-cases c l n = ground arith

  reload_with-Reloads :
      (rt : Runtime N (Limiter N)) (file : ConfigFile) (x : Result Config)
      → load_config decode env file ≡ x
      → Reloads file rt (reload_with rt x).0 (reload_with rt x).1
  unfolding reconfigure
  reload_with-Reloads rt file (err e) h = rejected e h refl refl refl
  reload_with-Reloads rt file (ok c) h =
      elim (checked-cases c (new_rate_limiter lib c.rate_limit) rt.net) [
        | inl (up, why) ↦ rw up (
            taken h why refl
              (rebuild-addresses rt.pool.backends rt.pool.heap (backend_addresses c)))
        | inr (down, on, silent) ↦ rw down (unreached c h on silent refl refl refl)
      ]

  reload_with-stats :
      (rt : Runtime N (Limiter N)) (x : Result Config)
      → ((reload_with rt x).0.stats ≡ rt.stats)
        × ((reload_with rt x).0.request_seq ≡ rt.request_seq)
  reload_with-stats rt (err e) = (refl, refl)
  reload_with-stats rt (ok c) = ground arith

  -- A reload is atomic. If the configuration of the file does not load, that is the error, and the
  -- configuration, the limiter and the pool are what they were; so they are if it loads with the
  -- limiter on, whose server does not answer, with the error for that. In all other cases there is
  -- no error, the configuration is the one of the file, the limiter is a fresh one for it, and the
  -- pool has one backend for each of its addresses. The counters are kept whatever happens.
  pub reload-Reloads :
      (rt : Runtime N (Limiter N)) (file : ConfigFile)
      → let (rt', error) = reload_runtime_config file rt in
        Reloads file rt rt' error × (rt'.stats ≡ rt.stats) × (rt'.request_seq ≡ rt.request_seq)
  unfolding reload_runtime_config
  reload-Reloads rt file =
      let (stats, seq) = reload_with-stats rt (load_config decode env file) in
      (reload_with-Reloads rt file (load_config decode env file) refl, stats, seq)

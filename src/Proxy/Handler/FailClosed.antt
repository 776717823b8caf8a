-- ===== src/Proxy/Handler/FailClosed.antt =====
-- main.go and rate_limiter.go: a Redis server that cannot be reached, and what `proxyHandler` does.
use edge_proxy_go.Base.{◌≡◌, refl, ℤ, true, List, none, some, String, Float}
use edge_proxy_go.Config.Types.{Config, RateLimitConfig}
use edge_proxy_go.Limiter.Redis.{
  Command, Answer, ExecError, exec_failed, no_error, nil_error, Redis, Library, Limiter,
}
use edge_proxy_go.Limiter.Redis.Evaluate.{observed, evaluate_with, evaluate}
use edge_proxy_go.Proxy.Recorder.{record_request, count_status}
use edge_proxy_go.Proxy.Handler.{
  Incoming, Services, Runtime, refusal, limit, serve, handle, refuse_body, request_id_of,
}

-- No command of the client gets through.
pub record IsUnreachable ⦃F : Float⦄ {N : Type 0} (client : Redis N) : Type 0 where
  pub no_ttl : (key : String) (n : N) → (client.ttl key n).1 ≡ none
  pub no_exec : (commands : List Command) (n : N) → (client.exec commands n).2 ≡ exec_failed

module _ ⦃F : Float⦄ {N : Type 0} (lib : Library N) where
  -- The services with `Evaluate` of the limiter.
  abbrev pub with_limiter : Services N (Limiter N) → Services N (Limiter N)
  with_limiter S = record S { evaluate = evaluate lib }

  observed-failed :
      (client : Redis N) (cfg c : RateLimitConfig) (user identifier : String) (now_unix : ℤ)
      (x : N × List Answer × ExecError)
      → x.2 ≡ exec_failed
      → (observed lib client cfg c user identifier now_unix x).1 ≡ none
  observed-failed client cfg c user identifier now_unix (n, answers, exec_failed) h = refl
  observed-failed client cfg c user identifier now_unix (n, answers, no_error) h = cc
  observed-failed client cfg c user identifier now_unix (n, answers, nil_error) h = cc

  evaluate_with-unreachable :
      (user identifier : String) (cfg c : RateLimitConfig) (n : N) (client : Redis N)
      → IsUnreachable client
      → (evaluate_with lib client cfg user identifier c n).1 ≡ none
  unfolding evaluate_with
  evaluate_with-unreachable user identifier cfg c n client h =
      rw (evaluate_with, h.no_ttl _ _)
        (observed-failed client _ c user identifier _ _ (h.no_exec _ _))

  evaluate-unreachable :
      (user identifier : String) (c : RateLimitConfig) (n : N) (l : Limiter N) (client : Redis N)
      → l.client ≡ some client
      → IsUnreachable client
      → (evaluate lib user identifier c (n, l)).1 ≡ none
  unfolding evaluate
  evaluate-unreachable user identifier c n l client e h =
      rw (e, evaluate) (evaluate_with-unreachable user identifier l.cfg c n client h)

  limit-unreachable :
      (S : Services N (Limiter N)) (c : Config) (r : Incoming) (user identifier : String) (n : N)
      (l : Limiter N) (client : Redis N)
      → l.client ≡ some client
      → IsUnreachable client
      → c.rate_limit.enabled ≡ true
      → (limit (with_limiter S) c r user identifier (n, l)).2 ≡ some (refusal 503 "")
  unfolding limit
  limit-unreachable S c r user identifier n l client e h on =
      rw (on, evaluate-unreachable user identifier _ n l client e h) refl

  serve-unreachable :
      (S : Services N (Limiter N)) (rt : Runtime N (Limiter N)) (r : Incoming) (client : Redis N)
      → rt.limiter.client ≡ some client
      → IsUnreachable client
      → rt.config.rate_limit.enabled ≡ true
      → refuse_body rt.config.proxy.max_body_bytes r ≡ none
      → ((serve (with_limiter S) rt r).1 ≡ refusal 503 "")
        × ((serve (with_limiter S) rt r).0.pool ≡ rt.pool)
        × ((serve (with_limiter S) rt r).0.stats ≡ rt.stats)
  unfolding serve
  serve-unreachable S rt r client e h on body =
      rw (body, limit-unreachable S rt.config r _ _ rt.net rt.limiter client e h on)
        (refl, refl, refl)

  -- The handler fails closed: while the limiter is on and no command to its Redis server gets through,
  -- a request whose body is accepted is answered with 503, does not reach the pool, and is counted as
  -- such and not as limited.
  pub handle-fails_closed :
      (S : Services N (Limiter N)) (rt : Runtime N (Limiter N)) (r : Incoming) (client : Redis N)
      → rt.limiter.client ≡ some client
      → IsUnreachable client
      → rt.config.rate_limit.enabled ≡ true
      → refuse_body rt.config.proxy.max_body_bytes r ≡ none
      → let (rt', out) = handle (with_limiter S) rt r in
        (out.status ≡ 503)
        × (out.retry ≡ none)
        × (rt'.pool ≡ rt.pool)
        × (rt'.stats.status_counts ≡ count_status 503 rt.stats.status_counts)
        × (rt'.stats.total_limited ≡ rt.stats.total_limited)
  unfolding handle record_request count_status
  handle-fails_closed S rt r client e h on body =
      let stamped : Runtime N (Limiter N) = record rt {
        net = (S.network.now rt.net).0;
        request_seq = (request_id_of (with_limiter S) rt.request_seq r).0;
      } in
      let (served, kept, same) = serve-unreachable S stamped r client e h on body in
      rw (served, kept, same, record_request) (refl, refl, refl, refl, refl)

-- ===== src/Limiter/Redis/Tests.antt =====
-- The limiter with a Redis server on small inputs. The server's state is the abuse count of the one
-- user there is.
use edge_proxy_go.Base.{
  ℕ, suc, ◌*◌, ◌≡◌, refl, pos, negsuc, true, ◌+ℤ◌, ◌-ℤ◌, ◌*ℤ◌, List, [], ◌∷◌, none, some,
}
use edge_proxy_go.Samples.{thousandths}
use edge_proxy_go.Pool.Entry.{second}
use edge_proxy_go.Config.Types.{RateLimitConfig}
use edge_proxy_go.Limiter.Types.{RateLimitDecision, block, throttle}
use edge_proxy_go.Limiter.Redis.{
  Command, incr, Answer, number, values, missing, no_error, nil_error, ExecError, h_set, Redis,
  Library, parse_float,
}
use edge_proxy_go.Limiter.Redis.Rates.{
  max_int, refill, average_rps, rates_of, is_spiking, is_over_window, is_over_burst, rated,
  throttled,
}
use edge_proxy_go.Limiter.Redis.Evaluate.{
  record_event, observe_commands, store_commands, penalise, judge_rates, evaluate_with,
}
use edge_proxy_go.Limiter.Redis.Outcomes.{IsJudged, evaluate_with-IsJudged}
use edge_proxy_go.Limiter.Redis.Abuse.{IsCounting, abuse_escalates, penalise_all}

abbrev run : Command → ℕ → ℕ × Answer
run (incr key) n = (suc n, number (pos (suc n)))
run _ n = (n, number (pos 1))

-- Five requests in the window, and nothing stored before.
abbrev answers : List Answer
answers =
    number (pos 0)
    ∷ number (pos 1)
    ∷ number (pos 5)
    ∷ number (pos 1)
    ∷ values (none ∷ none ∷ [])
    ∷ missing
    ∷ missing
    ∷ []

abbrev exec : List Command → ℕ → ℕ × List Answer × ExecError
exec (h_set key fields ∷ commands) n = (n, [], no_error)
exec _ n = (n, answers, nil_error)

abbrev server : Redis ℕ
server = record {
  ping = λ n. (n, true);
  ttl = λ key n. (n, some (negsuc 1));
  run = run;
  exec = exec;
}

abbrev library : Library ℕ
library = record {
  now = λ n. (n, 100 * second);
  new_client = λ c. server;
  decimal = λ n. "";
  atoi_value = λ s. pos 0;
  marshal = λ e. none;
  unmarshal = λ s. none;
}

abbrev settings : RateLimitConfig
settings = record {
  name = "default";
  requests = pos 0;
  window_seconds = pos 1;
  identifier_header = "X-API-Key";
  key = "";
  enabled = true;
  base_requests_per_second = pos 2000;
  burst_capacity = pos 10000;
  sliding_window_seconds = pos 1;
  soft_throttle_milliseconds = pos 250;
  block_seconds = pos 60;
  repeated_abuse_threshold = pos 3;
  event_retention_seconds = pos 3600;
  top_n = pos 5;
  redis = record { addr = "localhost:6379"; password = ""; db = pos 0 };
}

abbrev slowed : RateLimitDecision
slowed = record {
  action = throttle;
  policy_name = "default";
  user = "u";
  identifier = "u";
  reason = "adaptive_throttle";
  retry_after = pos 1;
  throttle_delay = pos 250;
  observed_rps = pos 5000;
  average_rps = pos 5000;
  window_count = pos 5;
  abuse_count = pos 0;
}

slowed_down : (evaluate_with library server settings "u" "u" settings 0).1 ≡ some slowed
unfolding evaluate_with judge_rates rates_of is_spiking is_over_window is_over_burst average_rps
    refill rated throttled max_int ◌+ℤ◌ ◌-ℤ◌ ◌*ℤ◌ record_event parse_float observe_commands
    store_commands
slowed_down = refl

evaluate_with-IsJudged_example : IsJudged settings (some (negsuc 1)) slowed
evaluate_with-IsJudged_example =
    evaluate_with-IsJudged library server settings settings "u" "u" 0 slowed slowed_down

server-IsCounting : IsCounting server settings "u" (λ n. n)
server-IsCounting = record {
  gives = λ n. refl;
  adds = λ n. refl;
  expires = λ d n. refl;
  sets = λ v d n. refl;
  stores = λ v d n. refl;
}

abuse_escalates_example :
    (e : RateLimitDecision) × ((penalise library server settings true slowed
        (penalise_all library server settings true slowed 2 0)).1
      ≡ some e)
    × (e.abuse_count ≡ pos 3)
    × (e.action ≡ block)
abuse_escalates_example =
    abuse_escalates library server settings true slowed (λ n. n) server-IsCounting 2 0

-- ===== src/Limiter/Redis.antt =====
-- rate_limiter.go: the limiter with a Redis server: `newRateLimiter`, `ping`, `Evaluate`,
-- `incrementAbuse`, `recordEvent`, `parseFloat` and `roundFloat`.
pub mod Rates
pub mod Evaluate
pub mod Outcomes
pub mod Abuse
pub mod Members
pub mod Reports
mod Tests
use Prim.Native.String
use edge_proxy_go.Base.{
  ℕ, zero, suc, ◌/◌, ℤ, pos, pos_part, is_gt_0, leb_ℤ, ◌+ℤ◌, ◌-ℤ◌, ◌*ℤ◌, Bool, true, false, not,
  ◌&&◌, ◌||◌, List, [], ◌∷◌, Option, none, some, String, Float, if◌then◌else◌, ◌==ₛ◌, is_blank,
}
use edge_proxy_go.Pool.Entry.{second}
use edge_proxy_go.Config.Types.{RateLimitConfig, RedisConfig}
use edge_proxy_go.Limiter.Types.{
  DecisionAction, allow, throttle, block, RateLimitDecision, InsightEvent, RateLimiter,
}
use edge_proxy_go.Limiter.Local.{is_allow, evaluate_local}

-- A value of Go's `interface{}`, as far as `parseFloat` tells values apart.
pub data Value ⦃F : Float⦄ : Type 0 where
  text bytes : String → Value
  integer : ℤ → Value
  float : F.Num → Value
  other : Value

-- The commands that the limiter sends. A duration is in nanoseconds.
pub data Command ⦃F : Float⦄ : Type 0 where
  z_rem_range_by_score : String → String → String → Command
  z_add : String → F.Num → String → Command
  z_card : String → Command
  expire : String → ℤ → Command
  hm_get : String → List String → Command
  h_get : String → String → Command
  h_set : String → List (String × Value) → Command
  get incr : String → Command
  z_rev_range z_rev_range_with_scores : String → ℤ → ℤ → Command
  set : String → String → ℤ → Command

-- The answer to a command. A value that is not there in the list that `HMGet` gives is `none`;
-- `missing` is `redis.Nil`.
pub data Answer ⦃F : Float⦄ : Type 0 where
  number : ℤ → Answer
  string : String → Answer
  values : List (Option Value) → Answer
  rows : List String → Answer
  scored : List (String × F.Num) → Answer
  missing failed : Answer

-- The error of `Exec`.
pub data ExecError : Type 0 where
  no_error nil_error exec_failed : ExecError

-- A client of the Redis server, on a state `N` of the outside: `Ping` (true if it has no error),
-- `TTL` in nanoseconds (`none` for an error), a single command, and a pipeline with its answers.
pub record Redis ⦃F : Float⦄ (N : Type 0) : Type 0 where
  pub ping : N → N × Bool
  pub ttl : String → N → N × Option ℤ
  pub run : Command → N → N × Answer
  pub exec : List Command → N → N × List Answer × ExecError

-- The clock, `redis.NewClient`, and functions of Go's library: the digits of a number, the value
-- that `Atoi` gives, with an error or without, and `json.Marshal` of an event and `json.Unmarshal` (`none` for an error).
pub record Library ⦃F : Float⦄ (N : Type 0) : Type 0 where
  pub now : N → N × ℕ
  pub new_client : RedisConfig → Redis N
  pub decimal : ℤ → String
  pub atoi_value : String → ℤ
  pub marshal : InsightEvent → Option String
  pub unmarshal : String → Option InsightEvent

-- `rateLimiter`: the client, `cfg`, and the fields that the process-local limiter uses.
pub record Limiter ⦃F : Float⦄ (N : Type 0) : Type 0 where
  pub client : Option (Redis N)
  pub cfg : RateLimitConfig
  pub local : RateLimiter

unfoldable pub parse_float : ⦃F : Float⦄ → Value → F.Num → F.Num
parse_float ⦃F⦄ (text s) fallback = elim (F.parse s) [ none ↦ fallback | some x ↦ x ]
parse_float ⦃F⦄ (bytes s) fallback = elim (F.parse s) [ none ↦ fallback | some x ↦ x ]
parse_float ⦃F⦄ (integer n) fallback = F.of_int n
parse_float (float x) fallback = x
parse_float other fallback = fallback

unfoldable pub round_float : ⦃F : Float⦄ → F.Num → F.Num
round_float ⦃F⦄ x = F.div (F.round (F.mul x (F.of_int (pos 100)))) (F.of_int (pos 100))

abbrev pub seconds : ℤ → ℤ
seconds n = n *ℤ pos second

-- The third, fifth, sixth and seventh answer of the first pipeline.
abbrev pub answer_at {ℓ} : {A : Type ℓ} → A → ℕ → List A → A
answer_at default n [] = default
answer_at default zero (a ∷ as') = a
answer_at default (suc n) (a ∷ as') = answer_at default n as'

-- `Val()` of an integer command: 0 if it has failed.
abbrev pub number_of : ⦃F : Float⦄ → Answer → ℤ
number_of (number n) = n
number_of _ = pos 0

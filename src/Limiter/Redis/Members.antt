-- ===== src/Limiter/Redis/Members.antt =====
-- rate_limiter.go: the members of `events:abusers`, which `recordEvent` writes and `TopAbusers` reads.
use Prim.Native.String
use Prim.Native.Char.{code}
use text.Mathlib.TextLemmas.{nil-append, cons-append}
use edge_proxy_go.Base.{
  ℕ, ◌⊎◌, ◌≡◌, refl, inl, inr, Bool, false, ◌||◌, ◌==◌, List, [], ◌∷◌, ◌++◌, some, String, ℤ, pos,
  Float, arith, split_once, ◌==ₛ◌,
}
use edge_proxy_go.Config.Types.{RateLimitConfig}
use edge_proxy_go.Limiter.Insights.{split_user_identifier}
use edge_proxy_go.Limiter.Redis.{Command, z_add, Library}
use edge_proxy_go.Limiter.Redis.Rates.{cooling_down, rated}
use edge_proxy_go.Limiter.Redis.Evaluate.{event_of, event_commands}

-- `strings.Contains(s, "|")`
abbrev pub has_bar : String → Bool
has_bar String.[] = false
has_bar (String.◌∷◌ c s) = code c == b'|' || has_bar s

-- `member` of the abusers: the user and the identifier, with a bar between them.
abbrev pub member : String → String → String
member user identifier = String.◌++◌ user (String.◌++◌ "|" identifier)

split_once-bar :
    (user identifier : String)
    → has_bar user ≡ false
    → split_once b'|' (member user identifier) ≡ (user, some identifier)
unfolding split_once
split_once-bar String.[] identifier h = rw (nil-append, cons-append, nil-append) refl
split_once-bar (String.◌∷◌ c s) identifier h =
    let (other, rest) : (code c == b'|') ≡ false × has_bar s ≡ false = ground arith in
    rw (cons-append c s (String.◌++◌ "|" identifier), other, split_once-bar s identifier rest) refl

-- What `recordEvent` writes for a user without a bar, `TopAbusers` reads as the same user and
-- identifier, whatever the identifier is.
pub split-member :
    (user identifier : String)
    → has_bar user ≡ false
    → split_user_identifier (member user identifier) ≡ (user, identifier)
unfolding split_user_identifier
split-member user identifier h = rw (split_once-bar user identifier h) refl

module _ ⦃F : Float⦄ {N : Type 0} (lib : Library N) where
  abbrev Sends : Command → List Command → Type 0
  Sends c [] = ⊥
  Sends c (d ∷ ds) = (c ≡ d) ⊎ Sends c ds

  Sends-tail : (c : Command) (xs ys : List Command) → Sends c ys → Sends c (xs ++ ys)
  Sends-tail c [] ys h = h
  Sends-tail c (x ∷ xs) ys h = inr (Sends-tail c xs ys h)

  -- A request that is blocked in its cooldown sets the score of its user among the abusers to 0.
  pub cooldown_resets_score :
      (c : RateLimitConfig) (user identifier json : String) (t retention : ℤ) (time now : ℕ)
      → Sends (z_add "events:abusers" (F.of_int (pos 0)) (member user identifier)) (
          event_commands lib retention now
            (event_of lib time (cooling_down c user identifier t))
            json)
  unfolding event_commands cooling_down rated ◌==ₛ◌
  cooldown_resets_score c user identifier json t retention time now = inr (inl refl)

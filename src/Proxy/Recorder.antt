-- ===== src/Proxy/Recorder.antt =====
-- main.go: the counters and the access log, in `recordRequest`, `appendLog` and
-- `trackConnectionState`. The printed line is not modelled.
use native.Mathlib.Nat.{zero-add}
use edge_proxy_go.Base.{
  ℕ, zero, suc, ◌+◌, ◌-◌, ◌≤◌, ◌<◌, ◌≡◌, refl, ap, ◌∙◌, sym, Bool, ◌&&◌, List, [], ◌∷◌, ◌++◌,
  String, ℤ, arith, ltb, ◌==◌, if◌then◌else◌, length, drop, length-append, length-drop, append-nil,
  append_assoc, Bool-cases, inl, inr,
}

pub record LogEntry : Type 0 where
  pub request_id : String
  pub policy_name : String
  pub time : String
  pub ip : String
  pub method : String
  pub path : String
  pub status : ℕ
  pub latency_ms : ℤ
  pub backend : String
  pub limited : Bool

-- `statusCounts` is a function; a status that is missing has count 0.
pub record Stats : Type 0 where
  pub total_requests : ℕ
  pub total_limited : ℕ
  pub active_conns : ℕ
  pub status_counts : ℕ → ℕ
  pub access_log : List LogEntry

abbrev pub no_stats : Stats
no_stats = record {
  total_requests = 0;
  total_limited = 0;
  active_conns = 0;
  status_counts = λ s. 0;
  access_log = [];
}

unfoldable pub append_log : LogEntry → List LogEntry → List LogEntry
append_log entry log =
    let longer = log ++ entry ∷ [] in
    if ltb 100 (length longer) then drop (length longer - 100) longer else longer

unfoldable pub count_status : ℕ → (ℕ → ℕ) → ℕ → ℕ
count_status status counts s = if ltb 0 status && status == s then suc (counts s) else counts s

unfoldable pub record_request : LogEntry → Bool → Stats → Stats
record_request entry limited s = record s {
  total_requests = suc s.total_requests;
  total_limited = if limited then suc s.total_limited else s.total_limited;
  status_counts = count_status entry.status s.status_counts;
  access_log = append_log entry s.access_log;
}

pub data ConnState : Type 0 where
  state_new state_active state_idle state_hijacked state_closed : ConnState

unfoldable pub track_connection_state : ConnState → Stats → Stats
track_connection_state state_new s = record s { active_conns = suc s.active_conns }
track_connection_state state_closed s = record s { active_conns = s.active_conns - 1 }
track_connection_state state_hijacked s = record s { active_conns = s.active_conns - 1 }
track_connection_state _ s = s

-- Requests recorded one after the other, the way the handlers do it.
unfoldable pub record_all : List LogEntry → Stats → Stats
record_all [] s = s
record_all (e ∷ es) s = record_all es (record_request e e.limited s)

-- The last 100 of a list.
abbrev pub latest : List LogEntry → List LogEntry
latest es = drop (length es - 100) es

abbrev pub limited_among : List LogEntry → ℕ
limited_among [] = 0
limited_among (e ∷ es) = if e.limited then suc (limited_among es) else limited_among es

abbrev pub with_status : ℕ → List LogEntry → ℕ
with_status s [] = 0
with_status s (e ∷ es) = if e.status == s then suc (with_status s es) else with_status s es

drop-append {ℓ} :
    {A : Type ℓ} (n : ℕ) (xs ys : List A) → n ≤ length xs → drop n xs ++ ys ≡ drop n (xs ++ ys)
drop-append zero xs ys h = refl
drop-append (suc n) [] ys h = absurd (omega (arith, h))
drop-append (suc n) (x ∷ xs) ys h = drop-append n xs ys (omega (arith, h))

suc-add : (n m : ℕ) → suc n + m ≡ suc (n + m)
suc-add n m = omega arith

drop_nil {ℓ} : {A : Type ℓ} (n : ℕ) → drop {A = A} n [] ≡ []
drop_nil zero = refl
drop_nil (suc n) = refl

drop-drop {ℓ} : {A : Type ℓ} (m n : ℕ) (xs : List A) → drop m (drop n xs) ≡ drop (n + m) xs
drop-drop m zero xs = rw (zero-add m) refl
drop-drop m (suc n) [] = rw (drop_nil m, drop_nil (suc n + m)) refl
drop-drop m (suc n) (x ∷ xs) = rw (suc-add n m) (drop-drop m n xs)

-- Cutting a list that has lost its first `n - 100` elements to 100.
cut_twice {ℓ} :
    {A : Type ℓ} (n : ℕ) (xs : List A)
    → (if ltb 100 (n + 1 - (n - 100))
        then drop (n + 1 - (n - 100) - 100) (drop (n - 100) xs)
        else drop (n - 100) xs)
      ≡ drop (n + 1 - 100) xs
cut_twice n xs = elim (Bool-cases (ltb 100 (n + 1 - (n - 100)))) [
  | inl e ↦
      rw (e, drop-drop (n + 1 - (n - 100) - 100) (n - 100) xs)
        (ap (λ k. drop k xs) (ground (arith, e)))
  | inr e ↦ rw e (ap (λ k. drop k xs) (ground (arith, e)))
]

-- Appending to the last 100 of the entries gives the last 100 of the longer list.
append_log-latest :
    (es : List LogEntry) (e : LogEntry) → append_log e (latest es) ≡ latest (es ++ e ∷ [])
unfolding append_log
append_log-latest es e =
    rw
      (
        drop-append (length es - 100) es (e ∷ []) (omega arith),
        length-drop (length es - 100) (es ++ e ∷ []),
        length-append es (e ∷ []),
      )
      (cut_twice (length es) (es ++ e ∷ []))

-- What recording `es` after `done` makes of the counters and the log.
record IsRecord (done es : List LogEntry) (s r : Stats) : Type 0 where
  requests : r.total_requests ≡ s.total_requests + length es
  limited : r.total_limited ≡ s.total_limited + limited_among es
  statuses : (k : ℕ) → 0 < k → r.status_counts k ≡ s.status_counts k + with_status k es
  log : r.access_log ≡ latest (done ++ es)
  conns : r.active_conns ≡ s.active_conns

record_all-IsRecord :
    (es done : List LogEntry) (s : Stats)
    → s.access_log ≡ latest done
    → IsRecord done es s (record_all es s)
unfolding record_all record_request count_status
record_all-IsRecord [] done s h = record {
  requests = omega arith;
  limited = omega arith;
  statuses = λ k p. omega arith;
  log = h ∙ ap latest (sym (append-nil done));
  conns = refl;
}
record_all-IsRecord (e ∷ es) done s h =
    let s' = record_request e e.limited s in
    let now : s'.access_log ≡ latest (done ++ e ∷ []) =
      ap (append_log e) h ∙ append_log-latest done e in
    let rest = record_all-IsRecord es (done ++ e ∷ []) s' now in
    record {
      requests = omega (arith, rest.requests);
      limited = ground (arith, rest.limited);
      statuses = λ k p. ground (arith, rest.statuses k p);
      log = rest.log ∙ ap latest (append_assoc done (e ∷ []) es);
      conns = rest.conns;
    }

-- After any requests, the counters are the numbers of requests, of those that were limited and of
-- those with a positive status `k`, and the log is the last 100 of them.
pub record_all-counts :
    (es : List LogEntry) (k : ℕ)
    → 0 < k
    → let r = record_all es no_stats in
      (r.total_requests ≡ length es)
      × (r.total_limited ≡ limited_among es)
      × (r.status_counts k ≡ with_status k es)
      × (r.access_log ≡ latest es)
record_all-counts es k h =
    let r = record_all-IsRecord es [] no_stats refl in
    (omega (arith, r.requests), omega (arith, r.limited), omega (arith, r.statuses k h), r.log)

-- ===== src/Control/Admin.antt =====
-- main.go: `backendAdminHandler`, and the pool as an administrator sees it.

use mathlib.Core.Option.{some-injective}
use edge_proxy_go.Base.{
  ℕ, ◌≡◌, refl, inl, inr, ap, ◌∙◌, fun_ext, sym, true, false, ◌&&◌, List, [], ◌∷◌, Option, none,
  some, String, Float, arith, Bool-cases, if◌then◌else◌, ◌==ₛ◌, eq_of_==ₛ, ==ₛ_refl, starts_with,
  trim_space, to_lower, is_blank,
}
use edge_proxy_go.Pool.Entry.{BackendEntry, BackendPool}
use edge_proxy_go.Pool.Admin.{
  AdminError, apply_action, set_state_at, set_backend_state, BackendStatus, status,
}

-- `strings.TrimPrefix`, of a text that has the prefix.
unfoldable pub trim_prefix : String → String → String
trim_prefix String.[] s = s
trim_prefix (String.◌∷◌ c p) String.[] = ""
trim_prefix (String.◌∷◌ c p) (String.◌∷◌ d s) = trim_prefix p s

pub data AdminReply ⦃F : Float⦄ : Type 0 where
  listing : List BackendStatus → AdminReply
  changed : String → String → AdminReply
  refused : ℕ → AdminReply

module _ ⦃F : Float⦄ where
  abbrev pub applied : String → String → BackendPool × Option AdminError → BackendPool × AdminReply
  applied address action (p, none) = (p, changed address action)
  applied address action (p, some e) = (p, refused 400)

  -- The `POST` of an action, given as it is written; `none` for a body that is not JSON.
  abbrev pub post_action : BackendPool → Option String → Option String → BackendPool × AdminReply
  post_action p none input = (p, refused 400)
  post_action p (some address) none = (p, refused 400)
  post_action p (some address) (some action) =
      applied address action (set_backend_state address (to_lower (trim_space action)) p)

  -- The address that a path names: `none` if it cannot be unescaped, or is blank.
  abbrev pub named : Option String → Option String
  named none = none
  named (some address) = if is_blank address then none else some address

  -- `unescape` is `url.PathUnescape`, and `action` the `action` of the body. The status is read at
  -- `now`.
  unfoldable pub backend_admin_handler :
      (String → Option String)
      → ℕ
      → String
      → String
      → Option String
      → BackendPool
      → BackendPool × AdminReply
  backend_admin_handler unescape now method path action p =
      if method ==ₛ "GET" && path ==ₛ "/-/backends"
      then (p, listing (status now p))
      else if method ==ₛ "POST" && starts_with path "/-/backends/"
      then post_action p (named (unescape (trim_prefix "/-/backends/" path))) action
      else (p, refused 404)

-- What an administrator sees of a backend.
pub data AdminState : Type 0 where
  active disabled draining : AdminState

abbrev pub state_of : BackendEntry → AdminState
state_of e = if e.disabled then disabled else if e.draining then draining else active

abbrev pub view_of : List BackendEntry → String → Option AdminState
view_of [] a = none
view_of (e ∷ es) a = if e.address ==ₛ a then some (state_of e) else view_of es a

-- The pool as a map from addresses to states.
abbrev pub view : BackendPool → String → Option AdminState
view p = view_of p.backends

-- What each action asks for.
abbrev pub asked : String → Option AdminState
asked action =
    if action ==ₛ "disable"
    then some disabled
    else if action ==ₛ "enable"
    then some active
    else if action ==ₛ "drain"
    then some draining
    else none

-- The action on the map: a known action on a known address sets its state.
abbrev pub set_state :
    String → Option AdminState → (String → Option AdminState) → String → Option AdminState
set_state address (some s) v a = elim (v address) [
  | none ↦ v a
  | some old ↦ if address ==ₛ a then some s else v a
]
set_state address none v a = v a

-- What an action does to one backend.
Acts : String → BackendEntry → Option AdminState → Type 0
Acts action e none = apply_action action e ≡ none
Acts action e (some s) =
    (e' : BackendEntry) × (apply_action action e ≡ some e')
    × (state_of e' ≡ s)
    × (e'.address ≡ e.address)

asked-Acts : (action : String) (e : BackendEntry) → Acts action e (asked action)
unfolding apply_action Acts
asked-Acts action e = elim (Bool-cases (action ==ₛ "disable")) [
  | inl d ↦ rw d (record e { disabled = true; draining = false }, rw d refl, refl, refl)
  | inr nd ↦ elim (Bool-cases (action ==ₛ "enable")) [
    | inl n ↦
        rw (nd, n) (record e { disabled = false; draining = false }, rw (nd, n) refl, refl, refl)
    | inr nn ↦ elim (Bool-cases (action ==ₛ "drain")) [
      | inl r ↦
          rw (nd, nn, r)
            (record e { disabled = false; draining = true }, rw (nd, nn, r) refl, refl, refl)
      | inr nr ↦ rw (nd, nn, nr) (rw (nd, nn, nr) refl)
    ]
  ]
]

both : (x y a : String) → (x ==ₛ a) ≡ true → (y ==ₛ a) ≡ true → (x ==ₛ y) ≡ true
both x y a p q = rw (eq_of_==ₛ x a p, eq_of_==ₛ y a q) (==ₛ_refl a)

set_state_at-view :
    (address action : String) (s : Option AdminState) (es : List BackendEntry) (a : String)
    → ((e : BackendEntry) → Acts action e s)
    → view_of (set_state_at address action es).0 a ≡ set_state address s (view_of es) a
unfolding set_state_at apply_action Acts
set_state_at-view address action none [] a acts = refl
set_state_at-view address action (some s) [] a acts = refl
set_state_at-view address action none (e ∷ es) a acts = elim (Bool-cases (e.address ==ₛ address)) [
  | inl same ↦ rw (same, acts e) refl
  | inr other ↦ rw other (
      ap (λ x. if e.address ==ₛ a then some (state_of e) else x)
        (set_state_at-view address action none es a acts))
]
set_state_at-view address action (some s) (e ∷ es) a acts =
    let (e', made, is, kept) = acts e in
    elim (Bool-cases (e.address ==ₛ address)) [
      | inl same ↦
          rw (same, made, is, kept, eq_of_==ₛ e.address address same)
            (ground (arith, ==ₛ_refl address))
      | inr other ↦
          let apart = both e.address address a in
          let ih = set_state_at-view address action (some s) es a acts in
          rw other (ground (arith, ih, apart, other))
    ]

-- Administration of the pool implements setting a state in a map from addresses to states: an action
-- of the three on an address that the pool has sets that state, and changes the state of no other
-- address; any other action, and any other address, changes nothing.
pub view-set_backend_state :
    (address action : String) (p : BackendPool)
    → view (set_backend_state address action p).0 ≡ set_state address (asked action) (view p)
unfolding set_backend_state
view-set_backend_state address action p =
    fun_ext λ a. set_state_at-view address action (asked action) p.backends a (asked-Acts action)

enabled_again :
    (e : BackendEntry) → state_of e ≡ active → record e { disabled = false; draining = false } ≡ e
enabled_again e h =
    let d : e.disabled ≡ false = ground arith in
    let r : e.draining ≡ false = ground arith in
    ap (λ x. record e { disabled = x; draining = false }) (sym d)
    ∙ ap (λ x. record e { draining = x }) (sym r)

set_state_at-toggle :
    (address : String) (es : List BackendEntry)
    → view_of es address ≡ some active
    → (set_state_at address "enable" (set_state_at address "disable" es).0).0 ≡ es
unfolding set_state_at apply_action ◌==ₛ◌
set_state_at-toggle address [] h = cc
set_state_at-toggle address (e ∷ es) h = elim (Bool-cases (e.address ==ₛ address)) [
  | inl same ↦
      rw (same, same) (ap (λ x. x ∷ es) (enabled_again e (some-injective _ active (rw same at h))))
  | inr other ↦ rw (other, other) (ap (λ x. e ∷ x) (set_state_at-toggle address es (rw other at h)))
]

-- Disabling a backend and enabling it again gives back the pool, if the backend was neither disabled
-- nor draining.
pub enable-disable :
    (address : String) (p : BackendPool)
    → view p address ≡ some active
    → (set_backend_state address "enable" (set_backend_state address "disable" p).0).0 ≡ p
unfolding set_backend_state
enable-disable address p h =
    ap (λ es. record p { backends = es }) (set_state_at-toggle address p.backends h)

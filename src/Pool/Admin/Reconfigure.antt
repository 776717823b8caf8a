-- ===== src/Pool/Admin/Reconfigure.antt =====
-- health.go: what `reconfigure` keeps of the pool, and what the requests in flight lose by it.
use edge_proxy_go.Base.{
  ℕ, zero, suc, ◌+◌, ◌≤◌, ◌<◌, ◌≡◌, refl, ap, ◌∙◌, inl, inr, List, [], ◌∷◌, ◌++◌, none, some,
  String, arith, length, length-append, get_elem?, All, Option-cases, eq_of_==ₛ,
}
use edge_proxy_go.Pool.Entry.{BackendStats, BackendEntry, BackendPool, load, zero_stats}
use edge_proxy_go.Pool.Invariant.{Ascending, refs, IsValid}
use edge_proxy_go.Pool.Admin.{
  find_existing, fresh_entry, clone_backend_entry, entry_for, rebuild, reconfigure,
}

pub find_existing_address :
    (a : String) (es : List BackendEntry) {e : BackendEntry}
    → find_existing a es ≡ some e
    → e.address ≡ a
unfolding find_existing
find_existing_address a [] h = cc
find_existing_address a (x ∷ es) {e} h = elim (Option-cases (find_existing a es)) [
  | inl missing ↦ ground (arith, eq_of_==ₛ x.address a)
  | inr (later, found) ↦ find_existing_address a es {e = e} (ground arith)
]

load-append : (h k : List BackendStats) (r : ℕ) → r < length h → load (h ++ k) r ≡ load h r
load-append [] k r l = elim l [ ]
load-append (s ∷ h) k zero l = refl
load-append (s ∷ h) k (suc r) l = load-append h k r (omega arith)

load-append_end : (h : List BackendStats) (s : BackendStats) → load (h ++ s ∷ []) (length h) ≡ s
load-append_end [] s = refl
load-append_end (x ∷ h) s = load-append_end h s

-- What the map `existing` has under the address decides the entry and its statistics.
unfoldable pub renewed : List BackendEntry → String → ℕ → BackendEntry
renewed existing a r = elim (find_existing a existing) [
  | none ↦ fresh_entry a r
  | some source ↦ clone_backend_entry source r
]

unfoldable pub carried : List BackendEntry → List BackendStats → String → BackendStats
carried existing heap a = elim (find_existing a existing) [
  | none ↦ zero_stats
  | some source ↦ load heap source.stats
]

pub renewed-some :
    (existing : List BackendEntry) (a : String) (r : ℕ) {e : BackendEntry}
    → find_existing a existing ≡ some e
    → renewed existing a r ≡ clone_backend_entry e r
unfolding renewed
renewed-some existing a r h = rw (h, renewed)

pub carried-some :
    (existing : List BackendEntry) (heap : List BackendStats) (a : String) {e : BackendEntry}
    → find_existing a existing ≡ some e
    → carried existing heap a ≡ load heap e.stats
unfolding carried
carried-some existing heap a h = rw (h, carried)

entry_for_eq :
    (existing : List BackendEntry) (heap : List BackendStats) (a : String)
    → entry_for existing heap a
      ≡ (renewed existing a (length heap), heap ++ carried existing heap a ∷ [])
unfolding entry_for renewed carried
entry_for_eq existing heap a = ground arith

abbrev pub InRange : ℕ → List BackendEntry → Type 0
InRange n = All λ e. e.stats < n

Ascending-le : (lo : ℕ) (rs : List ℕ) (hi : ℕ) → Ascending lo rs hi → lo ≤ hi
Ascending-le lo [] hi h = h
Ascending-le lo (r ∷ rs) hi h = omega (arith, h.0, Ascending-le (suc r) rs hi h.1)

pub Ascending-InRange :
    (lo : ℕ) (es : List BackendEntry) (hi : ℕ) → Ascending lo (refs es) hi → InRange hi es
Ascending-InRange lo [] hi h = tt
Ascending-InRange lo (e ∷ es) hi h =
    (Ascending-le (suc e.stats) (refs es) hi h.1, Ascending-InRange (suc e.stats) es hi h.1)

InRange-mono : (m n : ℕ) (es : List BackendEntry) → m ≤ n → InRange m es → InRange n es
InRange-mono m n [] l h = tt
InRange-mono m n (e ∷ es) l h = (omega arith, InRange-mono m n es l h.1)

pub find_existing-InRange :
    (a : String) (n : ℕ) (es : List BackendEntry) {e : BackendEntry}
    → InRange n es
    → find_existing a es ≡ some e
    → e.stats < n
unfolding find_existing
find_existing-InRange a n [] v h = cc
find_existing-InRange a n (x ∷ es) {e} v h = elim (Option-cases (find_existing a es)) [
  | inl missing ↦ ground arith
  | inr (later, found) ↦ find_existing-InRange a n es {e = e} v.1 (ground arith)
]

carried-append :
    (existing : List BackendEntry) (heap k : List BackendStats) (a : String)
    → InRange (length heap) existing
    → carried existing (heap ++ k) a ≡ carried existing heap a
unfolding carried
carried-append existing heap k a v = elim (Option-cases (find_existing a existing)) [
  | inl missing ↦ rw (missing, carried)
  | inr (source, found) ↦
      rw (found, carried)
        (load-append heap k source.stats
          (find_existing-InRange a (length heap) existing {e = source} v found))
]

length-snoc : (h : List BackendStats) (s : BackendStats) → length (h ++ s ∷ []) ≡ suc (length h)
length-snoc h s = omega (arith, length-append h (s ∷ []))

rebuild_keeps :
    (existing : List BackendEntry) (heap : List BackendStats) (wanted : List String) (r : ℕ)
    → r < length heap
    → load (rebuild existing heap wanted).1 r ≡ load heap r
unfolding rebuild
rebuild_keeps existing heap [] r l = refl
rebuild_keeps existing heap (a ∷ wanted) r l =
    let s = carried existing heap a in
    rw (entry_for_eq existing heap a) (
      rebuild_keeps existing (heap ++ s ∷ []) wanted r (omega (arith, length-snoc heap s))
      ∙ load-append heap (s ∷ []) r l)

rebuild_lem :
    (existing : List BackendEntry) (heap : List BackendStats) (wanted : List String) (i : ℕ)
    (a : String)
    → InRange (length heap) existing
    → get_elem? wanted i ≡ some a
    → let (es, heap') = rebuild existing heap wanted in
      (get_elem? es i ≡ some (renewed existing a (length heap + i)))
      × (load heap' (length heap + i) ≡ carried existing heap a)
unfolding rebuild
rebuild_lem existing heap [] i a v h = cc
rebuild_lem existing heap (b ∷ wanted) zero a v h =
    let s = carried existing heap b in
    let here : b ≡ a = ground arith in
    let at_end : length heap + 0 ≡ length heap = omega arith in
    rw (at_end, entry_for_eq existing heap b, ← here)
      (
        refl,
        rebuild_keeps existing (heap ++ s ∷ []) wanted (length heap)
              (omega (arith, length-snoc heap s))
            ∙ load-append_end heap s,
      )
rebuild_lem existing heap (b ∷ wanted) (suc i) a v h =
    let s = carried existing heap b in
    let at : length heap + suc i ≡ length (heap ++ s ∷ []) + i =
      omega (arith, length-snoc heap s) in
    let in_range =
      InRange-mono (length heap) (length (heap ++ s ∷ [])) existing
        (omega (arith, length-snoc heap s)) v in
    let (entry, stats) = rebuild_lem existing (heap ++ s ∷ []) wanted i a in_range h in
    rw (at, entry_for_eq existing heap b) (entry, stats ∙ carried-append existing heap (s ∷ []) a v)

length-rebuild :
    (existing : List BackendEntry) (heap : List BackendStats) (wanted : List String)
    → length (rebuild existing heap wanted).0 ≡ length wanted
unfolding rebuild
length-rebuild existing heap [] = refl
length-rebuild existing heap (a ∷ wanted) =
    ap suc (length-rebuild existing (entry_for existing heap a).1 wanted)

-- After a reload there is one backend for each listed address, in the order of the list. A backend
-- that the pool had keeps its state and its statistics; one that it had not starts afresh. Either
-- way the statistics are a new object, and no object that was there is written.
pub reconfigure_lem :
    (addresses : List String) (p : BackendPool)
    → IsValid p
    → let q = reconfigure addresses p in
      (length q.backends ≡ length addresses)
      × ((i : ℕ) (a : String)
          → get_elem? addresses i ≡ some a
          → (get_elem? q.backends i ≡ some (renewed p.backends a (length p.heap + i)))
            × (load q.heap (length p.heap + i) ≡ carried p.backends p.heap a))
      × ((r : ℕ) → r < length p.heap → load q.heap r ≡ load p.heap r)
unfolding reconfigure
reconfigure_lem addresses p v = (
  length-rebuild p.backends p.heap addresses,
  λ i a h.
      rebuild_lem p.backends p.heap addresses i a
        (Ascending-InRange 0 p.backends (length p.heap) v.owned) h,
  λ r l. rebuild_keeps p.backends p.heap addresses r l,
)

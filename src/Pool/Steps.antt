-- ===== src/Pool/Steps.antt =====
-- health.go: the operations of the pool as steps, in any order, and what each of them keeps.
-- Each holds the pool's mutex, so an interleaving of the proxy's goroutines is a sequence of steps.
use edge_proxy_go.Base.{
  ℕ, zero, suc, ◌≡◌, refl, sym, ap, subst, Bool, List, [], ◌∷◌, map, Option, none, some, String,
  Float, arith, All, modify, length, length-append, Option-cases, inl, inr,
}
use edge_proxy_go.Pool.Entry.{BackendStats, BackendEntry, BackendPool, zero_stats, load}
use edge_proxy_go.Pool.Select.{
  mark_probe, choose, choose_from, next_for, visit, count_available, available_count, Candidate,
  sort_stable, collect,
}
use edge_proxy_go.Pool.Select.Sound.{visited, collect-entries}
use edge_proxy_go.Pool.Requests.{Token, find, start_request, finish_request, finish}
use edge_proxy_go.Pool.Admin.{
  find_existing, entry_for, rebuild, reconfigure, set_backend_state, close,
}
use edge_proxy_go.Pool.Health.{apply_check}
use edge_proxy_go.Pool.Invariant.{
  IsBreakerOk, Ascending, refs, IsValid, All-map, All-modify, refs-map, refs-modify,
  visited-IsBreakerOk, visited_stats, mark_probe-IsBreakerOk, mark_probe_stats,
  apply_probe-IsBreakerOk, apply_probe_stats, settle_at-IsBreakerOk, refs-settle_at,
  set_state_at-IsBreakerOk, refs-set_state_at,
}

-- One operation. A request finishes with whatever its closure captured.
pub data Step ⦃F : Float⦄ (p : BackendPool) : BackendPool → Type 0 where
  selects : (now : ℕ) (allowed : Option (List String)) → Step p (next_for now allowed p).0
  counts : (now : ℕ) → Step p (available_count now p).0
  starts : (address : String) → Step p (start_request address p).0
  finishes :
      (now : ℕ) (t : Option Token) (status_code latency : ℕ) (err : Bool)
      → Step p (finish now t status_code latency err p)
  reconfigures : (addresses : List String) → Step p (reconfigure addresses p)
  administers : (address action : String) → Step p (set_backend_state address action p).0
  checks : (address : String) (ok : Bool) → Step p (apply_check address ok p)
  closes : Step p (close p)

pub data Reach ⦃F : Float⦄ (p : BackendPool) : BackendPool → Type 0 where
  here : Reach p p
  after : {q r : BackendPool} → Reach p q → Step q r → Reach p r

pub length-modify :
    {A : Type 0} (i : ℕ) (f : A → A) (xs : List A) → length (modify i f xs) ≡ length xs
length-modify i f [] = refl
length-modify zero f (x ∷ xs) = refl
length-modify (suc i) f (x ∷ xs) = ap suc (length-modify i f xs)

-- Entries with the same references are owned alike.
owned_of_refs :
    (p : BackendPool) (es : List BackendEntry)
    → refs es ≡ refs p.backends
    → IsValid p
    → Ascending 0 (refs es) (length p.heap)
owned_of_refs p es e v = subst (λ rs. Ascending 0 rs (length p.heap)) (sym e) v.owned

visit_all-IsValid :
    (now : ℕ) (allowed : Option (List String)) (p : BackendPool)
    → IsValid p
    → IsValid (record p { backends = map (visited now allowed) p.backends })
visit_all-IsValid now allowed p v = record {
  breakers = All-map _ p.backends (visited-IsBreakerOk now allowed) v.breakers;
  owned = owned_of_refs p _ (refs-map _ p.backends (visited_stats now allowed)) v;
}

mark-IsValid :
    (i current : ℕ) (p : BackendPool)
    → IsValid p
    → IsValid (record p { backends = modify i mark_probe p.backends; current = current })
mark-IsValid i current p v = record {
  breakers = All-modify _ i p.backends mark_probe-IsBreakerOk v.breakers;
  owned = owned_of_refs p _ (refs-modify _ i p.backends mark_probe_stats) v;
}

choose_from-IsValid :
    ⦃F : Float⦄ (p : BackendPool) (es : List BackendEntry) (cs : List (Candidate F.Num))
    → IsValid (record p { backends = es })
    → IsValid (choose_from p es cs).0
unfolding choose
choose_from-IsValid p es [] v = v
choose_from-IsValid p es (c ∷ cs) v = mark-IsValid _ _ (record p { backends = es }) v

next_for-IsValid :
    ⦃F : Float⦄ (now : ℕ) (allowed : Option (List String)) (p : BackendPool)
    → IsValid p
    → IsValid (next_for now allowed p).0
unfolding next_for
next_for-IsValid now allowed p v =
    choose_from-IsValid p _ (sort_stable (collect p.heap now allowed 0 p.backends).1)
      (rw (collect-entries p.heap now allowed 0 p.backends) (visit_all-IsValid now allowed p v))

pub count_available-entries :
    (now : ℕ) (es : List BackendEntry) → (count_available now es).0 ≡ map (visited now none) es
unfolding count_available visited
count_available-entries now [] = refl
count_available-entries now (e ∷ es) =
    ap (◌∷◌ (visit now none e).0) (count_available-entries now es)

available_count-IsValid :
    (now : ℕ) (p : BackendPool) → IsValid p → IsValid (available_count now p).0
unfolding available_count
available_count-IsValid now p v =
    rw (count_available-entries now p.backends) (visit_all-IsValid now none p v)

heap_write-IsValid :
    (i : ℕ) (f : BackendStats → BackendStats) (p : BackendPool)
    → IsValid p
    → IsValid (record p { heap = modify i f p.heap })
heap_write-IsValid i f p v = record {
  breakers = v.breakers;
  owned = rw (length-modify i f p.heap) v.owned;
}

start_request-IsValid :
    (address : String) (p : BackendPool) → IsValid p → IsValid (start_request address p).0
unfolding start_request
start_request-IsValid address p v = elim (Option-cases (find address p.backends)) [
  | inl e ↦ rw (e, start_request) v
  | inr (b, e) ↦ rw (e, start_request) (heap_write-IsValid b.stats _ p v)
]

finish_request-IsValid :
    (now : ℕ) (address : String) (failed : Bool) (p : BackendPool)
    → IsValid p
    → IsValid (finish_request now address failed p)
unfolding finish_request
finish_request-IsValid now address failed p v = record {
  breakers = settle_at-IsBreakerOk now address failed p.backends v.breakers;
  owned = owned_of_refs p _ (refs-settle_at now address failed p.backends) v;
}

finish-IsValid :
    (now : ℕ) (t : Option Token) (status_code latency : ℕ) (err : Bool) (p : BackendPool)
    → IsValid p
    → IsValid (finish now t status_code latency err p)
unfolding finish
finish-IsValid now none status_code latency err p v = v
finish-IsValid now (some t) status_code latency err p v =
    finish_request-IsValid now t.address _ _ (heap_write-IsValid t.stats _ p v)

find_existing-IsBreakerOk :
    (a : String) (es : List BackendEntry) {e : BackendEntry}
    → All IsBreakerOk es
    → find_existing a es ≡ some e
    → IsBreakerOk e
unfolding find_existing
find_existing-IsBreakerOk a [] v h = cc
find_existing-IsBreakerOk a (x ∷ es) {e} v h = elim (Option-cases (find_existing a es)) [
  | inl missing ↦ ground arith
  | inr (later, found) ↦ find_existing-IsBreakerOk a es {e = e} v.1 (ground arith)
]

entry_for_lem :
    (existing : List BackendEntry) (heap : List BackendStats) (a : String)
    → All IsBreakerOk existing
    → let (e, heap') = entry_for existing heap a in
      IsBreakerOk e × (e.stats ≡ length heap) × (length heap' ≡ suc (length heap))
unfolding entry_for
entry_for_lem existing heap a v = elim (Option-cases (find_existing a existing)) [
  | inl missing ↦
      rw (missing, entry_for)
        (ground arith, refl, omega (arith, length-append heap (zero_stats ∷ [])))
  | inr (source, found) ↦
      let ok = find_existing-IsBreakerOk a existing {e = source} v found in
      rw (found, entry_for)
        (
          record { counted = ok.counted; probing = ok.probing },
          refl,
          omega (arith, length-append heap (load heap source.stats ∷ [])),
        )
]

rebuild-IsValid :
    (existing : List BackendEntry) (heap : List BackendStats) (wanted : List String)
    → All IsBreakerOk existing
    → let (es, heap') = rebuild existing heap wanted in
      All IsBreakerOk es × Ascending (length heap) (refs es) (length heap')
unfolding rebuild
rebuild-IsValid existing heap [] v = (tt, omega arith)
rebuild-IsValid existing heap (a ∷ wanted) v =
    let (ok, at_end, grown) = entry_for_lem existing heap a v in
    let (oks, rising) = rebuild-IsValid existing (entry_for existing heap a).1 wanted v in
    ((ok, oks), (omega arith, rw at_end (rw (← grown) rising)))

Ascending-weaken : (lo : ℕ) (rs : List ℕ) (hi : ℕ) → Ascending lo rs hi → Ascending 0 rs hi
Ascending-weaken lo [] hi h = omega arith
Ascending-weaken lo (r ∷ rs) hi h = (omega arith, h.1)

reconfigure-IsValid :
    (addresses : List String) (p : BackendPool) → IsValid p → IsValid (reconfigure addresses p)
unfolding reconfigure
reconfigure-IsValid addresses p v =
    let (oks, rising) = rebuild-IsValid p.backends p.heap addresses v.breakers in
    record { breakers = oks; owned = Ascending-weaken (length p.heap) _ _ rising }

-- Every operation keeps the pool valid.
pub Step-IsValid : ⦃F : Float⦄ {p q : BackendPool} → Step p q → IsValid p → IsValid q
unfolding set_backend_state apply_check close
Step-IsValid {p} (selects now allowed) v = next_for-IsValid now allowed p v
Step-IsValid {p} (counts now) v = available_count-IsValid now p v
Step-IsValid {p} (starts address) v = start_request-IsValid address p v
Step-IsValid {p} (finishes now t status_code latency err) v =
    finish-IsValid now t status_code latency err p v
Step-IsValid {p} (reconfigures addresses) v = reconfigure-IsValid addresses p v
Step-IsValid {p} (administers address action) v = record {
  breakers = set_state_at-IsBreakerOk address action p.backends v.breakers;
  owned = owned_of_refs p _ (refs-set_state_at address action p.backends) v;
}
Step-IsValid {p} (checks address ok) v = record {
  breakers = All-map _ p.backends (apply_probe-IsBreakerOk address ok) v.breakers;
  owned = owned_of_refs p _ (refs-map _ p.backends (apply_probe_stats address ok)) v;
}
Step-IsValid closes v = record { breakers = v.breakers; owned = v.owned }

-- So a pool that was valid stays so under any sequence of operations.
pub Reach-IsValid : ⦃F : Float⦄ {p q : BackendPool} → Reach p q → IsValid p → IsValid q
Reach-IsValid here v = v
Reach-IsValid (after r s) v = Step-IsValid s (Reach-IsValid r v)

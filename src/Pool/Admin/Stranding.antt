-- ===== src/Pool/Admin/Stranding.antt =====
-- health.go: what requests that were in flight at a `reconfigure` leave on the new entries.
use edge_proxy_go.Base.{
  ℕ, ◌+◌, ◌≤◌, ◌<◌, ◌≡◌, refl, ap, ◌∙◌, Bool, List, [], ◌∷◌, some, String, Float, arith, pos,
  length, get_elem?, All,
}
use edge_proxy_go.Pool.Entry.{BackendEntry, BackendPool, load}
use edge_proxy_go.Pool.Requests.{Token, finish}
use edge_proxy_go.Pool.Requests.Accounting.{
  load-modify_other, sharing, Traffic, Traffic-active, heap-finish,
}
use edge_proxy_go.Pool.Invariant.{IsValid}
use edge_proxy_go.Pool.Admin.{find_existing, clone_backend_entry, reconfigure}
use edge_proxy_go.Pool.Admin.Reconfigure.{
  renewed-some, carried-some, find_existing_address, find_existing-InRange, Ascending-InRange,
  reconfigure_lem,
}

-- How a request ends.
pub record Ending : Type 0 where
  pub token : Token
  pub now : ℕ
  pub status_code : ℕ
  pub latency : ℕ
  pub err : Bool

pub finish_all : List Ending → BackendPool → BackendPool
finish_all [] p = p
finish_all (x ∷ xs) p = finish_all xs (finish x.now (some x.token) x.status_code x.latency x.err p)

finish_all-heap :
    (xs : List Ending) (p : BackendPool) (n r : ℕ)
    → All (λ x. x.token.stats < n) xs
    → n ≤ r
    → load (finish_all xs p).heap r ≡ load p.heap r
unfolding finish_all
finish_all-heap [] p n r h l = refl
finish_all-heap (x ∷ xs) p n r h l =
    finish_all-heap xs (finish x.now (some x.token) x.status_code x.latency x.err p) n r h.1 l
    ∙ (rw (heap-finish x.now x.token x.status_code x.latency x.err p)
        (load-modify_other x.token.stats r _ p.heap (omega (arith, h.0))))

-- Requests that were in flight on a backend when the pool was reconfigured stay counted as active
-- on its new entry for good: however all the requests started before end, that entry still shows
-- as many as were in flight at the reload.
pub reconfigure_strands_active :
    ⦃F : Float⦄ {p : BackendPool} {ts : List Token} (addresses : List String) (i : ℕ) (a : String)
    (e : BackendEntry) (ends : List Ending)
    → IsValid p
    → Traffic p ts
    → find_existing a p.backends ≡ some e
    → get_elem? addresses i ≡ some a
    → All (λ x. x.token.stats < length p.heap) ends
    → let q = reconfigure addresses p in
      (e' : BackendEntry) × (get_elem? q.backends i ≡ some e')
      × (e'.address ≡ a)
      × ((load (finish_all ends q).heap e'.stats).active_requests ≡ pos (sharing e.stats ts))
unfolding clone_backend_entry
reconfigure_strands_active {p} {ts} addresses i a e ends v tr found wanted old =
    let (_, kept, _) = reconfigure_lem addresses p v in
    let (entry, stats) = kept i a wanted in
    let in_range =
      find_existing-InRange a (length p.heap) p.backends {e = e}
        (Ascending-InRange 0 p.backends (length p.heap) v.owned) found in
    (
      clone_backend_entry e (length p.heap + i),
      entry ∙ ap some (renewed-some p.backends a _ found),
      find_existing_address a p.backends found,
      ap (λ s. s.active_requests)
            (finish_all-heap ends (reconfigure addresses p) (length p.heap) (length p.heap + i) old
                (omega arith)
              ∙ stats
              ∙ carried-some p.backends p.heap a found)
          ∙ Traffic-active tr e.stats in_range,
    )

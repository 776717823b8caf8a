-- ===== src/Proxy/Handler/Tests/Available.antt =====
-- A request that one of two backends serves.
use edge_proxy_go.Base.{
  ◌≡◌, refl, ◌⊎◌, ℕ, true, pos, some, none, String, All, get_elem?, ◌==ₛ◌, trim_space, trim_left,
  trim_right, equal_fold, to_lower,
}
use edge_proxy_go.Config.Types.{default_config, default_proxy, default_rate_limit}
use edge_proxy_go.Pool.Entry.{BackendEntry}
use edge_proxy_go.Proxy.Forward.{retries_for}
use edge_proxy_go.Proxy.Routing.{match_route, match_from}
use edge_proxy_go.Proxy.Policy.{identify_requester, resolve_rate_limit_config, resolve_from}
use edge_proxy_go.Proxy.Upstream.{Response}
use edge_proxy_go.Proxy.Handler.{limit, heed, client_ip_from_request, handle}
use edge_proxy_go.Proxy.Handler.Available.{
  IsAnswering, Eligible, unavailable, passed_on, limited, handle-available,
}
use edge_proxy_go.Proxy.Handler.Tests.{services, runtime, get, accepted}
use edge_proxy_go.Pool.Tests.{two_to_one, named}
use edge_proxy_go.Samples.{thousandths}

abbrev two_bytes : String → Response
two_bytes backend = record { status = 200; content_length = pos 2 }

no_retries : retries_for (match_route get.path runtime.config.routes) get.method ≡ pos 0
unfolding retries_for match_route match_from default_config default_proxy default_rate_limit
no_retries = refl

let_pass : limited services runtime get ≡ ((1, true), "default", none)
unfolding limit heed client_ip_from_request identify_requester resolve_rate_limit_config
    resolve_from default_config default_proxy default_rate_limit ◌==ₛ◌ trim_space trim_left
    trim_right equal_fold to_lower
let_pass = refl

answering :
    All
      (λ (e : BackendEntry).
        Eligible services runtime.config get 1 e → IsAnswering services two_bytes e.address)
      two_to_one.backends
answering = (λ h. (λ n. refl, refl), (λ h. (λ n. refl, refl), tt))

handle-available_example :
    let out = (handle services runtime get).1 in
    (All (λ e. ¬ Eligible services runtime.config get 1 e) two_to_one.backends
      × (out.status ≡ unavailable services runtime.config get 1))
    ⊎ ((i : ℕ) × (e : BackendEntry) × (get_elem? two_to_one.backends i ≡ some e)
        × Eligible services runtime.config get 1 e
        × (out.status ≡ passed_on services two_bytes runtime.config e.address))
handle-available_example =
    handle-available services runtime get two_bytes "default" 1 true 0 accepted let_pass no_retries
      named answering

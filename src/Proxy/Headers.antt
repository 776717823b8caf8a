-- ===== src/Proxy/Headers.antt =====
-- main.go: the headers of the request that `roundTripToBackend` sends, `removeHopHeaders` and
-- `appendForwardedFor`. The map `http.Header` is an association list from canonical names to values;
-- the source's names are canonical, but for TE, which `Del` makes Te.
use Prim.Native.String
use edge_proxy_go.Base.{
  ◌≡◌, Bool, false, not, ◌&&◌, List, [], ◌∷◌, Option, none, some, String, if◌then◌else◌, ◌==ₛ◌,
  trim_space,
}
use edge_proxy_go.Pool.Entry.{contains}

abbrev pub Header : Type 0
Header = List (String × List String)

unfoldable pub values_of : String → Header → Option (List String)
values_of key [] = none
values_of key ((k, vs) ∷ h) = if k ==ₛ key then some vs else values_of key h

-- `Header.Get`
unfoldable pub get_header : String → Header → String
get_header key h = first_of (values_of key h)
  where
    first_of : Option (List String) → String
    first_of (some (v ∷ vs)) = v
    first_of _ = ""

-- `Header.Del`
unfoldable pub del_header : String → Header → Header
del_header key [] = []
del_header key ((k, vs) ∷ h) = if k ==ₛ key then del_header key h else (k, vs) ∷ del_header key h

-- `Header.Set`
unfoldable pub set_header : String → String → Header → Header
set_header key v h = (key, v ∷ []) ∷ del_header key h

abbrev pub hop_headers : List String
hop_headers =
    "Connection" ∷ "Proxy-Connection" ∷ "Keep-Alive" ∷ "Te" ∷ "Trailer" ∷ "Transfer-Encoding"
    ∷ "Upgrade" ∷ []

unfoldable pub del_headers : List String → Header → Header
del_headers [] h = h
del_headers (key ∷ keys) h = del_headers keys (del_header key h)

unfoldable pub remove_hop_headers : Header → Header
remove_hop_headers h = del_headers hop_headers h

unfoldable pub append_forwarded_for : String → Header → Header
append_forwarded_for client_ip h =
    let existing = trim_space (get_header "X-Forwarded-For" h) in
    if existing ==ₛ ""
    then set_header "X-Forwarded-For" client_ip h
    else set_header "X-Forwarded-For" (String.◌++◌ existing (String.◌++◌ ", " client_ip)) h

-- The headers that are sent for those of the request: `tls` is whether TLS is on, `ip` the client's
-- address, and `inject` is `injectTraceHeaders`.
unfoldable pub outgoing_headers : (Header → Header) → Bool → String → String → Header → Header
outgoing_headers inject tls request_id ip h =
    let marked =
      set_header "X-Forwarded-Proto" (if tls then "https" else "http")
        (set_header "X-Request-Id" request_id (remove_hop_headers h)) in
    inject (if not (ip ==ₛ "") then append_forwarded_for ip marked else marked)

-- What OpenTelemetry says of `Inject`: it writes the headers of the trace context, and no others.
abbrev pub IsTracing : (Header → Header) → Type 0
IsTracing inject =
    (key : String) (h : Header)
    → contains key ("Traceparent" ∷ "Tracestate" ∷ []) ≡ false
    → values_of key (inject h) ≡ values_of key h

-- What is sent under a name, besides the trace context: the two headers that the proxy sets, no hop
-- header, and for every other name what the request has.
abbrev pub marked_values : Bool → String → Header → String → Option (List String)
marked_values tls request_id h key =
    if "X-Forwarded-Proto" ==ₛ key
    then some ((if tls then "https" else "http") ∷ [])
    else if "X-Request-Id" ==ₛ key
    then some (request_id ∷ [])
    else if contains key hop_headers
    then none
    else values_of key h

-- The value of `X-Forwarded-For`: the client's address after those that the request has.
abbrev pub forwarded_for : String → Header → String
forwarded_for ip h =
    let existing = trim_space (get_header "X-Forwarded-For" h) in
    if existing ==ₛ "" then ip else String.◌++◌ existing (String.◌++◌ ", " ip)

abbrev pub sent_values : Bool → String → String → Header → String → Option (List String)
sent_values tls request_id ip h key =
    if not (ip ==ₛ "") && "X-Forwarded-For" ==ₛ key
    then some (forwarded_for ip h ∷ [])
    else marked_values tls request_id h key

abbrev marked : Bool → String → Header → Header
marked tls request_id h =
    set_header "X-Forwarded-Proto" (if tls then "https" else "http")
      (set_header "X-Request-Id" request_id (remove_hop_headers h))

-- ===== src/Control/Tracing.antt =====
-- tracing.go: `setupTracing`, and main.go: `resolveDashboardPath`. The providers and the exporter are
-- those of the OpenTelemetry library: what it is given is modelled, and whether it gives an error.
use edge_proxy_go.Base.{
  ◌≡◌, inl, inr, Bool, true, false, not, ◌&&◌, ◌||◌, List, [], ◌∷◌, ◌++◌, Option, none, some,
  String, Float, arith, Bool-cases, if◌then◌else◌, ◌==ₛ◌, trim_space,
}
use edge_proxy_go.Config.Types.{TracingConfig}

pub data ExporterOption : Type 0 where
  with_endpoint : String → ExporterOption
  with_insecure : ExporterOption

-- The scheme and the host that `url.Parse` gives, `none` for an error.
abbrev pub Url : Type 0
Url = String × String

abbrev pub host_options : String → Option Url → List ExporterOption
host_options endpoint none = with_endpoint endpoint ∷ []
host_options endpoint (some (scheme, host)) =
    if not (host ==ₛ "")
    then with_endpoint host ∷ (if scheme ==ₛ "http" then with_insecure ∷ [] else [])
    else with_endpoint endpoint ∷ []

abbrev pub is_insecure : List ExporterOption → Bool
is_insecure [] = false
is_insecure (with_endpoint s ∷ os) = is_insecure os
is_insecure (with_insecure ∷ os) = true

abbrev pub endpoints : List ExporterOption → List String
endpoints [] = []
endpoints (with_endpoint s ∷ os) = s ∷ endpoints os
endpoints (with_insecure ∷ os) = endpoints os

-- The scheme is that of plain text, in a URL that has a host.
abbrev pub is_plain : Option Url → Bool
is_plain none = false
is_plain (some (scheme, host)) = not (host ==ₛ "") && scheme ==ₛ "http"

-- The address that an endpoint names: the host of a URL, or the text itself.
abbrev pub host_of : String → Option Url → String
host_of endpoint none = endpoint
host_of endpoint (some (scheme, host)) = if not (host ==ₛ "") then host else endpoint

host_options-lem :
    (endpoint : String) (u : Option Url) (b : Bool)
    → let os = host_options endpoint u ++ (if b then with_insecure ∷ [] else []) in
      (endpoints os ≡ host_of endpoint u ∷ []) × (is_insecure os ≡ (b || is_plain u))
host_options-lem endpoint none b = ground arith
host_options-lem endpoint (some (scheme, host)) b = ground arith

module _ ⦃F : Float⦄ (parse_url : String → Option Url) where
  unfoldable pub exporter_options : TracingConfig → List ExporterOption
  exporter_options c =
      let endpoint = trim_space c.endpoint in
      (if endpoint ==ₛ "" then [] else host_options endpoint (parse_url endpoint))
      ++ (if c.insecure then with_insecure ∷ [] else [])

  -- Which provider is set: none (an error), one that exports nothing, or one with an exporter, the
  -- name of the service and the ratio of traces that are sampled.
  pub data Provider : Type 0 where
    failed silent : Provider
    exporting : List ExporterOption → String → F.Num → Provider

  -- `new_exporter` and `new_resource` are true if they give no error.
  unfoldable pub setup_tracing :
      (List ExporterOption → Bool) → (String → Bool) → TracingConfig → Provider
  setup_tracing new_exporter new_resource c =
      if not c.enabled
      then silent
      else if not (new_exporter (exporter_options c))
      then failed
      else if not (new_resource c.service_name)
      then failed
      else exporting (exporter_options c) c.service_name c.sample_ratio

  -- The exporter sends to the host of the configured endpoint, or to the endpoint itself if it is no
  -- URL with a host, and to no other; and it goes without TLS exactly if the configuration says so,
  -- or the endpoint is a URL of scheme http. A blank endpoint is not passed on.
  pub exporter_options-sends :
      (c : TracingConfig)
      → let endpoint = trim_space c.endpoint in
        let os = exporter_options c in
        (endpoints os
          ≡ (if endpoint ==ₛ "" then [] else host_of endpoint (parse_url endpoint) ∷ []))
        × (is_insecure os ≡ (c.insecure || not (endpoint ==ₛ "") && is_plain (parse_url endpoint)))
  unfolding exporter_options
  exporter_options-sends c = elim (Bool-cases (trim_space c.endpoint ==ₛ "")) [
    | inl e ↦ rw e (ground arith)
    | inr e ↦
        rw e
          (host_options-lem (trim_space c.endpoint) (parse_url (trim_space c.endpoint)) c.insecure)
  ]

-- A span that is started: its name and its attributes.
pub record Span : Type 0 where
  pub name : String
  pub attributes : List (String × String)

unfoldable pub start_ingress_span : String → String → String → Span
start_ingress_span method path request_id = record {
  name = "edge-proxy ingress";
  attributes =
      ("http.method", method) ∷ ("http.target", path) ∷ ("edge.request_id", request_id) ∷ [];
}

unfoldable pub start_upstream_span : String → Span
start_upstream_span backend = record {
  name = "edge-proxy upstream";
  attributes = ("edge.backend", backend) ∷ [];
}

-- `resolveDashboardPath`: the directories of the executable and of the process, `none` for an error,
-- `join` of a directory with the file's name, and whether there is a file.
unfoldable pub resolve_dashboard_path :
    (String → String) → (String → Bool) → Option String → Option String → Option String
resolve_dashboard_path join exists exe wd =
    first (candidate exe ++ candidate wd ++ ("dashboard.html" ∷ []))
  where
    candidate : Option String → List String
    candidate none = []
    candidate (some dir) = join dir ∷ []

    first : List String → Option String
    first [] = none
    first (path ∷ paths) = if exists path then some path else first paths

-- ===== src/Wire.antt =====
-- main.go: the handlers that write a whole response on a raw connection, as the bytes that they
-- write: `writePlainResponse`, `serveJSONTCP`, `serveStatsTCP`, `serveMetricsTCP`, `serveDashboard`,
-- `handleBackendConnection`, and the payloads of the reports.
pub mod Reader
pub mod Fields
pub mod Messages
pub mod RoundTrip
pub mod Plain
mod Tests
use Prim.Native.String
use edge_proxy_go.Base.{
  ℕ, zero, suc, List, [], ◌∷◌, ◌++◌, Option, none, some, String, Float, length, Bytes, bytes,
  decimal, split, if◌then◌else◌, ◌==ₛ◌,
}
use edge_proxy_go.Config.Types.{Config}
use edge_proxy_go.Pool.Entry.{BackendPool}
use edge_proxy_go.Pool.Admin.{status}
use edge_proxy_go.Limiter.Types.{InsightEvent, UserTrafficInsight}
use edge_proxy_go.Limiter.Redis.{Library, Limiter}
use edge_proxy_go.Limiter.Redis.Reports.{report_abusers, report_spikes, report_events}
use edge_proxy_go.Proxy.Recorder.{Stats}
use edge_proxy_go.Control.Metrics.{StatsResponse, count_status_healthy, build_stats}

-- The lines for the map of headers. Go ranges over a map in any order: the list is in the order of
-- this call.
unfoldable pub header_lines : List (String × String) → Bytes
header_lines [] = []
header_lines ((key, value) ∷ headers) =
    bytes key ++ (bytes ": " ++ (bytes value ++ (bytes "\r\n" ++ header_lines headers)))

-- `status_text` is `http.StatusText`.
unfoldable pub write_plain_response : (ℕ → String) → ℕ → String → List (String × String) → Bytes
write_plain_response status_text status_code body headers =
    bytes "HTTP/1.1 "
    ++ (decimal status_code
        ++ (bytes " "
            ++ (bytes (status_text status_code)
                ++ (bytes "\r\n"
                    ++ (bytes "Content-Type: text/plain\r\n"
                        ++ (header_lines headers
                            ++ (bytes "Content-Length: "
                                ++ (decimal (length (bytes body))
                                    ++ (bytes "\r\nConnection: close\r\n\r\n" ++ bytes body)))))))))

unfoldable pub serve_json_tcp : Bytes → Bytes
serve_json_tcp payload =
    bytes "HTTP/1.1 200 OK\r\nContent-Type: application/json\r\nContent-Length: "
    ++ (decimal (length payload) ++ (bytes "\r\n\r\n" ++ payload))

-- The page, or `none` where it cannot be found or read.
unfoldable pub serve_dashboard : Option Bytes → Bytes
serve_dashboard none =
    let body = bytes "Dashboard not found" in
    bytes "HTTP/1.1 500 Internal Server Error\r\nContent-Type: text/plain\r\nContent-Length: "
    ++ (decimal (length body) ++ (bytes "\r\n\r\n" ++ body))
serve_dashboard (some content) =
    bytes "HTTP/1.1 200 OK\r\nContent-Type: text/html; charset=utf-8\r\nContent-Length: "
    ++ (decimal (length content) ++ (bytes "\r\n\r\n" ++ content))

-- The body for a path, of a local backend on `port`.
unfoldable pub backend_body : String → String → String
backend_body port path =
    if path ==ₛ "/hello"
    then "Hey! How are you?"
    else if path ==ₛ "/home"
    then "This is the home page"
    else String.◌++◌ "Hello from " port

abbrev pub answer_parts : String → List String → Option Bytes
answer_parts port (method ∷ path ∷ version ∷ rest) =
    let body = bytes (backend_body port path) in
    some (
      bytes "HTTP/1.1 200 OK\r\nContent-Type: text/plain\r\nContent-Length: "
      ++ (decimal (length body) ++ (bytes "\r\n\r\n" ++ body)))
answer_parts port _ = none

-- The answer to a first line, or `none` if nothing is written: where the line cannot be read, or
-- has fewer than three parts.
unfoldable pub handle_backend_connection : String → Option String → Option Bytes
handle_backend_connection port none = none
handle_backend_connection port (some request) = answer_parts port (split b' ' request)

module _ ⦃F : Float⦄ where
  unfoldable pub metrics_text : ℕ → Stats → BackendPool → Bytes
  metrics_text now s p =
      let statuses = status now p in
      bytes "edgeproxy_requests_total "
      ++ (decimal s.total_requests
          ++ (bytes "\nedgeproxy_rate_limited_total "
              ++ (decimal s.total_limited
                  ++ (bytes "\nedgeproxy_active_connections "
                      ++ (decimal s.active_conns
                          ++ (bytes "\nedgeproxy_healthy_backends "
                              ++ (decimal (count_status_healthy statuses)
                                  ++ (bytes "\nedgeproxy_total_backends "
                                      ++ (decimal (length statuses) ++ bytes "\n")))))))))

  unfoldable pub serve_metrics_tcp : ℕ → Stats → BackendPool → Bytes
  serve_metrics_tcp now s p =
      let body = metrics_text now s p in
      bytes "HTTP/1.1 200 OK\r\nContent-Type: text/plain\r\nContent-Length: "
      ++ (decimal (length body) ++ (bytes "\r\n\r\n" ++ body))

  -- `marshal` is `json.Marshal`.
  unfoldable pub serve_stats_tcp :
      (StatsResponse → Bytes)
      → Option (List UserTrafficInsight)
      → ℕ
      → Config
      → Stats
      → BackendPool
      → Bytes
  serve_stats_tcp marshal top now c s p = serve_json_tcp (marshal (build_stats top now c s p))

  -- `topAbusersPayload`, `trafficSpikesPayload` and `rateLimitEventsPayload`, which give an empty list
  -- for an error.
  abbrev payload_of : {A : Type 0} → (A → Bytes) → Option A → Bytes
  payload_of marshal none = bytes "[]"
  payload_of marshal (some a) = marshal a

  module _ {N : Type 0} (lib : Library N) where
    unfoldable pub top_abusers_payload :
        (List UserTrafficInsight → Bytes) → Config → Limiter N → N → N × Bytes
    top_abusers_payload marshal c l n =
        let (n', abusers) = report_abusers lib l c.rate_limit.top_n n in
        (n', payload_of marshal abusers)

    unfoldable pub traffic_spikes_payload :
        (List InsightEvent → Bytes) → Config → Limiter N → N → N × Bytes
    traffic_spikes_payload marshal c l n =
        let (n', events) = report_spikes lib l c.rate_limit.top_n n in
        (n', payload_of marshal events)

    unfoldable pub rate_limit_events_payload :
        (List InsightEvent → Bytes) → Config → Limiter N → N → N × Bytes
    rate_limit_events_payload marshal c l n =
        let (n', events) = report_events lib l c.rate_limit.top_n n in
        (n', payload_of marshal events)

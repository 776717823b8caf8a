-- ===== src/Wire/Tests.antt =====
-- Responses of the raw handlers, as they are written and read.
use edge_proxy_go.Base.{
  ℕ, ◌≡◌, refl, List, [], ◌∷◌, ◌++◌, some, none, false, String, length, Bytes, bytes, decimal,
  lacks→Lacks, split, Lacks,
}
use edge_proxy_go.Samples.{thousandths}
use edge_proxy_go.Pool.Tests.{two_to_one}
use edge_proxy_go.Proxy.Recorder.{no_stats}
use edge_proxy_go.Wire.{
  header_lines, write_plain_response, serve_json_tcp, serve_metrics_tcp, serve_dashboard,
  handle_backend_connection, backend_body, metrics_text,
}
use edge_proxy_go.Wire.Reader.{read_message, same_bytes}
use edge_proxy_go.Wire.Fields.{IsClean}
use edge_proxy_go.Wire.RoundTrip.{Responds, raw-Responds}
use edge_proxy_go.Wire.Plain.{plain_fields, read-write_plain_response}

abbrev status_text : ℕ → String
status_text status = "Too Many Requests"

abbrev headers : List (String × String)
headers = ("Retry-After", "30") ∷ ("X-Request-Id", "req-1") ∷ []

refusal_bytes :
    write_plain_response status_text 429 "Rate limit exceeded" headers
    ≡ bytes
        "HTTP/1.1 429 Too Many Requests\r\nContent-Type: text/plain\r\nRetry-After: 30\r\nX-Request-Id: req-1\r\nContent-Length: 19\r\nConnection: close\r\n\r\nRate limit exceeded"
unfolding write_plain_response header_lines bytes decimal
refusal_bytes = refl

clean :
    (key value : String)
    → Lacks 10 (bytes key)
    → Lacks b':' (bytes key)
    → Lacks 10 (bytes value)
    → same_bytes (bytes key) (bytes "Content-Length") ≡ false
    → IsClean (key, value)
clean key value a b c d = record { name_in_line = a; name = b; value = c; own = d }

retry_after : IsClean ("Retry-After", "30")
unfolding bytes same_bytes
retry_after =
    clean "Retry-After" "30" (lacks→Lacks 10 (bytes "Retry-After") refl)
      (lacks→Lacks b':' (bytes "Retry-After") refl) (lacks→Lacks 10 (bytes "30") refl) refl

request_id : IsClean ("X-Request-Id", "req-1")
unfolding bytes same_bytes
request_id =
    clean "X-Request-Id" "req-1" (lacks→Lacks 10 (bytes "X-Request-Id") refl)
      (lacks→Lacks b':' (bytes "X-Request-Id") refl) (lacks→Lacks 10 (bytes "req-1") refl) refl

in_line : Lacks 10 (bytes (status_text 429))
unfolding bytes
in_line = lacks→Lacks 10 (bytes (status_text 429)) refl

read-write_plain_response_example :
    read_message (write_plain_response status_text 429 "Rate limit exceeded" headers ++ [])
    ≡ some record {
      status = 429;
      fields = plain_fields headers (length (bytes "Rate limit exceeded"));
      body = bytes "Rate limit exceeded";
      rest = [];
    }
read-write_plain_response_example =
    read-write_plain_response status_text 429 "Rate limit exceeded" headers [] in_line
      (retry_after, (request_id, tt))

parts : split b' ' "GET /hello HTTP/1.1" ≡ "GET" ∷ "/hello" ∷ "HTTP/1.1" ∷ []
unfolding split
parts = refl

raw-Responds_example :
    Responds (serve_json_tcp (bytes "[]")) 200 "application/json" (bytes "[]")
    × Responds
        (serve_metrics_tcp 100 no_stats two_to_one)
        200
        "text/plain"
        (metrics_text 100 no_stats two_to_one)
    × Responds (serve_dashboard (some (bytes "<p>"))) 200 "text/html; charset=utf-8" (bytes "<p>")
    × Responds (serve_dashboard none) 500 "text/plain" (bytes "Dashboard not found")
    × ((output : Bytes) × (handle_backend_connection ":9000" (some "GET /hello HTTP/1.1")
          ≡ some output)
        × Responds output 200 "text/plain" (bytes (backend_body ":9000" "/hello")))
raw-Responds_example =
    raw-Responds (bytes "[]") (bytes "<p>") 100 no_stats two_to_one ":9000" "GET /hello HTTP/1.1"
      "GET" "/hello" "HTTP/1.1" [] parts

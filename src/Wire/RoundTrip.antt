-- ===== src/Wire/RoundTrip.antt =====
-- What the raw handlers write is read back by a client: the status, the fields and the whole body.
use edge_proxy_go.Base.{
  ℕ, ◌≡◌, refl, ap, ◌∙◌, List, [], ◌∷◌, ◌++◌, none, some, String, Float, split, arith, length,
  Bytes, bytes, decimal, decimal-Lacks, append_assoc,
}
use edge_proxy_go.Pool.Entry.{BackendPool}
use edge_proxy_go.Proxy.Recorder.{Stats}
use edge_proxy_go.Wire.{
  serve_json_tcp, serve_dashboard, serve_metrics_tcp, metrics_text, answer_parts, backend_body,
  handle_backend_connection,
}
use edge_proxy_go.Wire.Reader.{
  push, read_head, field_of, status_of_line, content_length, from_head, trim_cr, read_message,
}
use edge_proxy_go.Wire.Messages.{
  length_line, field_of-length_line, content_length-first, from_head-reads,
}
use edge_proxy_go.Wire.Fields.{read_head-text, read_head-end, read_head-blank}

-- The line of the length is read, whatever comes after it.
read_head-length_line :
    (n : ℕ) (after : Bytes)
    → read_head (bytes "Content-Length: ") (decimal n ++ 13 ∷ 10 ∷ after)
      ≡ push (length_line n) (read_head [] after)
read_head-length_line n after =
    read_head-text (bytes "Content-Length: ") (decimal n) (13 ∷ 10 ∷ after)
      (decimal-Lacks n 10 (omega arith))
    ∙ read_head-end (length_line n) after (unfold bytes in refl)

sized_bytes :
    (head body rest : Bytes) (n : ℕ)
    → (head ++ (decimal n ++ (bytes "\r\n\r\n" ++ body))) ++ rest
      ≡ head ++ (decimal n ++ 13 ∷ 10 ∷ 13 ∷ 10 ∷ (body ++ rest))
sized_bytes head body rest n = simp append_assoc (unfold bytes in refl)

-- A response whose last field is the length.
module _ (head first second : Bytes) (status : ℕ) where
  -- How the start of such a response is read: its status line and a field, and then the length.
  abbrev IsHead : Type 0
  IsHead =
      ((after : Bytes)
        → read_head [] (head ++ after)
          ≡ push first (push second (read_head (bytes "Content-Length: ") after)))
      × (status_of_line first ≡ some status)
      × ((fields : List (Bytes × Bytes))
          → content_length (field_of second ∷ fields) ≡ content_length fields)

  read_message-sized :
      (body rest : Bytes)
      → IsHead
      → read_message ((head ++ (decimal (length body) ++ (bytes "\r\n\r\n" ++ body))) ++ rest)
        ≡ some record {
          status = status;
          fields = field_of second ∷ (bytes "Content-Length", decimal (length body)) ∷ [];
          body = body;
          rest = rest;
        }
  unfolding read_message
  read_message-sized body rest (reads, is_status, other) =
      let n = length body in
      let tail = read_head-length_line n (13 ∷ 10 ∷ (body ++ rest)) in
      ap (λ input. from_head (read_head [] input)) (sized_bytes head body rest n)
      ∙ ap from_head (
          reads (decimal n ++ 13 ∷ 10 ∷ 13 ∷ 10 ∷ (body ++ rest))
          ∙ ap (λ o. push first (push second o))
              (tail ∙ ap (push (length_line n)) (read_head-blank (body ++ rest))))
      ∙ from_head-reads first (second ∷ length_line n ∷ []) _ status body rest is_status
          (ap (λ field. field_of second ∷ field ∷ []) (field_of-length_line n))
          (other ((bytes "Content-Length", decimal n) ∷ []) ∙ content_length-first n [])

-- The output is one response, with these two fields, whatever comes after it on the connection.
abbrev pub Responds : Bytes → ℕ → String → Bytes → Type 0
Responds output status content_type body =
    (rest : Bytes)
    → read_message (output ++ rest)
      ≡ some record {
        status = status;
        fields =
            (bytes "Content-Type", bytes content_type)
            ∷ (bytes "Content-Length", decimal (length body))
            ∷ [];
        body = body;
        rest = rest;
      }

json-Responds : (payload : Bytes) → Responds (serve_json_tcp payload) 200 "application/json" payload
unfolding serve_json_tcp bytes read_head trim_cr status_of_line content_length field_of
json-Responds payload rest =
    read_message-sized
      (bytes "HTTP/1.1 200 OK\r\nContent-Type: application/json\r\nContent-Length: ")
      (bytes "HTTP/1.1 200 OK") (bytes "Content-Type: application/json") 200 payload rest
      (λ after. refl, refl, λ fields. refl)

plain-Responds :
    (body : Bytes)
    → Responds
        (bytes "HTTP/1.1 200 OK\r\nContent-Type: text/plain\r\nContent-Length: "
          ++ (decimal (length body) ++ (bytes "\r\n\r\n" ++ body)))
        200
        "text/plain"
        body
unfolding bytes read_head trim_cr status_of_line content_length field_of
plain-Responds body rest =
    read_message-sized (bytes "HTTP/1.1 200 OK\r\nContent-Type: text/plain\r\nContent-Length: ")
      (bytes "HTTP/1.1 200 OK") (bytes "Content-Type: text/plain") 200 body rest
      (λ after. refl, refl, λ fields. refl)

page-Responds :
    (content : Bytes)
    → Responds (serve_dashboard (some content)) 200 "text/html; charset=utf-8" content
unfolding serve_dashboard bytes read_head trim_cr status_of_line content_length field_of
page-Responds content rest =
    read_message-sized
      (bytes "HTTP/1.1 200 OK\r\nContent-Type: text/html; charset=utf-8\r\nContent-Length: ")
      (bytes "HTTP/1.1 200 OK") (bytes "Content-Type: text/html; charset=utf-8") 200 content rest
      (λ after. refl, refl, λ fields. refl)

no_page-Responds : Responds (serve_dashboard none) 500 "text/plain" (bytes "Dashboard not found")
unfolding serve_dashboard bytes read_head trim_cr status_of_line content_length field_of
no_page-Responds rest =
    read_message-sized
      (bytes "HTTP/1.1 500 Internal Server Error\r\nContent-Type: text/plain\r\nContent-Length: ")
      (bytes "HTTP/1.1 500 Internal Server Error") (bytes "Content-Type: text/plain") 500
      (bytes "Dashboard not found") rest (λ after. refl, refl, λ fields. refl)

-- The raw handlers write exactly one response each, which a client reads back whole, with its status
-- and its fields: the JSON reports and the metrics, the page of the dashboard or that there is none,
-- and a local backend, which answers every first line of three or more parts by its path.
pub raw-Responds :
    ⦃F : Float⦄ (payload content : Bytes) (now : ℕ) (s : Stats) (p : BackendPool)
    (port request method path version : String) (more : List String)
    → split b' ' request ≡ method ∷ path ∷ version ∷ more
    → Responds (serve_json_tcp payload) 200 "application/json" payload
      × Responds (serve_metrics_tcp now s p) 200 "text/plain" (metrics_text now s p)
      × Responds (serve_dashboard (some content)) 200 "text/html; charset=utf-8" content
      × Responds (serve_dashboard none) 500 "text/plain" (bytes "Dashboard not found")
      × ((output : Bytes) × (handle_backend_connection port (some request) ≡ some output)
          × Responds output 200 "text/plain" (bytes (backend_body port path)))
unfolding serve_metrics_tcp handle_backend_connection
raw-Responds payload content now s p port request method path version more e = (
  json-Responds payload,
  plain-Responds (metrics_text now s p),
  page-Responds content,
  no_page-Responds,
  (_, ap (answer_parts port) e, plain-Responds (bytes (backend_body port path))),
)

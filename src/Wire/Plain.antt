-- ===== src/Wire/Plain.antt =====
-- `writePlainResponse`: what it writes is read back.
use mathlib.Core.Path.{ap₂}
use edge_proxy_go.Base.{
  ℕ, ◌≡◌, refl, ap, ◌∙◌, List, [], ◌∷◌, ◌++◌, some, String, arith, All, length, map, Bytes, bytes,
  decimal, Lacks, Lacks-append, lacks→Lacks, decimal-Lacks, append_assoc,
}
use edge_proxy_go.Wire.{header_lines, write_plain_response}
use edge_proxy_go.Wire.Reader.{push, read_head, field_of, content_length, from_head, read_message}
use edge_proxy_go.Wire.Fields.{
  IsClean, line_of, encoded, push_all, read_head-line, read_head-blank, read_head-header_lines,
  fields-header_lines, content_length-headers,
}
use edge_proxy_go.Wire.Messages.{
  length_line, length_line-Lacks, status-line, field_of-length_line, content_length-first,
  from_head-reads,
}

abbrev status_line : ℕ → Bytes → Bytes
status_line n text = bytes "HTTP/1.1 " ++ (decimal n ++ 32 ∷ text)

abbrev plain_line : Bytes
plain_line = bytes "Content-Type: text/plain"

abbrev close_line : Bytes
close_line = bytes "Connection: close"

-- The lines one after the other, each with its end.
plain_bytes :
    (digits text lines size body rest : Bytes)
    → (bytes "HTTP/1.1 "
          ++ (digits
              ++ (bytes " "
                  ++ (text
                      ++ (bytes "\r\n"
                          ++ (bytes "Content-Type: text/plain\r\n"
                              ++ (lines
                                  ++ (bytes "Content-Length: "
                                      ++ (size
                                          ++ (bytes "\r\nConnection: close\r\n\r\n"
                                              ++ body))))))))))
        ++ rest
      ≡ (bytes "HTTP/1.1 " ++ (digits ++ 32 ∷ text))
        ++ (13
            ∷ 10
            ∷ (plain_line
                ++ (13
                    ∷ 10
                    ∷ (lines
                        ++ ((bytes "Content-Length: " ++ size)
                            ++ (13 ∷ 10 ∷ (close_line ++ 13 ∷ 10 ∷ 13 ∷ 10 ∷ (body ++ rest))))))))
plain_bytes digits text lines size body rest = simp append_assoc (unfold bytes in refl)

push_all-some :
    (lines more : List Bytes) (rest : Bytes)
    → push_all lines (some (more, rest)) ≡ some (lines ++ more, rest)
push_all-some [] more rest = refl
push_all-some (line ∷ lines) more rest = ap (push line) (push_all-some lines more rest)

map-append :
    (lines more : List Bytes)
    → map field_of (lines ++ more) ≡ map field_of lines ++ map field_of more
map-append [] more = refl
map-append (line ∷ lines) more = ap (λ fields. field_of line ∷ fields) (map-append lines more)

status_line-Lacks : (n : ℕ) (text : Bytes) → Lacks 10 text → Lacks 10 (status_line n text)
status_line-Lacks n text h =
    Lacks-append 10 (bytes "HTTP/1.1 ") (decimal n ++ 32 ∷ text)
      (lacks→Lacks 10 _ (unfold bytes in refl))
      (Lacks-append 10 (decimal n) (32 ∷ text) (decimal-Lacks n 10 (omega arith)) (refl, h))

-- The last two lines, and the body after them.
read_head-last :
    (n : ℕ) (after : Bytes)
    → read_head [] (length_line n ++ 13 ∷ 10 ∷ (close_line ++ 13 ∷ 10 ∷ 13 ∷ 10 ∷ after))
      ≡ some (length_line n ∷ close_line ∷ [], after)
read_head-last n after =
    read_head-line (length_line n) (close_line ++ 13 ∷ 10 ∷ 13 ∷ 10 ∷ after) (length_line-Lacks n)
      (unfold bytes in refl)
    ∙ ap (push (length_line n)) (
        read_head-line close_line (13 ∷ 10 ∷ after) (lacks→Lacks 10 _ (unfold bytes in refl))
          (unfold bytes in refl)
        ∙ ap (push close_line) (read_head-blank after))

-- All lines.
read_head-plain :
    (n size : ℕ) (text after : Bytes) (headers : List (String × String))
    → Lacks 10 text
    → All IsClean headers
    → read_head [] (
        status_line n text
        ++ (13
            ∷ 10
            ∷ (plain_line
                ++ (13
                    ∷ 10
                    ∷ (header_lines headers
                        ++ (length_line size
                            ++ (13 ∷ 10 ∷ (close_line ++ 13 ∷ 10 ∷ 13 ∷ 10 ∷ after))))))))
      ≡ some (
        status_line n text
            ∷ plain_line
            ∷ (map line_of headers ++ length_line size ∷ close_line ∷ []),
        after,
      )
read_head-plain n size text after headers h clean =
    read_head-line (status_line n text) _ (status_line-Lacks n text h) (unfold bytes in refl)
    ∙ ap (push (status_line n text)) (
        read_head-line plain_line _ (lacks→Lacks 10 _ (unfold bytes in refl)) (unfold bytes in refl)
        ∙ ap (push plain_line) (
            read_head-header_lines headers _ clean
            ∙ ap (push_all (map line_of headers)) (read_head-last size after)
            ∙ push_all-some (map line_of headers) (length_line size ∷ close_line ∷ []) after))

-- Their fields.
abbrev pub plain_fields : List (String × String) → ℕ → List (Bytes × Bytes)
plain_fields headers size =
    (bytes "Content-Type", bytes "text/plain")
    ∷ (map encoded headers
        ++ (bytes "Content-Length", decimal size) ∷ (bytes "Connection", bytes "close") ∷ [])

plain_field : field_of plain_line ≡ (bytes "Content-Type", bytes "text/plain")
unfolding field_of bytes
plain_field = refl

close_field : field_of close_line ≡ (bytes "Connection", bytes "close")
unfolding field_of bytes
close_field = refl

content_length-plain_field :
    (fields : List (Bytes × Bytes))
    → content_length ((bytes "Content-Type", bytes "text/plain") ∷ fields) ≡ content_length fields
unfolding content_length bytes
content_length-plain_field fields = refl

fields-plain :
    (headers : List (String × String)) (size : ℕ)
    → All IsClean headers
    → map field_of (plain_line ∷ (map line_of headers ++ length_line size ∷ close_line ∷ []))
      ≡ plain_fields headers size
fields-plain headers size clean = ap₂ ◌∷◌ plain_field (
    map-append (map line_of headers) (length_line size ∷ close_line ∷ [])
    ∙ ap₂ ◌++◌ (fields-header_lines headers clean)
        (ap₂ (λ x y. x ∷ y ∷ []) (field_of-length_line size) close_field))

content_length-plain :
    (headers : List (String × String)) (size : ℕ)
    → All IsClean headers
    → content_length (plain_fields headers size) ≡ some size
content_length-plain headers size clean =
    content_length-plain_field (map encoded headers ++ _)
    ∙ content_length-headers headers _ clean
    ∙ content_length-first size _

-- What `writePlainResponse` writes is one response, and a client reads it back: the status, the body,
-- and all the headers in their order, whatever comes after it on the connection. The text of the
-- status has no line feed, and the headers neither; their names have no colon and are not
-- Content-Length.
pub read-write_plain_response :
    (status_text : ℕ → String) (status : ℕ) (body : String) (headers : List (String × String))
    (rest : Bytes)
    → Lacks 10 (bytes (status_text status))
    → All IsClean headers
    → read_message (write_plain_response status_text status body headers ++ rest)
      ≡ some record {
        status = status;
        fields = plain_fields headers (length (bytes body));
        body = bytes body;
        rest = rest;
      }
unfolding write_plain_response read_message
read-write_plain_response status_text status body headers rest h clean =
    let size = length (bytes body) in
    let text = bytes (status_text status) in
    ap (λ input. from_head (read_head [] input))
      (plain_bytes (decimal status) text (header_lines headers) (decimal size) (bytes body) rest)
    ∙ ap from_head (read_head-plain status size text (bytes body ++ rest) headers h clean)
    ∙ from_head-reads (status_line status text)
        (plain_line ∷ (map line_of headers ++ length_line size ∷ close_line ∷ [])) _ status
        (bytes body) rest (status-line status text) (fields-plain headers size clean)
        (content_length-plain headers size clean)

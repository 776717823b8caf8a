-- ===== src/Wire/Fields.antt =====
-- Reading the lines and the fields of a response.
use mathlib.Core.Path.{ap₂}
use edge_proxy_go.Base.{
  ℕ, ◌≡◌, refl, ap, sym, ◌∙◌, false, List, [], ◌∷◌, ◌++◌, Option, some, String, arith, All, Bytes,
  bytes, Lacks, Lacks-append, append_assoc, append-nil, map,
}
use edge_proxy_go.Wire.{header_lines}
use edge_proxy_go.Wire.Reader.{
  trim_cr, is_empty, push, read_head, cut, skip_space, field_of, same_bytes, content_length,
}

trim_cr-append : (line : Bytes) → trim_cr (line ++ 13 ∷ []) ≡ line
unfolding trim_cr
trim_cr-append [] = refl
trim_cr-append (c ∷ []) = refl
trim_cr-append (c ∷ d ∷ line) = ap (λ l. c ∷ l) (trim_cr-append (d ∷ line))

-- A text without a line feed is taken into the line.
pub read_head-text :
    (line l rest : Bytes) → Lacks 10 l → read_head line (l ++ rest) ≡ read_head (line ++ l) rest
unfolding read_head
read_head-text line [] rest h = ap (λ x. read_head x rest) (sym (append-nil line))
read_head-text line (c ∷ l) rest (e, h) = rw e (
    read_head-text (line ++ c ∷ []) l rest h
    ∙ ap (λ x. read_head x rest) (append_assoc line (c ∷ []) l))

-- A line that is not empty ends at its line feed.
pub read_head-end :
    (line rest : Bytes)
    → is_empty line ≡ false
    → read_head line (13 ∷ 10 ∷ rest) ≡ push line (read_head [] rest)
unfolding read_head
read_head-end line rest h = rw (trim_cr-append line, h) refl

pub read_head-blank : (rest : Bytes) → read_head [] (13 ∷ 10 ∷ rest) ≡ some ([], rest)
unfolding read_head trim_cr
read_head-blank rest = refl

pub cut-append : (b : ℕ) (l rest : Bytes) → Lacks b l → cut b (l ++ b ∷ rest) ≡ (l, rest)
unfolding cut
cut-append b [] rest h = ground arith
cut-append b (c ∷ l) rest (e, h) = rw (e, cut-append b l rest h) refl

-- A header that can be read back: no line feed in it, no colon in its name, and a name of its own.
pub record IsClean (header : String × String) : Type 0 where
  pub name_in_line : Lacks 10 (bytes header.0)
  pub name : Lacks b':' (bytes header.0)
  pub value : Lacks 10 (bytes header.1)
  pub own : same_bytes (bytes header.0) (bytes "Content-Length") ≡ false

abbrev pub line_of : String × String → Bytes
line_of (key, value) = bytes key ++ b':' ∷ 32 ∷ bytes value

abbrev pub encoded : String × String → Bytes × Bytes
encoded (key, value) = (bytes key, bytes value)

abbrev pub push_all : List Bytes → Option (List Bytes × Bytes) → Option (List Bytes × Bytes)
push_all [] o = o
push_all (line ∷ lines) o = push line (push_all lines o)

is_empty-append : (l : Bytes) (c : ℕ) (rest : Bytes) → is_empty (l ++ c ∷ rest) ≡ false
is_empty-append [] c rest = refl
is_empty-append (d ∷ l) c rest = refl

-- The name and the value of a field are read back.
pub field_of-field :
    (key value : Bytes) → Lacks b':' key → field_of (key ++ b':' ∷ 32 ∷ value) ≡ (key, value)
unfolding field_of skip_space
field_of-field key value h = rw (cut-append b':' key (32 ∷ value) h) refl

pub read_head-line :
    (line rest : Bytes)
    → Lacks 10 line
    → is_empty line ≡ false
    → read_head [] (line ++ 13 ∷ 10 ∷ rest) ≡ push line (read_head [] rest)
read_head-line line rest h e = read_head-text [] line (13 ∷ 10 ∷ rest) h ∙ read_head-end line rest e

-- A field is one line.
read_head-field :
    (key value rest : Bytes)
    → Lacks 10 key
    → Lacks 10 value
    → read_head [] (key ++ (b':' ∷ 32 ∷ (value ++ 13 ∷ 10 ∷ rest)))
      ≡ push (key ++ b':' ∷ 32 ∷ value) (read_head [] rest)
read_head-field key value rest h k =
    let line = key ++ b':' ∷ 32 ∷ value in
    ap (read_head []) (sym (append_assoc key (b':' ∷ 32 ∷ value) (13 ∷ 10 ∷ rest)))
    ∙ read_head-line line rest (Lacks-append 10 key (b':' ∷ 32 ∷ value) h (refl, (refl, k)))
        (is_empty-append key b':' (32 ∷ value))

-- The bytes of a header's line, and of the lines of all, after which `rest` comes.
line_bytes :
    (key value : String) (lines rest : Bytes)
    → (bytes key ++ (bytes ": " ++ (bytes value ++ (bytes "\r\n" ++ lines)))) ++ rest
      ≡ bytes key ++ (b':' ∷ 32 ∷ (bytes value ++ 13 ∷ 10 ∷ (lines ++ rest)))
line_bytes key value lines rest = simp append_assoc (unfold bytes in refl)

-- The header lines are read as one line for each header.
pub read_head-header_lines :
    (headers : List (String × String)) (rest : Bytes)
    → All IsClean headers
    → read_head [] (header_lines headers ++ rest)
      ≡ push_all (map line_of headers) (read_head [] rest)
unfolding header_lines
read_head-header_lines [] rest h = refl
read_head-header_lines ((key, value) ∷ headers) rest (clean, h) =
    ap (read_head []) (line_bytes key value (header_lines headers) rest)
    ∙ read_head-field (bytes key) (bytes value) (header_lines headers ++ rest) clean.name_in_line
        clean.value
    ∙ ap (push (bytes key ++ b':' ∷ 32 ∷ bytes value)) (read_head-header_lines headers rest h)

-- Each of those lines is read as its header.
pub fields-header_lines :
    (headers : List (String × String))
    → All IsClean headers
    → map field_of (map line_of headers) ≡ map encoded headers
fields-header_lines [] h = refl
fields-header_lines ((key, value) ∷ headers) (clean, h) =
    ap₂ ◌∷◌ (field_of-field (bytes key) (bytes value) clean.name) (fields-header_lines headers h)

-- None of them is taken for the length.
pub content_length-headers :
    (headers : List (String × String)) (fields : List (Bytes × Bytes))
    → All IsClean headers
    → content_length (map encoded headers ++ fields) ≡ content_length fields
unfolding content_length
content_length-headers [] fields h = refl
content_length-headers ((key, value) ∷ headers) fields (clean, h) =
    rw clean.own (content_length-headers headers fields h)

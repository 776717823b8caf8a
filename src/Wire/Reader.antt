-- ===== src/Wire/Reader.antt =====
-- A client's reading of an HTTP response, after RFC 9112 and independent of the code: a status line,
-- fields up to an empty line, and as many bytes of a body as the field Content-Length says.
use edge_proxy_go.Base.{
  ℕ, Bool, true, false, ◌&&◌, List, [], ◌∷◌, ◌++◌, Option, none, some, length, take, drop, leb,
  ◌==◌, if◌then◌else◌, Bytes, bytes, number_from, map,
}

pub record Message : Type 0 where
  pub status : ℕ
  pub fields : List (Bytes × Bytes)
  pub body : Bytes
  pub rest : Bytes

-- A line without the carriage return before its end.
unfoldable pub trim_cr : Bytes → Bytes
trim_cr [] = []
trim_cr (c ∷ []) = if c == 13 then [] else c ∷ []
trim_cr (c ∷ d ∷ cs) = c ∷ trim_cr (d ∷ cs)

abbrev pub is_empty : Bytes → Bool
is_empty [] = true
is_empty (c ∷ cs) = false

abbrev pub push : Bytes → Option (List Bytes × Bytes) → Option (List Bytes × Bytes)
push line none = none
push line (some (lines, rest)) = some (line ∷ lines, rest)

-- The lines up to the empty one, and what comes after it; `line` is what was read of the first.
unfoldable pub read_head : Bytes → Bytes → Option (List Bytes × Bytes)
read_head line [] = none
read_head line (c ∷ cs) =
    let more = read_head (line ++ c ∷ []) cs in
    let next = push (trim_cr line) (read_head [] cs) in
    if c == 10 then if is_empty (trim_cr line) then some ([], cs) else next else more

-- What stands before the first `b`, and after it.
unfoldable pub cut : ℕ → Bytes → Bytes × Bytes
cut b [] = ([], [])
cut b (c ∷ cs) = let (x, y) = cut b cs in if c == b then ([], cs) else (c ∷ x, y)

unfoldable pub skip_space : Bytes → Bytes
skip_space [] = []
skip_space (c ∷ cs) = if c == 32 then cs else c ∷ cs

unfoldable pub field_of : Bytes → Bytes × Bytes
unfolding cut skip_space
field_of line = let (name, value) = cut b':' line in (name, skip_space value)

-- The number after the first space of the status line.
unfoldable pub status_of_line : Bytes → Option ℕ
unfolding cut number_from
status_of_line line = number_from 0 (cut 32 (cut 32 line).1).0

unfoldable pub same_bytes : Bytes → Bytes → Bool
same_bytes [] [] = true
same_bytes (c ∷ cs) (d ∷ ds) = c == d && same_bytes cs ds
same_bytes _ _ = false

-- The first Content-Length.
unfoldable pub content_length : List (Bytes × Bytes) → Option ℕ
unfolding same_bytes number_from
content_length [] = none
content_length ((name, value) ∷ fields) =
    if same_bytes name (bytes "Content-Length") then number_from 0 value else content_length fields

abbrev pub message_of : Option ℕ → Option ℕ → List (Bytes × Bytes) → Bytes → Option Message
message_of (some status) (some n) fields after =
    if leb n (length after)
    then some record { status = status; fields = fields; body = take n after; rest = drop n after }
    else none
message_of _ _ fields after = none

abbrev pub from_head : Option (List Bytes × Bytes) → Option Message
from_head (some (line ∷ lines, after)) =
    let fields = map field_of lines in
    message_of (status_of_line line) (content_length fields) fields after
from_head _ = none

unfoldable pub read_message : Bytes → Option Message
unfolding read_head trim_cr field_of status_of_line content_length
read_message input = from_head (read_head [] input)

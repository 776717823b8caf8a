-- ===== src/Wire/Messages.antt =====
-- Messages, status lines and lengths, as a client reads them.
use edge_proxy_go.Base.{
  ℕ, ◌≡◌, refl, ap, true, List, [], ◌∷◌, ◌++◌, some, arith, length, take, drop, leb, map, Bytes,
  bytes, decimal, Lacks, Lacks-append, lacks→Lacks, decimal-Lacks, number_from-decimal,
  length-append,
}
use edge_proxy_go.Wire.Reader.{field_of, status_of_line, content_length, message_of, from_head}
use edge_proxy_go.Wire.Fields.{cut-append}

take-append {ℓ} : {A : Type ℓ} (xs ys : List A) → take (length xs) (xs ++ ys) ≡ xs
take-append [] ys = refl
take-append (x ∷ xs) ys = ap (λ l. x ∷ l) (take-append xs ys)

drop-append {ℓ} : {A : Type ℓ} (xs ys : List A) → drop (length xs) (xs ++ ys) ≡ ys
drop-append [] ys = refl
drop-append (x ∷ xs) ys = drop-append xs ys

leb-append {ℓ} : {A : Type ℓ} (xs ys : List A) → leb (length xs) (length (xs ++ ys)) ≡ true
leb-append xs ys = ground (arith, length-append xs ys)

-- A message whose length is that of its body.
message_of-body :
    (status : ℕ) (fields : List (Bytes × Bytes)) (body rest : Bytes)
    → message_of (some status) (some (length body)) fields (body ++ rest)
      ≡ some record { status = status; fields = fields; body = body; rest = rest }
message_of-body status fields body rest =
    rw (leb-append body rest, take-append body rest, drop-append body rest) refl

-- A message from what was read of its lines.
pub from_head-reads :
    (line : Bytes) (lines : List Bytes) (fields : List (Bytes × Bytes)) (status : ℕ)
    (body rest : Bytes)
    → status_of_line line ≡ some status
    → map field_of lines ≡ fields
    → content_length fields ≡ some (length body)
    → from_head (some (line ∷ lines, body ++ rest))
      ≡ some record { status = status; fields = fields; body = body; rest = rest }
from_head-reads line lines fields status body rest e f g =
    rw (e, f, g) (message_of-body status fields body rest)

-- The status of a status line.
pub status-line :
    (n : ℕ) (text : Bytes) → status_of_line (bytes "HTTP/1.1 " ++ (decimal n ++ 32 ∷ text)) ≡ some n
unfolding status_of_line bytes
status-line n text =
    rw (cut-append 32 (decimal n) text (decimal-Lacks n 32 (omega arith)), number_from-decimal n)
      refl

-- The line and the field of a length.
abbrev pub length_line : ℕ → Bytes
length_line n = bytes "Content-Length: " ++ decimal n

pub field_of-length_line : (n : ℕ) → field_of (length_line n) ≡ (bytes "Content-Length", decimal n)
unfolding field_of bytes
field_of-length_line n = refl

pub content_length-first :
    (n : ℕ) (fields : List (Bytes × Bytes))
    → content_length ((bytes "Content-Length", decimal n) ∷ fields) ≡ some n
unfolding content_length bytes
content_length-first n fields = number_from-decimal n

pub length_line-Lacks : (n : ℕ) → Lacks 10 (length_line n)
length_line-Lacks n =
    Lacks-append 10 (bytes "Content-Length: ") (decimal n) (lacks→Lacks 10 _ (unfold bytes in refl))
      (decimal-Lacks n 10 (omega arith))

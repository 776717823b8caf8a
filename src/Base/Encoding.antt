-- ===== src/Base/Encoding.antt =====
-- Bytes on a connection: the UTF-8 bytes of a text, which a Go string is made of, and the decimal
-- digits that `%d` prints.
use Prim.Native.Nat.{ℕ, zero, suc, ◌+◌, ◌-◌, ◌*◌, ◌/◌, ◌%◌, ◌<◌}
use Prim.Native.Char.{code}
use Prim.Native.String.{String}
use mathlib.Core.Path.{◌≡◌, ◌∙◌}
use mathlib.Core.Logic.{inl, inr}
use mathlib.Core.Bool.{Bool, true, false, ◌&&◌}
use mathlib.Core.Option.{Option, none, some}
use mathlib.Core.List.{List, [], ◌∷◌, ◌++◌}
use native.Mathlib.Omega.{arith}
use edge_proxy_go.Base.Tests.{ltb, leb, ◌==◌, if◌then◌else◌, Bool-cases}
use edge_proxy_go.Base.Lists.{All}

abbrev pub Bytes : Type 0
Bytes = List ℕ

utf8 : ℕ → Bytes
utf8 n =
    if ltb n 0x80
    then n ∷ []
    else if ltb n 0x800
    then (0xc0 + n / 64) ∷ (0x80 + n % 64) ∷ []
    else if ltb n 0x10000
    then (0xe0 + n / 4096) ∷ (0x80 + n / 64 % 64) ∷ (0x80 + n % 64) ∷ []
    else (0xf0 + n / 262144) ∷ (0x80 + n / 4096 % 64) ∷ (0x80 + n / 64 % 64) ∷ (0x80 + n % 64) ∷ []

unfoldable pub bytes : String → Bytes
unfolding utf8
bytes String.[] = []
bytes (String.◌∷◌ c s) = utf8 (code c) ++ bytes s

-- The digits of a number, with fuel above it.
digits : ℕ → ℕ → Bytes
digits zero n = []
digits (suc fuel) n =
    let rest = digits fuel (n / 10) in
    if ltb n 10 then (b'0' + n) ∷ [] else rest ++ (b'0' + n % 10) ∷ []

unfoldable pub decimal : ℕ → Bytes
unfolding digits
decimal n = digits (suc n) n

-- What the digits of a text stand for, after `acc`.
unfoldable pub number_from : ℕ → Bytes → Option ℕ
number_from acc [] = some acc
number_from acc (c ∷ cs) =
    let rest = number_from (acc * 10 + (c - b'0')) cs in
    if leb b'0' c && leb c b'9' then rest else none

number_from-append :
    (acc m : ℕ) (xs ys : Bytes)
    → number_from acc xs ≡ some m
    → number_from acc (xs ++ ys) ≡ number_from m ys
unfolding number_from
number_from-append acc m [] ys h = ground arith
number_from-append acc m (x ∷ xs) ys h =
    ground (arith, number_from-append (acc * 10 + (x - b'0')) m xs ys)

number_from_digit : (n : ℕ) → number_from (n / 10) ((b'0' + n % 10) ∷ []) ≡ some n
unfolding number_from
number_from_digit n = ground arith

number_from-digits : (fuel n : ℕ) → n < fuel → number_from 0 (digits fuel n) ≡ some n
unfolding digits
number_from-digits zero n h = absurd (omega arith)
number_from-digits (suc fuel) n h = elim (Bool-cases (ltb n 10)) [
  | inl small ↦ rw small (unfold number_from in ground arith)
  | inr big ↦ rw big (
      number_from-append 0 (n / 10) (digits fuel (n / 10)) ((b'0' + n % 10) ∷ [])
        (number_from-digits fuel (n / 10) (ground arith))
      ∙ number_from_digit n)
]

-- What is printed is read back.
pub number_from-decimal : (n : ℕ) → number_from 0 (decimal n) ≡ some n
unfolding decimal
number_from-decimal n = number_from-digits (suc n) n (omega arith)

-- A byte that a text does not have.
abbrev pub Lacks : ℕ → Bytes → Type 0
Lacks b = All λ c. (c == b) ≡ false

pub Lacks-append : (b : ℕ) (xs ys : Bytes) → Lacks b xs → Lacks b ys → Lacks b (xs ++ ys)
Lacks-append b [] ys h k = k
Lacks-append b (x ∷ xs) ys (e, h) k = (e, Lacks-append b xs ys h k)

digits-Lacks :
    (fuel n b : ℕ) → ((d : ℕ) → d < 10 → (b'0' + d == b) ≡ false) → Lacks b (digits fuel n)
unfolding digits
digits-Lacks zero n b h = tt
digits-Lacks (suc fuel) n b h = elim (Bool-cases (ltb n 10)) [
  | inl small ↦ rw small (h n (ground arith), tt)
  | inr big ↦ rw big (
      Lacks-append b (digits fuel (n / 10)) ((b'0' + n % 10) ∷ []) (digits-Lacks fuel (n / 10) b h)
        (h (n % 10) (omega arith), tt))
]

-- Digits have no byte below that of 0.
pub decimal-Lacks : (n b : ℕ) → b < b'0' → Lacks b (decimal n)
unfolding decimal
decimal-Lacks n b h = digits-Lacks (suc n) n b (λ d less. ground arith)

abbrev pub lacks : ℕ → Bytes → Bool
lacks b [] = true
lacks b (c ∷ cs) = if c == b then false else lacks b cs

pub lacks→Lacks : (b : ℕ) (cs : Bytes) → lacks b cs ≡ true → Lacks b cs
lacks→Lacks b [] h = tt
lacks→Lacks b (c ∷ cs) h = elim (Bool-cases (c == b)) [
  | inl e ↦ cc (rw e at h)
  | inr e ↦ (e, lacks→Lacks b cs (rw e at h))
]

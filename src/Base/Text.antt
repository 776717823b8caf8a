-- ===== src/Base/Text.antt =====
-- What the source uses of Go's `strings` and `strconv`, over texts of Unicode characters: a Go
-- string that is not valid UTF-8 is not modelled. Case is folded for the ASCII letters, which is all
-- that the fixed words the source compares with are made of.
use Prim.Native.Nat.{ℕ, zero, suc, ◌+◌, ◌-◌, ◌*◌, ◌^◌}
use Prim.Native.Char.{Char, code}
use Prim.Native.String.{String, []}
use mathlib.Core.Bool.{Bool, false, ◌&&◌, ◌||◌}
use mathlib.Core.Option.{Option, none, some}
use mathlib.Core.List.{List, ◌∷◌}
use edge_proxy_go.Base.Int.{ℤ, pos, negsuc}
use edge_proxy_go.Base.Tests.{ltb, leb, ◌==◌, ◌==ₛ◌, if◌then◌else◌}

-- `unicode.IsSpace`
pub is_space : Char → Bool
is_space ch =
    let c = code ch in
    (leb 9 c && leb c 13)
    || c == 32
    || c == 0x85
    || c == 0xa0
    || c == 0x1680
    || (leb 0x2000 c && leb c 0x200a)
    || c == 0x2028
    || c == 0x2029
    || c == 0x202f
    || c == 0x205f
    || c == 0x3000

unfoldable pub trim_left : String → String
unfolding is_space
trim_left [] = []
trim_left (String.◌∷◌ c s) = let rest = trim_left s in if is_space c then rest else String.◌∷◌ c s

-- A space with nothing but spaces after it is dropped.
unfoldable pub trim_right : String → String
unfolding is_space
trim_right [] = []
trim_right (String.◌∷◌ c s) =
    let rest = trim_right s in if rest ==ₛ "" && is_space c then "" else String.◌∷◌ c rest

-- `strings.TrimSpace`
unfoldable pub trim_space : String → String
unfolding trim_left trim_right
trim_space s = trim_left (trim_right s)

-- `strings.TrimSpace(s) == ""`
abbrev pub is_blank : String → Bool
is_blank s = trim_space s ==ₛ ""

char_or : String → ℕ → Char → Char
char_or [] i default = default
char_or (String.◌∷◌ c s) zero default = c
char_or (String.◌∷◌ c s) (suc i) default = char_or s i default

lower : Char → Char
unfolding char_or
lower c =
    if leb b'A' (code c) && leb (code c) b'Z'
    then char_or "abcdefghijklmnopqrstuvwxyz" (code c - b'A') c
    else c

-- `strings.ToLower`
unfoldable pub to_lower : String → String
unfolding lower
to_lower [] = []
to_lower (String.◌∷◌ c s) = String.◌∷◌ (lower c) (to_lower s)

-- `strings.EqualFold`
unfoldable pub equal_fold : String → String → Bool
equal_fold a b = to_lower a ==ₛ to_lower b

-- `strings.Contains(s, ":")`
unfoldable pub has_colon : String → Bool
has_colon [] = false
has_colon (String.◌∷◌ c s) = code c == b':' || has_colon s

prepend : Char → List String → List String
prepend c List.[] = String.◌∷◌ c "" ∷ List.[]
prepend c (s ∷ ss) = String.◌∷◌ c s ∷ ss

-- `strings.Split` at an ASCII character, given by its code.
unfoldable pub split : ℕ → String → List String
unfolding prepend
split sep [] = "" ∷ List.[]
split sep (String.◌∷◌ c s) = if code c == sep then "" ∷ split sep s else prepend c (split sep s)

-- `strings.SplitN(s, sep, 2)`: the text up to the first `sep` and, if there is one, the text after.
unfoldable pub split_once : ℕ → String → String × Option String
split_once sep [] = ("", none)
split_once sep (String.◌∷◌ c s) =
    let (a, b) = split_once sep s in if code c == sep then ("", some s) else (String.◌∷◌ c a, b)

digits : ℕ → String → Option ℕ
digits acc [] = some acc
digits acc (String.◌∷◌ c s) =
    let rest = digits (acc * 10 + (code c - b'0')) s in
    if leb b'0' (code c) && leb (code c) b'9' then rest else none

digits_of : String → Option ℕ
unfolding digits
digits_of [] = none
digits_of (String.◌∷◌ c s) = digits 0 (String.◌∷◌ c s)

positive : Option ℕ → Option ℤ
positive none = none
positive (some n) = if ltb n (2 ^ 63) then some (pos n) else none

negative : Option ℕ → Option ℤ
negative none = none
negative (some zero) = some (pos 0)
negative (some (suc n)) = if ltb n (2 ^ 63) then some (negsuc n) else none

-- `strconv.Atoi`: an optional sign and digits, in the range of an `int64`.
unfoldable pub atoi : String → Option ℤ
unfolding digits_of positive negative
atoi [] = none
atoi (String.◌∷◌ c s) =
    if code c == b'-'
    then negative (digits_of s)
    else if code c == b'+'
    then positive (digits_of s)
    else positive (digits_of (String.◌∷◌ c s))

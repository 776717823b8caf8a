-- ===== src/Base/Floats.antt =====
-- Go's `float64`, which the proxy computes scores and rates with. There are no floats to compute
-- with here, so the type and the operations that the source uses are a parameter, an instance
-- argument of the definitions that use it. Theorems that need a law of IEEE 754 take it by name.
use Prim.Native.String.{String}
use mathlib.Core.Option.{Option}
use mathlib.Core.Path.{◌≡◌}
use mathlib.Core.Bool.{Bool, true, false}
use edge_proxy_go.Base.Int.{ℤ, pos}

pub record Float : Type 1 where
  pub Num : Type 0
  -- `float64(n)` for an `int`
  pub of_int : ℤ → Num
  pub add : Num → Num → Num
  pub sub : Num → Num → Num
  pub mul : Num → Num → Num
  pub div : Num → Num → Num
  -- a < b, a <= b and a == b: false if a side is a NaN
  pub lt : Num → Num → Bool
  pub le : Num → Num → Bool
  pub eq : Num → Num → Bool
  -- `int(math.Ceil(x))`
  pub ceil : Num → ℤ
  -- `strconv.ParseFloat(s, 64)`: `none` for an error
  pub parse : String → Option Num
  -- `math.Max`, `math.Min` and `math.Round`
  pub max : Num → Num → Num
  pub min : Num → Num → Num
  pub round : Num → Num
  -- `int(x)`
  pub trunc : Num → ℤ
  -- the constants 0.001, 0.3 and 0.7
  pub milli : Num
  pub three_tenths : Num
  pub seven_tenths : Num

-- What IEEE 754 says of `<` and `==`, and of adding the constant 0.001. A number is a value that
-- is equal to itself; every other value is a NaN.
pub record IsOrdered (F : Float) : Type 0 where
  pub lt_asym : (a b : F.Num) → F.lt a b ≡ true → F.lt b a ≡ false
  pub eq_lt : (a b : F.Num) → F.eq a b ≡ true → F.lt a b ≡ false
  pub eq_sym : (a b : F.Num) → F.eq a b ≡ true → F.eq b a ≡ true
  pub not_lt_trans :
      (a b c : F.Num) → F.eq b b ≡ true → F.lt b a ≡ false → F.lt c b ≡ false → F.lt c a ≡ false
  pub milli_up : (a : F.Num) → F.lt (F.add a F.milli) a ≡ false
  pub milli_mono :
      (a b : F.Num) → F.lt b a ≡ false → F.lt (F.add b F.milli) (F.add a F.milli) ≡ false
  pub milli_number : (a : F.Num) → F.eq a a ≡ true → F.eq (F.add a F.milli) (F.add a F.milli) ≡ true

-- What IEEE 754 says of the constants 0 and 1.
pub record HasUnits (F : Float) : Type 0 where
  pub one_not_le_0 : F.le (F.of_int (pos 1)) (F.of_int (pos 0)) ≡ false
  pub one_not_lt_1 : F.lt (F.of_int (pos 1)) (F.of_int (pos 1)) ≡ false
  pub zero_lt_1 : F.lt (F.of_int (pos 0)) (F.of_int (pos 1)) ≡ true
  pub lt_1_of_le_0 :
      (x : F.Num) → F.le x (F.of_int (pos 0)) ≡ true → F.lt x (F.of_int (pos 1)) ≡ true
  pub not_le_0_of_gt_0 :
      (x : F.Num) → F.lt (F.of_int (pos 0)) x ≡ true → F.le x (F.of_int (pos 0)) ≡ false

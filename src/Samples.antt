-- ===== src/Samples.antt =====
-- Values that the tests of several modules run on: a `Float` in thousandths, which meets the laws
-- that theorems ask for.
use edge_proxy_go.Base.{
  ℕ, ◌+◌, ◌*◌, ◌/◌, ℤ, pos, negsuc, ◌+ℤ◌, ◌-ℤ◌, leb_ℤ, ◌≡◌, refl, true, not, ◌&&◌, Float, IsOrdered,
  HasUnits, arith, atoi, if◌then◌else◌,
}
use mathlib.Core.Option

-- Floats for the runs: integers that count thousandths.
abbrev pub over : ℤ → ℕ → ℤ
over (pos n) m = pos (n / m)
over (negsuc n) m = negsuc (n / m)

abbrev pub pos_or_one : ℤ → ℕ
pos_or_one (pos n) = n
pos_or_one (negsuc n) = 1

abbrev pub thousandths_mul : ℤ → ℤ → ℤ
thousandths_mul (pos a) (pos b) = pos (a * b / 1000)
thousandths_mul _ _ = pos 0

abbrev pub thousandths_div : ℤ → ℤ → ℤ
thousandths_div (pos a) (pos b) = pos (a * 1000 / b)
thousandths_div _ _ = pos 0

abbrev pub scale : ℤ → ℤ
scale (pos n) = pos (n * 1000)
scale (negsuc n) = negsuc (n * 1000 + 999)

abbrev pub ceil : ℤ → ℤ
ceil (pos n) = pos ((n + 999) / 1000)
ceil (negsuc n) = pos 0

abbrev pub rounded : ℤ → ℤ
rounded (pos n) = pos ((n + 500) / 1000 * 1000)
rounded (negsuc n) = negsuc n

instance abbrev pub thousandths : Float
thousandths = record {
  Num = ℤ;
  of_int = scale;
  add = ◌+ℤ◌;
  sub = ◌-ℤ◌;
  mul = thousandths_mul;
  div = thousandths_div;
  lt = λ a b. not (leb_ℤ b a);
  le = leb_ℤ;
  eq = λ a b. leb_ℤ a b && leb_ℤ b a;
  ceil = ceil;
  parse = λ s. Option.map scale (atoi s);
  max = λ a b. if leb_ℤ a b then b else a;
  min = λ a b. if leb_ℤ a b then a else b;
  round = rounded;
  trunc = λ a. over a 1000;
  milli = pos 1;
  three_tenths = pos 300;
  seven_tenths = pos 700;
}

pub thousandths-IsOrdered : IsOrdered thousandths
unfolding ◌+ℤ◌ ◌-ℤ◌
thousandths-IsOrdered = record {
  lt_asym = λ a b h. ground arith;
  eq_lt = λ a b h. ground arith;
  eq_sym = λ a b h. ground arith;
  not_lt_trans = λ a b c n h k. ground arith;
  milli_up = λ a. ground arith;
  milli_mono = λ a b h. ground arith;
  milli_number = λ a h. ground arith;
}

pub thousandths_number : (a : ℤ) → thousandths.eq a a ≡ true
thousandths_number a = ground arith

pub thousandths-HasUnits : HasUnits thousandths
thousandths-HasUnits = record {
  one_not_le_0 = refl;
  one_not_lt_1 = refl;
  zero_lt_1 = refl;
  lt_1_of_le_0 = λ x h. ground arith;
  not_le_0_of_gt_0 = λ x h. ground arith;
}

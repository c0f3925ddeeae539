-- ===== src/Double/Whole.antt =====
-- Whole numbers in the place of `double`, for tests.
use dragonradio.Prelude.{ℕ, refl, ◌+◌, ◌-◌, ◌*◌, ◌/◌, ltb, ◌==◌, arith}
use dragonradio.Double.{Doubles, Exact}

abbrev pub whole : Doubles
whole = record {
  Carrier = ℕ;
  of_nat = λ n. n;
  to_size = λ x. x;
  of_bits = λ n. n;
  plus = λ a b. a + b;
  minus = λ a b. a - b;
  times = λ a b. a * b;
  divide = λ a b. a / b;
  less = ltb;
  equal = ◌==◌;
}

pub whole-Exact : Exact whole
whole-Exact = record { plus-of_nat = λ a b h. refl; minus-of_nat = λ a b h. omega arith }

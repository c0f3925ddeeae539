-- ===== src/Double.antt =====
-- The arithmetic of `double` that the code uses, as an interface: the C++ type is no part of the
-- repository. `Exact` is what IEEE 754 says of whole numbers that the type holds exactly.
pub mod Whole
use dragonradio.Prelude.{ℕ, ◌+◌, ◌≤◌, ◌<◌, ◌≡◌, Bool}

pub record Doubles : Type 1 where
  pub Carrier : Type 0
  pub of_nat : ℕ → Carrier
  pub to_size : Carrier → ℕ
  pub of_bits : ℕ → Carrier
  pub plus : Carrier → Carrier → Carrier
  pub minus : Carrier → Carrier → Carrier
  pub times : Carrier → Carrier → Carrier
  pub divide : Carrier → Carrier → Carrier
  pub less : Carrier → Carrier → Bool
  pub equal : Carrier → Carrier → Bool

-- Sums and differences of whole numbers below 2^53 are exact.
pub record Exact (ds : Doubles) : Type 0 where
  pub plus-of_nat :
      (a b : ℕ) → a + b < 9007199254740992 → ds.plus (ds.of_nat a) (ds.of_nat b) ≡ ds.of_nat (a + b)
  pub minus-of_nat :
      (a b : ℕ)
      → a + b < 9007199254740992
      → ds.minus (ds.of_nat (a + b)) (ds.of_nat a) ≡ ds.of_nat b

-- ===== src/Estimator/Ema.antt =====
-- `EMA`: a mean of the first samples, then an exponentially weighted average. Its counter is an
-- `unsigned` of 32 bits.
use dragonradio.Prelude.{ℕ, ◌+◌, ◌%◌, if◌then◌else◌, ◌==◌, ltb}
use dragonradio.Double.{Doubles}

pub record Ema (A : Type 0) : Type 0 where
  pub value : A
  pub nsamples : ℕ
  pub mean_until : ℕ
  pub alpha : A

module _ (ds : Doubles) where
  -- The constructors: without an initial value it is 0, and `mean_until` too.
  unfoldable pub new_ema : ds.Carrier → ds.Carrier → ℕ → Ema ds.Carrier
  new_ema alpha x mean_until = record {
    value = x;
    nsamples = 0;
    mean_until = mean_until;
    alpha = alpha;
  }

  unfoldable pub reset : ds.Carrier → Ema ds.Carrier → Ema ds.Carrier
  reset x e = record e { value = x; nsamples = 0 }

  unfoldable pub update : ds.Carrier → Ema ds.Carrier → Ema ds.Carrier
  update x e =
      if e.nsamples == 0
      then record e { value = x; nsamples = 1 }
      else if ltb e.nsamples e.mean_until
      then record e {
        value =
            ds.divide (ds.plus (ds.times e.value (ds.of_nat e.nsamples)) x)
              (ds.of_nat ((e.nsamples + 1) % 4294967296));
        nsamples = (e.nsamples + 1) % 4294967296;
      }
      else record e {
        value = ds.plus e.value (ds.times e.alpha (ds.minus x e.value));
        nsamples = (e.nsamples + 1) % 4294967296;
      }

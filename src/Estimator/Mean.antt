-- ===== src/Estimator/Mean.antt =====
-- `Mean`: the mean of all samples since the last reset. Its counter is an `unsigned` of 32 bits.
use dragonradio.Prelude.{ℕ, ◌+◌, ◌-◌, ◌%◌, if◌then◌else◌, ◌==◌}
use dragonradio.Double.{Doubles}

pub record Mean (A : Type 0) : Type 0 where
  pub value : A
  pub nsamples : ℕ

module _ (ds : Doubles) where
  -- The constructor with an initial value, and `reset`.
  unfoldable pub new_mean : ds.Carrier → Mean ds.Carrier
  new_mean x = record { value = x; nsamples = 0 }

  unfoldable pub reset : ds.Carrier → Mean ds.Carrier → Mean ds.Carrier
  reset x m = record m { value = x; nsamples = 0 }

  unfoldable pub update : ds.Carrier → Mean ds.Carrier → Mean ds.Carrier
  update x m = if m.nsamples == 0 then record { value = x; nsamples = 1 } else record {
    value =
        ds.divide (ds.plus (ds.times m.value (ds.of_nat m.nsamples)) x)
          (ds.of_nat ((m.nsamples + 1) % 4294967296));
    nsamples = (m.nsamples + 1) % 4294967296;
  }

  -- `remove`, of a mean of at least one sample.
  unfoldable pub remove : ds.Carrier → Mean ds.Carrier → Mean ds.Carrier
  remove x m = if m.nsamples == 1 then record m { nsamples = 0 } else record {
    value =
        ds.divide (ds.minus (ds.times m.value (ds.of_nat m.nsamples)) x)
          (ds.of_nat (m.nsamples - 1));
    nsamples = m.nsamples - 1;
  }

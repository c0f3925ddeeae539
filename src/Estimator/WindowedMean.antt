-- ===== src/Estimator/WindowedMean.antt =====
-- `WindowedMean`: the mean of the last samples, of which a ring keeps as many as its size. `i` is a
-- `size_type` of 64 bits.
use dragonradio.Prelude.{
  ℕ, ◌+◌, ◌%◌, ◌||◌, List, length, get_or, set, replicate, min, if◌then◌else◌, ◌==◌,
}
use dragonradio.Double.{Doubles}

pub record WindowedMean (A : Type 0) : Type 0 where
  pub window : List A
  pub i : ℕ
  pub sum : A

module _ (ds : Doubles) where
  unfoldable pub new_windowed_mean : ℕ → WindowedMean ds.Carrier
  new_windowed_mean n = record { window = replicate n (ds.of_nat 0); i = 0; sum = ds.of_nat 0 }

  abbrev pub get_window_size : WindowedMean ds.Carrier → ℕ
  get_window_size w = length w.window

  unfoldable pub set_window_size : ℕ → WindowedMean ds.Carrier → WindowedMean ds.Carrier
  set_window_size n w = record w { window = replicate n (ds.of_nat 0); i = 0; sum = ds.of_nat 0 }

  unfoldable pub get_value : WindowedMean ds.Carrier → ds.Carrier
  get_value w =
      if w.i == 0 || get_window_size w == 0
      then w.sum
      else ds.divide w.sum (ds.of_nat (min w.i (get_window_size w)))

  unfoldable pub get_nsamples : WindowedMean ds.Carrier → ℕ
  get_nsamples w = min w.i (get_window_size w) % 4294967296

  unfoldable pub reset : ds.Carrier → WindowedMean ds.Carrier → WindowedMean ds.Carrier
  reset x w = record { window = replicate (get_window_size w) (ds.of_nat 0); i = 0; sum = x }

  -- `update`, of a window that has places.
  unfoldable pub update : ds.Carrier → WindowedMean ds.Carrier → WindowedMean ds.Carrier
  update x w =
      let place = w.i % length w.window in
      let old = get_or w.window place (ds.of_nat 0) in
      record {
        window = set w.window place x;
        i = (w.i + 1) % 18446744073709551616;
        sum = if w.i == 0 then x else ds.plus (ds.minus w.sum old) x;
      }

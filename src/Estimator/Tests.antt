-- ===== src/Estimator/Tests.antt =====
-- A window of two samples, given a failure, a success and two failures.
use dragonradio.Prelude.{
  ◌≡◌, refl, true, false, [], ◌∷◌, arith, length, take, min, leb, if◌then◌else◌, ◌==◌,
}
use dragonradio.Double.Whole.{whole, whole-Exact}
use dragonradio.Estimator.WindowedMean.{new_windowed_mean, get_value, get_nsamples}
use dragonradio.Estimator.Share.{given, failures, get_value_share}
use dragonradio.Estimator.Mean
use dragonradio.Estimator.Ema
use dragonradio.Estimator.TimeWindow
use dragonradio.Estimator.TimeWindow.Fresh
use dragonradio.Estimator.TimeWindow.Fresh.{fresh, total, in_order, get_value-fresh}

get_value_share_example :
    let bs = true ∷ true ∷ false ∷ true ∷ [] in
    let w = given whole bs (new_windowed_mean whole 2) in
    (get_value whole w
      ≡ (if length bs == 0 then 0 else whole.divide (failures (take 2 bs)) (min (length bs) 2)))
    × (get_nsamples whole w ≡ min (length bs) 2)
get_value_share_example =
    get_value_share whole 2 (true ∷ true ∷ false ∷ true ∷ []) whole-Exact (omega arith)
      (omega arith) (omega arith)

mean_of_two :
    Mean.update whole 6 (Mean.update whole 4 (Mean.new_mean whole 9))
    ≡ record { value = 5; nsamples = 2 }
unfolding Mean.update Mean.new_mean
mean_of_two = refl

ema_of_two : (Ema.update whole 6 (Ema.update whole 4 (Ema.new_ema whole 1 9 0))).value ≡ 6
unfolding Ema.update Ema.new_ema
ema_of_two = refl

get_value-fresh_example :
    let w = fresh 10 22 (in_order ((20, 3) ∷ (15, 5) ∷ (9, 4) ∷ [])) in
    (TimeWindow.get_value whole 99 22 (Fresh.given whole 10 ((20, 3) ∷ (15, 5) ∷ (9, 4) ∷ []))).0
    ≡ (if length w == 0 then 99 else whole.divide (total w) (length w))
get_value-fresh_example =
    get_value-fresh whole 10 22 99 ((20, 3) ∷ (15, 5) ∷ (9, 4) ∷ []) whole-Exact
      (omega arith, (omega arith, (omega arith, omega arith))) (omega arith)

-- The minimum of one sample, 7, is reported as 0.
minimum_of_one :
    (TimeWindow.get_best whole leb 99 5
      (TimeWindow.update_best whole leb 5 7 (TimeWindow.new_time_window whole 10))).0
    ≡ 0
unfolding TimeWindow.get_best TimeWindow.update_best TimeWindow.purge_best TimeWindow.pop_stale
    TimeWindow.new_time_window
minimum_of_one = refl

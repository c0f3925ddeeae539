-- ===== src/Estimator/TimeWindow.antt =====
-- `TimeWindowMean`, `TimeWindowMeanRate`, `TimeWindowMin` and `TimeWindowMax` of
-- src/stats/TimeWindowEstimator.hh. Times and the window are whole microseconds; what `Clock::now()`
-- gives and the NaN of an empty window are arguments. The oldest sample stands first.
pub mod Fresh
use dragonradio.Prelude.{
  ℕ, ◌+◌, Bool, true, false, not, List, [], ◌∷◌, ◌++◌, length, ltb, ◌==◌, if◌then◌else◌,
}
use dragonradio.Double.{Doubles}

-- The window with the sum, the minimum or the maximum that is kept beside it.
pub record TimeWindow (A : Type 0) : Type 0 where
  pub twindow : ℕ
  pub window : List (ℕ × A)
  pub kept : A

module _ (ds : Doubles) where
  unfoldable pub new_time_window : ℕ → TimeWindow ds.Carrier
  new_time_window n = record { twindow = n; window = []; kept = ds.of_nat 0 }

  unfoldable pub reset : ds.Carrier → TimeWindow ds.Carrier → TimeWindow ds.Carrier
  reset x w = record w { window = []; kept = x }

  abbrev pub get_nsamples : TimeWindow ds.Carrier → ℕ
  get_nsamples w = length w.window

  -- The loop of `TimeWindowMean::purge`.
  unfoldable pub purge_loop :
      ℕ → ℕ → ds.Carrier → List (ℕ × ds.Carrier) → List (ℕ × ds.Carrier) × ds.Carrier
  purge_loop n t sum [] = ([], sum)
  purge_loop n t sum ((s, x) ∷ w) =
      let rest = purge_loop n t (ds.minus sum x) w in
      if ltb (s + n) t then rest else ((s, x) ∷ w, sum)

  unfoldable pub purge : ℕ → TimeWindow ds.Carrier → TimeWindow ds.Carrier
  purge t w =
      let (window, sum) = purge_loop w.twindow t w.kept w.window in
      record w { window = window; kept = sum }

  unfoldable pub update : ℕ → ds.Carrier → TimeWindow ds.Carrier → TimeWindow ds.Carrier
  update t x w =
      let w' = purge t w in
      record w' { window = w'.window ++ ((t, x) ∷ []); kept = ds.plus w'.kept x }

  abbrev pub mean_of : ds.Carrier → TimeWindow ds.Carrier → ds.Carrier
  mean_of nan w =
      if length w.window == 0 then nan else ds.divide w.kept (ds.of_nat (length w.window))

  -- `TimeWindowMean::getValue`, and that of `TimeWindowMeanRate`, whose `twindow` is in seconds.
  unfoldable pub get_value :
      ds.Carrier → ℕ → TimeWindow ds.Carrier → ds.Carrier × TimeWindow ds.Carrier
  get_value nan now w = let w' = purge now w in (mean_of nan w', w')

  unfoldable pub get_rate :
      ds.Carrier → ℕ → TimeWindow ds.Carrier → ds.Carrier × TimeWindow ds.Carrier
  get_rate seconds now w = let w' = purge now w in (ds.divide w'.kept seconds, w')

  -- The minimum and the maximum, by the test `x <= min_` or `x >= max_`; the first value is 0.
  module _ (beats : ds.Carrier → ds.Carrier → Bool) where
    unfoldable pub pop_stale : ℕ → ℕ → List (ℕ × ds.Carrier) → List (ℕ × ds.Carrier)
    pop_stale n t [] = []
    pop_stale n t ((s, x) ∷ w) =
        let rest = pop_stale n t w in if ltb (s + n) t then rest else (s, x) ∷ w

    abbrev pub best_of : ds.Carrier → List (ℕ × ds.Carrier) → ds.Carrier
    best_of m [] = m
    best_of m ((s, x) ∷ w) = best_of (if beats x m then x else m) w

    -- The last loop, which stops at the first sample that is as good as the best.
    abbrev pub pop_worse : ds.Carrier → List (ℕ × ds.Carrier) → List (ℕ × ds.Carrier)
    pop_worse m [] = []
    pop_worse m ((s, x) ∷ w) =
        let rest = pop_worse m w in if not (beats x m) then rest else (s, x) ∷ w

    abbrev pub recalculate : TimeWindow ds.Carrier → TimeWindow ds.Carrier
    recalculate w = go w.window
      where
        go : List (ℕ × ds.Carrier) → TimeWindow ds.Carrier
        go [] = w
        go ((s, x) ∷ rest) =
            let m = best_of x rest in record w { kept = m; window = pop_worse m ((s, x) ∷ rest) }

    unfoldable pub purge_best : ℕ → TimeWindow ds.Carrier → TimeWindow ds.Carrier
    purge_best t w =
        let window = pop_stale w.twindow t w.window in
        if length window == length w.window then w else recalculate (record w { window = window })

    unfoldable pub update_best : ℕ → ds.Carrier → TimeWindow ds.Carrier → TimeWindow ds.Carrier
    update_best t x w =
        let w' = purge_best t w in
        if beats x w'.kept
        then record w' { kept = x; window = (t, x) ∷ [] }
        else record w' { window = w'.window ++ ((t, x) ∷ []) }

    unfoldable pub get_best :
        ds.Carrier → ℕ → TimeWindow ds.Carrier → ds.Carrier × TimeWindow ds.Carrier
    get_best nan now w =
        let w' = purge_best now w in (if length w'.window == 0 then nan else w'.kept, w')

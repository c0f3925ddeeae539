-- ===== src/Arq/Amc/Tests.antt =====
-- A table of four modulations, the third of which is not valid.
use dragonradio.Prelude.{ℕ, ◌<◌, ◌≡◌, refl, true, false, none, [], ◌∷◌, arith}
use dragonradio.Double.Whole.{whole}
use dragonradio.Estimator.WindowedMean
use dragonradio.Estimator.WindowedMean.{get_value, get_nsamples, new_windowed_mean}
use dragonradio.Estimator.Share.{given}
use dragonradio.Arq.Send.{new_send_window}
use dragonradio.Arq.Amc.{
  Config, Amc, larger, up_to_valid, reset_per_estimates, set_mcs, move_down_mcs, move_up_mcs,
  down_levels, may_move_up_mcs, step_down, step_up, too_many, few_enough, noted, update_mcs,
}
use dragonradio.Arq.Amc.Update.{Move, update_mcs-Move}

-- The highest is to be 2.
abbrev cfg : Config whole
cfg = record {
  valid = true ∷ true ∷ false ∷ true ∷ [];
  evm_thresholds = none ∷ none ∷ none ∷ none ∷ [];
  max_packet_samples = 10 ∷ 10 ∷ 10 ∷ 10 ∷ [];
  mcsidx_min = 0;
  mcsidx_max = 2;
  mcsidx_init = 0;
  mcsidx_up_per_threshold = 1;
  mcsidx_down_per_threshold = 0;
  mcsidx_alpha = 1;
  mcsidx_prob_floor = 1;
  short_per_window = 2;
  long_per_window = 3;
  min_channel_bandwidth = 10;
}

abbrev at_one : Amc whole
at_one = record {
  window = record (new_send_window 4) { mcsidx = 1; short_per = true ∷ []; long_per = true ∷ [] };
  short_size = 1;
  long_size = 1;
  mcsidx_prob = 1 ∷ 1 ∷ 1 ∷ 1 ∷ [];
  prev_short_per = 0;
  prev_long_per = 0;
  node_mcsidx = 1;
}

abbrev good : Amc whole
good = record at_one {
  window = record at_one.window { mcsidx = 1; short_per = false ∷ []; long_per = false ∷ [] };
}

in_range : at_one.window.mcsidx < 4
unfolding new_send_window
in_range = omega arith

goes_down : (update_mcs whole cfg 0 at_one).1 ≡ 0 ∷ []
unfolding update_mcs noted too_many few_enough step_down move_down_mcs down_levels set_mcs
    up_to_valid reset_per_estimates get_value get_nsamples given new_windowed_mean new_send_window
    WindowedMean.update
goes_down = refl

-- From 1 it goes up to 3, past the highest.
goes_past : (update_mcs whole cfg 0 good).1 ≡ 3 ∷ []
unfolding update_mcs noted too_many few_enough step_up move_up_mcs may_move_up_mcs set_mcs
    up_to_valid reset_per_estimates get_value get_nsamples given new_windowed_mean new_send_window
    WindowedMean.update
goes_past = refl

update_mcs-Move_example : Move whole cfg at_one.window.mcsidx (update_mcs whole cfg 0 at_one)
update_mcs-Move_example = update_mcs-Move whole cfg 0 at_one in_range

rounded : (x : ℕ) → 0 < whole.to_size (larger whole 1 x)
rounded x = ground arith

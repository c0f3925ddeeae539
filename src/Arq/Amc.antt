-- ===== src/Arq/Amc.antt =====
-- The adaptive modulation of src/mac/SmartController.cc: a send window together with what decides its
-- modulation, and the functions that change it. The calls of `netq_->updateMCS` are returned in order,
-- by the index of the modulation.
pub mod SetMcs
pub mod Update
pub mod Settled
mod Tests
use dragonradio.Prelude.{
  ℕ, zero, suc, ◌+◌, ◌-◌, Bool, true, false, not, ◌&&◌, ◌||◌, Option, none, some, List, [], ◌∷◌,
  ◌++◌, length, get_or, set, replicate, if◌then◌else◌, ◌==◌, ltb, leb,
}
use dragonradio.Double.{Doubles}
use dragonradio.Seq.{Seq, ge}
use dragonradio.Packet.{NetPacket}
use dragonradio.Arq.Send.{
  SendWindow, Action, Env, entry, tx_failure, retransmit_or_drop, new_send_window,
}
use dragonradio.Estimator.WindowedMean.{
  WindowedMean, new_windowed_mean, get_value, get_nsamples, get_window_size,
}
use dragonradio.Estimator.Share.{given}

module _ (ds : Doubles) where
  -- What the controller is set to. `valid` is the flag of each entry of `phy_->mcs_table`.
  pub record Config : Type 0 where
    pub valid : List Bool
    pub evm_thresholds : List (Option ds.Carrier)
    pub max_packet_samples : List ℕ
    pub mcsidx_min : ℕ
    pub mcsidx_max : ℕ
    pub mcsidx_init : ℕ
    pub mcsidx_up_per_threshold : ds.Carrier
    pub mcsidx_down_per_threshold : ds.Carrier
    pub mcsidx_alpha : ds.Carrier
    pub mcsidx_prob_floor : ds.Carrier
    pub short_per_window : ds.Carrier
    pub long_per_window : ds.Carrier
    pub min_channel_bandwidth : ds.Carrier

  -- `SendWindow` with the fields that concern the modulation: the sizes of the windows of the two
  -- estimators, whose samples are in `window`, and `node.mcsidx`.
  pub record Amc : Type 0 where
    pub window : SendWindow
    pub short_size : ℕ
    pub long_size : ℕ
    pub mcsidx_prob : List ds.Carrier
    pub prev_short_per : ds.Carrier
    pub prev_long_per : ds.Carrier
    pub node_mcsidx : ℕ

  -- The estimators.
  abbrev pub short_per : Amc → WindowedMean ds.Carrier
  short_per r = given ds r.window.short_per (new_windowed_mean ds r.short_size)

  abbrev pub long_per : Amc → WindowedMean ds.Carrier
  long_per r = given ds r.window.long_per (new_windowed_mean ds r.long_size)

  -- `std::max`
  abbrev pub larger : ds.Carrier → ds.Carrier → ds.Carrier
  larger a b = if ds.less a b then b else a

  -- `std::max(1.0, seconds*min_channel_bandwidth_/max_packet_samples_[mcsidx])`, as a `size_type`.
  abbrev pub samples_in : Config → ds.Carrier → ℕ → ℕ
  samples_in cfg seconds mcsidx = ds.to_size (
      larger (ds.of_nat 1) (
        ds.divide (ds.times seconds cfg.min_channel_bandwidth)
          (ds.of_nat (get_or cfg.max_packet_samples mcsidx 0))))

  unfoldable pub reset_per_estimates : Config → Amc → Amc
  reset_per_estimates cfg r = record r {
    short_size = samples_in cfg cfg.short_per_window r.window.mcsidx;
    long_size = samples_in cfg cfg.long_per_window r.window.mcsidx;
    window = record r.window { short_per = []; long_per = [] };
  }

  -- `while (mcsidx < phy_->mcs_table.size() - 1 && !phy_->mcs_table[mcsidx].valid) ++mcsidx;`
  unfoldable pub up_to_valid : ℕ → List Bool → ℕ → ℕ
  up_to_valid zero valid i = i
  up_to_valid (suc f) valid i = elim (ltb i (length valid - 1) && not (get_or valid i false)) [
    | false ↦ i
    | true ↦ up_to_valid f valid (i + 1)
  ]

  -- `setMCS`; the loop makes fewer rounds than the table has entries.
  unfoldable pub set_mcs : Config → ℕ → Amc → Amc × List ℕ
  unfolding reset_per_estimates up_to_valid
  set_mcs cfg mcsidx r =
      let i = up_to_valid (length cfg.valid) cfg.valid mcsidx in
      let r₁ =
        reset_per_estimates cfg
          (record r { window = record r.window { mcsidx = i; per_end = r.window.seq } }) in
      (record r₁ { node_mcsidx = i }, i ∷ [])

  -- `moveDownMCS` and `moveUpMCS`
  unfoldable pub move_down_mcs : Config → ℕ → Amc → Amc × List ℕ
  unfolding set_mcs
  move_down_mcs cfg n r = set_mcs cfg (r.window.mcsidx - n) r

  unfoldable pub move_up_mcs : Config → Amc → Amc × List ℕ
  unfolding set_mcs
  move_up_mcs cfg r = set_mcs cfg (r.window.mcsidx + 1) r

  -- Whether the receiver's EVM, if there is one, is below a threshold, if there is one.
  abbrev pub evm_below : Option ℕ → Option ds.Carrier → Bool
  evm_below none th = false
  evm_below (some e) none = false
  evm_below (some e) (some th) = ds.less (ds.of_bits e) th

  -- `!next_evm_threshold || !sendw.long_evm || (*sendw.long_evm < *next_evm_threshold)`
  abbrev pub stop_here : Option ℕ → Option ds.Carrier → Bool
  stop_here e none = true
  stop_here none (some th) = true
  stop_here (some e) (some th) = ds.less (ds.of_bits e) th

  -- The loop of `updateMCS` that counts the levels to move down, from `n` on.
  pub down_levels : Config → Amc → ℕ → ℕ → ℕ
  down_levels cfg r zero n = n
  down_levels cfg r (suc f) n =
      elim (ltb n r.window.mcsidx
        && ltb cfg.mcsidx_min (r.window.mcsidx - n)
        && get_or cfg.valid (r.window.mcsidx - (n + 1)) false) [
          | false ↦ n
          | true ↦
              let rest = down_levels cfg r f (n + 1) in
              if stop_here r.window.long_evm
                (get_or cfg.evm_thresholds (r.window.mcsidx - (n + 1)) none)
              then n + 1
              else rest
        ]

  -- `mayMoveUpMCS`, where `roll` is the random number that `dist_(gen_)` draws.
  abbrev pub may_pass : ds.Carrier → Option ℕ → Option ds.Carrier → ds.Carrier → Bool
  may_pass roll e (some th) prob = evm_below e (some th)
  may_pass roll e none prob = ds.less roll prob

  unfoldable pub may_move_up_mcs : Config → ds.Carrier → Amc → Bool
  may_move_up_mcs cfg roll r =
      let i = r.window.mcsidx in
      if i == cfg.mcsidx_max || i == length cfg.valid - 1
      then false
      else may_pass roll r.window.long_evm (get_or cfg.evm_thresholds (i + 1) none)
          (get_or r.mcsidx_prob (i + 1) (ds.of_nat 0))

  -- The two branches of `updateMCS`.
  unfoldable pub step_down : Config → Amc → Amc × List ℕ
  unfolding move_down_mcs reset_per_estimates down_levels
  step_down cfg r =
      let i = r.window.mcsidx in
      let prob =
        larger (ds.times (get_or r.mcsidx_prob i (ds.of_nat 0)) cfg.mcsidx_alpha)
          cfg.mcsidx_prob_floor in
      let r₁ = record r { mcsidx_prob = set r.mcsidx_prob i prob } in
      let n = down_levels cfg r₁ i 0 in
      if n == 0 then (reset_per_estimates cfg r₁, []) else move_down_mcs cfg n r₁

  unfoldable pub step_up : Config → ds.Carrier → Amc → Amc × List ℕ
  unfolding move_up_mcs reset_per_estimates may_move_up_mcs
  step_up cfg roll r =
      let r₁ = record r { mcsidx_prob = set r.mcsidx_prob r.window.mcsidx (ds.of_nat 1) } in
      if may_move_up_mcs cfg roll r₁ then move_up_mcs cfg r₁ else (reset_per_estimates cfg r₁, [])

  -- The tests of `updateMCS`: a full window of samples, and a rate past the threshold.
  unfoldable pub too_many : Config → Amc → Bool
  unfolding get_value get_nsamples
  too_many cfg r =
      leb r.short_size (get_nsamples ds (short_per r))
      && ds.less cfg.mcsidx_down_per_threshold (get_value ds (short_per r))

  unfoldable pub few_enough : Config → Amc → Bool
  unfolding get_value get_nsamples
  few_enough cfg r =
      leb r.long_size (get_nsamples ds (long_per r))
      && ds.less (get_value ds (long_per r)) cfg.mcsidx_up_per_threshold

  -- The previous rates are kept for the log.
  unfoldable pub noted : Amc → Amc
  unfolding get_value
  noted r =
      let s = get_value ds (short_per r) in
      let l = get_value ds (long_per r) in
      if not (ds.equal s r.prev_short_per) || not (ds.equal l r.prev_long_per)
      then record r { prev_short_per = s; prev_long_per = l }
      else r

  unfoldable pub update_mcs : Config → ds.Carrier → Amc → Amc × List ℕ
  unfolding noted too_many few_enough step_down step_up
  update_mcs cfg roll r =
      let r₀ = noted r in
      if too_many cfg r₀
      then step_down cfg r₀
      else if few_enough cfg r₀
      then step_up cfg roll r₀
      else (r₀, [])

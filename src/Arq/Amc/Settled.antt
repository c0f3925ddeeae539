-- ===== src/Arq/Amc/Settled.antt =====
-- `updateMCS` after `updateMCS`: the estimates have to fill again.
use dragonradio.Prelude.{
  ℕ, ◌%◌, ◌<◌, ◌≡◌, inl, inr, refl, Bool, false, not, ◌&&◌, ◌||◌, [], arith, Bool-cases, get_or,
  set, min, ◌==◌, leb,
}
use dragonradio.Double.{Doubles}
use dragonradio.Estimator.WindowedMean.{get_value, get_nsamples, new_windowed_mean}
use dragonradio.Estimator.Share.{given}
use dragonradio.Arq.Amc.{
  Config, Amc, short_per, long_per, larger, set_mcs, reset_per_estimates, move_down_mcs,
  move_up_mcs, down_levels, may_move_up_mcs, step_down, step_up, too_many, few_enough, noted,
  update_mcs,
}
use dragonradio.Arq.Amc.Update.{noted_window}

module _ (ds : Doubles)
    (sized : (x : ds.Carrier) → 0 < ds.to_size (larger ds (ds.of_nat 1) x)) where
  -- Neither estimate has a sample.
  record IsFresh (s : Amc ds) : Type 0 where
    pub no_short : s.window.short_per ≡ []
    pub no_long : s.window.long_per ≡ []
    pub short_room : 0 < s.short_size
    pub long_room : 0 < s.long_size

  step_down-IsFresh : (cfg : Config ds) (r : Amc ds) → IsFresh (step_down ds cfg r).0
  unfolding step_down reset_per_estimates move_down_mcs set_mcs
  step_down-IsFresh cfg r =
      let i = r.window.mcsidx in
      let prob =
        larger ds (ds.times (get_or r.mcsidx_prob i (ds.of_nat 0)) cfg.mcsidx_alpha)
          cfg.mcsidx_prob_floor in
      let r₁ = record r { mcsidx_prob = set r.mcsidx_prob i prob } in
      elim (Bool-cases (down_levels ds cfg r₁ i 0 == 0)) [
        | inl e ↦
            rw e (record {
              no_short = refl;
              no_long = refl;
              short_room = sized _;
              long_room = sized _;
            })
        | inr e ↦
            rw e (record {
              no_short = refl;
              no_long = refl;
              short_room = sized _;
              long_room = sized _;
            })
      ]

  step_up-IsFresh :
      (cfg : Config ds) (roll : ds.Carrier) (r : Amc ds) → IsFresh (step_up ds cfg roll r).0
  unfolding step_up reset_per_estimates move_up_mcs set_mcs
  step_up-IsFresh cfg roll r =
      let r₁ = record r { mcsidx_prob = set r.mcsidx_prob r.window.mcsidx (ds.of_nat 1) } in
      elim (Bool-cases (may_move_up_mcs ds cfg roll r₁)) [
        | inl e ↦
            rw e (record {
              no_short = refl;
              no_long = refl;
              short_room = sized _;
              long_room = sized _;
            })
        | inr e ↦
            rw e (record {
              no_short = refl;
              no_long = refl;
              short_room = sized _;
              long_room = sized _;
            })
      ]

  -- The state asks for no move.
  record IsIdle (cfg : Config ds) (s : Amc ds) : Type 0 where
    pub not_down : too_many ds cfg s ≡ false
    pub not_up : few_enough ds cfg s ≡ false

  too_few : (size k : ℕ) (b : Bool) → 0 < size → (leb size (min 0 k % 4294967296) && b) ≡ false
  too_few size k b h = ground arith

  fresh-IsIdle : (cfg : Config ds) (s : Amc ds) → IsFresh s → IsIdle cfg s
  unfolding too_many few_enough get_nsamples given new_windowed_mean
  fresh-IsIdle cfg s f = record {
    not_down = rw (f.no_short, too_many) (too_few s.short_size _ _ f.short_room);
    not_up = rw (f.no_long, few_enough) (too_few s.long_size _ _ f.long_room);
  }

  noted-IsIdle : (cfg : Config ds) (s : Amc ds) → IsIdle cfg s → IsIdle cfg (noted ds s)
  unfolding noted too_many few_enough
  noted-IsIdle cfg s h =
      elim (Bool-cases (
        not (ds.equal (get_value ds (short_per ds s)) s.prev_short_per)
        || not (ds.equal (get_value ds (long_per ds s)) s.prev_long_per))) [
          | inl e ↦ rw e (record { not_down = h.not_down; not_up = h.not_up })
          | inr e ↦ rw e h
        ]

  after-IsIdle :
      (cfg : Config ds) (roll : ds.Carrier) (r : Amc ds) → IsIdle cfg (update_mcs ds cfg roll r).0
  unfolding update_mcs
  after-IsIdle cfg roll r =
      let r₀ = noted ds r in
      elim (Bool-cases (too_many ds cfg r₀)) [
        | inl e ↦ rw e (fresh-IsIdle cfg (step_down ds cfg r₀).0 (step_down-IsFresh cfg r₀))
        | inr e ↦ elim (Bool-cases (few_enough ds cfg r₀)) [
          | inl y ↦
              rw (e, y) (fresh-IsIdle cfg (step_up ds cfg roll r₀).0 (step_up-IsFresh cfg roll r₀))
          | inr n ↦ rw (e, n) (record { not_down = e; not_up = n })
        ]
      ]

  idle :
      (cfg : Config ds) (roll : ds.Carrier) (s : Amc ds)
      → IsIdle cfg (noted ds s)
      → ((update_mcs ds cfg roll s).1 ≡ []) × ((update_mcs ds cfg roll s).0.window ≡ s.window)
  unfolding update_mcs
  idle cfg roll s h = rw (h.not_down, h.not_up) (refl, noted_window ds s)

  -- After `updateMCS` a second call, whatever number it draws, moves nothing and changes nothing in the
  -- send window: a further move takes new samples, as many as the estimate's window holds. The
  -- conversion of a number that is at least 1 to a size gives at least 1.
  pub update_mcs_twice :
      (cfg : Config ds) (roll roll' : ds.Carrier) (r : Amc ds)
      → let s = (update_mcs ds cfg roll r).0 in
        ((update_mcs ds cfg roll' s).1 ≡ []) × ((update_mcs ds cfg roll' s).0.window ≡ s.window)
  update_mcs_twice cfg roll roll' r =
      let s = (update_mcs ds cfg roll r).0 in
      let h = noted-IsIdle cfg s (after-IsIdle cfg roll r) in idle cfg roll' s h

-- ===== src/Arq/Amc/Update.antt =====
-- `updateMCS`: where the modulation can move, and how often.
use dragonradio.Prelude.{
  ℕ, zero, suc, ◌+◌, ◌-◌, ◌≤◌, ◌<◌, ◌≡◌, ◌≢◌, inl, inr, refl, ap, subst, Bool, true, false, not,
  ◌&&◌, ◌||◌, none, List, [], ◌∷◌, arith, Bool-cases, ℕ_discrete, length, get_or, set, ◌==◌, ltb,
}
use dragonradio.Double.{Doubles}
use dragonradio.Estimator.WindowedMean.{get_value}
use dragonradio.Arq.Send.{SendWindow}
use dragonradio.Arq.Amc.{
  short_per, long_per, Config, Amc, larger, set_mcs, reset_per_estimates, move_down_mcs,
  move_up_mcs, stop_here, down_levels, may_move_up_mcs, step_down, step_up, too_many, few_enough,
  noted, update_mcs,
}
use dragonradio.Arq.Amc.SetMcs.{Landed, set_mcs-Chosen}

one_level :
    (i n low : ℕ) (v : Bool)
    → (ltb n i && ltb low (i - n) && v) ≡ true
    → (n + 1 ≤ i) × (low ≤ i - (n + 1)) × (v ≡ true)
one_level i n low v e = ground arith

lands_there : (valid : List Bool) (i k : ℕ) → Landed valid i k → get_or valid i false ≡ true → i ≡ k
lands_there valid i k l e = elim (ℕ_discrete i k) [
  | yes q ↦ q
  | no q ↦ absurd (cc (e, l.skipped i (omega arith) (omega (arith, l.from, q))))
]

module _ (ds : Doubles) where
  -- Going down by `n` levels stays at valid modulations that are no lower than the lowest.
  record Reaches (cfg : Config ds) (r : Amc ds) (n k : ℕ) : Type 0 where
    pub from : n ≤ k
    pub there :
        n < k
        → (k ≤ r.window.mcsidx)
          × (cfg.mcsidx_min ≤ r.window.mcsidx - k)
          × (get_or cfg.valid (r.window.mcsidx - k) false ≡ true)

  down_levels-Reaches :
      (cfg : Config ds) (r : Amc ds) (f n : ℕ) → Reaches cfg r n (down_levels ds cfg r f n)
  unfolding down_levels
  down_levels-Reaches cfg r zero n = record {
    from = omega arith;
    there = λ h. absurd (omega arith);
  }
  down_levels-Reaches cfg r (suc f) n =
      let i = r.window.mcsidx in
      let next = get_or cfg.valid (i - (n + 1)) false in
      let s = stop_here ds r.window.long_evm (get_or cfg.evm_thresholds (i - (n + 1)) none) in
      elim (Bool-cases (ltb n i && ltb cfg.mcsidx_min (i - n) && next)) [
        | inr e ↦
            rw (e, down_levels) (record { from = omega arith; there = λ h. absurd (omega arith) })
        | inl e ↦
            let here = one_level i n cfg.mcsidx_min next e in
            let l = down_levels-Reaches cfg r f (n + 1) in
            let k = down_levels ds cfg r f (n + 1) in
            rw (e, down_levels)
              (elim (Bool-cases s) [
                | inl y ↦ rw y (record { from = omega arith; there = λ _. here })
                | inr y ↦ rw y (record {
                  from = omega (arith, l.from);
                  there = λ _. elim (ℕ_discrete (n + 1) k) [
                    | yes q ↦
                        subst
                          (λ (t : ℕ).
                            (t ≤ i)
                            × (cfg.mcsidx_min ≤ i - t)
                            × (get_or cfg.valid (i - t) false ≡ true))
                          q here
                    | no q ↦ l.there (omega (arith, l.from, q))
                  ];
                })
              ])
      ]

  -- The next state of `updateMCS` from the modulation `i`: the modulation stays, or goes down to a valid one that is
  -- no lower than the lowest, or goes up to the next valid one.
  pub data Move (cfg : Config ds) (i : ℕ) : Amc ds × List ℕ → Type 0 where
    stays : {s : Amc ds} → s.window.mcsidx ≡ i → Move cfg i (s, [])
    lowers :
        {s : Amc ds}
        → s.window.mcsidx < i
        → cfg.mcsidx_min ≤ s.window.mcsidx
        → get_or cfg.valid s.window.mcsidx false ≡ true
        → Move cfg i (s, s.window.mcsidx ∷ [])
    raises :
        {s : Amc ds}
        → i ≢ cfg.mcsidx_max
        → Landed cfg.valid (i + 1) s.window.mcsidx
        → Move cfg i (s, s.window.mcsidx ∷ [])

  may_move-room :
      (cfg : Config ds) (roll : ds.Carrier) (r : Amc ds)
      → may_move_up_mcs ds cfg roll r ≡ true
      → (r.window.mcsidx ≢ cfg.mcsidx_max) × (r.window.mcsidx ≢ length cfg.valid - 1)
  unfolding may_move_up_mcs
  may_move-room cfg roll r e = (λ q. ground arith, λ q. ground arith)

  lowered :
      (cfg : Config ds) (i : ℕ) (s : Amc ds) (cs : List ℕ)
      → cs ≡ s.window.mcsidx ∷ []
      → s.window.mcsidx < i
      → cfg.mcsidx_min ≤ s.window.mcsidx
      → get_or cfg.valid s.window.mcsidx false ≡ true
      → Move cfg i (s, cs)
  lowered cfg i s cs e a b c = rw e (lowers a b c)

  raised :
      (cfg : Config ds) (i : ℕ) (s : Amc ds) (cs : List ℕ)
      → cs ≡ s.window.mcsidx ∷ []
      → i ≢ cfg.mcsidx_max
      → Landed cfg.valid (i + 1) s.window.mcsidx
      → Move cfg i (s, cs)
  raised cfg i s cs e a b = rw e (raises a b)

  step_down-Move :
      (cfg : Config ds) (r : Amc ds)
      → r.window.mcsidx < length cfg.valid
      → Move cfg r.window.mcsidx (step_down ds cfg r)
  unfolding step_down reset_per_estimates move_down_mcs
  step_down-Move cfg r h =
      let i = r.window.mcsidx in
      let prob =
        larger ds (ds.times (get_or r.mcsidx_prob i (ds.of_nat 0)) cfg.mcsidx_alpha)
          cfg.mcsidx_prob_floor in
      let r₁ = record r { mcsidx_prob = set r.mcsidx_prob i prob } in
      let n = down_levels ds cfg r₁ i 0 in
      elim (Bool-cases (n == 0)) [
        | inl e ↦ rw e (stays refl)
        | inr e ↦
            let (a, b, v) = (down_levels-Reaches cfg r₁ i 0).there (ground arith) in
            let c = set_mcs-Chosen ds cfg (i - n) r₁ (omega arith) in
            let m = set_mcs ds cfg (i - n) r₁ in
            let same = lands_there cfg.valid (i - n) m.0.window.mcsidx c.landed v in
            rw e (
              lowered cfg i m.0 m.1 c.told (ground (arith, same)) (omega (arith, same))
                (subst (λ (t : ℕ). get_or cfg.valid t false ≡ true) same v))
      ]

  step_up-Move :
      (cfg : Config ds) (roll : ds.Carrier) (r : Amc ds)
      → r.window.mcsidx < length cfg.valid
      → Move cfg r.window.mcsidx (step_up ds cfg roll r)
  unfolding step_up reset_per_estimates move_up_mcs may_move_up_mcs
  step_up-Move cfg roll r h =
      let i = r.window.mcsidx in
      let r₁ = record r { mcsidx_prob = set r.mcsidx_prob i (ds.of_nat 1) } in
      elim (Bool-cases (may_move_up_mcs ds cfg roll r₁)) [
        | inr e ↦ rw e (stays refl)
        | inl e ↦
            let (a, b) = may_move-room cfg roll r₁ e in
            let c = set_mcs-Chosen ds cfg (i + 1) r₁ (omega (arith, b)) in
            let m = set_mcs ds cfg (i + 1) r₁ in rw e (raised cfg i m.0 m.1 c.told a c.landed)
      ]

  pub noted_window : (r : Amc ds) → (noted ds r).window ≡ r.window
  unfolding noted
  noted_window r =
      let s = get_value ds (short_per ds r) in
      let l = get_value ds (long_per ds r) in
      elim (Bool-cases (not (ds.equal s r.prev_short_per) || not (ds.equal l r.prev_long_per))) [
        | inl e ↦ rw e refl
        | inr e ↦ rw e refl
      ]

  -- `updateMCS` moves the modulation down or up or leaves it, never past the end of the table; it moves
  -- down to a valid modulation only, no lower than the lowest, and up to the next valid one only, or the
  -- last of the table, and only from another modulation than the highest; and it tells the network
  -- queue of each move and of nothing else.
  pub update_mcs-Move :
      (cfg : Config ds) (roll : ds.Carrier) (r : Amc ds)
      → r.window.mcsidx < length cfg.valid
      → Move cfg r.window.mcsidx (update_mcs ds cfg roll r)
  unfolding update_mcs
  update_mcs-Move cfg roll r h =
      let r₀ = noted ds r in
      let same : r₀.window.mcsidx ≡ r.window.mcsidx =
        ap (λ (w : SendWindow). w.mcsidx) (noted_window r) in
      subst (λ (t : ℕ). Move cfg t (update_mcs ds cfg roll r)) same
        (elim (Bool-cases (too_many ds cfg r₀)) [
          | inl e ↦ rw e (step_down-Move cfg r₀ (omega (arith, same)))
          | inr e ↦ elim (Bool-cases (few_enough ds cfg r₀)) [
            | inl y ↦ rw (e, y) (step_up-Move cfg roll r₀ (omega (arith, same)))
            | inr n ↦ rw (e, n) (stays refl)
          ]
        ])

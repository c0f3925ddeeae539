-- ===== src/Arq/Amc/SetMcs.antt =====
-- `setMCS`: which modulation it chooses, and what it resets.
use dragonradio.Prelude.{
  ℕ, zero, suc, ◌+◌, ◌-◌, ◌≤◌, ◌<◌, ◌≡◌, ◌⊎◌, inl, inr, refl, Bool, true, false, not, ◌&&◌, List,
  [], ◌∷◌, arith, Bool-cases, subst, ℕ_discrete, length, get_or, ltb,
}
use dragonradio.Double.{Doubles}
use dragonradio.Arq.Amc.{Config, Amc, up_to_valid, reset_per_estimates, set_mcs}

-- `k` is the first valid entry of the table from `i` on, or the last entry if there is none.
pub record Landed (valid : List Bool) (i k : ℕ) : Type 0 where
  pub from : i ≤ k
  pub in_table : k < length valid
  pub skipped : (j : ℕ) → i ≤ j → j < k → get_or valid j false ≡ false
  pub usable : (get_or valid k false ≡ true) ⊎ (k + 1 ≡ length valid)

second_false : (b c : Bool) → (b && not c) ≡ true → c ≡ false
second_false b c e = ground arith

module _ (ds : Doubles) where
  up_to_valid-Landed :
      (f : ℕ) (valid : List Bool) (i : ℕ)
      → i < length valid
      → length valid ≤ i + f + 1
      → Landed valid i (up_to_valid ds f valid i)
  unfolding up_to_valid
  up_to_valid-Landed zero valid i h k = record {
    from = omega arith;
    in_table = h;
    skipped = λ j a b. absurd (omega arith);
    usable = inr (omega arith);
  }
  up_to_valid-Landed (suc f) valid i h k =
      elim (Bool-cases (ltb i (length valid - 1) && not (get_or valid i false))) [
        | inr e ↦
            rw (e, up_to_valid)
              (record {
                from = omega arith;
                in_table = h;
                skipped = λ j a b. absurd (omega arith);
                usable = elim (Bool-cases (get_or valid i false)) [
                  | inl y ↦ inl y
                  | inr n ↦ inr (ground arith)
                ];
              })
        | inl e ↦
            let l = up_to_valid-Landed f valid (i + 1) (ground arith) (omega arith) in
            rw (e, up_to_valid)
              (record {
                from = omega (arith, l.from);
                in_table = l.in_table;
                skipped = λ j a b. elim (ℕ_discrete i j) [
                  | yes q ↦
                      subst (λ (t : ℕ). get_or valid t false ≡ false) q
                        (second_false (ltb i (length valid - 1)) (get_or valid i false) e)
                  | no n ↦ l.skipped j (omega (arith, n)) b
                ];
                usable = l.usable;
              })
      ]

  -- What `setMCS` leaves.
  pub record Chosen (cfg : Config ds) (i : ℕ) (r : Amc ds) (s : Amc ds × List ℕ) : Type 0 where
    pub landed : Landed cfg.valid i s.0.window.mcsidx
    pub told : s.1 ≡ s.0.window.mcsidx ∷ []
    pub same_node : s.0.node_mcsidx ≡ s.0.window.mcsidx
    pub fresh_short : s.0.window.short_per ≡ []
    pub fresh_long : s.0.window.long_per ≡ []
    pub per_window : s.0.window.per_end ≡ r.window.seq
    pub same_entries : s.0.window.entries ≡ r.window.entries
    pub same_prob : s.0.mcsidx_prob ≡ r.mcsidx_prob

  -- Asked for an entry of the table, `setMCS` chooses the first valid one from there on, or the last one
  -- if none is valid; the node and the network queue get the same index; both estimates of the packet
  -- error rate lose their samples, and no packet sent so far counts for them.
  pub set_mcs-Chosen :
      (cfg : Config ds) (i : ℕ) (r : Amc ds)
      → i < length cfg.valid
      → Chosen cfg i r (set_mcs ds cfg i r)
  unfolding set_mcs reset_per_estimates
  set_mcs-Chosen cfg i r h = record {
    landed = up_to_valid-Landed (length cfg.valid) cfg.valid i h (omega arith);
    told = refl;
    same_node = refl;
    fresh_short = refl;
    fresh_long = refl;
    per_window = refl;
    same_entries = refl;
    same_prob = refl;
  }

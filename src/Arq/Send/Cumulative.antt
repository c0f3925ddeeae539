-- ===== src/Arq/Send/Cumulative.antt =====
-- The cumulative ACK: how far the send window moves, and that it lets go of all that it passes.
use dragonradio.Prelude.{
  ℕ, zero, suc, ◌<◌, ◌≡◌, inl, inr, refl, sym, ◌∙◌, ap, subst, Bool, true, false, ◌||◌, none, arith,
  Bool-cases, length, min, if◌then◌else◌,
}
use mathlib.Core.Path.{ap₂}
use dragonradio.Seq.{Seq, diff, lt, le, gt, ge, add, incr}
use dragonradio.Arq.Send.{SendWindow, entry, handle_ack, ack_round, ack_loop, ack_up_to, tx_success}
use dragonradio.Arq.Send.Ack.{Keeps, Keeps-refl, Keeps-trans, handle_ack-Handled}

-- How many numbers there are from `u` up to `mx`.
abbrev pub sent_count : ℕ → ℕ → ℕ
sent_count u mx = if le u mx then diff (incr mx) u else 0

module _ (u mx : ℕ) (hu : u < 65536) (hm : mx < 65536) where
  sent_suc : le u mx ≡ true → sent_count u mx ≡ suc (sent_count (incr u) mx)
  unfolding le
  sent_suc h = ground arith

  ahead : (f : ℕ) → diff mx u ≡ suc f → suc f < 32768 → lt u mx ≡ true
  unfolding lt
  ahead f e h = ground arith

  here : diff mx u ≡ 0 → lt u mx ≡ false
  unfolding lt
  here e = ground arith

head_inside : (u n : ℕ) → u < 65536 → 0 < n → n < 32768 → (lt u u || ge u (add u n)) ≡ false
unfolding lt ge
head_inside u n hu h0 hn = ground arith

-- The window moved on by `k`, letting go of all that it passed.
pub record Passed (k : ℕ) (w w' : SendWindow) : Type 0 where
  pub unack_at : w'.unack ≡ add w.unack k
  pub keeps : Keeps w w'
  pub free : (j : ℕ) → j < k → (entry w' (add w.unack j)).pkt ≡ none

success_if : (w v : SendWindow) (c : Bool) → Keeps w v → Keeps w (if c then tx_success v else v)
success_if w v true k = record {
  same_max = k.same_max;
  same_win = k.same_win;
  same_size = k.same_size;
  still_free = k.still_free;
}
success_if w v false k = k

success_if_unack : (v : SendWindow) (c : Bool) → (if c then tx_success v else v).unack ≡ v.unack
success_if_unack v true = refl
success_if_unack v false = refl

success_if_entry :
    (v : SendWindow) (c : Bool) (s : Seq) → entry (if c then tx_success v else v) s ≡ entry v s
success_if_entry v true s = refl
success_if_entry v false s = refl

-- One round passes the first number of the window.
round-Passed :
    (w : SendWindow)
    → w.unack < 65536
    → 0 < w.win
    → w.win < 32768
    → 0 < length w.entries
    → Passed 1 w (ack_round w).0
unfolding ack_round
round-Passed w hu h0 hn hl =
    let r = handle_ack-Handled w.unack w hl in
    let v = (handle_ack w.unack w).0 in
    let c = ge v.unack v.per_end in
    let k = success_if w v c r.keeps in
    record {
      unack_at = ap (λ (t : ℕ). incr t) (success_if_unack v c ∙ r.same_unack);
      keeps = record {
        same_max = k.same_max;
        same_win = k.same_win;
        same_size = k.same_size;
        still_free = k.still_free;
      };
      free = λ j hj.
          let same : add w.unack j ≡ w.unack = omega arith in
          rw same (
            ap (λ t. t.pkt) (success_if_entry v c w.unack)
            ∙ r.freed (head_inside w.unack w.win hu h0 hn));
    }

Passed-trans :
    (k : ℕ) (u v w : SendWindow)
    → u.unack < 65536
    → Passed 1 u v
    → Passed k v w
    → Passed (suc k) u w
Passed-trans k u v w hu a b = record {
  unack_at = b.unack_at ∙ omega (arith, a.unack_at);
  keeps = Keeps-trans u v w a.keeps b.keeps;
  free = go;
}
  where
    go : (j : ℕ) → j < suc k → (entry w (add u.unack j)).pkt ≡ none
    go zero h = b.keeps.still_free (add u.unack 0) (a.free 0 (omega arith))
    go (suc j) h =
        let same : add v.unack j ≡ add u.unack (suc j) = omega (arith, a.unack_at) in
        subst (λ t. (entry w t).pkt ≡ none) same (b.free j (omega arith))

Passed-none : (w w' : SendWindow) → w.unack < 65536 → w' ≡ w → Passed 0 w w'
Passed-none w w' hu e = record {
  unack_at = ap (λ (t : SendWindow). t.unack) e ∙ omega arith;
  keeps = subst (Keeps w) (sym e) (Keeps-refl w);
  free = λ j h. absurd (omega arith);
}

min-suc : (a b : ℕ) → min (suc a) (suc b) ≡ suc (min a b)
min-suc a b = omega arith

rest_count :
    (f k : ℕ) (w v : SendWindow)
    → k ≡ min (suc f) (sent_count w.unack w.max)
    → w.unack < 65536
    → w.max < 65536
    → le w.unack w.max ≡ true
    → Passed 1 w v
    → suc (min f (sent_count v.unack v.max)) ≡ k
rest_count f k w v hk hu hm out r =
    let same : sent_count v.unack v.max ≡ sent_count (incr w.unack) w.max =
      ap₂ sent_count r.unack_at r.keeps.same_max in
    let next : sent_count w.unack w.max ≡ suc (sent_count v.unack v.max) =
      sent_suc w.unack w.max hu hm out ∙ ap suc (sym same) in
    sym (hk ∙ ap (min (suc f)) next ∙ min-suc f (sent_count v.unack v.max))

ack_loop-Passed :
    (f : ℕ) (a : Seq) (w : SendWindow) (k : ℕ)
    → k ≡ min f (sent_count w.unack w.max)
    → diff a w.unack ≡ f
    → f < 32768
    → a < 65536
    → w.unack < 65536
    → w.max < 65536
    → 0 < w.win
    → w.win < 32768
    → 0 < length w.entries
    → Passed k w (ack_loop f a w).0
unfolding ack_loop
ack_loop-Passed zero a w k hk e hf ha hu hm h0 hn hl =
    subst (λ (t : ℕ). Passed t w w) (omega (arith, hk)) (Passed-none w w hu refl)
ack_loop-Passed (suc f) a w k hk e hf ha hu hm h0 hn hl =
    let near : lt w.unack a ≡ true = ahead w.unack a hu ha f e hf in
    elim (Bool-cases (le w.unack w.max)) [
      | inr past ↦
          let none_out : k ≡ 0 = hk ∙ rw past (omega arith) in
          rw (near, past, ack_loop)
            (subst (λ (t : ℕ). Passed t w w) (sym none_out) (Passed-none w w hu refl))
      | inl out ↦
          let r = round-Passed w hu h0 hn hl in
          let v = (ack_round w).0 in
          let m = min f (sent_count v.unack v.max) in
          let count : suc m ≡ k = rest_count f k w v hk hu hm out r in
          let rest =
            ack_loop-Passed f a v m refl (omega (arith, r.unack_at)) (omega arith) ha
              (omega (arith, r.unack_at)) (omega (arith, r.keeps.same_max))
              (omega (arith, r.keeps.same_win)) (omega (arith, r.keeps.same_win))
              (omega (arith, r.keeps.same_size)) in
          rw (near, out, ack_loop)
            (subst (λ (t : ℕ). Passed t w (ack_loop f a v).0) count
              (Passed-trans m w v (ack_loop f a v).0 hu r rest))
    ]

gt_short : (a u : ℕ) → gt a u ≡ true → diff a u < 32768
unfolding gt
gt_short a u h = ground arith

close_per :
    (k : ℕ) (w v : SendWindow) (c : Bool)
    → Passed k w v
    → Passed k w (if c then record v { per_end = v.unack } else v)
close_per k w v true p = record {
  unack_at = p.unack_at;
  keeps = record {
    same_max = p.keeps.same_max;
    same_win = p.keeps.same_win;
    same_size = p.keeps.same_size;
    still_free = p.keeps.still_free;
  };
  free = p.free;
}
close_per k w v false p = p

-- An ACK of a number past `unack` moves the window on by as many numbers as it covers, but never past
-- the numbers that were sent, whatever it claims, and lets go of the packet of each number that the
-- window passes. The window is not empty and smaller than half the range, and has places.
pub ack_up_to-Passed :
    (a : Seq) (w : SendWindow)
    → gt a w.unack ≡ true
    → a < 65536
    → w.unack < 65536
    → w.max < 65536
    → 0 < w.win
    → w.win < 32768
    → 0 < length w.entries
    → Passed (min (diff a w.unack) (sent_count w.unack w.max)) w (ack_up_to a w).0
unfolding ack_up_to
ack_up_to-Passed a w g ha hu hm h0 hn hl =
    let f = diff a w.unack in
    let v = (ack_loop f a w).0 in
    rw (g, ack_up_to)
      (close_per (min f (sent_count w.unack w.max)) w v (gt v.unack v.per_end) (
        ack_loop-Passed f a w (min f (sent_count w.unack w.max)) refl refl (gt_short a w.unack g) ha
          hu hm h0 hn hl))
